-- ===== src/Chat/Reconciling.antt =====
-- The loop of reconcileResponse matches every call of a response with the tool of its index
-- (internal/server/chat.go).
use codex_sub_proxy.Prelude.{
  ℕ, suc, ◌+◌, ◌-◌, ◌≡◌, sym, ap, ◌∙◌, subst, List, [], ◌∷◌, Bool, true, ◌==◌, ltb, get_elem?, none,
  some, arith, Bool-cases, inl, inr,
}
use codex_sub_proxy.Chat.Stream.{
  Chunk, Tool, Stream, output_tool, write_tool_metadata, add_tool_arguments, reconcile_tools,
}
use codex_sub_proxy.Chat.Output.{Formats, ToolCall}
use codex_sub_proxy.Chat.Sent.{Ensures}
use codex_sub_proxy.Chat.Tools.{at_index}
use codex_sub_proxy.Chat.Kept.{weaken_Ensures, both_Ensures}
use codex_sub_proxy.Chat.Frozen.{Frozen, output_tool-Frozen, metadata-Frozen}
use codex_sub_proxy.Chat.Called.{add-Frozen, add-freezes}
use codex_sub_proxy.Chat.Complete.{call-Ensures}
use codex_sub_proxy.Chat.Valid.{NoneBlank}
use codex_sub_proxy.Chat.Heads.{DistinctIds, Foreseen}
use codex_sub_proxy.Chat.Steady.{metadata-Steady, add-Steady}
use codex_sub_proxy.Chat.Matched.{Settled, Settled-through, same_call, Found, output_tool-Found}

-- Every call has the tool of its index, with its arguments.
abbrev pub AllSettled : List ToolCall → List Tool → Type 0
AllSettled calls ts =
    (j : ℕ) (call : ToolCall) → get_elem? calls j ≡ some call → Frozen j call.arguments ts

abbrev pub Matched : List ToolCall → Stream → Type 0
Matched calls s = Foreseen calls s × AllSettled calls s.tools

module _ (calls : List ToolCall) (distinct : DistinctIds calls) (whole : NoneBlank calls)
    (f : Formats) (accepts : List Chunk → Chunk → Bool) where
  abbrev UpTo : ℕ → Stream → Type 0
  UpTo k s = Foreseen calls s × Settled calls distinct whole k s.tools

  abbrev At : ℕ → ℕ → Stream → Type 0
  At k i s = (i ≡ k) × UpTo k s

  one_more :
      (k : ℕ) (call : ToolCall) (ts : List Tool)
      → get_elem? calls k ≡ some call
      → Settled calls distinct whole k ts
      → Frozen k call.arguments ts
      → Settled calls distinct whole (suc k) ts
  one_more k call ts at before this j c at_j below = elim (Bool-cases (j == k)) [
    | inl here ↦
        let now = at_index j k here in
        subst (λ i. Frozen i c.arguments ts) (sym now)
          (subst (λ (d : ToolCall). Frozen k d.arguments ts)
            (same_call calls distinct whole k call c at (ap (get_elem? calls) (sym now) ∙ at_j))
            this)
    | inr other ↦ before j c at_j (ground (arith, below, other))
  ]

  found_At :
      (k : ℕ) (call : ToolCall) (s : Stream)
      → UpTo k s
      → get_elem? calls k ≡ some call
      → Ensures (At k) (output_tool call.id call.name s)
  unfolding Found
  found_At k call s (h, settled) at =
      weaken_Ensures
        (λ i r. Found calls distinct whole k i r × Settled calls distinct whole k r.tools) (At k)
        (output_tool call.id call.name s) (λ i r (found, settled'). (found.0, (found.1, settled')))
        (both_Ensures (Found calls distinct whole k) (λ _ r. Settled calls distinct whole k r.tools)
          (output_tool call.id call.name s)
          (output_tool-Found calls distinct whole k call s h settled at)
          (Settled-through calls distinct whole k s (output_tool call.id call.name s)
            (λ j a. output_tool-Frozen j a call.id call.name s) settled))

  announced_At :
      (k i : ℕ) (s : Stream) → At k i s → Ensures (λ _. At k i) (write_tool_metadata f accepts i s)
  announced_At k i s (is, (h, settled)) =
      weaken_Ensures (λ _. UpTo k) (λ _. At k i) (write_tool_metadata f accepts i s)
        (λ _ r both. (is, both))
        (both_Ensures (λ _. Foreseen calls) (λ _ r. Settled calls distinct whole k r.tools)
          (write_tool_metadata f accepts i s) (metadata-Steady calls f accepts i s h)
          (Settled-through calls distinct whole k s (write_tool_metadata f accepts i s)
            (λ j a. metadata-Frozen j a f accepts i s) settled))

  added_UpTo :
      (k : ℕ) (call : ToolCall)
      → get_elem? calls k ≡ some call
      → (i : ℕ) (s : Stream) → At k i s
      → Ensures (λ _. UpTo (suc k)) (add_tool_arguments f accepts i call.arguments true s)
  added_UpTo k call at i s (is, (h, settled)) =
      let m = add_tool_arguments f accepts i call.arguments true s in
      weaken_Ensures (λ _ r. UpTo k r × Frozen i call.arguments r.tools) (λ _. UpTo (suc k)) m
        (λ _ r ((h', settled'), this). (
          h',
          one_more k call r.tools at settled'
              (subst (λ j. Frozen j call.arguments r.tools) is this),
        ))
        (both_Ensures (λ _. UpTo k) (λ _ r. Frozen i call.arguments r.tools) m
          (both_Ensures (λ _. Foreseen calls) (λ _ r. Settled calls distinct whole k r.tools) m
            (add-Steady calls f accepts i call.arguments true s h)
            (Settled-through calls distinct whole k s m
              (λ j a. add-Frozen f accepts j a i call.arguments true s) settled))
          (add-freezes f accepts i call.arguments s ((whole k call at).0)))

  after_all :
      (k : ℕ) (ts : List Tool)
      → ((j : ℕ) → get_elem? calls (j + k) ≡ none)
      → Settled calls distinct whole k ts
      → AllSettled calls ts
  after_all k ts over settled j call at = elim (Bool-cases (ltb j k)) [
    | inl below ↦ settled j call at below
    | inr beyond ↦ cc (sym at ∙ ap (get_elem? calls) (ground (arith, beyond)) ∙ over (j - k))
  ]

  rest_Matched :
      (k : ℕ) (todo : List ToolCall) (s : Stream)
      → ((j : ℕ) → get_elem? calls (j + k) ≡ get_elem? todo j)
      → UpTo k s
      → Ensures (λ _. Matched calls) (reconcile_tools f accepts todo s)
  unfolding reconcile_tools
  rest_Matched k [] s rest (h, settled) = (h, after_all k s.tools rest settled)
  rest_Matched k (call ∷ todo) s rest h =
      let at : get_elem? calls k ≡ some call = ap (get_elem? calls) (omega arith) ∙ rest 0 in
      call-Ensures f accepts (At k) (UpTo (suc k)) call todo s (found_At k call s h at)
        (announced_At k) (added_UpTo k call at) (Matched calls)
        (λ r. rest_Matched (suc k) todo r (λ j. ap (get_elem? calls) (omega arith) ∙ rest (suc j)))

  -- The loop of reconcileResponse.
  pub reconcile_tools-Matched :
      (s : Stream)
      → Foreseen calls s
      → Ensures (λ _. Matched calls) (reconcile_tools f accepts calls s)
  reconcile_tools-Matched s h =
      rest_Matched 0 calls s (λ j. ap (get_elem? calls) (omega arith))
        (h, λ j call at none_yet. ground (arith, none_yet))
