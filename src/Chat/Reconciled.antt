-- ===== src/Chat/Reconciled.antt =====
-- Finding a tool, reconciling with a text or a whole response and finishing keep the invariant of a
-- chat stream, with the text that they name (internal/server/chat.go).
use codex_sub_proxy.Prelude.{
  ℕ, zero, suc, ◌≡◌, refl, sym, ap, ◌∙◌, subst, List, [], ◌∷◌, ◌++◌, Bool, true, ltb, ◌||◌, not,
  length, drop, some, arith, if◌then◌else◌, Bool-cases, inl, inr,
}
use codex_sub_proxy.Prelude.Bytes.{Bytes, is_blank, has_prefix, prefix_split}
use codex_sub_proxy.Chat.Types.{incomplete_tool}
use codex_sub_proxy.Chat.Stream.{
  Chunk, Stream, ◌>>◌, fail_when, with_tool, add_alias, rename, identify, tool, output_tool,
  write_text, write_tool_metadata, add_tool_arguments, reconcile_text, reconcile_tools,
  finish_tools, is_complete,
}
use codex_sub_proxy.Chat.Output.{Formats, ToolCall, max_chat_string_bytes}
use codex_sub_proxy.Chat.Sent.{Ensures, then_Ensures, fail_when-Ensures, with_tool-Ensures}
use codex_sub_proxy.Chat.Streamed.{due, Streamed, frame, write_text-Streamed}
use codex_sub_proxy.Chat.Tools.{Mild, change-Streamed, new_tool-Streamed}
use codex_sub_proxy.Chat.Finding.{either, Findable, tool-Ensures, output_tool-Ensures}
use codex_sub_proxy.Chat.Methods.{write_tool_metadata-Streamed}
use codex_sub_proxy.Chat.Arguments.{add_tool_arguments-Streamed}

pub rename-Mild : (name : Bytes) → Mild (rename name)
rename-Mild name t =
    either (λ u. (due (some u) ≡ due (some t)) × (u.emitted_bytes ≡ t.emitted_bytes))
      (is_blank name) t (record t { name = name }) (refl, refl) (refl, refl)

identify-Mild : (call_id item_id : Bytes) → Mild (identify call_id item_id)
identify-Mild call_id item_id t =
    either (λ u. (due (some u) ≡ due (some t)) × (u.emitted_bytes ≡ t.emitted_bytes))
      (is_blank t.id) (record t { id = if is_blank call_id then item_id else call_id }) t
      (refl, refl) (refl, refl)

both_Mild : (name call_id item_id : Bytes) → Mild (λ t. identify call_id item_id (rename name t))
both_Mild name call_id item_id t =
    let (a, b) = identify-Mild call_id item_id (rename name t) in
    let (c, d) = rename-Mild name t in (a ∙ c, b ∙ d)

module _ (x : Bytes) where
  add_alias-Streamed :
      (id : Bytes) (i : ℕ) (s : Stream) → Streamed x s → Streamed x (add_alias id i s)
  add_alias-Streamed id i s h = elim (Bool-cases (is_blank id)) [
    | inl blank ↦ rw blank h
    | inr named ↦ rw named (frame x s (record s { aliases = (id, i) ∷ s.aliases }) refl refl refl h)
  ]

  Streamed-Findable : Findable (Streamed x)
  Streamed-Findable = record {
    aliased = add_alias-Streamed;
    renamed = λ i name s. change-Streamed x i (rename name) s (rename-Mild name);
    identified = λ i name call_id item_id s.
        change-Streamed x i (λ t. identify call_id item_id (rename name t)) s
          (both_Mild name call_id item_id);
    added = new_tool-Streamed x;
  }

  -- `tool` and outputTool keep the invariant.
  pub tool-Streamed :
      (item_id call_id name : Bytes) (s : Stream)
      → Streamed x s
      → Ensures (λ _. Streamed x) (tool item_id call_id name s)
  tool-Streamed = tool-Ensures (Streamed x) Streamed-Findable

  output_tool-Streamed :
      (id name : Bytes) (s : Stream)
      → Streamed x s
      → Ensures (λ _. Streamed x) (output_tool id name s)
  output_tool-Streamed = output_tool-Ensures (Streamed x) Streamed-Findable

module _ (accepts : List Chunk → Chunk → Bool) (f : Formats) (x : Bytes) where
  -- reconcileText brings the text to the one that it is given.
  pub reconcile_text-Streamed :
      (text : Bytes) (s : Stream)
      → Streamed x s
      → Ensures (λ _. Streamed text) (reconcile_text f accepts text s)
  unfolding reconcile_text
  reconcile_text-Streamed text s h =
      let bad = ltb max_chat_string_bytes (length text) || not (has_prefix text s.text) in
      elim (Bool-cases bad) [
        | inl refuses ↦ rw refuses tt
        | inr passes ↦ rw passes (
            subst
              (λ t. Ensures (λ _. Streamed t) (write_text f accepts (drop (length s.text) text) s))
              (ap (λ t. t ++ drop (length s.text) text) (sym h.text_is)
                ∙ prefix_split text s.text (ground (arith, passes)))
              (write_text-Streamed accepts f x (drop (length s.text) text) s h))
      ]

  pub reconcile_tools-Streamed :
      (calls : List ToolCall) (s : Stream)
      → Streamed x s
      → Ensures (λ _. Streamed x) (reconcile_tools f accepts calls s)
  unfolding reconcile_tools
  reconcile_tools-Streamed [] s h = h
  reconcile_tools-Streamed (call ∷ calls) s h =
      then_Ensures (λ _. Streamed x) (λ _. Streamed x) (output_tool call.id call.name s)
        (λ i.
          write_tool_metadata f accepts i
          >> (add_tool_arguments f accepts i call.arguments true
              >> reconcile_tools f accepts calls))
        (output_tool-Streamed x call.id call.name s h)
        (λ i r h1.
          then_Ensures (λ _. Streamed x) (λ _. Streamed x) (write_tool_metadata f accepts i r)
            (λ _.
              add_tool_arguments f accepts i call.arguments true >> reconcile_tools f accepts calls)
            (write_tool_metadata-Streamed accepts f x i r h1)
            (λ _ r' h2.
              then_Ensures (λ _. Streamed x) (λ _. Streamed x)
                (add_tool_arguments f accepts i call.arguments true r')
                (λ _. reconcile_tools f accepts calls)
                (add_tool_arguments-Streamed accepts f x i call.arguments true r' h2)
                (λ _ r'' h3. reconcile_tools-Streamed calls r'' h3)))

  pub finish_tools-Streamed :
      (left i : ℕ) (s : Stream)
      → Streamed x s
      → Ensures (λ _. Streamed x) (finish_tools f accepts left i s)
  unfolding finish_tools
  finish_tools-Streamed zero i s h = h
  finish_tools-Streamed (suc left) i s h =
      then_Ensures (λ _. Streamed x) (λ _. Streamed x)
        (with_tool i (λ t. fail_when (not (is_complete f accepts t)) incomplete_tool) s)
        (λ _. write_tool_metadata f accepts i >> finish_tools f accepts left (suc i))
        (with_tool-Ensures (λ _. Streamed x) i
          (λ t. fail_when (not (is_complete f accepts t)) incomplete_tool) s
          (λ t _.
            fail_when-Ensures (λ _. Streamed x) (not (is_complete f accepts t)) incomplete_tool s
              (λ _. h)))
        (λ _ r h1.
          then_Ensures (λ _. Streamed x) (λ _. Streamed x) (write_tool_metadata f accepts i r)
            (λ _. finish_tools f accepts left (suc i))
            (write_tool_metadata-Streamed accepts f x i r h1)
            (λ _ r' h2. finish_tools-Streamed left (suc i) r' h2))
