-- ===== src/Chat/Announced.antt =====
-- `finish` of a chat stream announces every tool call, and lets none pass that is incomplete
-- (internal/server/chat.go).

use codex_sub_proxy.Prelude.{
  ℕ, zero, suc, ◌+◌, ◌≡◌, refl, sym, ap, ◌∙◌, subst, List, [], ◌∷◌, Bool, true, false, ◌==◌, ltb,
  leb, ◌||◌, not, length, get_elem?, some, arith, if◌then◌else◌, Bool-cases, inl, inr,
}
use codex_sub_proxy.Prelude.Bytes.{is_blank}
use codex_sub_proxy.Chat.Types.{invalid_tool_name, incomplete_tool}
use codex_sub_proxy.Chat.Stream.{
  tool_head, tool_arguments, Chunk, Tool, Stream, ◌>>◌, done, fail_when, set_at, change_tool,
  with_tool, mark_emitted, mark_metadata, unsent, write_chunk, write_tool_metadata,
  write_tool_argument_suffix, finish_tools, is_complete,
}
use codex_sub_proxy.Chat.Output.{Formats, valid_identifier}
use codex_sub_proxy.Chat.Sent.{
  Ensures, then_Ensures, if_Ensures, fail_when-Ensures, with_tool-Ensures,
}
use codex_sub_proxy.Chat.Streamed.{append_chunk, write_chunk-Ensures}
use codex_sub_proxy.Chat.Tools.{set_here, set_there, at_index, some_is, map_inv}

-- What holds of each tool, by its index.
abbrev pub Each : (ℕ → Tool → Type 0) → List Tool → Type 0
Each R ts = (j : ℕ) (t : Tool) → get_elem? ts j ≡ some t → R j t

-- A change of the tool of an index, where the others are as they should be.
change-Each :
    (R : ℕ → Tool → Type 0) (i : ℕ) (g : Tool → Tool) (ts : List Tool)
    → ((t : Tool) → get_elem? ts i ≡ some t → R i (g t))
    → ((j : ℕ) (t : Tool) → (j == i) ≡ false → get_elem? ts j ≡ some t → R j t)
    → Each R (set_at i g ts)
change-Each R i g ts this others j t found = elim (Bool-cases (j == i)) [
  | inl here ↦
      let (u, old, new) = map_inv g (get_elem? ts j) t (sym (set_here i j g ts here) ∙ found) in
      subst (λ k. R k t) (sym (at_index j i here))
        (subst (R i) new (this u (ap (get_elem? ts) (sym (at_index j i here)) ∙ old)))
  | inr there ↦ others j t there (sym (set_there i j g ts there) ∙ found)
]

pub in_range :
    (ts : List Tool) (j : ℕ) (t : Tool) → get_elem? ts j ≡ some t → ltb j (length ts) ≡ true
in_range [] j t found = cc
in_range (u ∷ ts) zero t found = ground arith
in_range (u ∷ ts) (suc j) t found = ground (arith, in_range ts j t found)

module _ (f : Formats) (accepts : List Chunk → Chunk → Bool) where
  -- writeToolArgumentSuffix changes the tools at most by a mark.
  pub suffix-Ensures :
      (P : List Tool → Type 0) (i : ℕ) (s : Stream)
      → (P s.tools → P (set_at i mark_emitted s.tools))
      → P s.tools
      → Ensures (λ _ r. P r.tools) (write_tool_argument_suffix f accepts i s)
  unfolding write_tool_argument_suffix append_chunk
  suffix-Ensures P i s keeps h =
      with_tool-Ensures (λ _ r. P r.tools) i
        (λ t.
          if leb (length t.arguments) t.emitted_bytes
          then done
          else (change_tool i mark_emitted >> write_chunk f accepts (tool_arguments i (unsent t))))
        s
        (λ t found.
          if_Ensures (λ _ r. P r.tools) (leb (length t.arguments) t.emitted_bytes) done
            (change_tool i mark_emitted >> write_chunk f accepts (tool_arguments i (unsent t))) s
            (λ _. h)
            (λ _.
              write_chunk-Ensures accepts f [] (λ r. P r.tools) (tool_arguments i (unsent t))
                (record s { tools = set_at i mark_emitted s.tools }) (keeps h)))

  -- writeToolMetadata leaves the tools with R if its tool has it already or gets it with the head.
  metadata-Each :
      (R : ℕ → Tool → Type 0) (i : ℕ) (t : Tool) (s : Stream)
      → get_elem? s.tools i ≡ some t
      → ((u : Tool) → R i u → R i (mark_emitted u))
      → ((t.metadata_sent || is_blank t.id || is_blank t.name) ≡ true → R i t)
      → R i (mark_metadata t)
      → ((j : ℕ) (u : Tool) → (j == i) ≡ false → get_elem? s.tools j ≡ some u → R j u)
      → Ensures (λ _ r. Each R r.tools) (write_tool_metadata f accepts i s)
  unfolding write_tool_metadata append_chunk
  metadata-Each R i t s found keeps already marked others = rw found (
      if_Ensures (λ _ r. Each R r.tools) (t.metadata_sent || is_blank t.id || is_blank t.name) done
        (fail_when (not (valid_identifier t.name 64)) invalid_tool_name
          >> (change_tool i mark_metadata
              >> (write_chunk f accepts (tool_head i t.id t.name)
                  >> write_tool_argument_suffix f accepts i)))
        s
        (λ quiet j u at. elim (Bool-cases (j == i)) [
          | inl here ↦
              subst (λ k. R k u) (sym (at_index j i here))
                (subst (R i)
                  (some_is t u (sym found ∙ ap (get_elem? s.tools) (sym (at_index j i here)) ∙ at))
                  (already quiet))
          | inr there ↦ others j u there at
        ])
        (λ _.
          then_Ensures (λ _ r. r ≡ s) (λ _ r. Each R r.tools)
            (fail_when (not (valid_identifier t.name 64)) invalid_tool_name s)
            (λ _.
              change_tool i mark_metadata
              >> (write_chunk f accepts (tool_head i t.id t.name)
                  >> write_tool_argument_suffix f accepts i))
            (fail_when-Ensures (λ _ r. r ≡ s) (not (valid_identifier t.name 64)) invalid_tool_name s
              (λ _. refl))
            (λ _ r at_s. rw at_s (
              then_Ensures (λ _ r'. Each R r'.tools) (λ _ r'. Each R r'.tools)
                (write_chunk f accepts (tool_head i t.id t.name)
                  (record s { tools = set_at i mark_metadata s.tools }))
                (λ _. write_tool_argument_suffix f accepts i)
                (write_chunk-Ensures accepts f [] (λ r'. Each R r'.tools) (tool_head i t.id t.name)
                  (record s { tools = set_at i mark_metadata s.tools })
                  (change-Each R i mark_metadata s.tools
                    (λ u at.
                      subst (λ v. R i (mark_metadata v)) (some_is t u (sym found ∙ at)) marked)
                    others))
                (λ _ r' each.
                  suffix-Ensures (Each R) i r'
                    (λ e.
                      change-Each R i mark_emitted r'.tools (λ u at. keeps u (e i u at))
                        (λ k u _ at. e k u at))
                    each)))))

  -- A tool among `n`, announced and complete if its index is below `i`.
  abbrev pub Passed : ℕ → ℕ → ℕ → Tool → Type 0
  Passed n i j t =
      (ltb j n ≡ true)
      × (ltb j i ≡ true → (t.metadata_sent ≡ true) × (is_complete f accepts t ≡ true))

  Checked : ℕ → Stream → Stream → Type 0
  Checked i s r =
      (r ≡ s) × ((t : Tool) × (get_elem? s.tools i ≡ some t) × (is_complete f accepts t ≡ true))

  Checked-tool :
      (i : ℕ) (s : Stream)
      → Ensures
          (λ _. Checked i s)
          (with_tool i (λ t. fail_when (not (is_complete f accepts t)) incomplete_tool) s)
  unfolding Checked
  Checked-tool i s =
      with_tool-Ensures (λ _. Checked i s) i
        (λ t. fail_when (not (is_complete f accepts t)) incomplete_tool) s
        (λ t found.
          fail_when-Ensures (λ _. Checked i s) (not (is_complete f accepts t)) incomplete_tool s
            (λ complete. (refl, (t, found, ground (arith, complete)))))

  named :
      (t : Tool)
      → is_complete f accepts t ≡ true
      → (t.metadata_sent || is_blank t.id || is_blank t.name) ≡ true
      → t.metadata_sent ≡ true
  named t complete quiet = ground (arith, complete, quiet)

  announce :
      (n i : ℕ) (t : Tool) (s : Stream)
      → ltb i n ≡ true
      → get_elem? s.tools i ≡ some t
      → is_complete f accepts t ≡ true
      → Each (Passed n i) s.tools
      → Ensures (λ _ r. Each (Passed n (suc i)) r.tools) (write_tool_metadata f accepts i s)
  announce n i t s below found complete each =
      metadata-Each (Passed n (suc i)) i t s found (λ u h. h)
        (λ quiet. (below, λ _. (named t complete quiet, complete))) (below, λ _. (refl, complete))
        (λ j u there at.
          ((each j u at).0, λ earlier. (each j u at).1 (ground (arith, earlier, there))))

  -- The loop of finish.
  pub finish_tools-Each :
      (n left i : ℕ) (s : Stream)
      → left + i ≡ n
      → Each (Passed n i) s.tools
      → Ensures (λ _ r. Each (Passed n n) r.tools) (finish_tools f accepts left i s)
  unfolding finish_tools Checked
  finish_tools-Each n zero i s total each =
      subst (λ k. Each (Passed n k) s.tools) (ground (arith, total)) each
  finish_tools-Each n (suc left) i s total each =
      then_Ensures (λ _. Checked i s) (λ _ r. Each (Passed n n) r.tools)
        (with_tool i (λ t. fail_when (not (is_complete f accepts t)) incomplete_tool) s)
        (λ _. write_tool_metadata f accepts i >> finish_tools f accepts left (suc i))
        (Checked-tool i s)
        (λ _ r (at_s, (t, found, complete)).
          then_Ensures (λ _ r'. Each (Passed n (suc i)) r'.tools)
            (λ _ r'. Each (Passed n n) r'.tools) (write_tool_metadata f accepts i r)
            (λ _. finish_tools f accepts left (suc i))
            (subst
              (λ q.
                Ensures (λ _ r'. Each (Passed n (suc i)) r'.tools)
                  (write_tool_metadata f accepts i q))
              (sym at_s) (announce n i t s (ground (arith, total)) found complete each))
            (λ _ r' each'. finish_tools-Each n left (suc i) r' (ground (arith, total)) each'))

  absurd_index : {A : Type 0} (j : ℕ) → ltb j 0 ≡ true → A
  absurd_index j h = ground (arith, h)

  -- At the start of the loop.
  pub start-Each : (ts : List Tool) → Each (Passed (length ts) 0) ts
  start-Each ts j t found = (in_range ts j t found, λ none_yet. absurd_index j none_yet)
