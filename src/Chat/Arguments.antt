-- ===== src/Chat/Arguments.antt =====
-- Adding arguments to a tool call keeps the invariant of a chat stream (internal/server/chat.go,
-- addToolArguments).

use codex_sub_proxy.Prelude.{
  ℕ, zero, suc, ◌-◌, ◌≡◌, refl, sym, ap, ◌∙◌, subst, List, [], ◌∷◌, Bool, true, false, ltb, ◌||◌,
  not, length, get_elem?, some, if◌then◌else◌, Bool-cases, Option-cases, inl, inr,
}
use codex_sub_proxy.Prelude.Bytes.{Bytes, is_blank, same}
use codex_sub_proxy.Chat.Types.{arguments_duplicated, invalid_arguments}
use codex_sub_proxy.Chat.Stream.{
  Chunk, Tool, Stream, ◌>>◌, done, fail_when, lift, addition, set_at, change_tool, with_tool,
  write_tool_argument_suffix, add_tool_arguments, append_arguments, mark_final,
}
use codex_sub_proxy.Chat.Output.{Formats, valid_chat_json, max_chat_arguments_bytes}
use codex_sub_proxy.Chat.Sent.{
  Ensures, then_Ensures, fail_when-Ensures, lift_Ensures, with_tool-Ensures,
}
use codex_sub_proxy.Chat.Streamed.{due, Streamed}
use codex_sub_proxy.Chat.Tools.{Mild, some_is, change-Streamed}
use codex_sub_proxy.Chat.Methods.{Pending-change, suffix-Streamed}

set_at-same :
    (i : ℕ) (g h : Tool → Tool) (ts : List Tool) (t : Tool)
    → get_elem? ts i ≡ some t
    → g t ≡ h t
    → set_at i g ts ≡ set_at i h ts
unfolding set_at
set_at-same i g h [] t found e = refl
set_at-same zero g h (u ∷ ts) t found e =
    ap (λ v. v ∷ ts) (ap g (some_is u t found) ∙ e ∙ sym (ap h (some_is u t found)))
set_at-same (suc i) g h (u ∷ ts) t found e = ap (λ l. u ∷ l) (set_at-same i g h ts t found e)

module _ (accepts : List Chunk → Chunk → Bool) (f : Formats) (x : Bytes) where
  taken : (b : Bool) (t u : Tool) → b ≡ true → (if b then t else u) ≡ t
  taken true t u h = refl
  taken false t u h = cc

  passed : (b : Bool) (t u : Tool) → b ≡ false → (if b then t else u) ≡ u
  passed false t u h = refl
  passed true t u h = cc

  quietly : (more : Bytes) → Mild (λ u. if u.metadata_sent then u else append_arguments more u)
  quietly more u = elim (Bool-cases u.metadata_sent) [
    | inl sent ↦
        let e = taken u.metadata_sent u (append_arguments more u) sent in
        (ap (λ v. due (some v)) e, ap (λ v. v.emitted_bytes) e)
    | inr quiet ↦
        let e = passed u.metadata_sent u (append_arguments more u) quiet in
        (ap (λ v. due (some v)) e ∙ rw quiet refl, ap (λ v. v.emitted_bytes) e)
  ]

  -- Arguments of a tool that has not been announced.
  append_unsent :
      (i : ℕ) (more : Bytes) (t : Tool) (s : Stream)
      → Streamed x s
      → get_elem? s.tools i ≡ some t
      → t.metadata_sent ≡ false
      → Streamed x (record s { tools = set_at i (append_arguments more) s.tools })
  append_unsent i more t s h found unsent_yet =
      subst (λ l. Streamed x (record s { tools = l }))
        (sym (
          set_at-same i (append_arguments more)
            (λ u. if u.metadata_sent then u else append_arguments more u) s.tools t found
            (rw unsent_yet refl)))
        (change-Streamed x i (λ u. if u.metadata_sent then u else append_arguments more u) s
          (quietly more) h)

  -- The arguments grow, and what the client should have of them is sent.
  grow_arguments :
      (i : ℕ) (more : Bytes) (t : Tool) (s : Stream)
      → Streamed x s
      → get_elem? s.tools i ≡ some t
      → Ensures
          (λ _. Streamed x)
          ((change_tool i (append_arguments more)
              >> (if t.metadata_sent then write_tool_argument_suffix f accepts i else done))
            s)
  grow_arguments i more t s h found = elim (Bool-cases t.metadata_sent) [
    | inl sent ↦ rw sent (
        suffix-Streamed accepts f x {rest = more}
          (Pending-change t (append_arguments more) h found sent refl (rw sent refl)))
    | inr quiet ↦ rw quiet (append_unsent i more t s h found quiet)
  ]

  -- The end of addToolArguments.
  finalize :
      (i : ℕ) (final : Bool) (s : Stream)
      → Streamed x s
      → Ensures
          (λ _. Streamed x)
          ((if not final
              then done
              else (change_tool i mark_final
                  >> with_tool i
                      λ u. fail_when (not (valid_chat_json f u.arguments)) invalid_arguments))
            s)
  finalize i false s h = h
  finalize i true s h =
      let s' : Stream = record s { tools = set_at i mark_final s.tools } in
      with_tool-Ensures (λ _. Streamed x) i
        (λ u. fail_when (not (valid_chat_json f u.arguments)) invalid_arguments) s'
        (λ u _.
          fail_when-Ensures (λ _. Streamed x) (not (valid_chat_json f u.arguments))
            invalid_arguments s' (λ _. change-Streamed x i mark_final s (λ t. (refl, refl)) h))

  -- addToolArguments keeps the invariant.
  pub add_tool_arguments-Streamed :
      (i : ℕ) (fragment : Bytes) (final : Bool) (s : Stream)
      → Streamed x s
      → Ensures (λ _. Streamed x) (add_tool_arguments f accepts i fragment final s)
  unfolding add_tool_arguments
  add_tool_arguments-Streamed i fragment final s h = elim (Option-cases (get_elem? s.tools i)) [
    | inl none_there ↦ rw none_there tt
    | inr (t, found) ↦ rw found (elim (Bool-cases t.final) [
      | inl over ↦ rw over (
          fail_when-Ensures (λ _. Streamed x) (not (is_blank fragment || same t.arguments fragment))
            arguments_duplicated s (λ _. h))
      | inr open_yet ↦
          rw open_yet
            (elim (Bool-cases (
              ltb max_chat_arguments_bytes (length fragment)
              || ltb (max_chat_arguments_bytes - length fragment) (length t.arguments))) [
                | inl big ↦ rw big tt
                | inr fits ↦ rw fits (
                    then_Ensures (λ more r. r ≡ s) (λ _. Streamed x)
                      (lift (addition t.arguments fragment final) s)
                      (λ more.
                        change_tool i (append_arguments more)
                        >> ((if t.metadata_sent
                              then write_tool_argument_suffix f accepts i
                              else done)
                            >> (if not final
                                then done
                                else (change_tool i mark_final
                                    >> with_tool i λ u.
                                      fail_when (not (valid_chat_json f u.arguments))
                                        invalid_arguments))))
                      (lift_Ensures (λ more r. r ≡ s) (addition t.arguments fragment final) s
                        (λ _ _. refl))
                      (λ more r same_state. rw same_state (
                        then_Ensures (λ _. Streamed x) (λ _. Streamed x)
                          ((change_tool i (append_arguments more)
                              >> (if t.metadata_sent
                                  then write_tool_argument_suffix f accepts i
                                  else done))
                            s)
                          (λ _.
                            (if not final
                              then done
                              else (change_tool i mark_final
                                  >> with_tool i λ u.
                                    fail_when (not (valid_chat_json f u.arguments))
                                      invalid_arguments)))
                          (grow_arguments i more t s h found) (λ _ r' h'. finalize i final r' h'))))
              ])
    ])
  ]
