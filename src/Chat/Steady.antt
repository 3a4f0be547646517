-- ===== src/Chat/Steady.antt =====
-- The methods of a chat stream that find no tool leave its tool calls as foreseen
-- (internal/server/chat.go).
use codex_sub_proxy.Prelude.{
  ℕ, ◌-◌, ◌≡◌, refl, List, [], Bool, true, false, ltb, leb, ◌||◌, not, length, none, some, Result,
  ok, err, arith, if◌then◌else◌,
}
use codex_sub_proxy.Prelude.Bytes.{Bytes, is_blank, same}
use codex_sub_proxy.Quota.Types.{Db, Error}
use codex_sub_proxy.Lease.{Lease, reconcile_lease}
use codex_sub_proxy.Chat.Types.{
  ChatError, Response, invalid_tool_name, arguments_duplicated, arguments_too_large,
  invalid_arguments,
}
use codex_sub_proxy.Chat.Stream.{
  Delta, tool_head, tool_arguments, Chunk, Tool, Stream, M, ◌>>=◌, ◌>>◌, done, fail_when, lift,
  set_at, change_tool, with_tool, mark_emitted, mark_metadata, mark_final, append_arguments,
  addition, unsent, write_chunk, write_tool_argument_suffix, write_tool_metadata,
  add_tool_arguments,
}
use codex_sub_proxy.Chat.Output.{
  Formats, ToolCall, max_chat_arguments_bytes, valid_identifier, valid_chat_json,
  quota_usage_from_codex,
}
use codex_sub_proxy.Chat.Event.{or_abort, or_note, settle, settled}
use codex_sub_proxy.Chat.Sent.{
  Ensures, then_Ensures, if_Ensures, fail_when-Ensures, guard_Ensures, lift_Ensures,
  with_tool-Ensures,
}
use codex_sub_proxy.Chat.Streamed.{write_chunk-Ensures}
use codex_sub_proxy.Chat.Kept.{aborting-Ensures, noting-Ensures}
use codex_sub_proxy.Chat.Heads.{delta_head, Foreseen}
use codex_sub_proxy.Chat.Announcing.{change-Foreseen, frame-Foreseen, chunk-Foreseen, head-Foreseen}

module _ (calls : List ToolCall) where
  -- A method that leaves the tool calls as foreseen.
  abbrev pub Steady : {A : Type 0} → M A → Type 0
  Steady m = (s : Stream) → Foreseen calls s → Ensures (λ _. Foreseen calls) (m s)

  pub then_Steady :
      {A B : Type 0} (m : M A) (k : A → M B)
      → Steady m
      → ((a : A) → Steady (k a))
      → Steady (m >>= k)
  then_Steady m k first next s h =
      then_Ensures (λ _. Foreseen calls) (λ _. Foreseen calls) (m s) k (first s h) next

  pub abort_Steady : {A : Type 0} (m : M A) → Steady m → Steady (or_abort m)
  abort_Steady m keeps s h = aborting-Ensures (λ _. Foreseen calls) (m s) (keeps s h)

  pub note_Steady : {A : Type 0} (m : M A) → Steady m → Steady (or_note m)
  note_Steady m keeps s h = noting-Ensures (λ _. Foreseen calls) (m s) (keeps s h)

  pub lift-Steady : {A : Type 0} (r : Result ChatError A) → Steady (lift r)
  lift-Steady r s h = lift_Ensures (λ _. Foreseen calls) r s (λ _ _. h)

  pub fail_when-Steady : (b : Bool) (e : ChatError) → Steady (fail_when b e)
  fail_when-Steady b e s h = fail_when-Ensures (λ _. Foreseen calls) b e s (λ _. h)

  if_Steady :
      {A : Type 0} (b : Bool) (m k : M A) → Steady m → Steady k → Steady (if b then m else k)
  if_Steady b m k yes_case no_case s h =
      if_Ensures (λ _. Foreseen calls) b m k s (λ _. yes_case s h) (λ _. no_case s h)

  done-Steady : Steady done
  done-Steady s h = h

  settled-Steady : (r : Result Error (Unit {0}) × Lease × Db) → Steady (settled r)
  settled-Steady (ok u, l, db) s h =
      frame-Foreseen calls s (record s { lease = some l; db = db }) refl refl refl h
  settled-Steady (err e, l, db) s h = tt

  pub settle-Steady : (response : Response) (now : ℕ) → Steady (settle response now)
  unfolding settle
  settle-Steady response now s h =
      elim s.lease
        as (λ o.
          Ensures (λ _. Foreseen calls)
            (elim o as (λ _. Result ChatError (Unit {0}) × Stream) [
              | none ↦ (ok tt, s)
              | some l ↦
                  settled (reconcile_lease l (quota_usage_from_codex response.usage) now s.db) s
            ])) [
              | none ↦ h
              | some l ↦
                  settled-Steady
                    (reconcile_lease l (quota_usage_from_codex response.usage) now s.db) s h
            ]

  module _ (f : Formats) (accepts : List Chunk → Chunk → Bool) where
    pub chunk_Steady :
        (d : Delta) → ((i : ℕ) → delta_head i d ≡ []) → Steady (write_chunk f accepts d)
    chunk_Steady d headless s h =
        write_chunk-Ensures accepts f [] (Foreseen calls) d s (chunk-Foreseen calls d s headless h)

    suffix-Steady : (i : ℕ) → Steady (write_tool_argument_suffix f accepts i)
    unfolding write_tool_argument_suffix
    suffix-Steady i s h =
        with_tool-Ensures (λ _. Foreseen calls) i
          (λ t.
            if leb (length t.arguments) t.emitted_bytes
            then done
            else (change_tool i mark_emitted
                >> write_chunk f accepts (tool_arguments i (unsent t))))
          s
          (λ t _.
            if_Ensures (λ _. Foreseen calls) (leb (length t.arguments) t.emitted_bytes) done
              (change_tool i mark_emitted >> write_chunk f accepts (tool_arguments i (unsent t))) s
              (λ _. h)
              (λ _.
                chunk_Steady (tool_arguments i (unsent t)) (λ j. refl)
                  (record s { tools = set_at i mark_emitted s.tools })
                  (change-Foreseen calls i mark_emitted s (λ u. (refl, refl)) (λ u. refl) h)))

    abbrev announce : ℕ → Tool → M (Unit {0})
    announce i t =
        change_tool i mark_metadata
        >> (write_chunk f accepts (tool_head i t.id t.name)
            >> write_tool_argument_suffix f accepts i)

    pub metadata-Steady : (i : ℕ) → Steady (write_tool_metadata f accepts i)
    unfolding write_tool_metadata
    metadata-Steady i s h =
        with_tool-Ensures (λ _. Foreseen calls) i
          (λ t.
            if t.metadata_sent || is_blank t.id || is_blank t.name
            then done
            else (fail_when (not (valid_identifier t.name 64)) invalid_tool_name >> announce i t))
          s
          (λ t found.
            if_Ensures (λ _. Foreseen calls) (t.metadata_sent || is_blank t.id || is_blank t.name)
              done (fail_when (not (valid_identifier t.name 64)) invalid_tool_name >> announce i t)
              s (λ _. h)
              (λ open_yet.
                guard_Ensures (λ _. Foreseen calls) (not (valid_identifier t.name 64))
                  invalid_tool_name (announce i t) s
                  (λ _.
                    then_Ensures (λ _. Foreseen calls) (λ _. Foreseen calls)
                      (write_chunk f accepts (tool_head i t.id t.name)
                        (record s { tools = set_at i mark_metadata s.tools }))
                      (λ _. write_tool_argument_suffix f accepts i)
                      (write_chunk-Ensures accepts f [] (Foreseen calls) (tool_head i t.id t.name)
                        (record s { tools = set_at i mark_metadata s.tools })
                        (head-Foreseen calls i t s found (ground (arith, open_yet)) h))
                      (λ _. suffix-Steady i))))

    abbrev too_large : Bytes → Tool → Bool
    too_large fragment t =
        ltb max_chat_arguments_bytes (length fragment)
        || ltb (max_chat_arguments_bytes - length fragment) (length t.arguments)

    abbrev end : ℕ → Bool → M (Unit {0})
    end i final =
        if not final
        then done
        else (change_tool i mark_final
            >> with_tool i λ u. fail_when (not (valid_chat_json f u.arguments)) invalid_arguments)

    abbrev more_of : ℕ → Bool → Tool → Bytes → M (Unit {0})
    more_of i final t more =
        change_tool i (append_arguments more)
        >> ((if t.metadata_sent then write_tool_argument_suffix f accepts i else done)
            >> end i final)

    abbrev grow : ℕ → Bytes → Bool → Tool → M (Unit {0})
    grow i fragment final t = lift (addition t.arguments fragment final) >>= more_of i final t

    abbrev adding : ℕ → Bytes → Bool → Tool → M (Unit {0})
    adding i fragment final t =
        fail_when (too_large fragment t) arguments_too_large >> grow i fragment final t

    ending-Steady : (i : ℕ) (final : Bool) → Steady (end i final)
    ending-Steady i false s h = h
    ending-Steady i true s h =
        let s' : Stream = record s { tools = set_at i mark_final s.tools } in
        with_tool-Ensures (λ _. Foreseen calls) i
          (λ u. fail_when (not (valid_chat_json f u.arguments)) invalid_arguments) s'
          (λ u _.
            fail_when-Steady (not (valid_chat_json f u.arguments)) invalid_arguments s'
              (change-Foreseen calls i mark_final s (λ v. (refl, refl)) (λ v. refl) h))

    pub add-Steady :
        (i : ℕ) (fragment : Bytes) (final : Bool)
        → Steady (add_tool_arguments f accepts i fragment final)
    unfolding add_tool_arguments
    add-Steady i fragment final s h =
        with_tool-Ensures (λ _. Foreseen calls) i
          (λ t.
            if t.final
            then fail_when (not (is_blank fragment || same t.arguments fragment))
                arguments_duplicated
            else adding i fragment final t)
          s
          (λ t _.
            if_Steady t.final
              (fail_when (not (is_blank fragment || same t.arguments fragment))
                arguments_duplicated)
              (adding i fragment final t)
              (fail_when-Steady (not (is_blank fragment || same t.arguments fragment))
                arguments_duplicated)
              (then_Steady (fail_when (too_large fragment t) arguments_too_large)
                (λ _. grow i fragment final t)
                (fail_when-Steady (too_large fragment t) arguments_too_large)
                (λ _.
                  then_Steady (lift (addition t.arguments fragment final)) (more_of i final t)
                    (lift-Steady (addition t.arguments fragment final))
                    (λ more r h'.
                      then_Steady
                        (if t.metadata_sent then write_tool_argument_suffix f accepts i else done)
                        (λ _. end i final)
                        (if_Steady t.metadata_sent (write_tool_argument_suffix f accepts i) done
                          (suffix-Steady i) done-Steady)
                        (λ _. ending-Steady i final)
                        (record r { tools = set_at i (append_arguments more) r.tools })
                        (change-Foreseen calls i (append_arguments more) r (λ u. (refl, refl))
                          (λ u. refl) h'))))
              s h)
