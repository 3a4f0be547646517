-- ===== src/Chat/Terminal.antt =====
-- What a terminal event of a chat stream ensures when it passes (internal/server/chat.go, event).
use codex_sub_proxy.Prelude.{
  ℕ, refl, List, Bool, ltb, ◌||◌, ◌&&◌, not, length, none, some, Result, ok, err,
}
use codex_sub_proxy.Prelude.Bytes.{has_prefix}
use codex_sub_proxy.Quota.Types.{Db, Error}
use codex_sub_proxy.Lease.{Lease, reconcile_lease}
use codex_sub_proxy.Chat.Types.{ChatError, Response, usage_missing, text_inconsistent}
use codex_sub_proxy.Chat.Stream.{
  Chunk, Stream, ◌>>=◌, ◌>>◌, done, fail_when, lift, update, is_some, write_role,
  reconcile_response, validate_response, finish,
}
use codex_sub_proxy.Chat.Output.{
  Formats, max_chat_string_bytes, chat_response_output, chat_response_usage, quota_usage_from_codex,
  validate_quota_usage_from_codex,
}
use codex_sub_proxy.Chat.Event.{or_abort, or_note, settle, settled, map_usage, terminal}
use codex_sub_proxy.Chat.Sent.{Ensures, then_Ensures, if_Ensures}
use codex_sub_proxy.Chat.Streamed.{frame}
use codex_sub_proxy.Chat.Kept.{
  weaken_Ensures, Good, Keeps, then_Keeps, abort_Keeps, lift-Keeps, fail_when-Keeps,
  aborting-Ensures,
}
use codex_sub_proxy.Chat.Handled.{role_Keeps}
use codex_sub_proxy.Chat.Delivered.{Delivered, Ended, Reconciled, reconcile-Ensures, finish-Ended}

settled-Keeps : (r : Result Error (Unit {0}) × Lease × Db) → Keeps (settled r)
settled-Keeps (ok u, l, db) s h =
    frame s.text s (record s { lease = some l; db = db }) refl refl refl h
settled-Keeps (err e, l, db) s h = tt

settle-Keeps : (response : Response) (now : ℕ) → Keeps (settle response now)
unfolding settle
settle-Keeps response now s h =
    elim s.lease
      as (λ o.
        Ensures (λ _. Good)
          (elim o as (λ _. Result ChatError (Unit {0}) × Stream) [
            | none ↦ (ok tt, s)
            | some l ↦
                settled (reconcile_lease l (quota_usage_from_codex response.usage) now s.db) s
          ])) [
            | none ↦ h
            | some l ↦
                settled-Keeps (reconcile_lease l (quota_usage_from_codex response.usage) now s.db) s
                  h
          ]

module _ (f : Formats) (accepts : List Chunk → Chunk → Bool) (now : ℕ) where
  validate_Keeps : (response : Response) → Keeps (validate_response f accepts response)
  unfolding validate_response
  validate_Keeps response s h =
      then_Keeps (lift (chat_response_output f response))
        (λ out.
          fail_when (ltb max_chat_string_bytes (length out.0) || not (has_prefix out.0 s.text))
            text_inconsistent)
        (lift-Keeps (chat_response_output f response))
        (λ out.
          fail_when-Keeps
            (ltb max_chat_string_bytes (length out.0) || not (has_prefix out.0 s.text))
            text_inconsistent)
        s h

  map_usage-Keeps : (response : Response) → Keeps (map_usage f accepts now response)
  unfolding map_usage
  map_usage-Keeps response s h =
      let missing = not (is_some s.lease) && not (is_some response.usage) in
      if_Ensures (λ _. Good) (not s.include_usage) done
        (fail_when missing usage_missing
          >> (lift (chat_response_usage response.usage) >>= λ usage.
              update (λ r. record r { mapped_usage = some usage })))
        s (λ _. h)
        (λ _.
          then_Keeps (fail_when missing usage_missing)
            (λ _. lift (chat_response_usage response.usage) >>= λ usage.
              update (λ r. record r { mapped_usage = some usage }))
            (fail_when-Keeps missing usage_missing)
            (λ _.
              then_Keeps (lift (chat_response_usage response.usage))
                (λ usage. update (λ r. record r { mapped_usage = some usage }))
                (lift-Keeps (chat_response_usage response.usage))
                (λ usage r h'.
                  frame r.text r (record r { mapped_usage = some usage }) refl refl refl h'))
            s h)

  -- The three last steps of a terminal event.
  deliver :
      (response : Response) (s : Stream)
      → Good s
      → Ensures
          (λ _. Delivered f accepts response)
          ((or_note (write_role f accepts)
              >> (or_abort (reconcile_response f accepts response)
                  >> or_abort (finish f accepts response)))
            s)
  unfolding Reconciled
  deliver response s h =
      then_Ensures (λ _. Good) (λ _. Delivered f accepts response)
        (or_note (write_role f accepts) s)
        (λ _.
          or_abort (reconcile_response f accepts response) >> or_abort (finish f accepts response))
        (role_Keeps f accepts now s h)
        (λ _ r h'.
          then_Ensures (λ _. Reconciled f accepts response) (λ _. Delivered f accepts response)
            (or_abort (reconcile_response f accepts response) r)
            (λ _. or_abort (finish f accepts response))
            (aborting-Ensures (λ _. Reconciled f accepts response)
              (reconcile_response f accepts response r) (reconcile-Ensures f accepts response r h'))
            (λ _ r' (x, (calls, (is, streamed))).
              aborting-Ensures (λ _. Delivered f accepts response) (finish f accepts response r')
                (weaken_Ensures (λ _. Ended f accepts x) (λ _. Delivered f accepts response)
                  (finish f accepts response r')
                  (λ _ r'' (final, (over, all)). record {
                    text = x;
                    calls = calls;
                    output_is = is;
                    streamed = final;
                    all_announced = all;
                    is_finished = over;
                  })
                  (finish-Ended f accepts x response r' streamed))))

  -- A terminal event.
  pub terminal-Delivered :
      (response : Response) (s : Stream)
      → Good s
      → Ensures (λ _. Delivered f accepts response) (terminal f accepts now response s)
  unfolding terminal
  terminal-Delivered response s h =
      let step4 =
        or_note (write_role f accepts)
        >> (or_abort (reconcile_response f accepts response)
            >> or_abort (finish f accepts response)) in
      let step3 = or_abort (settle response now) >> step4 in
      let step2 =
        or_abort (lift (validate_quota_usage_from_codex response.usage)) >>= λ checked. step3 in
      let step1 = or_abort (map_usage f accepts now response) >> step2 in
      then_Ensures (λ _. Good) (λ _. Delivered f accepts response)
        (or_abort (validate_response f accepts response) s) (λ _. step1)
        (abort_Keeps (validate_response f accepts response) (validate_Keeps response) s h)
        (λ _ s1 h1.
          then_Ensures (λ _. Good) (λ _. Delivered f accepts response)
            (or_abort (map_usage f accepts now response) s1) (λ _. step2)
            (abort_Keeps (map_usage f accepts now response) (map_usage-Keeps response) s1 h1)
            (λ _ s2 h2.
              then_Ensures (λ _. Good) (λ _. Delivered f accepts response)
                (or_abort (lift (validate_quota_usage_from_codex response.usage)) s2) (λ _. step3)
                (abort_Keeps (lift (validate_quota_usage_from_codex response.usage))
                  (lift-Keeps (validate_quota_usage_from_codex response.usage)) s2 h2)
                (λ _ s3 h3.
                  then_Ensures (λ _. Good) (λ _. Delivered f accepts response)
                    (or_abort (settle response now) s3) (λ _. step4)
                    (abort_Keeps (settle response now) (settle-Keeps response now) s3 h3)
                    (λ _ s4 h4. deliver response s4 h4))))
