-- ===== src/Chat/Finishing.antt =====
-- The terminal event of a chat stream leaves its tool calls matched with those of the response
-- (internal/server/chat.go, event and finish).
use codex_sub_proxy.Prelude.{
  ℕ, zero, suc, ◌-◌, ◌≡◌, refl, sym, ◌∙◌, subst, List, Bool, true, ltb, ◌||◌, ◌&&◌, not, length,
  drop, ◌++◌, some, Result, ok, err, arith,
}
use codex_sub_proxy.Prelude.Bytes.{Bytes, is_blank, has_prefix}
use codex_sub_proxy.Chat.Types.{
  ChatError, Response, text_too_large, text_inconsistent, usage_missing, duplicate_terminal,
  incomplete_tool,
}
use codex_sub_proxy.Chat.Stream.{
  role_delta, content, finished, Chunk, Stream, ◌>>=◌, ◌>>◌, done, fail_when, lift, update,
  with_tool, is_some, is_complete, write_chunk, write_role, write_text, write_tool_metadata,
  reconcile_text, reconcile_tools, reconcile_response, validate_response, finish_tools, finish,
}
use codex_sub_proxy.Chat.Output.{
  Formats, ToolCall, max_chat_string_bytes, chat_response_output, chat_response_usage,
  validate_quota_usage_from_codex, chat_finish_reason,
}
use codex_sub_proxy.Chat.Event.{or_abort, or_note, settle, map_usage, terminal}
use codex_sub_proxy.Chat.Sent.{
  Ensures, then_Ensures, if_Ensures, guard_Ensures, lift_Ensures, with_tool-Ensures,
}
use codex_sub_proxy.Chat.Kept.{both_Ensures, aborting-Ensures}
use codex_sub_proxy.Chat.Frozen.{Frozen}
use codex_sub_proxy.Chat.Complete.{finish-Frozen}
use codex_sub_proxy.Chat.Valid.{chat_response_output-NoneBlank}
use codex_sub_proxy.Chat.Heads.{DistinctIds, Foreseen}
use codex_sub_proxy.Chat.Announcing.{frame-Foreseen}
use codex_sub_proxy.Chat.Steady.{
  Steady, then_Steady, abort_Steady, note_Steady, lift-Steady, fail_when-Steady, settle-Steady,
  chunk_Steady, metadata-Steady,
}
use codex_sub_proxy.Chat.Reconciling.{AllSettled, Matched, reconcile_tools-Matched}

module _ (calls : List ToolCall) (f : Formats) (accepts : List Chunk → Chunk → Bool) (now : ℕ) where
  abbrev F : Stream → Type 0
  F = Foreseen calls

  role_Steady : Steady calls (write_role f accepts)
  unfolding write_role
  role_Steady s h =
      if_Ensures (λ _. F) s.role_sent done
        (update (λ r. record r { role_sent = true }) >> write_chunk f accepts role_delta) s (λ _. h)
        (λ _.
          chunk_Steady calls f accepts role_delta (λ i. refl) (record s { role_sent = true })
            (frame-Foreseen calls s (record s { role_sent = true }) refl refl refl h))

  text_Steady : (text : Bytes) → Steady calls (write_text f accepts text)
  unfolding write_text
  text_Steady text s h =
      let too_long =
        ltb max_chat_string_bytes (length text)
        || ltb (max_chat_string_bytes - length text) (length s.text) in
      let grow = update (λ r. record r { text = r.text ++ text }) in
      if_Ensures (λ _. F) (is_blank text) done
        (fail_when too_long text_too_large >> (write_chunk f accepts (content text) >> grow)) s
        (λ _. h)
        (λ _.
          guard_Ensures (λ _. F) too_long text_too_large
            (write_chunk f accepts (content text) >> grow) s
            (λ _.
              then_Ensures (λ _. F) (λ _. F) (write_chunk f accepts (content text) s) (λ _. grow)
                (chunk_Steady calls f accepts (content text) (λ i. refl) s h)
                (λ _ r.
                  frame-Foreseen calls r (record r { text = r.text ++ text }) refl refl refl)))

  reconcile_text-Steady : (text : Bytes) → Steady calls (reconcile_text f accepts text)
  unfolding reconcile_text
  reconcile_text-Steady text s h =
      let wrong = ltb max_chat_string_bytes (length text) || not (has_prefix text s.text) in
      guard_Ensures (λ _. F) wrong text_inconsistent
        (write_text f accepts (drop (length s.text) text)) s
        (λ _. text_Steady (drop (length s.text) text) s h)

  validate_Steady : (response : Response) → Steady calls (validate_response f accepts response)
  unfolding validate_response
  validate_Steady response s h =
      then_Steady calls (lift (chat_response_output f response))
        (λ out.
          fail_when (ltb max_chat_string_bytes (length out.0) || not (has_prefix out.0 s.text))
            text_inconsistent)
        (lift-Steady calls (chat_response_output f response))
        (λ out.
          fail_when-Steady calls
            (ltb max_chat_string_bytes (length out.0) || not (has_prefix out.0 s.text))
            text_inconsistent)
        s h

  map_usage-Steady : (response : Response) → Steady calls (map_usage f accepts now response)
  unfolding map_usage
  map_usage-Steady response s h =
      let missing = not (is_some s.lease) && not (is_some response.usage) in
      let mapping = lift (chat_response_usage response.usage) >>= λ usage.
      update (λ r. record r { mapped_usage = some usage }) in
      if_Ensures (λ _. F) (not s.include_usage) done (fail_when missing usage_missing >> mapping) s
        (λ _. h)
        (λ _.
          guard_Ensures (λ _. F) missing usage_missing mapping s
            (λ _.
              then_Ensures (λ _. F) (λ _. F) (lift (chat_response_usage response.usage) s)
                (λ usage. update (λ r. record r { mapped_usage = some usage }))
                (lift-Steady calls (chat_response_usage response.usage) s h)
                (λ usage r.
                  frame-Foreseen calls r (record r { mapped_usage = some usage }) refl refl refl)))

  loop_Steady : (left i : ℕ) → Steady calls (finish_tools f accepts left i)
  unfolding finish_tools
  loop_Steady zero i s h = h
  loop_Steady (suc left) i s h =
      then_Ensures (λ _. F) (λ _. F)
        (with_tool i (λ t. fail_when (not (is_complete f accepts t)) incomplete_tool) s)
        (λ _. write_tool_metadata f accepts i >> finish_tools f accepts left (suc i))
        (with_tool-Ensures (λ _. F) i
          (λ t. fail_when (not (is_complete f accepts t)) incomplete_tool) s
          (λ t _. fail_when-Steady calls (not (is_complete f accepts t)) incomplete_tool s h))
        (λ _.
          then_Steady calls (write_tool_metadata f accepts i)
            (λ _. finish_tools f accepts left (suc i)) (metadata-Steady calls f accepts i)
            (λ _. loop_Steady left (suc i)))

  finish-Steady : (response : Response) → Steady calls (finish f accepts response)
  unfolding finish
  finish-Steady response s h =
      let count = length s.tools in
      let last = finished (chat_finish_reason response count) in
      let end = write_chunk f accepts last >> update (λ r. record r { finish_sent = true }) in
      let rest = finish_tools f accepts count 0 >> end in
      let unusable = s.include_usage && not (is_some s.mapped_usage) in
      guard_Ensures (λ _. F) s.finish_sent duplicate_terminal
        (fail_when unusable usage_missing >> rest) s
        (λ _.
          guard_Ensures (λ _. F) unusable usage_missing rest s
            (λ _.
              then_Steady calls (finish_tools f accepts count 0) (λ _. end) (loop_Steady count 0)
                (λ _.
                  then_Steady calls (write_chunk f accepts last)
                    (λ _. update (λ r. record r { finish_sent = true }))
                    (chunk_Steady calls f accepts last (λ i. refl))
                    (λ _ r.
                      frame-Foreseen calls r (record r { finish_sent = true }) refl refl refl))
                s h))

  AllSettled-through :
      {A : Type 0} (s : Stream) (r : Result ChatError A × Stream)
      → ((j : ℕ) (a : Bytes) → Frozen j a s.tools → Ensures (λ _ r'. Frozen j a r'.tools) r)
      → AllSettled calls s.tools
      → Ensures (λ _ r'. AllSettled calls r'.tools) r
  AllSettled-through s (ok a, s') keeps settled =
      λ j call at. keeps j call.arguments (settled j call at)
  AllSettled-through s (err e, s') keeps settled = tt

  finish-Matched :
      (response : Response) (s : Stream)
      → Matched calls s
      → Ensures (λ _. Matched calls) (finish f accepts response s)
  finish-Matched response s (h, settled) =
      both_Ensures (λ _. F) (λ _ r. AllSettled calls r.tools) (finish f accepts response s)
        (finish-Steady response s h)
        (AllSettled-through s (finish f accepts response s)
          (λ j a. finish-Frozen f accepts j a response s) settled)

  module _ (distinct : DistinctIds calls) (response : Response) (text : Bytes)
      (output : chat_response_output f response ≡ ok (text, calls)) where
    reconcile_response-Matched :
        (s : Stream) → F s → Ensures (λ _. Matched calls) (reconcile_response f accepts response s)
    unfolding reconcile_response
    reconcile_response-Matched s h =
        then_Ensures (λ out r. F r × (out ≡ (text, calls))) (λ _. Matched calls)
          (lift (chat_response_output f response) s)
          (λ out. reconcile_text f accepts out.0 >> reconcile_tools f accepts out.1)
          (lift_Ensures (λ out r. F r × (out ≡ (text, calls))) (chat_response_output f response) s
            (λ out is. (h, same_output out (sym is ∙ output))))
          (λ out r (h', same).
            subst
              (λ o.
                Ensures (λ _. Matched calls)
                  ((reconcile_text f accepts o.0 >> reconcile_tools f accepts o.1) r))
              (sym same)
              (then_Ensures (λ _. F) (λ _. Matched calls) (reconcile_text f accepts text r)
                (λ _. reconcile_tools f accepts calls) (reconcile_text-Steady text r h')
                (λ _.
                  reconcile_tools-Matched calls distinct
                    (chat_response_output-NoneBlank f response text calls output) f accepts)))
      where
        same_output :
            (out : Bytes × List ToolCall)
            → Path (Result ChatError (Bytes × List ToolCall)) (ok out) (ok (text, calls))
            → out ≡ (text, calls)
        same_output out e = ground (arith, e)

    -- A terminal event.
    pub terminal-Matched :
        (s : Stream) → F s → Ensures (λ _. Matched calls) (terminal f accepts now response s)
    unfolding terminal
    terminal-Matched s h =
        let ending = or_abort (finish f accepts response) in
        let step5 = or_abort (reconcile_response f accepts response) >> ending in
        let step4 = or_note (write_role f accepts) >> step5 in
        let step3 = or_abort (settle response now) >> step4 in
        let step2 =
          or_abort (lift (validate_quota_usage_from_codex response.usage)) >>= λ checked. step3 in
        let step1 = or_abort (map_usage f accepts now response) >> step2 in
        let M = λ (r : Stream). Matched calls r in
        then_Ensures (λ _. F) (λ _. M) (or_abort (validate_response f accepts response) s)
          (λ _. step1)
          (abort_Steady calls (validate_response f accepts response) (validate_Steady response) s h)
          (λ _ s1 h1.
            then_Ensures (λ _. F) (λ _. M) (or_abort (map_usage f accepts now response) s1)
              (λ _. step2)
              (abort_Steady calls (map_usage f accepts now response) (map_usage-Steady response) s1
                h1)
              (λ _ s2 h2.
                then_Ensures (λ _. F) (λ _. M)
                  (or_abort (lift (validate_quota_usage_from_codex response.usage)) s2) (λ _. step3)
                  (abort_Steady calls (lift (validate_quota_usage_from_codex response.usage))
                    (lift-Steady calls (validate_quota_usage_from_codex response.usage)) s2 h2)
                  (λ _ s3 h3.
                    then_Ensures (λ _. F) (λ _. M) (or_abort (settle response now) s3) (λ _. step4)
                      (abort_Steady calls (settle response now) (settle-Steady calls response now)
                        s3 h3)
                      (λ _ s4 h4.
                        then_Ensures (λ _. F) (λ _. M) (or_note (write_role f accepts) s4)
                          (λ _. step5) (note_Steady calls (write_role f accepts) role_Steady s4 h4)
                          (λ _ s5 h5.
                            then_Ensures (λ _. M) (λ _. M)
                              (or_abort (reconcile_response f accepts response) s5) (λ _. ending)
                              (aborting-Ensures (λ _. M) (reconcile_response f accepts response s5)
                                (reconcile_response-Matched s5 h5))
                              (λ _ s6 h6.
                                aborting-Ensures (λ _. M) (finish f accepts response s6)
                                  (finish-Matched response s6 h6)))))))
