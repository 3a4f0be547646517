-- ===== src/Chat/Delivered.antt =====
-- What a chat stream has sent when it has taken the terminal event (internal/server/chat.go, event and
-- finish).
use codex_sub_proxy.Prelude.{◌≡◌, refl, sym, subst, List, Bool, true, ◌&&◌, not, length, ok, arith}
use codex_sub_proxy.Prelude.Bytes.{Bytes}
use codex_sub_proxy.Chat.Types.{Response, usage_missing, duplicate_terminal}
use codex_sub_proxy.Chat.Stream.{
  finished, Chunk, Tool, Stream, ◌>>◌, fail_when, lift, update, is_complete, is_some, write_chunk,
  reconcile_text, reconcile_tools, reconcile_response, finish_tools, finish,
}
use codex_sub_proxy.Chat.Output.{
  Formats, ToolCall, chat_response_output, chat_finish_reason, FinishReason,
}
use codex_sub_proxy.Chat.Sent.{Ensures, then_Ensures, guard_Ensures, lift_Ensures}
use codex_sub_proxy.Chat.Streamed.{Streamed, frame, append_chunk, write_chunk-Ensures, write-Quiet}
use codex_sub_proxy.Chat.Reconciled.{
  reconcile_text-Streamed, reconcile_tools-Streamed, finish_tools-Streamed,
}
use codex_sub_proxy.Chat.Kept.{both_Ensures, weaken_Ensures, Good}
use codex_sub_proxy.Chat.Announced.{Each, Passed, finish_tools-Each, start-Each}

module _ (f : Formats) (accepts : List Chunk → Chunk → Bool) where
  -- Every tool call has been announced to the client, and is complete.
  abbrev pub AllAnnounced : List Tool → Type 0
  AllAnnounced ts = Each (λ _ t. (t.metadata_sent ≡ true) × (is_complete f accepts t ≡ true)) ts

  abbrev pub Ended : Bytes → Stream → Type 0
  Ended x r = (Streamed x r) × ((r.finish_sent ≡ true) × AllAnnounced r.tools)

  loop_Ensures :
      (x : Bytes) (s : Stream)
      → Streamed x s
      → Ensures
          (λ _ r. Streamed x r × AllAnnounced r.tools)
          (finish_tools f accepts (length s.tools) 0 s)
  loop_Ensures x s h =
      weaken_Ensures
        (λ _ r. Streamed x r × Each (Passed f accepts (length s.tools) (length s.tools)) r.tools)
        (λ _ r. Streamed x r × AllAnnounced r.tools) (finish_tools f accepts (length s.tools) 0 s)
        (λ _ r (streamed, each). (streamed, λ j t found. (each j t found).1 (each j t found).0))
        (both_Ensures (λ _. Streamed x)
          (λ _ r. Each (Passed f accepts (length s.tools) (length s.tools)) r.tools)
          (finish_tools f accepts (length s.tools) 0 s)
          (finish_tools-Streamed accepts f x (length s.tools) 0 s h)
          (finish_tools-Each f accepts (length s.tools) (length s.tools) 0 s (ground arith)
            (start-Each f accepts s.tools)))

  end_chunk :
      (x : Bytes) (d : FinishReason) (s : Stream)
      → Streamed x s × AllAnnounced s.tools
      → Ensures
          (λ _. Ended x)
          ((write_chunk f accepts (finished d) >> update (λ r. record r { finish_sent = true })) s)
  unfolding append_chunk
  end_chunk x d s (h, all) =
      then_Ensures (λ _ r. Streamed x r × AllAnnounced r.tools) (λ _. Ended x)
        (write_chunk f accepts (finished d) s) (λ _. update (λ r. record r { finish_sent = true }))
        (both_Ensures (λ _. Streamed x) (λ _ r. AllAnnounced r.tools)
          (write_chunk f accepts (finished d) s)
          (write-Quiet accepts f x (finished d) s (refl, λ j. refl) h)
          (write_chunk-Ensures accepts f x (λ r. AllAnnounced r.tools) (finished d) s all))
        (λ _ r (h', all').
          (frame x r (record r { finish_sent = true }) refl refl refl h', (refl, all')))

  pub finish-Ended :
      (x : Bytes) (response : Response) (s : Stream)
      → Streamed x s
      → Ensures (λ _. Ended x) (finish f accepts response s)
  unfolding finish
  finish-Ended x response s h =
      let count = length s.tools in
      let rest =
        finish_tools f accepts count 0
        >> (write_chunk f accepts (finished (chat_finish_reason response count))
            >> update (λ r. record r { finish_sent = true })) in
      guard_Ensures (λ _. Ended x) s.finish_sent duplicate_terminal
        (fail_when (s.include_usage && not (is_some s.mapped_usage)) usage_missing >> rest) s
        (λ _.
          guard_Ensures (λ _. Ended x) (s.include_usage && not (is_some s.mapped_usage))
            usage_missing rest s
            (λ _.
              then_Ensures (λ _ r. Streamed x r × AllAnnounced r.tools) (λ _. Ended x)
                (finish_tools f accepts count 0 s)
                (λ _.
                  write_chunk f accepts (finished (chat_finish_reason response count))
                  >> update (λ r. record r { finish_sent = true }))
                (loop_Ensures x s h)
                (λ _ r ended. end_chunk x (chat_finish_reason response count) r ended)))

  -- The client has been sent the text of the response, and its tool calls are announced and complete.
  pub record Delivered (response : Response) (s : Stream) : Type 0 where
    pub text : Bytes
    pub calls : List ToolCall
    pub output_is : chat_response_output f response ≡ ok (text, calls)
    pub streamed : Streamed text s
    pub all_announced : AllAnnounced s.tools
    pub is_finished : s.finish_sent ≡ true

  -- reconcileResponse
  unfoldable pub Reconciled : Response → Stream → Type 0
  Reconciled response s =
      (x : Bytes) × ((calls : List ToolCall) × ((chat_response_output f response ≡ ok (x, calls))
          × Streamed x s))

  pub reconcile-Ensures :
      (response : Response) (s : Stream)
      → Good s
      → Ensures (λ _. Reconciled response) (reconcile_response f accepts response s)
  unfolding reconcile_response Reconciled
  reconcile-Ensures response s h =
      then_Ensures (λ out r. (r ≡ s) × (chat_response_output f response ≡ ok out))
        (λ _. Reconciled response) (lift (chat_response_output f response) s)
        (λ out. reconcile_text f accepts out.0 >> reconcile_tools f accepts out.1)
        (lift_Ensures (λ out r. (r ≡ s) × (chat_response_output f response ≡ ok out))
          (chat_response_output f response) s (λ out is. (refl, is)))
        (λ out r (at_s, is).
          then_Ensures (λ _. Streamed out.0) (λ _. Reconciled response)
            (reconcile_text f accepts out.0 r) (λ _. reconcile_tools f accepts out.1)
            (reconcile_text-Streamed accepts f r.text out.0 r (subst Good (sym at_s) h))
            (λ _ r' h'.
              weaken_Ensures (λ _. Streamed out.0) (λ _. Reconciled response)
                (reconcile_tools f accepts out.1 r') (λ _ r'' kept. (out.0, (out.1, (is, kept))))
                (reconcile_tools-Streamed accepts f out.0 out.1 r' h')))
