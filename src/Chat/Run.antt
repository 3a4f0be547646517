-- ===== src/Chat/Run.antt =====
-- A chat stream over all of its events (internal/server/chat.go, event).
use codex_sub_proxy.Prelude.{
  ℕ, ◌≡◌, refl, sym, ap, ◌∙◌, subst, List, [], ◌∷◌, Bool, true, false, ◌||◌, get_elem?, Option,
  none, some, Result, ok, err, arith, if◌then◌else◌, Option-cases, inl, inr,
}
use codex_sub_proxy.Prelude.Bytes.{Bytes}
use codex_sub_proxy.Quota.Types.{Db}
use codex_sub_proxy.Lease.{Lease}
use codex_sub_proxy.Chat.Types.{ChatError, Response, StreamEvent, stream_abort}
use codex_sub_proxy.Chat.Stream.{Identity, Chunk, Tool, Stream, update, upstream}
use codex_sub_proxy.Chat.Output.{
  Formats, ToolCall, Completion, chat_completion_payload, chat_response_output,
}
use codex_sub_proxy.Chat.Event.{
  terminal, terminal_event, see_response, is_failure, is_codex_terminal, has_failed, progress_event,
  live_event, stream_event, run_stream, new_stream,
}
use codex_sub_proxy.Chat.Sent.{sent_text, sent_arguments, Ensures}
use codex_sub_proxy.Chat.Streamed.{due, Streamed, frame}
use codex_sub_proxy.Chat.Kept.{
  weaken_Ensures, both_Ensures, Streamed-Good, Good, Keeps, then_Keeps, if_Keeps,
}
use codex_sub_proxy.Chat.Complete.{some_call}
use codex_sub_proxy.Chat.Heads.{
  sent_heads, heads_due, call_head, call_arguments, DistinctIds, Foreseen,
}
use codex_sub_proxy.Chat.Announcing.{frame-Foreseen}
use codex_sub_proxy.Chat.Reconciling.{Matched}
use codex_sub_proxy.Chat.Finishing.{terminal-Matched}
use codex_sub_proxy.Chat.Frozen.{frozen}
use codex_sub_proxy.Chat.Handled.{progress_event-Keeps}
use codex_sub_proxy.Chat.Delivered.{AllAnnounced, Delivered}
use codex_sub_proxy.Chat.Terminal.{terminal-Delivered}

module _ (f : Formats) (accepts : List Chunk → Chunk → Bool) (now : ℕ) where
  terminal_event-Good : (o : Option Response) → Keeps (terminal_event f accepts now o)
  unfolding terminal_event
  terminal_event-Good none s h = tt
  terminal_event-Good (some response) s h =
      weaken_Ensures (λ _. Delivered f accepts response) (λ _. Good)
        (terminal f accepts now response s) (λ _ r d. Streamed-Good d.text r d.streamed)
        (terminal-Delivered f accepts now response s h)

  seen_Foreseen :
      (calls : List ToolCall) (o : Option Response) (s : Stream)
      → Foreseen calls s
      → Foreseen calls (see_response o s)
  seen_Foreseen calls none s h = h
  seen_Foreseen calls (some r) s h =
      frame-Foreseen calls s (see_response (some r) s) refl refl refl h

  seen : (o : Option Response) (s : Stream) → Good s → Good (see_response o s)
  seen none s h = h
  seen (some r) s h = frame s.text s (see_response (some r) s) refl refl refl h

  stream_event-Good : (event : StreamEvent) → Keeps (stream_event f accepts now event)
  unfolding stream_event live_event
  stream_event-Good event s h =
      let failing = event.error || is_failure event.type || has_failed event.response in
      elim s.failure
        as (λ o.
          Ensures (λ _. Good)
            (elim o as (λ _. Result ChatError (Unit {0}) × Stream) [
              | some x ↦ (err stream_abort, s)
              | none ↦ live_event f accepts now event (see_response event.response s)
            ])) [
              | some x ↦ tt
              | none ↦
                  if_Keeps failing (update (λ r. record r { failure = some upstream }))
                    (if is_codex_terminal event.type
                      then terminal_event f accepts now event.response
                      else progress_event f accepts now event)
                    (λ r h'.
                      frame r.text r (record r { failure = some upstream }) refl refl refl h')
                    (if_Keeps (is_codex_terminal event.type)
                      (terminal_event f accepts now event.response)
                      (progress_event f accepts now event) (terminal_event-Good event.response)
                      (progress_event-Keeps f accepts now event))
                    (see_response event.response s) (seen event.response s h)
            ]

  run_stream-Good : (events : List StreamEvent) → Keeps (run_stream f accepts now events)
  unfolding run_stream
  run_stream-Good [] s h = h
  run_stream-Good (event ∷ events) s h =
      then_Keeps (stream_event f accepts now event) (λ _. run_stream f accepts now events)
        (stream_event-Good event) (λ _. run_stream-Good events) s h

  new_stream-Good :
      (identity : Identity) (include_usage : Bool) (lease : Option Lease) (db : Db)
      → Good (new_stream identity include_usage lease db)
  unfolding new_stream sent_text sent_arguments
  new_stream-Good identity include_usage lease db = record {
    text_is = refl;
    sent_is = refl;
    arguments_are = λ i. refl;
    emitted_are = λ i t e. cc;
  }

  -- What a run ensures of the state that it ends in.
  ran :
      (Q : Stream → Type 0) (r : Result ChatError (Unit {0}) × Stream) (s : Stream)
      → Ensures (λ _. Q) r
      → r ≡ (ok tt, s)
      → Q s
  ran Q r s h is = subst (Ensures (λ _. Q)) is h

  -- When the events of a new stream have passed without an error, the pieces of text that have been
  -- sent make up the text of the state, and the pieces of arguments that have been sent for each
  -- tool call make up its arguments, or nothing while its id or its name has not been sent.
  pub run_stream-sent :
      (identity : Identity) (include_usage : Bool) (lease : Option Lease) (db : Db)
      (events : List StreamEvent) (s : Stream)
      → run_stream f accepts now events (new_stream identity include_usage lease db) ≡ (ok tt, s)
      → (sent_text s.chunks ≡ s.text)
        × ((i : ℕ) → sent_arguments i s.chunks ≡ due (get_elem? s.tools i))
  run_stream-sent identity include_usage lease db events s is =
      let start = new_stream identity include_usage lease db in
      let h =
        ran Good (run_stream f accepts now events start) s
          (run_stream-Good events start (new_stream-Good identity include_usage lease db)) is in
      (h.sent_is, h.arguments_are)

  -- What the handling of a terminal event ensures, the whole event ensures.
  terminal_step :
      (Q : Stream → Type 0) (event : StreamEvent) (response : Response) (s : Stream)
      → Ensures (λ _. Q) (terminal f accepts now response (see_response event.response s))
      → event.response ≡ some response
      → (event.error || is_failure event.type || has_failed event.response) ≡ false
      → is_codex_terminal event.type ≡ true
      → Ensures (λ _. Q) (stream_event f accepts now event s)
  unfolding stream_event live_event terminal_event
  terminal_step Q event response s ensured has well last =
      elim s.failure
        as (λ o.
          Ensures (λ _. Q)
            (elim o as (λ _. Result ChatError (Unit {0}) × Stream) [
              | some x ↦ (err stream_abort, s)
              | none ↦ live_event f accepts now event (see_response event.response s)
            ])) [
              | some x ↦ tt
              | none ↦
                  rw (well, last)
                    (subst
                      (λ o.
                        Ensures (λ _. Q)
                          (terminal_event f accepts now o (see_response event.response s)))
                      (sym has) ensured)
            ]

  payload_output :
      (response : Response) (c : Completion)
      → chat_completion_payload f response ≡ ok c
      → chat_response_output f response ≡ ok (c.text, c.tools)
  unfolding chat_completion_payload
  payload_output response c is = ground (arith, is)

  ok_pair :
      {a b : Bytes} {x y : List ToolCall}
      → Path (Result ChatError (Bytes × List ToolCall)) (ok (a, x)) (ok (b, y))
      → (a ≡ b) × (x ≡ y)
  ok_pair e = ground (arith, e)

  frozen_found :
      (o : Option Tool) (a : Bytes)
      → frozen o ≡ some a
      → (t : Tool) × ((o ≡ some t) × (t.arguments ≡ a))
  frozen_found none a h = cc
  frozen_found (some t) a h = (t, (refl, ground (arith, h)))

  sent_head : (t : Tool) → t.metadata_sent ≡ true → heads_due (some t) ≡ (t.id, t.name) ∷ []
  sent_head t sent = rw sent refl

  -- What the client of a stream has been sent of the tool calls of a completion: under the index of
  -- each its id and name, once, and its arguments, and under any other index nothing.
  abbrev pub CallsSent : List ToolCall → List Chunk → Type 0
  CallsSent calls chunks =
      (k : ℕ)
      → (sent_heads k chunks ≡ call_head (get_elem? calls k))
        × (sent_arguments k chunks ≡ call_arguments (get_elem? calls k))

  call_sent :
      (s : Stream) (text : Bytes) (calls : List ToolCall)
      → Streamed text s
      → AllAnnounced f accepts s.tools
      → Matched calls s
      → (k : ℕ) (call : ToolCall) → get_elem? calls k ≡ some call
      → (sent_heads k s.chunks ≡ (call.id, call.name) ∷ [])
        × (sent_arguments k s.chunks ≡ call.arguments)
  call_sent s text calls streamed all (h, settled) k call at =
      let (t, (found, arguments)) =
        frozen_found (get_elem? s.tools k) call.arguments (settled k call at) in
      let (c, at_k, id, name) = h.named k t found in
      let same : c ≡ call = some_call c call (sym at_k ∙ at) in
      (
        h.heads k
            ∙ ap heads_due found
            ∙ sent_head t ((all k t found).0)
            ∙ ap (λ p. p ∷ [])
                (rw (id ∙ ap (λ (d : ToolCall). d.id) same)
                  (ap (λ n. (call.id, n)) (name ∙ ap (λ (d : ToolCall). d.name) same))),
        streamed.arguments_are k ∙ ap due found ∙ rw ((all k t found).0) arguments,
      )

  nothing_sent :
      (s : Stream) (text : Bytes) (calls : List ToolCall)
      → Streamed text s
      → Foreseen calls s
      → (k : ℕ) → get_elem? calls k ≡ none
      → (sent_heads k s.chunks ≡ []) × (sent_arguments k s.chunks ≡ [])
  nothing_sent s text calls streamed h k absent = elim (Option-cases (get_elem? s.tools k)) [
    | inl nothing ↦ (h.heads k ∙ ap heads_due nothing, streamed.arguments_are k ∙ ap due nothing)
    | inr (t, found) ↦ let (c, at_k, id, name) = h.named k t found in cc (sym absent ∙ at_k)
  ]

  calls_sent :
      (s : Stream) (text : Bytes) (calls : List ToolCall)
      → Streamed text s
      → AllAnnounced f accepts s.tools
      → Matched calls s
      → CallsSent calls s.chunks
  calls_sent s text calls streamed all matched k = elim (Option-cases (get_elem? calls k)) [
    | inl absent ↦
        let (heads, arguments) = nothing_sent s text calls streamed matched.0 k absent in
        (heads ∙ sym (ap call_head absent), arguments ∙ sym (ap call_arguments absent))
    | inr (call, at) ↦
        let (heads, arguments) = call_sent s text calls streamed all matched k call at in
        (heads ∙ sym (ap call_head at), arguments ∙ sym (ap call_arguments at))
  ]

  -- When the events of a new stream have passed without an error, and then a terminal event that
  -- reports no failure passes too, what has been sent is the completion that the same response gives
  -- in one piece, if the ids of its tool calls are distinct and what the stream has made of tool calls
  -- before the terminal event is foreseen: its tools are the first calls of the completion in their
  -- order, with their ids and names and with these in the heads sent so far, and the ids of later
  -- calls are new. The pieces of text make up the text of the completion; under the index of each of
  -- its tool calls exactly one head has been sent, with its id and name, and the pieces of arguments
  -- make up its arguments; under any other index nothing has been sent; and the stream is finished.
  pub terminal_event-completion :
      (identity : Identity) (include_usage : Bool) (lease : Option Lease) (db : Db)
      (events : List StreamEvent) (s : Stream) (event : StreamEvent) (s' : Stream)
      (response : Response) (c : Completion)
      → run_stream f accepts now events (new_stream identity include_usage lease db) ≡ (ok tt, s)
      → Foreseen c.tools s
      → DistinctIds c.tools
      → stream_event f accepts now event s ≡ (ok tt, s')
      → (event.error || is_failure event.type || has_failed event.response) ≡ false
      → is_codex_terminal event.type ≡ true
      → event.response ≡ some response
      → chat_completion_payload f response ≡ ok c
      → (sent_text s'.chunks ≡ c.text) × CallsSent c.tools s'.chunks × (s'.finish_sent ≡ true)
  terminal_event-completion identity include_usage lease db events s event s' response c before
        foreseen distinct now_is well last has payload =
      let start = new_stream identity include_usage lease db in
      let good =
        ran Good (run_stream f accepts now events start) s
          (run_stream-Good events start (new_stream-Good identity include_usage lease db)) before in
      let live = see_response event.response s in
      let (d, matched) =
        ran (λ r. Delivered f accepts response r × Matched c.tools r)
          (stream_event f accepts now event s) s'
          (terminal_step (λ r. Delivered f accepts response r × Matched c.tools r) event response s
            (both_Ensures (λ _. Delivered f accepts response) (λ _. Matched c.tools)
              (terminal f accepts now response live)
              (terminal-Delivered f accepts now response live (seen event.response s good))
              (terminal-Matched c.tools f accepts now distinct response c.text
                (payload_output response c payload) live
                (seen_Foreseen c.tools event.response s foreseen)))
            has well last)
          now_is in
      (
        d.streamed.sent_is ∙ (ok_pair (sym d.output_is ∙ payload_output response c payload)).0,
        calls_sent s' d.text c.tools d.streamed d.all_announced matched,
        d.is_finished,
      )
