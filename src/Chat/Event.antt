-- ===== src/Chat/Event.antt =====
-- internal/server/chat.go: chatStreamState.event, what the stream does with each upstream event, and
-- the run of a stream over the events, which ends at the first error.
use codex_sub_proxy.Prelude.{
  ℕ, List, [], ◌∷◌, Bool, true, false, ◌&&◌, ◌||◌, not, Option, none, some, Result, ok, err,
  if◌then◌else◌, length, ltb, ◌==◌,
}
use codex_sub_proxy.Prelude.Int.{ℤ, pos, negsuc}
use codex_sub_proxy.Prelude.Bytes.{Bytes, is_blank}
use codex_sub_proxy.Quota.Types.{Db, Error}
use codex_sub_proxy.Lease.{Lease, reconcile_lease}
use codex_sub_proxy.Chat.Types.{
  Part, output_text, refusal, other_part, Item, message, reasoning, function_call, other_item,
  no_role, assistant, other_role, Response, failed, incomplete, other_status, EventType, progress,
  output_text_delta, output_text_done, content_part_added, content_part_done, output_item_added,
  output_item_done, function_args_delta, function_args_done, response_completed, response_done,
  response_incomplete, response_failed, error_event, other_event, StreamEvent, ChatError,
  stream_abort, response_missing, invalid_role, annotations, not_representable, text_too_large,
  part_missing, item_missing, usage_missing, quota_finalization,
}
use codex_sub_proxy.Chat.Output.{
  Formats, max_chat_string_bytes, append_bounded_chat_text, chat_response_usage,
  validate_quota_usage_from_codex, quota_usage_from_codex,
}
use codex_sub_proxy.Chat.Stream.{
  Identity, Chunk, aborted, upstream, Stream, M, ◌>>=◌, ◌>>◌, done, throw, fail_when, lift, update,
  given, tool, write_role, write_text, write_tool_metadata, add_tool_arguments, reconcile_text,
  validate_response, reconcile_response, finish, is_some,
}

-- `return state.fail(err)`
abbrev pub aborting : {A : Type 0} → Result ChatError A × Stream → Result ChatError A × Stream
aborting (ok a, s) = (ok a, s)
aborting (err e, s) = (err stream_abort, record s { failure = some (aborted e) })

abbrev pub or_abort : {A : Type 0} → M A → M A
or_abort m s = aborting (m s)

-- `state.writeErr = err; return err`
abbrev pub noting : {A : Type 0} → Result ChatError A × Stream → Result ChatError A × Stream
noting (ok a, s) = (ok a, s)
noting (err e, s) = (err e, record s { write_error = true })

abbrev pub or_note : {A : Type 0} → M A → M A
or_note m s = noting (m s)

abbrev pub created_or : ℤ → ℕ → ℕ
created_or (pos n) old = if n == 0 then old else n
created_or (negsuc n) old = old

abbrev pub text_or : Bytes → Bytes → Bytes
text_or new old = if is_blank new then old else new

-- The identity is that of the response until the role has been sent.
abbrev pub see_response : Option Response → Stream → Stream
see_response none s = s
see_response (some r) s = record s {
  response = some r;
  identity = if s.role_sent then s.identity else record {
    id = text_or r.id s.identity.id;
    model = text_or r.model s.identity.model;
    created = created_or r.created_at s.identity.created;
  };
}

abbrev pub has_failed : Option Response → Bool
has_failed none = false
has_failed (some r) =
    r.error || elim r.status [ failed ↦ true | incomplete ↦ false | other_status ↦ false ]

abbrev pub is_failure : EventType → Bool
is_failure error_event = true
is_failure response_failed = true
is_failure e = false

abbrev pub is_codex_terminal : EventType → Bool
is_codex_terminal response_completed = true
is_codex_terminal response_done = true
is_codex_terminal response_incomplete = true
is_codex_terminal response_failed = true
is_codex_terminal error_event = true
is_codex_terminal e = false

module _ (f : Formats) where
  -- chatStreamPartText
  unfoldable pub part_text : Option Part → Result ChatError Bytes
  part_text none = err part_missing
  part_text (some p) = elim p.type [
    | output_text ↦
        if p.annotated
        then err annotations
        else if ltb max_chat_string_bytes (length p.text) || not (f.valid_utf8 p.text)
        then err text_too_large
        else ok p.text
    | refusal ↦ err not_representable
    | other_part ↦ err not_representable
  ]

  abbrev append_part : Result ChatError Bytes → Bytes → Result ChatError Bytes
  append_part (err e) text = err e
  append_part (ok more) text = append_bounded_chat_text text more

  abbrev and_then :
      {A B : Type 0} → Result ChatError A → (A → Result ChatError B) → Result ChatError B
  and_then (ok a) k = k a
  and_then (err e) k = err e

  unfoldable pub parts_text : List Part → Bytes → Result ChatError Bytes
  unfolding part_text append_bounded_chat_text
  parts_text [] text = ok text
  parts_text (p ∷ ps) text = and_then (append_part (part_text (some p)) text) (parts_text ps)

  -- chatStreamMessageText
  unfoldable pub stream_message_text : Item → Result ChatError Bytes
  unfolding parts_text
  stream_message_text item = elim item.role [
    | no_role ↦ parts_text item.content []
    | assistant ↦ parts_text item.content []
    | other_role ↦ err invalid_role
  ]

-- `state.lease.reconcile(usage)`, which does nothing without a lease.
abbrev pub settled :
    Result Error (Unit {0}) × Lease × Db → Stream → Result ChatError (Unit {0}) × Stream
settled (ok u, l, db) s = (ok tt, record s { lease = some l; db = db })
settled (err e, l, db) s =
    (err quota_finalization, record s { lease = some l; db = db; quota_failure = true })

unfoldable pub settle : Response → ℕ → M (Unit {0})
unfolding reconcile_lease quota_usage_from_codex
settle response now s = elim s.lease [
  | none ↦ (ok tt, s)
  | some l ↦ settled (reconcile_lease l (quota_usage_from_codex response.usage) now s.db) s
]

module _ (f : Formats) (accepts : List Chunk → Chunk → Bool) (now : ℕ) where
  -- The usage for the client is worked out only if it is wanted.
  unfoldable pub map_usage : Response → M (Unit {0})
  unfolding chat_response_usage
  map_usage response = given λ s. if not s.include_usage then done else (do
    fail_when (not (is_some s.lease) && not (is_some response.usage)) usage_missing
    usage ← lift (chat_response_usage response.usage)
    update (λ r. record r { mapped_usage = some usage }))

  -- A terminal event.
  unfoldable pub terminal : Response → M (Unit {0})
  unfolding validate_response map_usage settle validate_quota_usage_from_codex write_role
      reconcile_response finish
  terminal response = do
    or_abort (validate_response f accepts response)
    or_abort (map_usage response)
    checked ← or_abort (lift (validate_quota_usage_from_codex response.usage))
    or_abort (settle response now)
    or_note (write_role f accepts)
    or_abort (reconcile_response f accepts response)
    or_abort (finish f accepts response)

  -- A text that repeats what has been sent and goes on.
  abbrev pub role_and_text : Bytes → M (Unit {0})
  role_and_text text = do
    or_note (write_role f accepts)
    if is_blank text then done else or_abort (reconcile_text f accepts text)

  unfoldable pub text_delta : StreamEvent → M (Unit {0})
  unfolding part_text write_role write_text
  text_delta event = do
    or_abort (fail_when event.annotation annotations)
    or_abort
        (elim event.part [ none ↦ done | some p ↦ do text ← lift (part_text f (some p)); done ])
    or_note (write_role f accepts)
    if is_blank event.delta then done else or_note (write_text f accepts event.delta)

  unfoldable pub text_done : StreamEvent → M (Unit {0})
  unfolding write_role reconcile_text
  text_done event = do or_abort (fail_when event.annotation annotations); role_and_text event.text

  unfoldable pub content_part : StreamEvent → M (Unit {0})
  unfolding part_text write_role reconcile_text
  content_part event = do text ← or_abort (lift (part_text f event.part)); role_and_text text

  unfoldable pub function_item : Item → M (Unit {0})
  unfolding write_role tool write_tool_metadata add_tool_arguments
  function_item item = do
    or_note (write_role f accepts)
    i ← tool item.id item.call_id item.name
    or_note (write_tool_metadata f accepts i)
    if is_blank item.arguments
        then done
        else or_abort (add_tool_arguments f accepts i item.arguments true)

  unfoldable pub output_item_event : Option Item → M (Unit {0})
  unfolding stream_message_text write_role reconcile_text function_item
  output_item_event none = or_abort (throw item_missing)
  output_item_event (some item) = elim item.type [
    | reasoning ↦ done
    | message ↦ do text ← or_abort (lift (stream_message_text f item)); role_and_text text
    | function_call ↦ function_item item
    | other_item ↦ or_abort (throw not_representable)
  ]

  unfoldable pub function_arguments : Bytes → Bytes → Bool → M (Unit {0})
  unfolding write_role tool add_tool_arguments
  function_arguments item_id fragment final = do
    or_note (write_role f accepts)
    i ← tool item_id [] []
    or_abort (add_tool_arguments f accepts i fragment final)

  -- The events that are not terminal.
  unfoldable pub progress_event : StreamEvent → M (Unit {0})
  unfolding text_delta text_done content_part output_item_event function_arguments
  progress_event event = elim event.type [
    | progress ↦ done
    | output_text_delta ↦ text_delta event
    | output_text_done ↦ text_done event
    | content_part_added ↦ content_part event
    | content_part_done ↦ content_part event
    | output_item_added ↦ output_item_event event.item
    | output_item_done ↦ output_item_event event.item
    | function_args_delta ↦
        function_arguments event.item_id (text_or event.delta event.arguments) false
    | function_args_done ↦ function_arguments event.item_id event.arguments true
    | response_completed ↦ or_abort (throw not_representable)
    | response_done ↦ or_abort (throw not_representable)
    | response_incomplete ↦ or_abort (throw not_representable)
    | response_failed ↦ or_abort (throw not_representable)
    | error_event ↦ or_abort (throw not_representable)
    | other_event ↦ or_abort (throw not_representable)
  ]

  unfoldable pub terminal_event : Option Response → M (Unit {0})
  unfolding terminal
  terminal_event none = or_abort (throw response_missing)
  terminal_event (some response) = terminal response

  -- An event for a stream that has not failed.
  unfoldable pub live_event : StreamEvent → M (Unit {0})
  unfolding terminal_event progress_event
  live_event event =
      if event.error || is_failure event.type || has_failed event.response
      then update (λ s. record s { failure = some upstream })
      else if is_codex_terminal event.type
      then terminal_event event.response
      else progress_event event

  -- chatStreamState.event
  unfoldable pub stream_event : StreamEvent → M (Unit {0})
  unfolding live_event
  stream_event event s = elim s.failure [
    | some x ↦ (err stream_abort, s)
    | none ↦ live_event event (see_response event.response s)
  ]

  -- The transport hands the events on until one of them gives an error.
  unfoldable pub run_stream : List StreamEvent → M (Unit {0})
  unfolding stream_event
  run_stream [] = done
  run_stream (event ∷ events) = do stream_event event; run_stream events

-- newChatStreamState, with the lease that serveChatStream sets.
unfoldable pub new_stream : Identity → Bool → Option Lease → Db → Stream
new_stream identity include_usage lease db = record {
  identity = identity;
  include_usage = include_usage;
  lease = lease;
  db = db;
  quota_failure = false;
  role_sent = false;
  finish_sent = false;
  text = [];
  mapped_usage = none;
  response = none;
  failure = none;
  write_error = false;
  chunks = [];
  tools = [];
  aliases = [];
}
