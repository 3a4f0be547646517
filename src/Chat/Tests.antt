-- ===== src/Chat/Tests.antt =====
-- The chat stream (internal/server/chat.go) on concrete events: a text and a tool call in pieces, and
-- the response that repeats them.
use codex_sub_proxy.Prelude.{
  ℕ, zero, suc, ◌≡◌, refl, sym, ap, subst, ◌==◌, ◌++◌, if◌then◌else◌, arith, List, [], ◌∷◌, Bool,
  true, false, get_elem?, none, some, length,
}
use codex_sub_proxy.Prelude.Int.{pos}
use codex_sub_proxy.Chat.Types.{
  output_text, Item, message, function_call, no_role, assistant, Response, other_status,
  StreamEvent, EventType, output_text_delta, function_args_delta, output_item_added,
  response_completed,
}
use codex_sub_proxy.Chat.Stream.{Identity, Chunk, Tool, Stream, alias_of}
use codex_sub_proxy.Chat.Output.{Formats, ToolCall, Completion, tool_calls, chat_completion_payload}
use codex_sub_proxy.Chat.Event.{run_stream, stream_event, new_stream}
use codex_sub_proxy.Chat.Sent.{sent_text, sent_arguments}
use codex_sub_proxy.Chat.Streamed.{due}
use codex_sub_proxy.Chat.Complete.{some_call}
use codex_sub_proxy.Chat.Heads.{sent_heads, heads_due, DistinctIds, Foreseen}
use codex_sub_proxy.Chat.Run.{CallsSent, run_stream-sent, terminal_event-completion}
use codex_sub_proxy.Quota.Tests.{no_rows}

abbrev formats : Formats
formats = record { valid_utf8 = λ _. true; valid_json = λ _. true }

abbrev takes_all : List Chunk → Chunk → Bool
takes_all sent chunk = true

abbrev me : Identity
me = record { id = b'c' ∷ []; model = b'm' ∷ []; created = 5 }

abbrev call_item : Item
call_item = record {
  type = function_call;
  id = b'i' ∷ [];
  call_id = b'k' ∷ [];
  name = b'f' ∷ [];
  arguments = b'{' ∷ b'}' ∷ [];
  role = no_role;
  content = [];
}

-- A call that only the response has.
abbrev other_item : Item
other_item = record call_item { id = b'j' ∷ []; call_id = b'q' ∷ [] }

abbrev text_item : Item
text_item = record {
  type = message;
  id = b't' ∷ [];
  call_id = [];
  name = [];
  arguments = [];
  role = assistant;
  content = record { type = output_text; text = b'h' ∷ b'e' ∷ b'y' ∷ []; annotated = false } ∷ [];
}

abbrev answer : Response
answer = record {
  id = b'r' ∷ [];
  model = b'g' ∷ [];
  created_at = pos 7;
  status = other_status;
  error = false;
  incomplete_reason = none;
  output = text_item ∷ call_item ∷ other_item ∷ [];
  output_text = [];
  usage = none;
}

abbrev blank_event : EventType → StreamEvent
blank_event type = record {
  type = type;
  response = none;
  error = false;
  annotation = false;
  part = none;
  item = none;
  item_id = [];
  delta = [];
  text = [];
  arguments = [];
}

abbrev events : List StreamEvent
events =
    record (blank_event output_text_delta) { delta = b'h' ∷ b'e' ∷ [] }
    ∷ record (blank_event output_item_added) { item = some (record call_item { arguments = [] }) }
    ∷ record (blank_event function_args_delta) { item_id = b'i' ∷ []; delta = b'{' ∷ [] }
    ∷ []

abbrev last_event : StreamEvent
last_event = record (blank_event response_completed) { response = some answer }

abbrev start : Stream
start = new_stream me false none no_rows

abbrev before : Stream
before = (run_stream formats takes_all 9 events start).1

abbrev after : Stream
after = (stream_event formats takes_all 9 last_event before).1

abbrev whole : Completion
whole = record {
  text = b'h' ∷ b'e' ∷ b'y' ∷ [];
  tools =
      record { id = b'k' ∷ []; name = b'f' ∷ []; arguments = b'{' ∷ b'}' ∷ [] }
      ∷ record { id = b'q' ∷ []; name = b'f' ∷ []; arguments = b'{' ∷ b'}' ∷ [] }
      ∷ [];
  reason = tool_calls;
  usage = record {
    prompt_tokens = 0;
    completion_tokens = 0;
    total_tokens = 0;
    cached_tokens = 0;
    cached_tokens_known = false;
    reasoning_tokens = 0;
    reasoning_tokens_known = false;
  };
}

chunks_sent : (length after.chunks ≡ 9) × (after.finish_sent ≡ true)
unfolding run_stream new_stream
chunks_sent = (refl, refl)

run_stream-sent_example :
    (sent_text before.chunks ≡ before.text)
    × ((i : ℕ) → sent_arguments i before.chunks ≡ due (get_elem? before.tools i))
unfolding run_stream new_stream
run_stream-sent_example =
    run_stream-sent formats takes_all 9 me false none no_rows events before refl

tool_of : (t u : Tool) → some t ≡ some u → t ≡ u
tool_of t u e = ap (λ o. elim o [ some v ↦ v | none ↦ t ]) e

later_index : (i : ℕ) → (suc i == 0) ≡ false
later_index i = ground arith

heads_are : (i : ℕ) → sent_heads i before.chunks ≡ heads_due (get_elem? before.tools i)
unfolding run_stream new_stream sent_heads
heads_are zero = refl
heads_are (suc i) =
    ap (λ (b : Bool). (if b then (b'k' ∷ [], b'f' ∷ []) ∷ [] else []) ++ []) (later_index i)

named_are :
    (i : ℕ) (t : Tool)
    → get_elem? before.tools i ≡ some t
    → (call : ToolCall) × (get_elem? whole.tools i ≡ some call)
      × (t.id ≡ call.id)
      × (t.name ≡ call.name)
unfolding run_stream new_stream
named_are zero t e = (
  record { id = b'k' ∷ []; name = b'f' ∷ []; arguments = b'{' ∷ b'}' ∷ [] },
  refl,
  ap (λ (u : Tool). u.id) (sym (tool_of _ t e)),
  ap (λ (u : Tool). u.name) (sym (tool_of _ t e)),
)
named_are (suc i) t e = cc

fresh_are :
    (k : ℕ) (call : ToolCall)
    → get_elem? whole.tools k ≡ some call
    → get_elem? before.tools k ≡ none
    → alias_of call.id before.aliases ≡ none
unfolding run_stream new_stream
fresh_are zero call at e = cc
fresh_are (suc zero) call at e =
    subst (λ (c : ToolCall). alias_of c.id before.aliases ≡ none) (some_call _ call at) refl
fresh_are (suc (suc k)) call at e = cc

before-Foreseen : Foreseen whole.tools before
before-Foreseen = record { heads = heads_are; named = named_are; fresh = fresh_are }

whole_DistinctIds : DistinctIds whole.tools
whole_DistinctIds zero zero a b at_a at_b e = refl
whole_DistinctIds zero (suc zero) a b at_a at_b e = ground (arith, at_a, at_b, e)
whole_DistinctIds zero (suc (suc k)) a b at_a at_b e = cc
whole_DistinctIds (suc zero) zero a b at_a at_b e = ground (arith, at_a, at_b, e)
whole_DistinctIds (suc zero) (suc zero) a b at_a at_b e = refl
whole_DistinctIds (suc zero) (suc (suc k)) a b at_a at_b e = cc
whole_DistinctIds (suc (suc j)) k a b at_a at_b e = cc

terminal_event-completion_example :
    (sent_text after.chunks ≡ whole.text)
    × CallsSent formats takes_all 9 whole.tools after.chunks
    × (after.finish_sent ≡ true)
unfolding run_stream new_stream chat_completion_payload
terminal_event-completion_example =
    terminal_event-completion formats takes_all 9 me false none no_rows events before last_event
      after answer whole refl before-Foreseen whole_DistinctIds refl refl refl refl refl
