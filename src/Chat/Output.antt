-- ===== src/Chat/Output.antt =====
-- internal/server/chat.go: the completion that is sent in one piece. chatResponseOutput gives the
-- text and the tool calls of a response, chatResponseUsage its usage.
use codex_sub_proxy.Prelude.{
  ℕ, ◌+◌, ◌-◌, List, [], ◌∷◌, ◌++◌, Bool, true, false, ◌&&◌, ◌||◌, not, ltb, leb, ◌==◌, length,
  Option, none, some, Result, ok, err, ◌>>=◌, ◌>>◌, fail_if, if◌then◌else◌,
}
use codex_sub_proxy.Prelude.Int.{ℤ, pos, negsuc}
use codex_sub_proxy.Prelude.Bytes.{Bytes, is_blank}
use codex_sub_proxy.Quota.Limits.{max_int64}
use codex_sub_proxy.Quota.Types.{Amounts}
use codex_sub_proxy.Chat.Types.{
  Part, output_text, refusal, other_part, Item, message, reasoning, function_call, other_item,
  no_role, assistant, other_role, CodexUsage, InputDetails, OutputDetails, Response, failed,
  incomplete, other_status, max_output_tokens, content_filter, other_reason, ChatError,
  upstream_failed, invalid_role, annotations, refused, not_representable, text_too_large,
  invalid_tool, invalid_usage,
}

abbrev pub max_chat_string_bytes : ℕ
max_chat_string_bytes = 1048576

abbrev pub max_chat_arguments_bytes : ℕ
max_chat_arguments_bytes = 1048576

-- What the code asks of libraries: whether a text is UTF-8, and whether it is a JSON value that
-- walkChatJSON accepts too.
pub record Formats : Type 0 where
  pub valid_utf8 : Bytes → Bool
  pub valid_json : Bytes → Bool

abbrev between : ℕ → ℕ → ℕ → Bool
between low high c = leb low c && leb c high

unfoldable pub identifier_bytes : Bytes → Bool
identifier_bytes [] = true
identifier_bytes (c ∷ cs) =
    (between b'a' b'z' c || between b'A' b'Z' c || between b'0' b'9' c || c == b'_' || c == b'-')
    && identifier_bytes cs

-- validateChatIdentifier; its bytes are ASCII, so it is UTF-8.
unfoldable pub valid_identifier : Bytes → ℕ → Bool
unfolding identifier_bytes
valid_identifier value max_bytes =
    not (ltb max_bytes (length value)) && not (is_blank value) && identifier_bytes value

unfoldable pub append_bounded_chat_text : Bytes → Bytes → Result ChatError Bytes
append_bounded_chat_text target value = do
  fail_if
      (ltb max_chat_string_bytes (length value)
        || ltb (max_chat_string_bytes - length value) (length target))
      text_too_large
  ok (target ++ value)

-- ChatToolCallOut
pub record ToolCall : Type 0 where
  pub id : Bytes
  pub name : Bytes
  pub arguments : Bytes

module _ (f : Formats) where
  -- validateChatJSONValue, after its size test.
  abbrev pub valid_chat_json : Bytes → Bool
  valid_chat_json raw = not (is_blank raw) && f.valid_json raw

  unfoldable pub chat_output_tool : Item → Result ChatError ToolCall
  unfolding valid_identifier
  chat_output_tool item =
      let id = if is_blank item.call_id then item.id else item.call_id in
      if is_blank id
        || not (valid_identifier item.name 64)
        || ltb max_chat_arguments_bytes (length item.arguments)
        || not (valid_chat_json item.arguments)
      then err invalid_tool
      else ok (record { id = id; name = item.name; arguments = item.arguments })

  -- The parts of a message, behind the text so far.
  unfoldable pub message_text : List Part → Bytes → Result ChatError Bytes
  unfolding append_bounded_chat_text
  message_text [] text = ok text
  message_text (part ∷ parts) text = do
    more ← elim part.type [
      | output_text ↦ do fail_if part.annotated annotations; append_bounded_chat_text text part.text
      | refusal ↦ err refused
      | other_part ↦ err not_representable
    ]
    message_text parts more

  abbrev pub with_tools :
      List ToolCall → Result ChatError Bytes → Result ChatError (Bytes × List ToolCall)
  with_tools tools (ok text) = ok (text, tools)
  with_tools tools (err e) = err e

  abbrev pub add_tool :
      Bytes → List ToolCall → Result ChatError ToolCall → Result ChatError (Bytes × List ToolCall)
  add_tool text tools (ok tool) = ok (text, tools ++ tool ∷ [])
  add_tool text tools (err e) = err e

  -- One item of the output, with the text and the tool calls so far.
  unfoldable pub output_item :
      Item → Bytes → List ToolCall → Result ChatError (Bytes × List ToolCall)
  unfolding message_text chat_output_tool
  output_item item text tools = elim item.type [
    | message ↦ elim item.role [
      | no_role ↦ with_tools tools (message_text item.content text)
      | assistant ↦ with_tools tools (message_text item.content text)
      | other_role ↦ err invalid_role
    ]
    | reasoning ↦ ok (text, tools)
    | function_call ↦ add_tool text tools (chat_output_tool item)
    | other_item ↦ err not_representable
  ]

  -- The loop of chatResponseOutput.
  unfoldable pub output_items :
      List Item → Bytes → List ToolCall → Result ChatError (Bytes × List ToolCall)
  unfolding output_item
  output_items [] text tools = ok (text, tools)
  output_items (item ∷ items) text tools = do
    (text', tools') ← output_item item text tools
    output_items items text' tools'

  unfoldable pub chat_response_output : Response → Result ChatError (Bytes × List ToolCall)
  unfolding output_items
  chat_response_output response = do
    (parts, tools) ← output_items response.output [] []
    let text =
        if is_blank parts && not (is_blank response.output_text)
        then response.output_text
        else parts
    fail_if (ltb max_chat_string_bytes (length text) || not (f.valid_utf8 text)) text_too_large
    ok (text, tools)

-- chatFinishReason
pub data FinishReason : Type 0 where
  length_reached : FinishReason
  filtered : FinishReason
  tool_calls : FinishReason
  stop : FinishReason

abbrev by_tools : ℕ → FinishReason
by_tools count = if ltb 0 count then tool_calls else stop

unfoldable pub chat_finish_reason : Response → ℕ → FinishReason
chat_finish_reason response count = elim response.status [
  | incomplete ↦ elim response.incomplete_reason [
    | some max_output_tokens ↦ length_reached
    | some content_filter ↦ filtered
    | some other_reason ↦ by_tools count
    | none ↦ by_tools count
  ]
  | failed ↦ by_tools count
  | other_status ↦ by_tools count
]

-- ChatCompletionUsage
pub record ChatUsage : Type 0 where
  pub prompt_tokens : ℕ
  pub completion_tokens : ℕ
  pub total_tokens : ℕ
  pub cached_tokens : ℕ
  pub cached_tokens_known : Bool
  pub reasoning_tokens : ℕ
  pub reasoning_tokens_known : Bool

abbrev pub count : ℤ → Result ChatError ℕ
count (pos n) = ok n
count (negsuc n) = err invalid_usage

-- The sum stands in for a total that is not given.
abbrev pub total_of : ℕ → ℕ → ℕ → Result ChatError ℕ
total_of input output total =
    if total == 0
    then (do fail_if (ltb (max_int64 - output) input) invalid_usage; ok (input + output))
    else ok total

abbrev pub cached_of : Option InputDetails → ℕ → Result ChatError (ℕ × Bool)
cached_of none hits = ok (hits, ltb 0 hits)
cached_of (some d) hits = do
  cached ← count d.cached_tokens
  images ← count d.image_tokens
  texts ← count d.text_tokens
  ok (cached, true)

abbrev pub reasoning_of : Option OutputDetails → Result ChatError (ℕ × Bool)
reasoning_of none = ok (0, false)
reasoning_of (some d) = do
  reasoned ← count d.reasoning_tokens
  images ← count d.image_tokens
  texts ← count d.text_tokens
  ok (reasoned, true)

abbrev no_usage : ChatUsage
no_usage = record {
  prompt_tokens = 0;
  completion_tokens = 0;
  total_tokens = 0;
  cached_tokens = 0;
  cached_tokens_known = false;
  reasoning_tokens = 0;
  reasoning_tokens_known = false;
}

unfoldable pub chat_response_usage : Option CodexUsage → Result ChatError ChatUsage
chat_response_usage none = ok no_usage
chat_response_usage (some u) = do
  input ← count u.input_tokens
  output ← count u.output_tokens
  given ← count u.total_tokens
  hits ← count u.prompt_cache_hit_tokens
  total ← total_of input output given
  (cached, cached_known) ← cached_of u.input_tokens_details hits
  (reasoned, reasoned_known) ← reasoning_of u.output_tokens_details
  ok (record {
    prompt_tokens = input;
    completion_tokens = output;
    total_tokens = total;
    cached_tokens = cached;
    cached_tokens_known = cached_known;
    reasoning_tokens = reasoned;
    reasoning_tokens_known = reasoned_known;
  })

-- internal/server/quota.go: validateQuotaUsageFromCodex and quotaUsageFromCodex without images.
abbrev checked_input : Option InputDetails → Result ChatError ℕ
checked_input none = ok 0
checked_input (some d) = do
  a ← count d.cached_tokens
  b ← count d.cache_write_tokens
  c ← count d.orchestration_input_tokens
  e ← count d.orchestration_input_cached_tokens
  g ← count d.image_tokens
  count d.text_tokens

abbrev checked_output : Option OutputDetails → Result ChatError ℕ
checked_output none = ok 0
checked_output (some d) = do
  a ← count d.reasoning_tokens
  b ← count d.orchestration_output_tokens
  c ← count d.image_tokens
  count d.text_tokens

unfoldable pub validate_quota_usage_from_codex : Option CodexUsage → Result ChatError ℕ
validate_quota_usage_from_codex none = ok 0
validate_quota_usage_from_codex (some u) = do
  a ← count u.input_tokens
  b ← count u.output_tokens
  c ← count u.total_tokens
  d ← count u.prompt_cache_hit_tokens
  e ← checked_input u.input_tokens_details
  checked_output u.output_tokens_details

abbrev pub tokens_of : Option CodexUsage → ℤ
tokens_of none = pos 0
tokens_of (some u) = u.total_tokens

unfoldable pub quota_usage_from_codex : Option CodexUsage → Amounts ℤ
quota_usage_from_codex usage = record {
  requests = pos 1;
  tokens = tokens_of usage;
  images = pos 0;
  cost_microunits = pos 0;
}

-- What chatCompletionPayload puts into the one answer: the text, the tool calls, the reason and the
-- usage.
pub record Completion : Type 0 where
  pub text : Bytes
  pub tools : List ToolCall
  pub reason : FinishReason
  pub usage : ChatUsage

unfoldable pub chat_completion_payload : Formats → Response → Result ChatError Completion
unfolding chat_response_output chat_response_usage chat_finish_reason
chat_completion_payload f response = do
  fail_if
      (elim response.status [ failed ↦ true | incomplete ↦ false | other_status ↦ false ]
        || response.error)
      upstream_failed
  (text, tools) ← chat_response_output f response
  usage ← chat_response_usage response.usage
  ok (record {
    text = text;
    tools = tools;
    reason = chat_finish_reason response (length tools);
    usage = usage;
  })
