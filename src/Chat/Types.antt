-- ===== src/Chat/Types.antt =====
-- The parts of an upstream response and of its events that internal/server/chat.go reads
-- (internal/codex/contracts.go). An enumeration has a constructor for each value that the code
-- compares with, and one for all others.
use codex_sub_proxy.Prelude.{List, Bool, Option}
use codex_sub_proxy.Prelude.Int.{ℤ}
use codex_sub_proxy.Prelude.Bytes.{Bytes}

pub data PartType : Type 0 where
  output_text : PartType
  refusal : PartType
  other_part : PartType

-- CodexContentPart; `annotated` is whether it has annotations.
pub record Part : Type 0 where
  pub type : PartType
  pub text : Bytes
  pub annotated : Bool

pub data ItemType : Type 0 where
  message : ItemType
  reasoning : ItemType
  function_call : ItemType
  other_item : ItemType

pub data Role : Type 0 where
  no_role : Role
  assistant : Role
  other_role : Role

-- CodexOutputItem
pub record Item : Type 0 where
  pub type : ItemType
  pub id : Bytes
  pub call_id : Bytes
  pub name : Bytes
  pub arguments : Bytes
  pub role : Role
  pub content : List Part

pub record InputDetails : Type 0 where
  pub cached_tokens : ℤ
  pub cache_write_tokens : ℤ
  pub orchestration_input_tokens : ℤ
  pub orchestration_input_cached_tokens : ℤ
  pub image_tokens : ℤ
  pub text_tokens : ℤ

pub record OutputDetails : Type 0 where
  pub reasoning_tokens : ℤ
  pub orchestration_output_tokens : ℤ
  pub image_tokens : ℤ
  pub text_tokens : ℤ

-- CodexUsage
pub record CodexUsage : Type 0 where
  pub input_tokens : ℤ
  pub output_tokens : ℤ
  pub total_tokens : ℤ
  pub prompt_cache_hit_tokens : ℤ
  pub input_tokens_details : Option InputDetails
  pub output_tokens_details : Option OutputDetails

pub data ResponseStatus : Type 0 where
  failed : ResponseStatus
  incomplete : ResponseStatus
  other_status : ResponseStatus

pub data IncompleteReason : Type 0 where
  max_output_tokens : IncompleteReason
  content_filter : IncompleteReason
  other_reason : IncompleteReason

-- CodexResponse; `error` is whether it has an error object.
pub record Response : Type 0 where
  pub id : Bytes
  pub model : Bytes
  pub created_at : ℤ
  pub status : ResponseStatus
  pub error : Bool
  pub incomplete_reason : Option IncompleteReason
  pub output : List Item
  pub output_text : Bytes
  pub usage : Option CodexUsage

-- The types of stream events; `progress` stands for the nine that the code passes over.
pub data EventType : Type 0 where
  progress : EventType
  output_text_delta : EventType
  output_text_done : EventType
  content_part_added : EventType
  content_part_done : EventType
  output_item_added : EventType
  output_item_done : EventType
  function_args_delta : EventType
  function_args_done : EventType
  response_completed : EventType
  response_done : EventType
  response_incomplete : EventType
  response_failed : EventType
  error_event : EventType
  other_event : EventType

-- CodexResponseStreamEvent; `error` and `annotation` are whether it has one.
pub record StreamEvent : Type 0 where
  pub type : EventType
  pub response : Option Response
  pub error : Bool
  pub annotation : Bool
  pub part : Option Part
  pub item : Option Item
  pub item_id : Bytes
  pub delta : Bytes
  pub text : Bytes
  pub arguments : Bytes

-- The errors of the translation, without their texts.
pub data ChatError : Type 0 where
  stream_abort : ChatError
  response_missing : ChatError
  upstream_failed : ChatError
  invalid_role : ChatError
  annotations : ChatError
  refused : ChatError
  not_representable : ChatError
  text_too_large : ChatError
  text_inconsistent : ChatError
  invalid_tool : ChatError
  invalid_tool_name : ChatError
  arguments_duplicated : ChatError
  arguments_too_large : ChatError
  arguments_inconsistent : ChatError
  invalid_arguments : ChatError
  part_missing : ChatError
  item_missing : ChatError
  usage_missing : ChatError
  invalid_usage : ChatError
  quota_finalization : ChatError
  duplicate_terminal : ChatError
  incomplete_tool : ChatError
  write_failed : ChatError
  -- A pointer to a tool that is not in the list.
  no_tool : ChatError
