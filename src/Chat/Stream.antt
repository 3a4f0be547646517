-- ===== src/Chat/Stream.antt =====
-- internal/server/chat.go, chatStreamState: the state of a chat stream and the methods that write to
-- it. A pointer to a tool is its index in the list of tools, which only grows. A method gives back
-- the state also when it fails.
use codex_sub_proxy.Prelude.{
  ℕ, zero, suc, ◌-◌, List, [], ◌∷◌, ◌++◌, Bool, true, false, ◌&&◌, ◌||◌, not, ltb, leb, length,
  drop, get_elem?, Option, none, some, Result, ok, err, if◌then◌else◌,
}
use codex_sub_proxy.Prelude.Bytes.{Bytes, is_blank, same, has_prefix}
use codex_sub_proxy.Quota.Types.{Db}
use codex_sub_proxy.Lease.{Lease}
use codex_sub_proxy.Chat.Types.{
  Response, ChatError, text_too_large, text_inconsistent, invalid_tool_name, arguments_duplicated,
  arguments_too_large, arguments_inconsistent, invalid_arguments, usage_missing, duplicate_terminal,
  incomplete_tool, write_failed, no_tool,
}
use codex_sub_proxy.Chat.Output.{
  Formats, max_chat_string_bytes, max_chat_arguments_bytes, valid_identifier, valid_chat_json,
  ToolCall, chat_response_output, FinishReason, chat_finish_reason, ChatUsage,
}

-- chatIdentity: what each chunk carries.
pub record Identity : Type 0 where
  pub id : Bytes
  pub model : Bytes
  pub created : ℕ

-- The delta of a chunk: the role, a piece of the text, the head of a tool call or a piece of its
-- arguments, with the tool's index, or the reason for the end.
pub data Delta : Type 0 where
  role_delta : Delta
  content : Bytes → Delta
  tool_head : ℕ → Bytes → Bytes → Delta
  tool_arguments : ℕ → Bytes → Delta
  finished : FinishReason → Delta

pub record Chunk : Type 0 where
  pub identity : Identity
  pub delta : Delta

-- chatToolStreamState
pub record Tool : Type 0 where
  pub id : Bytes
  pub name : Bytes
  pub arguments : Bytes
  pub emitted_bytes : ℕ
  pub metadata_sent : Bool
  pub final : Bool

-- What a stream can have failed of.
pub data Failure : Type 0 where
  aborted : ChatError → Failure
  upstream : Failure

-- chatStreamState, with the chunks that the writer has taken and the tables of the quota store.
pub record Stream : Type 0 where
  pub identity : Identity
  pub include_usage : Bool
  pub lease : Option Lease
  pub db : Db
  pub quota_failure : Bool
  pub role_sent : Bool
  pub finish_sent : Bool
  pub text : Bytes
  pub mapped_usage : Option ChatUsage
  pub response : Option Response
  pub failure : Option Failure
  pub write_error : Bool
  pub chunks : List Chunk
  pub tools : List Tool
  pub aliases : List (Bytes × ℕ)

-- A method of the state, which can fail.
abbrev pub M : Type 0 → Type 0
M A = Stream → Result ChatError A × Stream

infixl 5 ◌>>=◌ ◌>>◌
abbrev pub continue_with :
    {A B : Type 0} → Result ChatError A × Stream → (A → M B) → Result ChatError B × Stream
continue_with (ok a, s) f = f a s
continue_with (err e, s) f = (err e, s)

abbrev pub ◌>>=◌ : {A B : Type 0} → M A → (A → M B) → M B
◌>>=◌ m f s = continue_with (m s) f

abbrev pub ◌>>◌ : {B : Type 0} → M (Unit {0}) → M B → M B
m >> k = m >>= λ _. k

abbrev pub done : M (Unit {0})
done s = (ok tt, s)

abbrev pub give : {A : Type 0} → A → M A
give a s = (ok a, s)

abbrev pub throw : {A : Type 0} → ChatError → M A
throw e s = (err e, s)

abbrev pub fail_when : Bool → ChatError → M (Unit {0})
fail_when true e s = (err e, s)
fail_when false e s = (ok tt, s)

abbrev pub lift : {A : Type 0} → Result ChatError A → M A
lift r s = (r, s)

abbrev pub update : (Stream → Stream) → M (Unit {0})
update f s = (ok tt, f s)

-- A method that depends on the state.
abbrev pub given : {A : Type 0} → (Stream → M A) → M A
given f s = f s s

-- Writes through a pointer to a tool.
unfoldable pub set_at : ℕ → (Tool → Tool) → List Tool → List Tool
set_at i f [] = []
set_at zero f (t ∷ ts) = f t ∷ ts
set_at (suc i) f (t ∷ ts) = t ∷ set_at i f ts

abbrev pub change_tool : ℕ → (Tool → Tool) → M (Unit {0})
change_tool i f s = (ok tt, record s { tools = set_at i f s.tools })

abbrev pub found_tool : {A : Type 0} → Option Tool → (Tool → M A) → M A
found_tool none f s = (err no_tool, s)
found_tool (some t) f s = f t s

abbrev pub with_tool : {A : Type 0} → ℕ → (Tool → M A) → M A
with_tool i f s = found_tool (get_elem? s.tools i) f s

-- The aliases, a map from ids to tools.
abbrev pub alias_of : Bytes → List (Bytes × ℕ) → Option ℕ
alias_of id [] = none
alias_of id ((key, i) ∷ rest) =
    let later = alias_of id rest in if same key id then some i else later

abbrev pub add_alias : Bytes → ℕ → Stream → Stream
add_alias id i s = if is_blank id then s else record s { aliases = (id, i) ∷ s.aliases }

abbrev pub rename : Bytes → Tool → Tool
rename name t = if is_blank name then t else record t { name = name }

abbrev pub identify : Bytes → Bytes → Tool → Tool
identify call_id item_id t =
    if is_blank t.id then record t { id = if is_blank call_id then item_id else call_id } else t

abbrev pub alias_unless_blank : Bytes → List (Bytes × ℕ) → Option ℕ
alias_unless_blank id aliases = if is_blank id then none else alias_of id aliases

abbrev pub fresh_tool : Bytes → Bytes → Bytes → Tool
fresh_tool item_id call_id name = record {
  id = if is_blank call_id then item_id else call_id;
  name = name;
  arguments = [];
  emitted_bytes = 0;
  metadata_sent = false;
  final = false;
}

abbrev pub one_tool : List Tool → Bool
one_tool [] = false
one_tool (t ∷ []) = true
one_tool (t ∷ u ∷ ts) = false

abbrev pub new_tool : Bytes → Bytes → Bytes → Stream → Stream
new_tool item_id call_id name s = record s {
  tools = s.tools ++ fresh_tool item_id call_id name ∷ [];
}

-- The last part of `tool`: the only tool for a call without ids, or else a new one.
unfoldable pub last_tool : Bytes → Bytes → Bytes → M ℕ
last_tool item_id call_id name = given λ s.
    if is_blank item_id && is_blank call_id && one_tool s.tools
    then (do change_tool 0 (rename name); give 0)
    else (do
      update (new_tool item_id call_id name)
      update (add_alias item_id (length s.tools))
      update (add_alias call_id (length s.tools))
      give (length s.tools))

-- chatStreamState.tool
unfoldable pub tool : Bytes → Bytes → Bytes → M ℕ
unfolding last_tool
tool item_id call_id name = given λ s. elim (alias_unless_blank item_id s.aliases) [
  | some i ↦ do
    update (add_alias call_id i)
    change_tool i (λ t. identify call_id item_id (rename name t))
    give i
  | none ↦ elim (alias_unless_blank call_id s.aliases) [
    | some i ↦ do update (add_alias item_id i); change_tool i (rename name); give i
    | none ↦ last_tool item_id call_id name
  ]
]

abbrev pub tool_with_id : Bytes → ℕ → List Tool → Option ℕ
tool_with_id id i [] = none
tool_with_id id i (t ∷ ts) =
    let later = tool_with_id id (suc i) ts in
    if not (is_blank id) && same t.id id then some i else later

abbrev pub open_tool_named : Bytes → ℕ → List Tool → Option ℕ
open_tool_named name i [] = none
open_tool_named name i (t ∷ ts) =
    let later = open_tool_named name (suc i) ts in
    if not (is_blank name) && same t.name name && not t.final then some i else later

-- chatStreamState.outputTool
unfoldable pub output_tool : Bytes → Bytes → M ℕ
unfolding tool
output_tool id name = given λ s. elim (tool_with_id id 0 s.tools) [
  | some i ↦ give i
  | none ↦ elim (open_tool_named name 0 s.tools) [ some i ↦ give i | none ↦ tool id id name ]
]

-- The part of a text behind the bytes that have been sent.
abbrev pub unsent : Tool → Bytes
unsent t = drop t.emitted_bytes t.arguments

abbrev pub mark_emitted : Tool → Tool
mark_emitted t = record t { emitted_bytes = length t.arguments }

abbrev pub mark_metadata : Tool → Tool
mark_metadata t = record t { metadata_sent = true }

abbrev pub append_arguments : Bytes → Tool → Tool
append_arguments more t = record t { arguments = t.arguments ++ more }

abbrev pub mark_final : Tool → Tool
mark_final t = record t { final = true }

-- What a fragment adds to the arguments: a final one repeats them or goes on from them.
unfoldable pub addition : Bytes → Bytes → Bool → Result ChatError Bytes
addition current fragment final =
    if not (final && not (is_blank fragment))
    then ok fragment
    else if is_blank current
    then ok fragment
    else if same current fragment
    then ok []
    else if has_prefix fragment current
    then ok (drop (length current) fragment)
    else err arguments_inconsistent

abbrev pub is_some : {A : Type 0} → Option A → Bool
is_some none = false
is_some (some a) = true

module _ (f : Formats) (accepts : List Chunk → Chunk → Bool) where
  -- writeChunk; `accepts` is whether the chunk is small enough and the writer takes it, after the
  -- ones that it has taken.
  unfoldable pub write_chunk : Delta → M (Unit {0})
  write_chunk d s =
      let chunk : Chunk = record { identity = s.identity; delta = d } in
      if accepts s.chunks chunk
      then (ok tt, record s { chunks = s.chunks ++ chunk ∷ [] })
      else (err write_failed, s)

  unfoldable pub write_role : M (Unit {0})
  unfolding write_chunk
  write_role = given λ s.
      if s.role_sent
      then done
      else (do update (λ r. record r { role_sent = true }); write_chunk role_delta)

  unfoldable pub write_text : Bytes → M (Unit {0})
  unfolding write_chunk
  write_text text = given λ s. if is_blank text then done else (do
    fail_when
        (ltb max_chat_string_bytes (length text)
          || ltb (max_chat_string_bytes - length text) (length s.text))
        text_too_large
    write_chunk (content text)
    update (λ r. record r { text = r.text ++ text }))

  -- writeToolArgumentSuffix
  unfoldable pub write_tool_argument_suffix : ℕ → M (Unit {0})
  unfolding write_chunk set_at
  write_tool_argument_suffix i = with_tool i λ t.
      if leb (length t.arguments) t.emitted_bytes
      then done
      else (do change_tool i mark_emitted; write_chunk (tool_arguments i (unsent t)))

  -- writeToolMetadata
  unfoldable pub write_tool_metadata : ℕ → M (Unit {0})
  unfolding write_chunk set_at valid_identifier write_tool_argument_suffix
  write_tool_metadata i = with_tool i λ t.
      if t.metadata_sent || is_blank t.id || is_blank t.name then done else (do
        fail_when (not (valid_identifier t.name 64)) invalid_tool_name
        change_tool i mark_metadata
        write_chunk (tool_head i t.id t.name)
        write_tool_argument_suffix i)

  -- addToolArguments
  unfoldable pub add_tool_arguments : ℕ → Bytes → Bool → M (Unit {0})
  unfolding write_tool_argument_suffix addition set_at
  add_tool_arguments i fragment final = with_tool i λ t.
      if t.final
      then fail_when (not (is_blank fragment || same t.arguments fragment)) arguments_duplicated
      else (do
        fail_when
            (ltb max_chat_arguments_bytes (length fragment)
              || ltb (max_chat_arguments_bytes - length fragment) (length t.arguments))
            arguments_too_large
        more ← lift (addition t.arguments fragment final)
        change_tool i (append_arguments more)
        if t.metadata_sent then write_tool_argument_suffix i else done
        if not final then done else (do
          change_tool i mark_final
          with_tool i λ u. fail_when (not (valid_chat_json f u.arguments)) invalid_arguments))

  unfoldable pub reconcile_text : Bytes → M (Unit {0})
  unfolding write_text
  reconcile_text text = given λ s. do
    fail_when (ltb max_chat_string_bytes (length text) || not (has_prefix text s.text))
        text_inconsistent
    write_text (drop (length s.text) text)

  unfoldable pub validate_response : Response → M (Unit {0})
  unfolding chat_response_output
  validate_response response = given λ s. do
    output ← lift (chat_response_output f response)
    fail_when (ltb max_chat_string_bytes (length output.0) || not (has_prefix output.0 s.text))
        text_inconsistent

  -- The loop of reconcileResponse over the tool calls.
  unfoldable pub reconcile_tools : List ToolCall → M (Unit {0})
  unfolding output_tool write_tool_metadata add_tool_arguments
  reconcile_tools [] = done
  reconcile_tools (call ∷ calls) = do
    i ← output_tool call.id call.name
    write_tool_metadata i
    add_tool_arguments i call.arguments true
    reconcile_tools calls

  unfoldable pub reconcile_response : Response → M (Unit {0})
  unfolding chat_response_output reconcile_text reconcile_tools
  reconcile_response response = do
    output ← lift (chat_response_output f response)
    reconcile_text output.0
    reconcile_tools output.1

  abbrev pub is_complete : Tool → Bool
  is_complete t = not (is_blank t.id) && not (is_blank t.name) && valid_chat_json f t.arguments

  -- The loop of finish over the tools from an index on; `left` counts them.
  unfoldable pub finish_tools : ℕ → ℕ → M (Unit {0})
  unfolding write_tool_metadata
  finish_tools zero i = done
  finish_tools (suc left) i = do
    with_tool i λ t. fail_when (not (is_complete t)) incomplete_tool
    write_tool_metadata i
    finish_tools left (suc i)

  unfoldable pub finish : Response → M (Unit {0})
  unfolding finish_tools write_chunk chat_finish_reason
  finish response = given λ s. do
    fail_when s.finish_sent duplicate_terminal
    fail_when (s.include_usage && not (is_some s.mapped_usage)) usage_missing
    finish_tools (length s.tools) 0
    write_chunk (finished (chat_finish_reason response (length s.tools)))
    update (λ r. record r { finish_sent = true })
