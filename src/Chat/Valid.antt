-- ===== src/Chat/Valid.antt =====
-- The tool calls of a response have ids and arguments (internal/server/chat.go, chatResponseOutput).

use codex_sub_proxy.Prelude.{
  ℕ, zero, suc, ◌≡◌, refl, ap, none, subst, List, [], ◌∷◌, ◌++◌, false, ltb, ◌||◌, not, length,
  get_elem?, some, ◌&&◌, fail_if, bind_inv, bound, Result, ok, err, ◌>>=◌, arith, if◌then◌else◌,
}
use codex_sub_proxy.Prelude.Bytes.{Bytes, is_blank}
use codex_sub_proxy.Chat.Types.{
  ChatError, Item, message, reasoning, function_call, other_item, no_role, assistant, other_role,
  Response, invalid_role, not_representable, text_too_large,
}
use codex_sub_proxy.Chat.Output.{
  Formats, max_chat_string_bytes, ToolCall, chat_output_tool, message_text, with_tools, add_tool,
  output_item, output_items, chat_response_output,
}

abbrev IsWhole : ToolCall → Type 0
IsWhole call = (is_blank call.arguments ≡ false) × (is_blank call.id ≡ false)

-- No call of the list has blank arguments or a blank id.
abbrev pub NoneBlank : List ToolCall → Type 0
NoneBlank calls = (k : ℕ) (call : ToolCall) → get_elem? calls k ≡ some call → IsWhole call

NoneBlank-snoc :
    (calls : List ToolCall) (c : ToolCall)
    → NoneBlank calls
    → IsWhole c
    → NoneBlank (calls ++ c ∷ [])
NoneBlank-snoc [] c all own zero call at =
    subst IsWhole (ap (λ o. elim o [ some d ↦ d | none ↦ c ]) at) own
NoneBlank-snoc [] c all own (suc k) call at = cc
NoneBlank-snoc (d ∷ calls) c all own zero call at = all 0 call at
NoneBlank-snoc (d ∷ calls) c all own (suc k) call at =
    NoneBlank-snoc calls c (λ m. all (suc m)) own k call at

module _ (f : Formats) where
  tool-IsWhole : (item : Item) (c : ToolCall) → chat_output_tool f item ≡ ok c → IsWhole c
  unfolding chat_output_tool
  tool-IsWhole item c is = (ground (arith, is), ground (arith, is))

  -- A result that keeps the calls so.
  abbrev Whole : Result ChatError (Bytes × List ToolCall) → Type 0
  Whole r = (out : Bytes × List ToolCall) → r ≡ ok out → NoneBlank out.1

  text_Whole :
      (tools : List ToolCall) (r : Result ChatError Bytes)
      → NoneBlank tools
      → Whole (with_tools f tools r)
  text_Whole tools (ok text) all out is = ground (arith, all, is)
  text_Whole tools (err e) all out is = cc

  tool_Whole :
      (text : Bytes) (tools : List ToolCall) (r : Result ChatError ToolCall)
      → NoneBlank tools
      → ((c : ToolCall) → r ≡ ok c → IsWhole c)
      → Whole (add_tool f text tools r)
  tool_Whole text tools (ok c) all whole out is =
      subst (λ o. elim o [ ok p ↦ NoneBlank p.1 | err e ↦ Unit ]) is
        (NoneBlank-snoc tools c all (whole c refl))
  tool_Whole text tools (err e) all whole out is = cc

  item_Whole :
      (item : Item) (text : Bytes) (tools : List ToolCall)
      → NoneBlank tools
      → Whole (output_item f item text tools)
  unfolding output_item
  item_Whole item text tools all =
      elim item.type
        as (λ t. Whole (elim t as (λ _. Result ChatError (Bytes × List ToolCall)) [
          | message ↦ elim item.role [
            | no_role ↦ with_tools f tools (message_text f item.content text)
            | assistant ↦ with_tools f tools (message_text f item.content text)
            | other_role ↦ err invalid_role
          ]
          | reasoning ↦ ok (text, tools)
          | function_call ↦ add_tool f text tools (chat_output_tool f item)
          | other_item ↦ err not_representable
        ])) [
          | message ↦
              elim item.role
                as (λ r. Whole (elim r as (λ _. Result ChatError (Bytes × List ToolCall)) [
                  | no_role ↦ with_tools f tools (message_text f item.content text)
                  | assistant ↦ with_tools f tools (message_text f item.content text)
                  | other_role ↦ err invalid_role
                ])) [
                  | no_role ↦ text_Whole tools (message_text f item.content text) all
                  | assistant ↦ text_Whole tools (message_text f item.content text) all
                  | other_role ↦ λ out is. cc
                ]
          | reasoning ↦ text_Whole tools (ok text) all
          | function_call ↦ tool_Whole text tools (chat_output_tool f item) all (tool-IsWhole item)
          | other_item ↦ λ out is. cc
        ]

  items_Whole :
      (items : List Item) (text : Bytes) (tools : List ToolCall)
      → NoneBlank tools
      → Whole (output_items f items text tools)
  unfolding output_items
  items_Whole [] text tools all out is = text_Whole tools (ok text) all out is
  items_Whole (item ∷ items) text tools all out is =
      elim (bind_inv (output_item f item text tools)
        (λ (text', tools'). output_items f items text' tools') is) [
          | bound step first rest ↦
              items_Whole items step.0 step.1 (item_Whole item text tools all step first) out rest
        ]

  -- chatResponseOutput
  pub chat_response_output-NoneBlank :
      (response : Response) (text : Bytes) (calls : List ToolCall)
      → chat_response_output f response ≡ ok (text, calls)
      → NoneBlank calls
  unfolding chat_response_output
  chat_response_output-NoneBlank response text calls is =
      elim (bind_inv (output_items f response.output [] [])
        (λ (parts, tools).
          let t =
            if is_blank parts && not (is_blank response.output_text)
            then response.output_text
            else parts in
          fail_if (ltb max_chat_string_bytes (length t) || not (f.valid_utf8 t)) text_too_large
          >>= λ _. ok (t, tools))
        is) [
          | bound parts first rest ↦
              subst NoneBlank (ground (arith, rest))
                (items_Whole response.output [] [] (λ k call at. cc) parts first)
        ]
