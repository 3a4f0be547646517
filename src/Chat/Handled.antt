-- ===== src/Chat/Handled.antt =====
-- Every event of a chat stream keeps its invariant (internal/server/chat.go, event).
use codex_sub_proxy.Prelude.{
  ℕ, List, [], ◌++◌, Bool, true, false, Option, none, some, Result, if◌then◌else◌,
}
use codex_sub_proxy.Prelude.Bytes.{Bytes, is_blank}
use codex_sub_proxy.Chat.Types.{
  ChatError, StreamEvent, Item, message, reasoning, function_call, other_item, not_representable,
  progress, output_text_delta, output_text_done, content_part_added, content_part_done,
  output_item_added, output_item_done, function_args_delta, function_args_done, response_completed,
  response_done, response_incomplete, response_failed, error_event, other_event, Part, annotations,
}
use codex_sub_proxy.Chat.Stream.{
  Chunk, M, ◌>>=◌, ◌>>◌, done, throw, fail_when, lift, tool, write_role, write_text,
  write_tool_metadata, add_tool_arguments, reconcile_text,
}
use codex_sub_proxy.Chat.Output.{Formats}
use codex_sub_proxy.Chat.Event.{
  or_abort, or_note, part_text, stream_message_text, role_and_text, text_delta, text_done,
  content_part, function_item, output_item_event, function_arguments, progress_event, text_or,
}
use codex_sub_proxy.Chat.Sent.{Ensures}
use codex_sub_proxy.Chat.Streamed.{write_role-Streamed, write_text-Streamed}
use codex_sub_proxy.Chat.Kept.{
  Good, Keeps, then_Keeps, abort_Keeps, note_Keeps, done-Keeps, lift-Keeps, fail_when-Keeps,
  if_Keeps, kept,
}
use codex_sub_proxy.Chat.Methods.{write_tool_metadata-Streamed}
use codex_sub_proxy.Chat.Arguments.{add_tool_arguments-Streamed}
use codex_sub_proxy.Chat.Reconciled.{tool-Streamed, reconcile_text-Streamed}

module _ (f : Formats) (accepts : List Chunk → Chunk → Bool) (now : ℕ) where
  pub role_Keeps : Keeps (or_note (write_role f accepts))
  role_Keeps =
      note_Keeps (write_role f accepts)
        (kept (write_role f accepts) (λ s. s.text) (λ s. write_role-Streamed accepts f s.text s))

  reconcile_Keeps : (text : Bytes) → Keeps (or_abort (reconcile_text f accepts text))
  reconcile_Keeps text = abort_Keeps (reconcile_text f accepts text) (
      kept (reconcile_text f accepts text) (λ _. text)
        (λ s. reconcile_text-Streamed accepts f s.text text s))

  tool_Keeps : (item_id call_id name : Bytes) → Keeps (tool item_id call_id name)
  tool_Keeps item_id call_id name =
      kept (tool item_id call_id name) (λ s. s.text)
        (λ s. tool-Streamed s.text item_id call_id name s)

  metadata_Keeps : (i : ℕ) → Keeps (or_note (write_tool_metadata f accepts i))
  metadata_Keeps i = note_Keeps (write_tool_metadata f accepts i) (
      kept (write_tool_metadata f accepts i) (λ s. s.text)
        (λ s. write_tool_metadata-Streamed accepts f s.text i s))

  arguments_Keeps :
      (i : ℕ) (fragment : Bytes) (final : Bool)
      → Keeps (or_abort (add_tool_arguments f accepts i fragment final))
  arguments_Keeps i fragment final = abort_Keeps (add_tool_arguments f accepts i fragment final) (
      kept (add_tool_arguments f accepts i fragment final) (λ s. s.text)
        (λ s. add_tool_arguments-Streamed accepts f s.text i fragment final s))

  role_and_text-Keeps : (text : Bytes) → Keeps (role_and_text f accepts now text)
  role_and_text-Keeps text =
      then_Keeps (or_note (write_role f accepts))
        (λ _. if is_blank text then done else or_abort (reconcile_text f accepts text)) role_Keeps
        (λ _.
          if_Keeps (is_blank text) done (or_abort (reconcile_text f accepts text)) done-Keeps
            (reconcile_Keeps text))

  part_check_Keeps :
      (part : Option Part)
      → Keeps (elim part as (λ _. M (Unit {0})) [
        | none ↦ done
        | some p ↦ lift (part_text f (some p)) >>= λ _. done
      ])
  part_check_Keeps none = done-Keeps
  part_check_Keeps (some p) =
      then_Keeps (lift (part_text f (some p))) (λ _. done) (lift-Keeps (part_text f (some p)))
        (λ _. done-Keeps)

  text_delta-Keeps : (event : StreamEvent) → Keeps (text_delta f accepts now event)
  unfolding text_delta
  text_delta-Keeps event =
      let write =
        if is_blank event.delta then done else or_note (write_text f accepts event.delta) in
      let part : M (Unit {0}) = elim event.part [
        | none ↦ done
        | some p ↦ lift (part_text f (some p)) >>= λ _. done
      ] in
      then_Keeps (or_abort (fail_when event.annotation annotations))
        (λ _. or_abort part >> (or_note (write_role f accepts) >> write))
        (abort_Keeps (fail_when event.annotation annotations)
          (fail_when-Keeps event.annotation annotations))
        (λ _.
          then_Keeps (or_abort part) (λ _. or_note (write_role f accepts) >> write)
            (abort_Keeps part (part_check_Keeps event.part))
            (λ _.
              then_Keeps (or_note (write_role f accepts)) (λ _. write) role_Keeps
                (λ _.
                  if_Keeps (is_blank event.delta) done (or_note (write_text f accepts event.delta))
                    done-Keeps
                    (note_Keeps (write_text f accepts event.delta) (
                      kept (write_text f accepts event.delta) (λ s. s.text ++ event.delta)
                        (λ s. write_text-Streamed accepts f s.text event.delta s))))))

  text_done-Keeps : (event : StreamEvent) → Keeps (text_done f accepts now event)
  unfolding text_done
  text_done-Keeps event =
      then_Keeps (or_abort (fail_when event.annotation annotations))
        (λ _. role_and_text f accepts now event.text)
        (abort_Keeps (fail_when event.annotation annotations)
          (fail_when-Keeps event.annotation annotations))
        (λ _. role_and_text-Keeps event.text)

  lifted_text_Keeps :
      (r : Result ChatError Bytes) → Keeps (or_abort (lift r) >>= role_and_text f accepts now)
  lifted_text_Keeps r =
      then_Keeps (or_abort (lift r)) (role_and_text f accepts now)
        (abort_Keeps (lift r) (lift-Keeps r)) role_and_text-Keeps

  function_item-Keeps : (item : Item) → Keeps (function_item f accepts now item)
  unfolding function_item
  function_item-Keeps item =
      let rest = λ (i : ℕ).
        or_note (write_tool_metadata f accepts i)
        >> (if is_blank item.arguments
            then done
            else or_abort (add_tool_arguments f accepts i item.arguments true)) in
      then_Keeps (or_note (write_role f accepts))
        (λ _. tool item.id item.call_id item.name >>= rest) role_Keeps
        (λ _.
          then_Keeps (tool item.id item.call_id item.name) rest
            (tool_Keeps item.id item.call_id item.name)
            (λ i.
              then_Keeps (or_note (write_tool_metadata f accepts i))
                (λ _.
                  if is_blank item.arguments
                  then done
                  else or_abort (add_tool_arguments f accepts i item.arguments true))
                (metadata_Keeps i)
                (λ _.
                  if_Keeps (is_blank item.arguments) done
                    (or_abort (add_tool_arguments f accepts i item.arguments true)) done-Keeps
                    (arguments_Keeps i item.arguments true))))

  function_arguments-Keeps :
      (item_id fragment : Bytes) (final : Bool)
      → Keeps (function_arguments f accepts now item_id fragment final)
  unfolding function_arguments
  function_arguments-Keeps item_id fragment final =
      then_Keeps (or_note (write_role f accepts))
        (λ _. tool item_id [] [] >>= λ i. or_abort (add_tool_arguments f accepts i fragment final))
        role_Keeps
        (λ _.
          then_Keeps (tool item_id [] [])
            (λ i. or_abort (add_tool_arguments f accepts i fragment final))
            (tool_Keeps item_id [] []) (λ i. arguments_Keeps i fragment final))

  item_Keeps : (item : Option Item) → Keeps (output_item_event f accepts now item)
  unfolding output_item_event
  item_Keeps none s h = tt
  item_Keeps (some item) s h =
      elim item.type
        as (λ t.
          Ensures (λ _. Good)
            ((elim t as (λ _. M (Unit {0})) [
              | reasoning ↦ done
              | message ↦
                  or_abort (lift (stream_message_text f item)) >>= role_and_text f accepts now
              | function_call ↦ function_item f accepts now item
              | other_item ↦ or_abort (throw not_representable)
            ])
              s)) [
                | reasoning ↦ h
                | message ↦ lifted_text_Keeps (stream_message_text f item) s h
                | function_call ↦ function_item-Keeps item s h
                | other_item ↦ tt
              ]

  -- The events that are not terminal keep the invariant.
  pub progress_event-Keeps : (event : StreamEvent) → Keeps (progress_event f accepts now event)
  unfolding progress_event content_part
  progress_event-Keeps event s h =
      elim event.type
        as (λ t.
          Ensures (λ _. Good)
            ((elim t as (λ _. M (Unit {0})) [
              | progress ↦ done
              | output_text_delta ↦ text_delta f accepts now event
              | output_text_done ↦ text_done f accepts now event
              | content_part_added ↦ content_part f accepts now event
              | content_part_done ↦ content_part f accepts now event
              | output_item_added ↦ output_item_event f accepts now event.item
              | output_item_done ↦ output_item_event f accepts now event.item
              | function_args_delta ↦
                  function_arguments f accepts now event.item_id
                    (text_or event.delta event.arguments) false
              | function_args_done ↦
                  function_arguments f accepts now event.item_id event.arguments true
              | response_completed ↦ or_abort (throw not_representable)
              | response_done ↦ or_abort (throw not_representable)
              | response_incomplete ↦ or_abort (throw not_representable)
              | response_failed ↦ or_abort (throw not_representable)
              | error_event ↦ or_abort (throw not_representable)
              | other_event ↦ or_abort (throw not_representable)
            ])
              s)) [
                | progress ↦ h
                | output_text_delta ↦ text_delta-Keeps event s h
                | output_text_done ↦ text_done-Keeps event s h
                | content_part_added ↦ lifted_text_Keeps (part_text f event.part) s h
                | content_part_done ↦ lifted_text_Keeps (part_text f event.part) s h
                | output_item_added ↦ item_Keeps event.item s h
                | output_item_done ↦ item_Keeps event.item s h
                | function_args_delta ↦
                    function_arguments-Keeps event.item_id (text_or event.delta event.arguments)
                      false s h
                | function_args_done ↦
                    function_arguments-Keeps event.item_id event.arguments true s h
                | response_completed ↦ tt
                | response_done ↦ tt
                | response_incomplete ↦ tt
                | response_failed ↦ tt
                | error_event ↦ tt
                | other_event ↦ tt
              ]
