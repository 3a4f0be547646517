-- ===== src/Chat/Complete.antt =====
-- One call of the loop of reconcileResponse, and the arguments of a finished call during finish
-- (internal/server/chat.go).

use codex_sub_proxy.Prelude.{
  ℕ, zero, suc, ◌≡◌, ap, List, [], ◌∷◌, Bool, true, ◌&&◌, not, length, none, some,
}
use codex_sub_proxy.Prelude.Bytes.{Bytes}
use codex_sub_proxy.Chat.Types.{Response, incomplete_tool, usage_missing, duplicate_terminal}
use codex_sub_proxy.Chat.Streamed.{append_chunk, write_chunk-Ensures}
use codex_sub_proxy.Chat.Stream.{
  Chunk, Stream, ◌>>◌, fail_when, with_tool, output_tool, write_tool_metadata, write_chunk,
  finished, finish_tools, finish, is_complete, is_some, update, add_tool_arguments, reconcile_tools,
}
use codex_sub_proxy.Chat.Output.{Formats, ToolCall, chat_finish_reason}
use codex_sub_proxy.Chat.Sent.{
  Ensures, then_Ensures, fail_when-Ensures, guard_Ensures, with_tool-Ensures,
}
use codex_sub_proxy.Chat.Frozen.{Frozen, metadata-Frozen}

pub some_call : (a b : ToolCall) → some a ≡ some b → a ≡ b
some_call a b e = ap (λ o. elim o [ some c ↦ c | none ↦ a ]) e

module _ (f : Formats) (accepts : List Chunk → Chunk → Bool) where
  -- One call of the loop.
  pub call-Ensures :
      (Q : ℕ → Stream → Type 0) (R : Stream → Type 0) (call : ToolCall) (calls : List ToolCall)
      (s : Stream)
      → Ensures Q (output_tool call.id call.name s)
      → ((i : ℕ) (r : Stream) → Q i r → Ensures (λ _. Q i) (write_tool_metadata f accepts i r))
      → ((i : ℕ) (r : Stream)
          → Q i r
          → Ensures (λ _. R) (add_tool_arguments f accepts i call.arguments true r))
      → (T : Stream → Type 0)
      → ((r : Stream) → R r → Ensures (λ _. T) (reconcile_tools f accepts calls r))
      → Ensures (λ _. T) (reconcile_tools f accepts (call ∷ calls) s)
  unfolding reconcile_tools
  call-Ensures Q R call calls s found announced added T rest =
      then_Ensures Q (λ _. T) (output_tool call.id call.name s)
        (λ i.
          write_tool_metadata f accepts i
          >> (add_tool_arguments f accepts i call.arguments true
              >> reconcile_tools f accepts calls))
        found
        (λ i r q.
          then_Ensures (λ _. Q i) (λ _. T) (write_tool_metadata f accepts i r)
            (λ _.
              add_tool_arguments f accepts i call.arguments true >> reconcile_tools f accepts calls)
            (announced i r q)
            (λ _ r' q'.
              then_Ensures (λ _. R) (λ _. T) (add_tool_arguments f accepts i call.arguments true r')
                (λ _. reconcile_tools f accepts calls) (added i r' q') (λ _ r'' h. rest r'' h)))

  loop_Frozen :
      (i : ℕ) (a : Bytes) (left j : ℕ) (s : Stream)
      → Frozen i a s.tools
      → Ensures (λ _ r. Frozen i a r.tools) (finish_tools f accepts left j s)
  unfolding finish_tools
  loop_Frozen i a zero j s h = h
  loop_Frozen i a (suc left) j s h =
      then_Ensures (λ _ r. Frozen i a r.tools) (λ _ r. Frozen i a r.tools)
        (with_tool j (λ t. fail_when (not (is_complete f accepts t)) incomplete_tool) s)
        (λ _. write_tool_metadata f accepts j >> finish_tools f accepts left (suc j))
        (with_tool-Ensures (λ _ r. Frozen i a r.tools) j
          (λ t. fail_when (not (is_complete f accepts t)) incomplete_tool) s
          (λ t _.
            fail_when-Ensures (λ _ r. Frozen i a r.tools) (not (is_complete f accepts t))
              incomplete_tool s (λ _. h)))
        (λ _ r h1.
          then_Ensures (λ _ r'. Frozen i a r'.tools) (λ _ r'. Frozen i a r'.tools)
            (write_tool_metadata f accepts j r) (λ _. finish_tools f accepts left (suc j))
            (metadata-Frozen i a f accepts j r h1) (λ _ r' h2. loop_Frozen i a left (suc j) r' h2))

  -- finish
  pub finish-Frozen :
      (i : ℕ) (a : Bytes) (response : Response) (s : Stream)
      → Frozen i a s.tools
      → Ensures (λ _ r. Frozen i a r.tools) (finish f accepts response s)
  unfolding finish append_chunk
  finish-Frozen i a response s h =
      let count = length s.tools in
      let end = λ (r : Stream).
        (write_chunk f accepts (finished (chat_finish_reason response count))
            >> update (λ r'. record r' { finish_sent = true }))
          r in
      let rest = finish_tools f accepts count 0 >> end in
      guard_Ensures (λ _ r. Frozen i a r.tools) s.finish_sent duplicate_terminal
        (fail_when (s.include_usage && not (is_some s.mapped_usage)) usage_missing >> rest) s
        (λ _.
          guard_Ensures (λ _ r. Frozen i a r.tools)
            (s.include_usage && not (is_some s.mapped_usage)) usage_missing rest s
            (λ _.
              then_Ensures (λ _ r. Frozen i a r.tools) (λ _ r. Frozen i a r.tools)
                (finish_tools f accepts count 0 s) (λ _. end) (loop_Frozen i a count 0 s h)
                (λ _ r h'.
                  then_Ensures (λ _ r'. Frozen i a r'.tools) (λ _ r'. Frozen i a r'.tools)
                    (write_chunk f accepts (finished (chat_finish_reason response count)) r)
                    (λ _. update (λ r'. record r' { finish_sent = true }))
                    (write_chunk-Ensures accepts f [] (λ r'. Frozen i a r'.tools)
                      (finished (chat_finish_reason response count)) r h')
                    (λ _ r' h''. h''))))
