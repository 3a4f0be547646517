-- ===== src/Chat/Methods.antt =====
-- The methods that write a tool call of a chat stream keep its invariant (internal/server/chat.go).
use mathlib.Core.Option
use codex_sub_proxy.Prelude.{
  ℕ, ◌≤◌, ◌≡◌, refl, sym, ap, ◌∙◌, subst, List, [], ◌∷◌, ◌++◌, Bool, true, false, leb, ◌||◌, not,
  length, drop, get_elem?, some, arith, if◌then◌else◌, Bool-cases, Option-cases, inl, inr,
}
use codex_sub_proxy.Prelude.Bytes.{Bytes, is_blank, append_nil, length-append, drop_append}
use codex_sub_proxy.Chat.Types.{invalid_tool_name}
use codex_sub_proxy.Chat.Stream.{
  Delta, tool_head, tool_arguments, Chunk, Tool, Stream, ◌>>◌, done, fail_when, set_at, change_tool,
  write_chunk, write_tool_argument_suffix, write_tool_metadata, mark_emitted, mark_metadata, unsent,
}
use codex_sub_proxy.Chat.Output.{Formats, valid_identifier}
use codex_sub_proxy.Chat.Sent.{
  sent_text, sent_arguments, sent_text-snoc, sent_arguments-snoc, Ensures, then_Ensures, if_Ensures,
}
use codex_sub_proxy.Chat.Streamed.{due, Streamed, Quiet, append_chunk, write_chunk-Ensures}
use codex_sub_proxy.Chat.Tools.{set_here, set_there, Pending, Pending-empty, Pending-sent}

nothing_left : (a b : Bytes) → length (a ++ b) ≤ length a → b ≡ []
nothing_left a [] h = refl
nothing_left a (c ∷ b) h = ground (arith, h, length-append a (c ∷ b))

-- A change of tool `i` that adds to the arguments that the client should have.
pub Pending-change :
    {x : Bytes} {i : ℕ} {rest : Bytes} {s : Stream} (t : Tool) (g : Tool → Tool)
    → Streamed x s
    → get_elem? s.tools i ≡ some t
    → (g t).metadata_sent ≡ true
    → (g t).emitted_bytes ≡ t.emitted_bytes
    → (g t).arguments ≡ due (some t) ++ rest
    → Pending x i (due (some t)) rest (record s { tools = set_at i g s.tools })
Pending-change {x} {i} {rest} {s} t g h found sent emitted whole = record {
  text_is = h.text_is;
  sent_is = h.sent_is;
  others_are = λ j there. h.arguments_are j ∙ sym (ap due (set_there i j g s.tools there));
  others_emitted = λ j u there e. h.emitted_are j u (sym (set_there i j g s.tools there) ∙ e);
  this_is = h.arguments_are i ∙ ap due found;
  tool = g t;
  found = set_here i i g s.tools (ground arith) ∙ ap (Option.map g) found;
  is_sent = sent;
  emitted = emitted ∙ h.emitted_are i t found;
  whole = whole;
}

Pending-Quiet :
    {x : Bytes} {i : ℕ} {front rest : Bytes} {s : Stream} (d : Delta)
    → Quiet d
    → Pending x i front rest s
    → Pending x i front rest (append_chunk d s)
unfolding append_chunk
Pending-Quiet {x} {i} {front} {rest} {s} d q p = record {
  text_is = p.text_is;
  sent_is =
      sent_text-snoc s.chunks (record { identity = s.identity; delta = d })
      ∙ ap (λ a. sent_text s.chunks ++ a) q.0
      ∙ append_nil (sent_text s.chunks)
      ∙ p.sent_is;
  others_are = λ j there.
      sent_arguments-snoc j s.chunks (record { identity = s.identity; delta = d })
      ∙ ap (λ a. sent_arguments j s.chunks ++ a) (q.1 j)
      ∙ append_nil (sent_arguments j s.chunks)
      ∙ p.others_are j there;
  others_emitted = p.others_emitted;
  this_is =
      sent_arguments-snoc i s.chunks (record { identity = s.identity; delta = d })
      ∙ ap (λ a. sent_arguments i s.chunks ++ a) (q.1 i)
      ∙ append_nil (sent_arguments i s.chunks)
      ∙ p.this_is;
  tool = p.tool;
  found = p.found;
  is_sent = p.is_sent;
  emitted = p.emitted;
  whole = p.whole;
}

module _ (accepts : List Chunk → Chunk → Bool) (f : Formats) (x : Bytes) where
  unsent_is :
      {i : ℕ} {front rest : Bytes} {s : Stream} (p : Pending x i front rest s)
      → unsent p.tool ≡ rest
  unsent_is {i} {front} {rest} p =
      ap (λ n. drop n p.tool.arguments) p.emitted
      ∙ ap (drop (length front)) p.whole
      ∙ drop_append front rest

  all_sent :
      {i : ℕ} {front rest : Bytes} {s : Stream} (p : Pending x i front rest s)
      → leb (length p.tool.arguments) p.tool.emitted_bytes ≡ true
      → rest ≡ []
  all_sent {i} {front} {rest} p h =
      nothing_left front rest (ground (arith, h, p.emitted, ap length p.whole))

  write_rest :
      {i : ℕ} {front rest : Bytes} {s : Stream} (p : Pending x i front rest s)
      → Ensures
          (λ _. Streamed x)
          ((if leb (length p.tool.arguments) p.tool.emitted_bytes
              then done
              else (change_tool i mark_emitted
                  >> write_chunk f accepts (tool_arguments i (unsent p.tool))))
            s)
  write_rest {i} {front} {rest} {s} p =
      if_Ensures (λ _. Streamed x) (leb (length p.tool.arguments) p.tool.emitted_bytes) done
        (change_tool i mark_emitted >> write_chunk f accepts (tool_arguments i (unsent p.tool))) s
        (λ complete. Pending-empty (all_sent p complete) p)
        (λ _.
          write_chunk-Ensures accepts f x (Streamed x) (tool_arguments i (unsent p.tool))
            (record s { tools = set_at i mark_emitted s.tools })
            (subst
              (λ a. Streamed x (
                append_chunk (tool_arguments i a)
                  (record s { tools = set_at i mark_emitted s.tools })))
              (sym (unsent_is p)) (Pending-sent p)))

  -- writeToolArgumentSuffix sends the rest.
  pub suffix-Streamed :
      {i : ℕ} {front rest : Bytes} {s : Stream}
      → Pending x i front rest s
      → Ensures (λ _. Streamed x) (write_tool_argument_suffix f accepts i s)
  unfolding write_tool_argument_suffix
  suffix-Streamed {i} {front} {rest} {s} p = rw p.found (write_rest p)

  -- writeToolMetadata once the name has been accepted.
  send_head :
      (i : ℕ) (t : Tool) (s : Stream)
      → Streamed x s
      → get_elem? s.tools i ≡ some t
      → t.metadata_sent ≡ false
      → Ensures
          (λ _. Streamed x)
          ((change_tool i mark_metadata
              >> (write_chunk f accepts (tool_head i t.id t.name)
                  >> write_tool_argument_suffix f accepts i))
            s)
  send_head i t s h found unsent_yet =
      let s' : Stream = record s { tools = set_at i mark_metadata s.tools } in
      then_Ensures (λ _ r. Pending x i (due (some t)) t.arguments r) (λ _. Streamed x)
        (write_chunk f accepts (tool_head i t.id t.name) s')
        (λ _. write_tool_argument_suffix f accepts i)
        (write_chunk-Ensures accepts f x (Pending x i (due (some t)) t.arguments)
          (tool_head i t.id t.name) s'
          (Pending-Quiet (tool_head i t.id t.name) (refl, λ j. refl)
            (Pending-change t mark_metadata h found refl refl (rw unsent_yet refl))))
        (λ _ r p. suffix-Streamed p)

  head_unless_sent :
      (i : ℕ) (t : Tool) (s : Stream)
      → Streamed x s
      → get_elem? s.tools i ≡ some t
      → Ensures
          (λ _. Streamed x)
          ((if t.metadata_sent || is_blank t.id || is_blank t.name
              then done
              else (fail_when (not (valid_identifier t.name 64)) invalid_tool_name
                  >> (change_tool i mark_metadata
                      >> (write_chunk f accepts (tool_head i t.id t.name)
                          >> write_tool_argument_suffix f accepts i))))
            s)
  head_unless_sent i t s h found =
      if_Ensures (λ _. Streamed x) (t.metadata_sent || is_blank t.id || is_blank t.name) done
        (fail_when (not (valid_identifier t.name 64)) invalid_tool_name
          >> (change_tool i mark_metadata
              >> (write_chunk f accepts (tool_head i t.id t.name)
                  >> write_tool_argument_suffix f accepts i)))
        s (λ _. h)
        (λ open_yet. elim (Bool-cases (not (valid_identifier t.name 64))) [
          | inl bad ↦ rw bad tt
          | inr good ↦ rw good (send_head i t s h found (ground (arith, open_yet)))
        ])

  -- writeToolMetadata keeps the invariant.
  pub write_tool_metadata-Streamed :
      (i : ℕ) (s : Stream)
      → Streamed x s
      → Ensures (λ _. Streamed x) (write_tool_metadata f accepts i s)
  unfolding write_tool_metadata
  write_tool_metadata-Streamed i s h = elim (Option-cases (get_elem? s.tools i)) [
    | inl none_there ↦ rw none_there tt
    | inr (t, found) ↦ rw found (head_unless_sent i t s h found)
  ]
