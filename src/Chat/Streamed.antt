-- ===== src/Chat/Streamed.antt =====
-- The invariant of a chat stream: the client has been sent the text and the arguments that the state
-- keeps (internal/server/chat.go).

use codex_sub_proxy.Prelude.{
  ℕ, ◌-◌, ◌≡◌, refl, sym, ap, ◌∙◌, subst, List, [], ◌∷◌, ◌++◌, Bool, true, ltb, ◌||◌, length,
  get_elem?, Option, none, some, if◌then◌else◌, Bool-cases, inl, inr,
}
use codex_sub_proxy.Prelude.Bytes.{Bytes, is_blank, append_nil}
use codex_sub_proxy.Chat.Types.{text_too_large}
use codex_sub_proxy.Chat.Stream.{
  Delta, role_delta, content, Chunk, Tool, Stream, M, ◌>>◌, done, update, fail_when, write_chunk,
  write_role, write_text,
}
use codex_sub_proxy.Chat.Output.{Formats, max_chat_string_bytes}
use codex_sub_proxy.Chat.Sent.{
  delta_text, delta_arguments, sent_text, sent_arguments, sent_text-snoc, sent_arguments-snoc,
  Ensures, then_Ensures, if_Ensures, fail_when-Ensures,
}

-- The arguments of a tool that the client should have: all of them once its head has been sent.
abbrev pub due : Option Tool → Bytes
due none = []
due (some t) = if t.metadata_sent then t.arguments else []

-- `x` is the text of the stream.
pub record Streamed (x : Bytes) (s : Stream) : Type 0 where
  pub text_is : s.text ≡ x
  pub sent_is : sent_text s.chunks ≡ x
  pub arguments_are : (i : ℕ) → sent_arguments i s.chunks ≡ due (get_elem? s.tools i)
  pub emitted_are :
      (i : ℕ) (t : Tool) → get_elem? s.tools i ≡ some t → t.emitted_bytes ≡ length (due (some t))

-- Changes of the state that the invariant does not see.
pub frame :
    (x : Bytes) (s s' : Stream)
    → s'.text ≡ s.text
    → s'.chunks ≡ s.chunks
    → s'.tools ≡ s.tools
    → Streamed x s
    → Streamed x s'
frame x s s' et ec el h = record {
  text_is = et ∙ h.text_is;
  sent_is = ap sent_text ec ∙ h.sent_is;
  arguments_are =
      λ i. ap (sent_arguments i) ec ∙ h.arguments_are i ∙ ap (λ l. due (get_elem? l i)) (sym el);
  emitted_are = λ i t e. h.emitted_are i t (ap (λ l. get_elem? l i) (sym el) ∙ e);
}

-- A chunk without text or arguments.
abbrev pub Quiet : Delta → Type 0
Quiet d = (delta_text d ≡ []) × ((i : ℕ) → delta_arguments i d ≡ [])

unfoldable pub append_chunk : Delta → Stream → Stream
append_chunk d s = record s {
  chunks = s.chunks ++ (record { identity = s.identity; delta = d }) ∷ [];
}

abbrev grow : Bytes → M (Unit {0})
grow text = update (λ r. record r { text = r.text ++ text })

pub blank_is : (t : Bytes) → is_blank t ≡ true → t ≡ []
blank_is [] h = refl
blank_is (b ∷ bs) h = cc

module _ (accepts : List Chunk → Chunk → Bool) (f : Formats) (x : Bytes) where
  Quiet-chunk : (d : Delta) (s : Stream) → Quiet d → Streamed x s → Streamed x (append_chunk d s)
  unfolding append_chunk
  Quiet-chunk d s q h = record {
    text_is = h.text_is;
    sent_is =
        sent_text-snoc s.chunks (record { identity = s.identity; delta = d })
        ∙ ap (λ t. sent_text s.chunks ++ t) q.0
        ∙ append_nil (sent_text s.chunks)
        ∙ h.sent_is;
    arguments_are = λ i.
        sent_arguments-snoc i s.chunks (record { identity = s.identity; delta = d })
        ∙ ap (λ t. sent_arguments i s.chunks ++ t) (q.1 i)
        ∙ append_nil (sent_arguments i s.chunks)
        ∙ h.arguments_are i;
    emitted_are = h.emitted_are;
  }

  -- writeChunk, whatever holds of the state with the chunk appended.
  pub write_chunk-Ensures :
      (Q : Stream → Type 0) (d : Delta) (s : Stream)
      → Q (append_chunk d s)
      → Ensures (λ _. Q) (write_chunk f accepts d s)
  unfolding write_chunk append_chunk
  write_chunk-Ensures Q d s h =
      elim (Bool-cases (accepts s.chunks (record { identity = s.identity; delta = d }))) [
        | inl takes ↦ rw (takes) h
        | inr refuses ↦ rw (refuses) tt
      ]

  pub write-Quiet :
      (d : Delta) (s : Stream)
      → Quiet d
      → Streamed x s
      → Ensures (λ _. Streamed x) (write_chunk f accepts d s)
  write-Quiet d s q h = write_chunk-Ensures (Streamed x) d s (Quiet-chunk d s q h)

  pub write_role-Streamed :
      (s : Stream) → Streamed x s → Ensures (λ _. Streamed x) (write_role f accepts s)
  unfolding write_role
  write_role-Streamed s h =
      if_Ensures (λ _. Streamed x) s.role_sent done
        (update (λ r. record r { role_sent = true }) >> write_chunk f accepts role_delta) s (λ _. h)
        (λ _.
          write-Quiet role_delta (record s { role_sent = true }) (refl, λ i. refl)
            (frame x s (record s { role_sent = true }) refl refl refl h))

  text_chunk :
      (text : Bytes) (s : Stream)
      → Streamed x s
      → Streamed (x ++ text) (record (append_chunk (content text) s) { text = s.text ++ text })
  unfolding append_chunk
  text_chunk text s h = record {
    text_is = ap (λ t. t ++ text) h.text_is;
    sent_is =
        sent_text-snoc s.chunks (record { identity = s.identity; delta = content text })
        ∙ ap (λ t. t ++ text) h.sent_is;
    arguments_are = λ i.
        sent_arguments-snoc i s.chunks (record { identity = s.identity; delta = content text })
        ∙ append_nil (sent_arguments i s.chunks)
        ∙ h.arguments_are i;
    emitted_are = h.emitted_are;
  }

  -- The text grows by what is written.
  pub write_text-Streamed :
      (text : Bytes) (s : Stream)
      → Streamed x s
      → Ensures (λ _. Streamed (x ++ text)) (write_text f accepts text s)
  unfolding write_text append_chunk
  write_text-Streamed text s h =
      let too_long =
        ltb max_chat_string_bytes (length text)
        || ltb (max_chat_string_bytes - length text) (length s.text) in
      if_Ensures (λ _. Streamed (x ++ text)) (is_blank text) done
        (fail_when too_long text_too_large >> (write_chunk f accepts (content text) >> grow text)) s
        (λ none_given.
          subst (λ t. Streamed t s)
            (sym (ap (λ t. x ++ t) (blank_is text none_given) ∙ append_nil x)) h)
        (λ _.
          then_Ensures (λ _. Streamed x) (λ _. Streamed (x ++ text))
            (fail_when too_long text_too_large s)
            (λ _. write_chunk f accepts (content text) >> grow text)
            (fail_when-Ensures (λ _. Streamed x) too_long text_too_large s (λ _. h))
            (λ _ s' h'.
              then_Ensures (λ _ r. Streamed (x ++ text) (record r { text = r.text ++ text }))
                (λ _. Streamed (x ++ text)) (write_chunk f accepts (content text) s')
                (λ _. grow text)
                (write_chunk-Ensures
                  (λ r. Streamed (x ++ text) (record r { text = r.text ++ text })) (content text) s'
                  (text_chunk text s' h'))
                (λ _ r done_. done_)))
