-- ===== src/Chat/Tools.antt =====
-- The methods on the tools of a chat stream keep its invariant (internal/server/chat.go).
use mathlib.Core.Option
use codex_sub_proxy.Prelude.{
  ℕ, ◌≡◌, refl, sym, ap, ◌∙◌, subst, List, [], ◌∷◌, ◌++◌, true, false, ◌==◌, length, get_elem?,
  Option, none, some, arith, Bool-cases, inl, inr,
}
use codex_sub_proxy.Prelude.Bytes.{Bytes, append_nil}
use codex_sub_proxy.Chat.Stream.{
  tool_arguments, Tool, Stream, set_at, fresh_tool, mark_emitted, new_tool,
}
use codex_sub_proxy.Chat.Sent.{
  delta_arguments, sent_text, sent_arguments, sent_text-snoc, sent_arguments-snoc, get_elem?-set_at,
  get_elem?-snoc, get_elem?-length,
}
use codex_sub_proxy.Chat.Streamed.{due, Streamed, append_chunk}

-- A change of a tool that leaves what is due and what was emitted.
abbrev pub Mild : (Tool → Tool) → Type 0
Mild g = (t : Tool) → (due (some (g t)) ≡ due (some t)) × ((g t).emitted_bytes ≡ t.emitted_bytes)

due-map : (g : Tool → Tool) (o : Option Tool) → Mild g → due (Option.map g o) ≡ due o
due-map g none mild = refl
due-map g (some t) mild = (mild t).0

pub map_inv :
    (g : Tool → Tool) (o : Option Tool) (t : Tool)
    → Option.map g o ≡ some t
    → (u : Tool) × (o ≡ some u) × (g u ≡ t)
map_inv g none t e = cc
map_inv g (some u) t e = (u, refl, ground (arith, e))

pub at_index : (j i : ℕ) → (j == i) ≡ true → j ≡ i
at_index j i e = ground (arith, e)

pub set_here :
    (i j : ℕ) (g : Tool → Tool) (ts : List Tool)
    → (j == i) ≡ true
    → get_elem? (set_at i g ts) j ≡ Option.map g (get_elem? ts j)
set_here i j g ts e =
    get_elem?-set_at i j g ts
    ∙ rw e (ap (λ k. Option.map g (get_elem? ts k)) (sym (at_index j i e)))

pub set_there :
    (i j : ℕ) (g : Tool → Tool) (ts : List Tool)
    → (j == i) ≡ false
    → get_elem? (set_at i g ts) j ≡ get_elem? ts j
set_there i j g ts e = get_elem?-set_at i j g ts ∙ rw e refl

due-set_at :
    (i j : ℕ) (g : Tool → Tool) (ts : List Tool)
    → Mild g
    → due (get_elem? (set_at i g ts) j) ≡ due (get_elem? ts j)
due-set_at i j g ts mild = elim (Bool-cases (j == i)) [
  | inl here ↦ ap due (set_here i j g ts here) ∙ due-map g (get_elem? ts j) mild
  | inr there ↦ ap due (set_there i j g ts there)
]

emitted-set_at :
    (i j : ℕ) (g : Tool → Tool) (ts : List Tool) (t : Tool)
    → Mild g
    → ((u : Tool) → get_elem? ts j ≡ some u → u.emitted_bytes ≡ length (due (some u)))
    → get_elem? (set_at i g ts) j ≡ some t
    → t.emitted_bytes ≡ length (due (some t))
emitted-set_at i j g ts t mild known e = elim (Bool-cases (j == i)) [
  | inl here ↦
      let (u, old, new) = map_inv g (get_elem? ts j) t (sym (set_here i j g ts here) ∙ e) in
      subst (λ (v : Tool). v.emitted_bytes ≡ length (due (some v))) new
        ((mild u).1 ∙ known u old ∙ ap length (sym (mild u).0))
  | inr there ↦ known t (sym (set_there i j g ts there) ∙ e)
]

pub some_is : (a b : Tool) → some a ≡ some b → a ≡ b
some_is a b e = ap (λ o. elim o [ some c ↦ c | none ↦ a ]) e

-- Changing the tool of an index mildly keeps the invariant.
pub change-Streamed :
    (x : Bytes) (i : ℕ) (g : Tool → Tool) (s : Stream)
    → Mild g
    → Streamed x s
    → Streamed x (record s { tools = set_at i g s.tools })
change-Streamed x i g s mild h = record {
  text_is = h.text_is;
  sent_is = h.sent_is;
  arguments_are = λ j. h.arguments_are j ∙ sym (due-set_at i j g s.tools mild);
  emitted_are = λ j t e. emitted-set_at i j g s.tools t mild (h.emitted_are j) e;
}

pub snoc_last :
    (ts : List Tool) (u : Tool) (j : ℕ)
    → (j == length ts) ≡ true
    → get_elem? (ts ++ u ∷ []) j ≡ some u
snoc_last ts u j last = get_elem?-snoc ts u j ∙ rw last refl

pub snoc_before :
    (ts : List Tool) (u : Tool) (j : ℕ)
    → (j == length ts) ≡ false
    → get_elem? (ts ++ u ∷ []) j ≡ get_elem? ts j
snoc_before ts u j before = get_elem?-snoc ts u j ∙ rw before refl

due-snoc :
    (ts : List Tool) (u : Tool) (j : ℕ)
    → due (some u) ≡ []
    → due (get_elem? (ts ++ u ∷ []) j) ≡ due (get_elem? ts j)
due-snoc ts u j nothing = elim (Bool-cases (j == length ts)) [
  | inl last ↦
      ap due (snoc_last ts u j last)
      ∙ nothing
      ∙ sym (
          ap (λ k. due (get_elem? ts k)) (at_index j (length ts) last)
          ∙ ap due (get_elem?-length ts))
  | inr before ↦ ap due (snoc_before ts u j before)
]

emitted-snoc :
    (ts : List Tool) (u : Tool) (j : ℕ) (t : Tool)
    → u.emitted_bytes ≡ length (due (some u))
    → ((v : Tool) → get_elem? ts j ≡ some v → v.emitted_bytes ≡ length (due (some v)))
    → get_elem? (ts ++ u ∷ []) j ≡ some t
    → t.emitted_bytes ≡ length (due (some t))
emitted-snoc ts u j t own known e = elim (Bool-cases (j == length ts)) [
  | inl last ↦
      subst (λ (v : Tool). v.emitted_bytes ≡ length (due (some v)))
        (some_is u t (sym (snoc_last ts u j last) ∙ e)) own
  | inr before ↦ known t (sym (snoc_before ts u j before) ∙ e)
]

-- So does a new tool.
pub new_tool-Streamed :
    (x item_id call_id name : Bytes) (s : Stream)
    → Streamed x s
    → Streamed x (new_tool item_id call_id name s)
new_tool-Streamed x item_id call_id name s h = record {
  text_is = h.text_is;
  sent_is = h.sent_is;
  arguments_are =
      λ j. h.arguments_are j ∙ sym (due-snoc s.tools (fresh_tool item_id call_id name) j refl);
  emitted_are =
      λ j t e. emitted-snoc s.tools (fresh_tool item_id call_id name) j t refl (h.emitted_are j) e;
}

-- The moment before the rest of the arguments of tool `i` is sent: the client has `front` of them.
pub record Pending (x : Bytes) (i : ℕ) (front rest : Bytes) (s : Stream) : Type 0 where
  pub text_is : s.text ≡ x
  pub sent_is : sent_text s.chunks ≡ x
  pub others_are :
      (j : ℕ) → (j == i) ≡ false → sent_arguments j s.chunks ≡ due (get_elem? s.tools j)
  pub others_emitted :
      (j : ℕ) (t : Tool)
      → (j == i) ≡ false
      → get_elem? s.tools j ≡ some t
      → t.emitted_bytes ≡ length (due (some t))
  pub this_is : sent_arguments i s.chunks ≡ front
  pub tool : Tool
  pub found : get_elem? s.tools i ≡ some tool
  pub is_sent : tool.metadata_sent ≡ true
  pub emitted : tool.emitted_bytes ≡ length front
  pub whole : tool.arguments ≡ front ++ rest

due_sent : (t : Tool) → t.metadata_sent ≡ true → due (some t) ≡ t.arguments
due_sent t sent = rw sent refl

-- The rest turns out to be empty.
pub Pending-empty :
    {x : Bytes} {i : ℕ} {front rest : Bytes} {s : Stream}
    → rest ≡ []
    → Pending x i front rest s
    → Streamed x s
Pending-empty {x} {i} {front} {rest} {s} e p = record {
  text_is = p.text_is;
  sent_is = p.sent_is;
  arguments_are = λ j. elim (Bool-cases (j == i)) [
    | inl here ↦
        ap (λ k. sent_arguments k s.chunks) (at_index j i here)
        ∙ p.this_is
        ∙ sym (
            ap (λ k. due (get_elem? s.tools k)) (at_index j i here)
            ∙ ap due p.found
            ∙ due_sent p.tool p.is_sent
            ∙ p.whole
            ∙ ap (λ r. front ++ r) e
            ∙ append_nil front)
    | inr there ↦ p.others_are j there
  ];
  emitted_are = λ j t found. elim (Bool-cases (j == i)) [
    | inl here ↦
        subst (λ (v : Tool). v.emitted_bytes ≡ length (due (some v)))
          (some_is p.tool t
            (sym p.found ∙ ap (get_elem? s.tools) (sym (at_index j i here)) ∙ found))
          (p.emitted
            ∙ ap length (
                sym (
                  due_sent p.tool p.is_sent ∙ p.whole ∙ ap (λ r. front ++ r) e ∙ append_nil front)))
    | inr there ↦ p.others_emitted j t there found
  ];
}

own_arguments : (i : ℕ) (a : Bytes) → delta_arguments i (tool_arguments i a) ≡ a
own_arguments i a = ground arith

other_arguments :
    (i j : ℕ) (a : Bytes) → (j == i) ≡ false → delta_arguments j (tool_arguments i a) ≡ []
other_arguments i j a there = rw there refl

-- The rest has been sent.
pub Pending-sent :
    {x : Bytes} {i : ℕ} {front rest : Bytes} {s : Stream}
    → Pending x i front rest s
    → Streamed x
        (append_chunk (tool_arguments i rest) (record s { tools = set_at i mark_emitted s.tools }))
unfolding append_chunk
Pending-sent {x} {i} {front} {rest} {s} p = record {
  text_is = p.text_is;
  sent_is =
      sent_text-snoc s.chunks (record { identity = s.identity; delta = tool_arguments i rest })
      ∙ append_nil (sent_text s.chunks)
      ∙ p.sent_is;
  arguments_are = λ j.
      sent_arguments-snoc j s.chunks
        (record { identity = s.identity; delta = tool_arguments i rest })
      ∙ elim (Bool-cases (j == i)) [
        | inl here ↦
            ap (λ k. sent_arguments k s.chunks ++ delta_arguments k (tool_arguments i rest))
              (at_index j i here)
            ∙ ap (λ a. a ++ delta_arguments i (tool_arguments i rest)) p.this_is
            ∙ ap (λ a. front ++ a) (own_arguments i rest)
            ∙ sym (
                ap due (set_here i j mark_emitted s.tools here)
                ∙ ap (λ k. due (Option.map mark_emitted (get_elem? s.tools k))) (at_index j i here)
                ∙ ap (λ o. due (Option.map mark_emitted o)) p.found
                ∙ due_sent (mark_emitted p.tool) p.is_sent
                ∙ p.whole)
        | inr there ↦
            ap (λ a. sent_arguments j s.chunks ++ a) (other_arguments i j rest there)
            ∙ append_nil (sent_arguments j s.chunks)
            ∙ p.others_are j there
            ∙ sym (ap due (set_there i j mark_emitted s.tools there))
      ];
  emitted_are = λ j t found. elim (Bool-cases (j == i)) [
    | inl here ↦
        subst (λ (v : Tool). v.emitted_bytes ≡ length (due (some v)))
          (some_is (mark_emitted p.tool) t (
            sym (
              set_here i j mark_emitted s.tools here
              ∙ ap (λ k. Option.map mark_emitted (get_elem? s.tools k)) (at_index j i here)
              ∙ ap (Option.map mark_emitted) p.found)
            ∙ found))
          (ap length (sym (due_sent (mark_emitted p.tool) p.is_sent)))
    | inr there ↦
        p.others_emitted j t there (sym (set_there i j mark_emitted s.tools there) ∙ found)
  ];
}
