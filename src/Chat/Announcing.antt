-- ===== src/Chat/Announcing.antt =====
-- What keeps the tool calls of a chat stream as foreseen: changes of the tools, heads and other chunks,
-- and a new tool for the next call (internal/server/chat.go).
use mathlib.Core.Option
use codex_sub_proxy.Prelude.{
  ℕ, ◌≡◌, refl, sym, ap, ◌∙◌, List, [], ◌∷◌, ◌++◌, false, ◌==◌, length, get_elem?, some, arith,
  Bool-cases, inl, inr,
}
use codex_sub_proxy.Prelude.Bytes.{Bytes, is_blank, same, same-eq}
use codex_sub_proxy.Chat.Stream.{
  Delta, tool_head, Tool, Stream, set_at, mark_metadata, alias_of, fresh_tool,
}
use codex_sub_proxy.Chat.Output.{ToolCall}
use codex_sub_proxy.Chat.Sent.{get_elem?-length}
use codex_sub_proxy.Chat.Streamed.{append_chunk}
use codex_sub_proxy.Chat.Tools.{
  map_inv, at_index, set_here, set_there, some_is, snoc_last, snoc_before,
}
use codex_sub_proxy.Chat.Heads.{
  delta_head, sent_heads, heads_due, DistinctIds, Foreseen, nothing_more, sent_heads-snoc, Plain,
  KeepsMark, heads_due-set_at, set_none,
}

module _ (calls : List ToolCall) where
  set_named :
      (i : ℕ) (g : Tool → Tool) (s : Stream)
      → Plain g
      → Foreseen calls s
      → (j : ℕ) (t : Tool) → get_elem? (set_at i g s.tools) j ≡ some t
      → (call : ToolCall) × (get_elem? calls j ≡ some call)
        × (t.id ≡ call.id)
        × (t.name ≡ call.name)
  set_named i g s plain h j t e = elim (Bool-cases (j == i)) [
    | inr there ↦ h.named j t (sym (set_there i j g s.tools there) ∙ e)
    | inl here ↦
        let (u, old, new) =
          map_inv g (get_elem? s.tools j) t (sym (set_here i j g s.tools here) ∙ e) in
        let (call, at, id, name) = h.named j u old in
        (
          call,
          at,
          ap (λ (v : Tool). v.id) (sym new) ∙ (plain u).0 ∙ id,
          ap (λ (v : Tool). v.name) (sym new) ∙ (plain u).1 ∙ name,
        )
  ]

  pub change-Foreseen :
      (i : ℕ) (g : Tool → Tool) (s : Stream)
      → Plain g
      → KeepsMark g
      → Foreseen calls s
      → Foreseen calls (record s { tools = set_at i g s.tools })
  change-Foreseen i g s plain mark h = record {
    heads = λ j. h.heads j ∙ sym (heads_due-set_at i j g s.tools plain mark);
    named = set_named i g s plain h;
    fresh = λ k call at e. h.fresh k call at (set_none i k g s.tools e);
  }

  pub frame-Foreseen :
      (s s' : Stream)
      → s'.chunks ≡ s.chunks
      → s'.tools ≡ s.tools
      → s'.aliases ≡ s.aliases
      → Foreseen calls s
      → Foreseen calls s'
  frame-Foreseen s s' ec et ea h = record {
    heads = λ i. ap (sent_heads i) ec ∙ h.heads i ∙ ap (λ l. heads_due (get_elem? l i)) (sym et);
    named = λ i t e. h.named i t (ap (λ l. get_elem? l i) (sym et) ∙ e);
    fresh = λ k call at e.
        ap (alias_of call.id) ea ∙ h.fresh k call at (ap (λ l. get_elem? l k) (sym et) ∙ e);
  }

  -- A chunk that is no head.
  pub chunk-Foreseen :
      (d : Delta) (s : Stream)
      → ((i : ℕ) → delta_head i d ≡ [])
      → Foreseen calls s
      → Foreseen calls (append_chunk d s)
  unfolding append_chunk
  chunk-Foreseen d s headless h = record {
    heads = λ i.
        sent_heads-snoc i s.chunks (record { identity = s.identity; delta = d })
        ∙ ap (λ t. sent_heads i s.chunks ++ t) (headless i)
        ∙ nothing_more (sent_heads i s.chunks)
        ∙ h.heads i;
    named = h.named;
    fresh = h.fresh;
  }

  not_due : (t : Tool) → t.metadata_sent ≡ false → heads_due (some t) ≡ []
  not_due t e = rw e refl

  own_head : (i : ℕ) (id name : Bytes) → delta_head i (tool_head i id name) ≡ (id, name) ∷ []
  own_head i id name = ground arith

  other_head :
      (i j : ℕ) (id name : Bytes) → (j == i) ≡ false → delta_head j (tool_head i id name) ≡ []
  other_head i j id name there = rw there refl

  -- The head of a tool that has not been announced.
  pub head-Foreseen :
      (i : ℕ) (t : Tool) (s : Stream)
      → get_elem? s.tools i ≡ some t
      → t.metadata_sent ≡ false
      → Foreseen calls s
      → Foreseen calls (
          append_chunk
            (tool_head i t.id t.name)
            (record s { tools = set_at i mark_metadata s.tools }))
  unfolding append_chunk
  head-Foreseen i t s found unsent h = record {
    heads = λ j.
        sent_heads-snoc j s.chunks
          (record { identity = s.identity; delta = tool_head i t.id t.name })
        ∙ elim (Bool-cases (j == i)) [
          | inl here ↦
              ap (λ k. sent_heads k s.chunks ++ delta_head k (tool_head i t.id t.name))
                (at_index j i here)
              ∙ ap (λ a. a ++ delta_head i (tool_head i t.id t.name))
                  (h.heads i ∙ ap heads_due found ∙ not_due t unsent)
              ∙ own_head i t.id t.name
              ∙ sym (
                  ap heads_due (set_here i j mark_metadata s.tools here)
                  ∙ ap (λ k. heads_due (Option.map mark_metadata (get_elem? s.tools k)))
                      (at_index j i here)
                  ∙ ap (λ o. heads_due (Option.map mark_metadata o)) found)
          | inr there ↦
              ap (λ a. sent_heads j s.chunks ++ a) (other_head i j t.id t.name there)
              ∙ nothing_more (sent_heads j s.chunks)
              ∙ h.heads j
              ∙ sym (ap heads_due (set_there i j mark_metadata s.tools there))
        ];
    named = set_named i mark_metadata s (λ u. (refl, refl)) h;
    fresh = λ k call at e. h.fresh k call at (set_none i k mark_metadata s.tools e);
  }

  -- A new tool for the first call that has none.
  pub new-Foreseen :
      (k : ℕ) (call : ToolCall) (s : Stream)
      → DistinctIds calls
      → is_blank call.id ≡ false
      → get_elem? calls k ≡ some call
      → length s.tools ≡ k
      → Foreseen calls s
      → Foreseen calls (record s {
        tools = s.tools ++ fresh_tool call.id call.id call.name ∷ [];
        aliases = (call.id, length s.tools) ∷ (call.id, length s.tools) ∷ s.aliases;
      })
  new-Foreseen k call s distinct whole at last h = record {
    heads = λ j. h.heads j ∙ elim (Bool-cases (j == length s.tools)) [
      | inl here ↦
          ap (λ i. heads_due (get_elem? s.tools i)) (at_index j (length s.tools) here)
          ∙ ap heads_due (get_elem?-length s.tools)
          ∙ sym (ap heads_due (snoc_last s.tools u j here))
      | inr there ↦ sym (ap heads_due (snoc_before s.tools u j there))
    ];
    named = λ j t e. elim (Bool-cases (j == length s.tools)) [
      | inl here ↦
          let new : u ≡ t = some_is u t (sym (snoc_last s.tools u j here) ∙ e) in
          (
            call,
            ap (get_elem? calls) (at_index j (length s.tools) here ∙ last) ∙ at,
            ap (λ (v : Tool). v.id) (sym new) ∙ rw whole refl,
            ap (λ (v : Tool). v.name) (sym new),
          )
      | inr there ↦ h.named j t (sym (snoc_before s.tools u j there) ∙ e)
    ];
    fresh = λ j c at_j e. elim (Bool-cases (j == length s.tools)) [
      | inl here ↦ cc (sym e ∙ snoc_last s.tools u j here)
      | inr there ↦
          let old = h.fresh j c at_j (sym (snoc_before s.tools u j there) ∙ e) in
          elim (Bool-cases (same call.id c.id)) [
            | inl twice ↦
                ground
                  (arith, distinct k j call c at at_j (same-eq call.id c.id twice), last, there)
            | inr other ↦ rw other old
          ]
    ];
  }
    where
      u : Tool
      u = fresh_tool call.id call.id call.name
