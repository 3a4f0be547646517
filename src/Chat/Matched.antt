-- ===== src/Chat/Matched.antt =====
-- Reconciling a chat stream with a response finds the tool of each call where the tools are the first
-- calls of the response, and makes the others in order (internal/server/chat.go, outputTool and
-- reconcileResponse).
use codex_sub_proxy.Prelude.{
  ℕ, zero, suc, ◌+◌, ◌≡◌, refl, sym, ap, ◌∙◌, subst, List, [], ◌∷◌, true, false, ltb, ◌&&◌, length,
  get_elem?, Option, none, some, Result, ok, err, arith, Bool-cases, Option-cases, inl, inr,
}
use codex_sub_proxy.Prelude.Bytes.{Bytes, is_blank, same, same-eq, same_refl}
use codex_sub_proxy.Chat.Types.{ChatError}
use codex_sub_proxy.Chat.Stream.{
  Tool, Stream, M, ◌>>◌, give, update, change_tool, rename, identify, alias_unless_blank, add_alias,
  new_tool, one_tool, last_tool, tool, tool_with_id, open_tool_named, output_tool,
}
use codex_sub_proxy.Chat.Output.{ToolCall}
use codex_sub_proxy.Chat.Sent.{Ensures, if_Ensures}
use codex_sub_proxy.Chat.Tools.{some_is}
use codex_sub_proxy.Chat.Announced.{in_range}
use codex_sub_proxy.Chat.Frozen.{frozen, Frozen}
use codex_sub_proxy.Chat.Complete.{some_call}
use codex_sub_proxy.Chat.Valid.{NoneBlank}
use codex_sub_proxy.Chat.Heads.{DistinctIds, Foreseen}
use codex_sub_proxy.Chat.Announcing.{new-Foreseen}

first_with_id :
    (id : Bytes) (n k : ℕ) (ts : List Tool) (t : Tool)
    → is_blank id ≡ false
    → get_elem? ts k ≡ some t
    → t.id ≡ id
    → ((j : ℕ) (u : Tool) → get_elem? ts j ≡ some u → u.id ≡ id → j ≡ k)
    → tool_with_id id n ts ≡ some (k + n)
first_with_id id n k [] t whole found is only = cc
first_with_id id n zero (u ∷ us) t whole found is only =
    let matches : same u.id id ≡ true =
      ap (λ (v : Tool). same v.id id) (some_is u t found) ∙ ap (λ x. same x id) is ∙ same_refl id in
    rw (whole, matches) (ap some (omega arith))
first_with_id id n (suc k) (u ∷ us) t whole found is only = elim (Bool-cases (same u.id id)) [
  | inl matches ↦ ground (arith, only 0 u refl (same-eq u.id id matches))
  | inr other ↦
      rw (whole, other)
        (first_with_id id (suc n) k us t whole found is
            (λ j v e i. ground (arith, only (suc j) v e i))
          ∙ ap some (omega arith))
]

none_with_id :
    (id : Bytes) (n : ℕ) (ts : List Tool)
    → ((j : ℕ) (u : Tool) → get_elem? ts j ≡ some u → same u.id id ≡ false)
    → tool_with_id id n ts ≡ none
none_with_id id n [] others = refl
none_with_id id n (u ∷ us) others =
    ground (arith, others 0 u refl, none_with_id id (suc n) us (λ j. others (suc j)))

none_open :
    (name : Bytes) (n : ℕ) (ts : List Tool)
    → ((j : ℕ) (u : Tool) → get_elem? ts j ≡ some u → u.final ≡ true)
    → open_tool_named name n ts ≡ none
none_open name n [] final = refl
none_open name n (u ∷ us) final =
    ground (arith, final 0 u refl, none_open name (suc n) us (λ j. final (suc j)))

length_is :
    (ts : List Tool) (k : ℕ)
    → get_elem? ts k ≡ none
    → ((j : ℕ) → ltb j k ≡ true → (a : Bytes) × Frozen j a ts)
    → length ts ≡ k
length_is [] zero absent before = refl
length_is [] (suc k) absent before = cc ((before 0 (ground arith)).1)
length_is (t ∷ ts) zero absent before = cc
length_is (t ∷ ts) (suc k) absent before =
    ap suc (length_is ts k absent (λ j below. before (suc j) (ground (arith, below))))

earlier_call :
    (calls : List ToolCall) (j k : ℕ) (call : ToolCall)
    → get_elem? calls k ≡ some call
    → ltb j k ≡ true
    → (c : ToolCall) × (get_elem? calls j ≡ some c)
earlier_call [] j k call at below = cc
earlier_call (c ∷ calls) zero k call at below = (c, refl)
earlier_call (c ∷ calls) (suc j) zero call at below = ground (arith, below)
earlier_call (c ∷ calls) (suc j) (suc k) call at below =
    earlier_call calls j k call at (ground (arith, below))

frozen_is_final : (t : Tool) (a : Bytes) → frozen (some t) ≡ some a → t.final ≡ true
frozen_is_final t a e = ground (arith, e)

-- The rules for a choice that is known.
some_Ensures :
    {A B : Type 0} (Q : A → Stream → Type 0) (o : Option B) (g : B → M A) (k : M A) (s : Stream)
    (b : B)
    → o ≡ some b
    → Ensures Q (g b s)
    → Ensures Q ((elim o as (λ _. M A) [ some c ↦ g c | none ↦ k ]) s)
some_Ensures Q none g k s b e h = cc
some_Ensures {A} {B} Q (some c) g k s b e h =
    subst (λ o. Ensures Q ((elim o as (λ _. M A) [ some d ↦ g d | none ↦ k ]) s)) (sym e) h

none_Ensures :
    {A B : Type 0} (Q : A → Stream → Type 0) (o : Option B) (g : B → M A) (k : M A) (s : Stream)
    → o ≡ none
    → Ensures Q (k s)
    → Ensures Q ((elim o as (λ _. M A) [ some c ↦ g c | none ↦ k ]) s)
none_Ensures Q none g k s e h = h
none_Ensures Q (some c) g k s e h = cc

module _ (calls : List ToolCall) (distinct : DistinctIds calls) (whole : NoneBlank calls) where
  -- The tools of the calls before `k` have the arguments of those calls.
  abbrev pub Settled : ℕ → List Tool → Type 0
  Settled k ts =
      (j : ℕ) (call : ToolCall)
      → get_elem? calls j ≡ some call
      → ltb j k ≡ true
      → Frozen j call.arguments ts

  pub Settled-through :
      {A : Type 0} (k : ℕ) (s : Stream) (r : Result ChatError A × Stream)
      → ((j : ℕ) (a : Bytes) → Frozen j a s.tools → Ensures (λ _ r'. Frozen j a r'.tools) r)
      → Settled k s.tools
      → Ensures (λ _ r'. Settled k r'.tools) r
  Settled-through k s (ok a, s') keeps settled =
      λ j call at below. keeps j call.arguments (settled j call at below)
  Settled-through k s (err e, s') keeps settled = tt

  pub same_call :
      (k : ℕ) (a b : ToolCall) → get_elem? calls k ≡ some a → get_elem? calls k ≡ some b → a ≡ b
  same_call k a b at_a at_b = some_call a b (sym at_a ∙ at_b)

  -- A tool with the id of a call is at the index of the call.
  only_there :
      (k : ℕ) (call : ToolCall) (s : Stream)
      → Foreseen calls s
      → get_elem? calls k ≡ some call
      → (j : ℕ) (u : Tool) → get_elem? s.tools j ≡ some u
      → u.id ≡ call.id
      → j ≡ k
  only_there k call s h at j u found is =
      let (c, at_j, id, name) = h.named j u found in distinct j k c call at_j at (sym id ∙ is)

  final_before :
      (k : ℕ) (s : Stream)
      → Foreseen calls s
      → Settled k s.tools
      → length s.tools ≡ k
      → (j : ℕ) (u : Tool) → get_elem? s.tools j ≡ some u
      → u.final ≡ true
  final_before k s h settled last j u found =
      let (c, at_j, id, name) = h.named j u found in
      frozen_is_final u c.arguments (
        ap frozen (sym found)
        ∙ settled j c at_j (ap (ltb j) (sym last) ∙ in_range s.tools j u found))

  not_there :
      (k : ℕ) (call : ToolCall) (s : Stream)
      → Foreseen calls s
      → get_elem? calls k ≡ some call
      → get_elem? s.tools k ≡ none
      → (j : ℕ) (u : Tool) → get_elem? s.tools j ≡ some u
      → same u.id call.id ≡ false
  not_there k call s h at absent j u found = elim (Bool-cases (same u.id call.id)) [
    | inr other ↦ other
    | inl matches ↦
        let here = only_there k call s h at j u found (same-eq u.id call.id matches) in
        cc (sym absent ∙ ap (get_elem? s.tools) (sym here) ∙ found)
  ]

  unfoldable pub Found : ℕ → ℕ → Stream → Type 0
  Found k i r = (i ≡ k) × Foreseen calls r

  -- The end of `tool` for a call whose id has not been seen.
  new_Found :
      (k : ℕ) (call : ToolCall) (s : Stream)
      → Foreseen calls s
      → get_elem? calls k ≡ some call
      → length s.tools ≡ k
      → is_blank call.id ≡ false
      → Ensures (Found k) (last_tool call.id call.id call.name s)
  unfolding last_tool Found
  new_Found k call s h at last filled =
      if_Ensures (Found k) (is_blank call.id && is_blank call.id && one_tool s.tools)
        (change_tool 0 (rename call.name) >> give 0)
        (update (new_tool call.id call.id call.name)
          >> (update (add_alias call.id (length s.tools))
              >> (update (add_alias call.id (length s.tools)) >> give (length s.tools))))
        s (λ blank. ground (arith, blank, filled))
        (λ _.
          rw filled (last, rw filled at (new-Foreseen calls k call s distinct filled at last h)))

  -- outputTool gives the tool of the index of the call.
  pub output_tool-Found :
      (k : ℕ) (call : ToolCall) (s : Stream)
      → Foreseen calls s
      → Settled k s.tools
      → get_elem? calls k ≡ some call
      → Ensures (Found k) (output_tool call.id call.name s)
  unfolding output_tool tool Found
  output_tool-Found k call s h settled at =
      let filled = (whole k call at).1 in
      let by_alias = λ (r : Stream).
        (elim (alias_unless_blank call.id s.aliases) as (λ _. M ℕ) [
          | some i ↦ update (add_alias call.id i) >> (change_tool i (rename call.name) >> give i)
          | none ↦ last_tool call.id call.id call.name
        ])
          r in
      let by_item = λ (r : Stream).
        (elim (alias_unless_blank call.id s.aliases) as (λ _. M ℕ) [
          | some i ↦
              update (add_alias call.id i)
              >> (change_tool i (λ t. identify call.id call.id (rename call.name t)) >> give i)
          | none ↦ by_alias
        ])
          r in
      let by_name = λ (r : Stream).
        (elim (open_tool_named call.name 0 s.tools) as (λ _. M ℕ) [
          | some i ↦ give i
          | none ↦ tool call.id call.id call.name
        ])
          r in
      elim (Option-cases (get_elem? s.tools k)) [
        | inr (t, found) ↦
            let (c, at_k, id, name) = h.named k t found in
            let is : t.id ≡ call.id =
              id ∙ ap (λ (d : ToolCall). d.id) (same_call k c call at_k at) in
            some_Ensures (Found k) (tool_with_id call.id 0 s.tools) give by_name s (k + 0)
              (first_with_id call.id 0 k s.tools t filled found is (only_there k call s h at))
              (omega arith, h)
        | inl absent ↦
            let last = length_is s.tools k absent (λ j below.
              let (c, at_j) = earlier_call calls j k call at below in
              (c.arguments, settled j c at_j below)) in
            let unseen : alias_unless_blank call.id s.aliases ≡ none =
              rw filled (h.fresh k call at absent) in
            none_Ensures (Found k) (tool_with_id call.id 0 s.tools) give by_name s
              (none_with_id call.id 0 s.tools (not_there k call s h at absent))
              (none_Ensures (Found k) (open_tool_named call.name 0 s.tools) give
                (tool call.id call.id call.name) s
                (none_open call.name 0 s.tools (final_before k s h settled last))
                (none_Ensures (Found k) (alias_unless_blank call.id s.aliases)
                  (λ i.
                    update (add_alias call.id i)
                    >> (change_tool i (λ t. identify call.id call.id (rename call.name t))
                        >> give i))
                  by_alias s unseen
                  (none_Ensures (Found k) (alias_unless_blank call.id s.aliases)
                    (λ i.
                      update (add_alias call.id i) >> (change_tool i (rename call.name) >> give i))
                    (last_tool call.id call.id call.name) s unseen
                    (new_Found k call s h at last filled))))
      ]
