-- ===== src/Affinity/Distinct.antt =====
-- Different sessions are hashed from different bytes (internal/server/session.go).
use codex_sub_proxy.Prelude.{
  ℕ, ◌≡◌, refl, sym, ap, ◌∙◌, [], ◌∷◌, ◌++◌, Bool, true, false, ◌&&◌, ◌||◌, not, ◌==◌, Option, none,
  some, arith, if◌then◌else◌, Bool-cases, inl, inr,
}
use codex_sub_proxy.Prelude.Bytes.{Bytes, is_blank, append_assoc}
use codex_sub_proxy.Affinity.{
  Headers, has_breaks, valid_headers, session_affinity_hash_salt, session_tag, thread_tag,
  session_part, with_thread, session_affinity_identity, affinity_input,
}

-- No zero byte.
abbrev pub no_zero : Bytes → Bool
no_zero [] = true
no_zero (c ∷ cs) = not (c == 0) && no_zero cs

-- A text with its first zero byte comes apart in one way.
split_zero :
    (a a' b b' : Bytes)
    → no_zero a ≡ true
    → no_zero a' ≡ true
    → a ++ 0 ∷ b ≡ a' ++ 0 ∷ b'
    → (a ≡ a') × (b ≡ b')
split_zero [] [] b b' h h' e = (refl, tails e)
  where
    tails : 0 ∷ b ≡ 0 ∷ b' → b ≡ b'
    tails e = ap (λ l. elim l [ [] ↦ b | x ∷ xs ↦ xs ]) e
split_zero [] (x ∷ a') b b' h h' e = ground (arith, h', e)
split_zero (x ∷ a) [] b b' h h' e = ground (arith, h, e)
split_zero (x ∷ a) (y ∷ a') b b' h h' e =
    let tail : a ++ 0 ∷ b ≡ a' ++ 0 ∷ b' = ap (λ l. elim l [ [] ↦ a ++ 0 ∷ b | z ∷ zs ↦ zs ]) e in
    let head : x ≡ y = ap (λ l. elim l [ [] ↦ x | z ∷ zs ↦ z ]) e in
    let (same_front, same_back) =
      split_zero a a' b b' (ground (arith, h)) (ground (arith, h')) tail in
    (ap (λ n. n ∷ a) head ∙ ap (λ l. y ∷ l) same_front, same_back)

-- And a text without one has none.
zero_inside : {A : Type 0} (a b c : Bytes) → no_zero c ≡ true → c ≡ a ++ 0 ∷ b → A
zero_inside [] b [] h e = cc
zero_inside [] b (z ∷ c) h e = ground (arith, h, e)
zero_inside (x ∷ a) b [] h e = cc
zero_inside (x ∷ a) b (z ∷ c) h e =
    zero_inside a b c (ground (arith, h)) (ap (λ l. elim l [ [] ↦ c | y ∷ ys ↦ ys ]) e)

no_zero_without_breaks : (a : Bytes) → has_breaks a ≡ false → no_zero a ≡ true
no_zero_without_breaks [] h = refl
no_zero_without_breaks (x ∷ a) h = ground (arith, h, no_zero_without_breaks a (ground (arith, h)))

-- The identity by its parts.
abbrev parts : Bytes → Bytes → Bytes
parts [] [] = []
parts (c ∷ s) [] = session_tag ++ 0 ∷ (c ∷ s)
parts [] (d ∷ t) = thread_tag ++ 0 ∷ (d ∷ t)
parts (c ∷ s) (d ∷ t) = session_tag ++ 0 ∷ ((c ∷ s) ++ 0 ∷ (thread_tag ++ 0 ∷ (d ∷ t)))

identity_is : (s t : Bytes) → with_thread (session_part s) t ≡ parts s t
identity_is [] [] = refl
identity_is (c ∷ s) [] = refl
identity_is [] (d ∷ t) = refl
identity_is (c ∷ s) (d ∷ t) =
    ap (λ l. session_tag ++ 0 ∷ (c ∷ l)) (append_assoc s (0 ∷ []) (thread_tag ++ 0 ∷ (d ∷ t)))

other_head : {A : Type 0} (x y : ℕ) (a b : Bytes) → (x == y) ≡ false → x ∷ a ≡ y ∷ b → A
other_head x y a b differ e =
    let heads : x ≡ y = ap (λ l. elim l [ [] ↦ x | z ∷ zs ↦ z ]) e in ground (arith, differ, heads)

empty_is : {A : Type 0} (x : ℕ) (a : Bytes) → [] ≡ x ∷ a → A
empty_is x a e = cc e

parts_lem :
    (s t s' t' : Bytes)
    → no_zero s ≡ true
    → no_zero t ≡ true
    → no_zero s' ≡ true
    → no_zero t' ≡ true
    → parts s t ≡ parts s' t'
    → (s ≡ s') × (t ≡ t')
parts_lem [] [] [] [] hs ht hs' ht' e = (refl, refl)
parts_lem [] [] (c' ∷ s') [] hs ht hs' ht' e = cc
parts_lem [] [] [] (d' ∷ t') hs ht hs' ht' e = cc
parts_lem [] [] (c' ∷ s') (d' ∷ t') hs ht hs' ht' e = cc
parts_lem (c ∷ s) [] [] [] hs ht hs' ht' e = cc
parts_lem [] (d ∷ t) [] [] hs ht hs' ht' e = cc
parts_lem (c ∷ s) (d ∷ t) [] [] hs ht hs' ht' e = cc
parts_lem (c ∷ s) [] (c' ∷ s') [] hs ht hs' ht' e =
    ((split_zero session_tag session_tag (c ∷ s) (c' ∷ s') refl refl e).1, refl)
parts_lem [] (d ∷ t) [] (d' ∷ t') hs ht hs' ht' e =
    (refl, (split_zero thread_tag thread_tag (d ∷ t) (d' ∷ t') refl refl e).1)
parts_lem (c ∷ s) (d ∷ t) (c' ∷ s') (d' ∷ t') hs ht hs' ht' e =
    let inner =
      (split_zero session_tag session_tag ((c ∷ s) ++ 0 ∷ (thread_tag ++ 0 ∷ (d ∷ t)))
        ((c' ∷ s') ++ 0 ∷ (thread_tag ++ 0 ∷ (d' ∷ t'))) refl refl e).1 in
    let (sessions, rest) =
      split_zero (c ∷ s) (c' ∷ s') (thread_tag ++ 0 ∷ (d ∷ t)) (thread_tag ++ 0 ∷ (d' ∷ t')) hs hs'
        inner in
    (sessions, (split_zero thread_tag thread_tag (d ∷ t) (d' ∷ t') refl refl rest).1)
parts_lem (c ∷ s) [] (c' ∷ s') (d' ∷ t') hs ht hs' ht' e =
    zero_inside (c' ∷ s') (thread_tag ++ 0 ∷ (d' ∷ t')) (c ∷ s) hs
      (split_zero session_tag session_tag (c ∷ s) ((c' ∷ s') ++ 0 ∷ (thread_tag ++ 0 ∷ (d' ∷ t')))
        refl refl e).1
parts_lem (c ∷ s) (d ∷ t) (c' ∷ s') [] hs ht hs' ht' e =
    zero_inside (c ∷ s) (thread_tag ++ 0 ∷ (d ∷ t)) (c' ∷ s') hs' (
      sym
        (split_zero session_tag session_tag ((c ∷ s) ++ 0 ∷ (thread_tag ++ 0 ∷ (d ∷ t))) (c' ∷ s')
          refl refl e).1)
parts_lem (c ∷ s) [] [] (d' ∷ t') hs ht hs' ht' e = other_head b's' b't' _ _ refl e
parts_lem [] (d ∷ t) (c' ∷ s') [] hs ht hs' ht' e = other_head b't' b's' _ _ refl e
parts_lem (c ∷ s) (d ∷ t) [] (d' ∷ t') hs ht hs' ht' e = other_head b's' b't' _ _ refl e
parts_lem [] (d ∷ t) (c' ∷ s') (d' ∷ t') hs ht hs' ht' e = other_head b't' b's' _ _ refl e

-- What the input rests on.
input_inv :
    (k : Bytes) (h : Headers) (x : Bytes)
    → affinity_input k h ≡ some x
    → (no_zero h.session_id ≡ true)
      × (no_zero h.thread_id ≡ true)
      × (x ≡ session_affinity_hash_salt ++ 0 ∷ (k ++ 0 ∷ session_affinity_identity h))
unfolding affinity_input valid_headers
input_inv k h x e = elim (Bool-cases (not (valid_headers h))) [
  | inl bad ↦ cc (sym (ap (λ b. if b then none else rest) bad) ∙ e)
  | inr good ↦ elim (Bool-cases (is_blank (session_affinity_identity h) || is_blank k)) [
    | inl blank ↦ cc (
        sym (ap (λ b. if b then none else rest) good ∙ ap (λ b. if b then none else full) blank)
        ∙ e)
    | inr there ↦ (
      no_zero_without_breaks h.session_id (ground (arith, good)),
      no_zero_without_breaks h.thread_id (ground (arith, good)),
      value (
          sym e
          ∙ ap (λ b. if b then none else rest) good
          ∙ ap (λ b. if b then none else full) there),
    )
  ]
]
  where
    full : Option Bytes
    full = some (session_affinity_hash_salt ++ 0 ∷ (k ++ 0 ∷ session_affinity_identity h))

    rest : Option Bytes
    rest = if is_blank (session_affinity_identity h) || is_blank k then none else full

    value : {a b : Bytes} → some a ≡ some b → a ≡ b
    value {a} p = ap (λ o. elim o [ some y ↦ y | none ↦ a ]) p

-- If sessionAffinityHash hashes the same bytes for two requests, then they have the same key, the
-- same session id and the same thread id, whatever texts these are, if the ids of the keys have no
-- zero byte, as the hexadecimal ones that are generated.
pub affinity_input_distinct :
    (k k' : Bytes) (h h' : Headers) (x : Bytes)
    → no_zero k ≡ true
    → no_zero k' ≡ true
    → affinity_input k h ≡ some x
    → affinity_input k' h' ≡ some x
    → (k ≡ k') × (h.session_id ≡ h'.session_id) × (h.thread_id ≡ h'.thread_id)
unfolding session_affinity_identity
affinity_input_distinct k k' h h' x hk hk' e e' =
    let (session, thread, is) = input_inv k h x e in
    let (session', thread', is') = input_inv k' h' x e' in
    let inner =
      (split_zero session_affinity_hash_salt session_affinity_hash_salt
        (k ++ 0 ∷ session_affinity_identity h) (k' ++ 0 ∷ session_affinity_identity h') refl refl
        (sym is ∙ is')).1 in
    let (keys, identities) =
      split_zero k k' (session_affinity_identity h) (session_affinity_identity h') hk hk' inner in
    let (sessions, threads) =
      parts_lem h.session_id h.thread_id h'.session_id h'.thread_id session thread session' thread'
        (sym (identity_is h.session_id h.thread_id)
          ∙ identities
          ∙ identity_is h'.session_id h'.thread_id) in
    (keys, sessions, threads)
