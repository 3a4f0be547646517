-- ===== src/Keys/Sound.antt =====
-- What the searches of the Authorizer find is a stored record, and what a record passes
-- (internal/apikey/store.go).

use codex_sub_proxy.Prelude.{
  ℕ, zero, suc, ◌≡◌, refl, sym, ap, ◌∙◌, subst, List, [], ◌∷◌, Bool, true, false, ◌||◌, not, take,
  select, get_elem?, Option, none, some, ok, ◌>>◌, fail_if, fail_if_inv, bind_inv, bound, arith,
  if◌then◌else◌, Bool-cases, Option-cases, inl, inr,
}
use codex_sub_proxy.Prelude.Bytes.{Bytes, same}
use codex_sub_proxy.Keys.{
  Record, Principal, invalid_key, invalid_policy, KeyLibrary, is_set, has_expired, digest_matches,
  matching, validate_policy, principal_from_record, admit_record,
}
use codex_sub_proxy.Keys.Store.{find_record}

-- A record of the table.
abbrev pub Stored : Record → List Record → Type 0
Stored r db = (i : ℕ) × (get_elem? db i ≡ some r)

Stored-later : (r s : Record) (db : List Record) → Stored r db → Stored r (s ∷ db)
Stored-later r s db (i, at) = (suc i, at)

pub matching_inv :
    (wanted : Bytes) (rs : List Record) (r : Record)
    → matching wanted rs ≡ some r
    → Stored r rs × (digest_matches wanted r.digest ≡ true)
unfolding matching
matching_inv wanted [] r h = cc
matching_inv wanted (s ∷ rs) r h = elim (Option-cases (matching wanted rs)) [
  | inr (m, later) ↦
      let (stored, fits) = matching_inv wanted rs r (later ∙ first_of wanted s rs m r later h) in
      (Stored-later r s rs stored, fits)
  | inl none_later ↦ last_one wanted s rs r none_later h
]
  where
    first_of :
        (wanted : Bytes) (s : Record) (rs : List Record) (m r : Record)
        → matching wanted rs ≡ some m
        → matching wanted (s ∷ rs) ≡ some r
        → some m ≡ some r
    first_of wanted s rs m r later h =
        sym (
          ap
            (λ o. elim o as (λ _. Option Record) [
              | some n ↦ some n
              | none ↦ if digest_matches wanted s.digest then some s else none
            ])
            later)
        ∙ h

    this_one :
        (b : Bool) (wanted : Bytes) (s r : Record)
        → digest_matches wanted s.digest ≡ b
        → (if b then some s else none) ≡ some r
        → (s ≡ r) × (digest_matches wanted s.digest ≡ true)
    this_one true wanted s r fits h = (ap (λ o. elim o [ some n ↦ n | none ↦ s ]) h, fits)
    this_one false wanted s r fits h = cc

    last_one :
        (wanted : Bytes) (s : Record) (rs : List Record) (r : Record)
        → matching wanted rs ≡ none
        → matching wanted (s ∷ rs) ≡ some r
        → Stored r (s ∷ rs) × (digest_matches wanted r.digest ≡ true)
    last_one wanted s rs r none_later h =
        let (same_one, fits) = this_one (digest_matches wanted s.digest) wanted s r refl (
          sym (
            ap
              (λ o. elim o as (λ _. Option Record) [
                | some n ↦ some n
                | none ↦ if digest_matches wanted s.digest then some s else none
              ])
              none_later)
          ∙ h) in
        (
          (0, ap some same_one),
          subst (λ (n : Record). digest_matches wanted n.digest ≡ true) same_one fits,
        )

pub take-Stored : (n : ℕ) (r : Record) (rs : List Record) → Stored r (take n rs) → Stored r rs
take-Stored zero r rs (i, at) = cc
take-Stored (suc n) r [] (i, at) = cc
take-Stored (suc n) r (s ∷ rs) (zero, at) = (0, at)
take-Stored (suc n) r (s ∷ rs) (suc i, at) = Stored-later r s rs (take-Stored n r rs (i, at))

cons-Stored :
    (p : Record → Bool) (r s : Record) (rs chosen : List Record) (b : Bool)
    → p s ≡ b
    → (Stored r chosen → Stored r rs × (p r ≡ true))
    → Stored r (if b then s ∷ chosen else chosen)
    → Stored r (s ∷ rs) × (p r ≡ true)
cons-Stored p r s rs chosen true passes rest (zero, at) =
    let same_one = ap (λ o. elim o [ some n ↦ n | none ↦ s ]) at in
    ((0, at), subst (λ n. p n ≡ true) same_one passes)
cons-Stored p r s rs chosen true passes rest (suc i, at) =
    let (stored, holds) = rest (i, at) in (Stored-later r s rs stored, holds)
cons-Stored p r s rs chosen false fails rest h =
    let (stored, holds) = rest h in (Stored-later r s rs stored, holds)

pub select-Stored :
    (p : Record → Bool) (r : Record) (rs : List Record)
    → Stored r (select p rs)
    → Stored r rs × (p r ≡ true)
select-Stored p r [] (i, at) = cc
select-Stored p r (s ∷ rs) h =
    cons-Stored p r s rs (select p rs) (p s) refl (λ k. select-Stored p r rs k) h

pub find-Stored :
    (id : Bytes) (db : List Record) (r : Record)
    → find_record id db ≡ some r
    → Stored r db × (same r.id id ≡ true)
find-Stored id [] r h = cc
find-Stored id (s ∷ db) r h = elim (Bool-cases (same s.id id)) [
  | inl this ↦
      let same_one =
        ap (λ o. elim o [ some n ↦ n | none ↦ s ])
          (sym (ap (λ b. if b then some s else find_record id db) this) ∙ h) in
      ((0, ap some same_one), subst (λ (n : Record). same n.id id ≡ true) same_one this)
  | inr other ↦
      let (stored, is_it) =
        find-Stored id db r (sym (ap (λ b. if b then some s else find_record id db) other) ∙ h) in
      (Stored-later r s db stored, is_it)
]

module _ (lib : KeyLibrary) where
  -- A record that is in service at a time, with a valid policy.
  abbrev pub InService : Record → ℕ → Type 0
  InService r now =
      (r.revoked_at ≡ none)
      × (r.disabled_at ≡ none)
      × (has_expired r.policy.expires_at now ≡ false)
      × (validate_policy lib r.policy ≡ true)

  unset : (o : Option ℕ) → is_set o ≡ false → o ≡ none
  unset none h = refl
  unset (some t) h = cc

  pub in_service :
      (r : Record) (now : ℕ)
      → (is_set r.revoked_at || is_set r.disabled_at || has_expired r.policy.expires_at now) ≡ false
      → not (validate_policy lib r.policy) ≡ false
      → InService r now
  in_service r now usable valid = (
    unset r.revoked_at (ground (arith, usable)),
    unset r.disabled_at (ground (arith, usable)),
    ground (arith, usable),
    ground (arith, valid),
  )

  pub admit_inv :
      (r : Record) (now : ℕ) (p : Principal)
      → admit_record lib r now ≡ ok p
      → InService r now × (p ≡ principal_from_record lib r)
  unfolding admit_record
  admit_inv r now p h =
      elim (bind_inv
        (fail_if
          (is_set r.revoked_at || is_set r.disabled_at || has_expired r.policy.expires_at now)
          invalid_key)
        (λ _.
          fail_if (not (validate_policy lib r.policy)) invalid_policy
          >> ok (principal_from_record lib r))
        h) [
          | bound u usable rest ↦
              elim (bind_inv (fail_if (not (validate_policy lib r.policy)) invalid_policy)
                (λ _. ok (principal_from_record lib r)) rest) [
                  | bound v valid end ↦ (
                    in_service r now (fail_if_inv _ _ usable) (fail_if_inv _ _ valid),
                    ground (arith, end),
                  )
                ]
        ]
