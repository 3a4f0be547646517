-- ===== src/Accounts/Lists.antt =====
-- The sorted and the eligible accounts, and a pick from a list (internal/codex/accounts.go).
use native.Mathlib.Nat.{mod-lt}
use codex_sub_proxy.Prelude.{
  ℕ, zero, suc, ◌%◌, ◌<◌, ◌≡◌, refl, List, [], ◌∷◌, Bool, true, false, leb, length, get_elem?,
  select, All, some, none, arith, ok, if◌then◌else◌, Bool-cases, inl, inr, ◌⊎◌, subst, ap,
}
use codex_sub_proxy.Prelude.Table.{insert, All-map, All-insert}
use codex_sub_proxy.Accounts.{
  Account, is_empty, account_usable_at, account_id, sorted_accounts, eligible_accounts, pick,
}

-- The account stands in the list.
abbrev pub In : Account → List Account → Type 0
In a xs = (i : ℕ) × (get_elem? xs i ≡ some a)

pub All-get_elem? :
    (P : Account → Type 0) (xs : List Account) (i : ℕ) {a : Account}
    → All P xs
    → get_elem? xs i ≡ some a
    → P a
All-get_elem? P [] i h e = cc
All-get_elem? P (x ∷ xs) zero h e = subst P (ap (λ o. elim o [ some b ↦ b | none ↦ x ]) e) h.0
All-get_elem? P (x ∷ xs) (suc i) h e = All-get_elem? P xs i h.1 e

get_elem?-some :
    (xs : List Account) (i : ℕ) → i < length xs → (a : Account) × (get_elem? xs i ≡ some a)
get_elem?-some [] i h = ground arith
get_elem?-some (x ∷ xs) zero h = (x, refl)
get_elem?-some (x ∷ xs) (suc i) h = get_elem?-some xs i (ground arith)

pub In-All : (xs : List Account) → All (λ a. In a xs) xs
In-All [] = tt
In-All (x ∷ xs) =
    ((0, refl), All-map (λ a. In a xs) (λ a. In a (x ∷ xs)) xs (λ a h. (suc h.0, h.1)) (In-All xs))

-- A property of every entry of a list that a test chooses.
if-All :
    (P : Account → Type 0) (b : Bool) (xs ys : List Account)
    → All P (if b then xs else ys)
    → ((b ≡ true) × All P xs) ⊎ ((b ≡ false) × All P ys)
if-All P true xs ys h = inl (refl, h)
if-All P false xs ys h = inr (refl, h)

insert-All :
    (P : Account → Type 0) (a : Account) (xs : List Account)
    → All P (insert account_id a xs)
    → P a × All P xs
unfolding insert
insert-All P a [] h = (h.0, tt)
insert-All P a (b ∷ xs) h =
    elim (if-All P (leb a.id b.id) (a ∷ b ∷ xs) (b ∷ insert account_id a xs) h) [
      | inl (le, front) ↦ front
      | inr (gt, behind) ↦
          let (found, rest) = insert-All P a xs behind.1 in (found, (behind.0, rest))
    ]

pub All-sorted : (P : Account → Type 0) (xs : List Account) → All P xs → All P (sorted_accounts xs)
unfolding sorted_accounts
All-sorted P [] h = tt
All-sorted P (x ∷ xs) h = All-insert account_id P x (sorted_accounts xs) h.0 (All-sorted P xs h.1)

pub sorted-All : (P : Account → Type 0) (xs : List Account) → All P (sorted_accounts xs) → All P xs
unfolding sorted_accounts
sorted-All P [] h = tt
sorted-All P (x ∷ xs) h =
    let (now, rest) = insert-All P x (sorted_accounts xs) h in (now, sorted-All P xs rest)

pub All-select :
    (P : Account → Type 0) (p : Account → Bool) (xs : List Account)
    → All P xs
    → All (λ a. P a × (p a ≡ true)) (select p xs)
All-select P p [] h = tt
All-select P p (x ∷ xs) h = elim (Bool-cases (p x)) [
  | inl hit ↦ rw hit ((h.0, hit), All-select P p xs h.1)
  | inr miss ↦ rw miss (All-select P p xs h.1)
]

select-All :
    (P : Account → Type 0) (p : Account → Bool) (xs : List Account)
    → All P (select p xs)
    → All (λ a. p a ≡ true → P a) xs
select-All P p [] h = tt
select-All P p (x ∷ xs) h = elim (if-All P (p x) (x ∷ select p xs) (select p xs) h) [
  | inl (hit, hs) ↦ (λ _. hs.0, select-All P p xs hs.1)
  | inr (miss, hs) ↦ (λ hit. cc, select-All P p xs hs)
]

-- The eligible accounts are the usable ones of the list.
pub eligible-All :
    (P : Account → Type 0) (model now : ℕ) (accounts : List Account)
    → All P accounts
    → All (λ a. P a × (account_usable_at a model now ≡ true)) (eligible_accounts accounts model now)
unfolding eligible_accounts
eligible-All P model now accounts h =
    All-select P (λ a. account_usable_at a model now) (sorted_accounts accounts)
      (All-sorted P accounts h)

pub All-eligible :
    (P : Account → Type 0) (model now : ℕ) (accounts : List Account)
    → All P (eligible_accounts accounts model now)
    → All (λ a. account_usable_at a model now ≡ true → P a) accounts
unfolding eligible_accounts
All-eligible P model now accounts h =
    sorted-All (λ a. account_usable_at a model now ≡ true → P a) accounts
      (select-All P (λ a. account_usable_at a model now) (sorted_accounts accounts) h)

pick-ok :
    (index : ℕ) (xs : List Account)
    → is_empty xs ≡ false
    → (a : Account) × (pick index xs ≡ ok a) × In a xs
unfolding pick
pick-ok index [] h = cc
pick-ok index (x ∷ xs) h =
    let (a, e) = get_elem?-some (x ∷ xs) (index % suc (length xs)) (mod-lt index (ground arith)) in
    (a, rw (e, pick) refl, (index % suc (length xs), e))

pub not_true : (b : Bool) → (b ≡ true → b ≡ false) → b ≡ false
not_true true h = h refl
not_true false h = refl

pub empty-All : (P : Account → Type 0) (xs : List Account) → is_empty xs ≡ true → All P xs
empty-All P [] e = tt
empty-All P (x ∷ xs) e = cc

-- A pick from a list whose entries all have a property is one of them.
pub pick-All :
    (P : Account → Type 0) (index : ℕ) (xs : List Account)
    → is_empty xs ≡ false
    → All P xs
    → (a : Account) × (pick index xs ≡ ok a) × P a
pick-All P index xs more h =
    let (a, e, (i, found)) = pick-ok index xs more in (a, e, All-get_elem? P xs i h found)
