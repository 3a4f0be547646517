-- ===== src/Pricing/Bumps.antt =====
-- The denominator, the order of the remainders and the last loop of AllocateSubscriptionCost
-- (internal/server/pricing.go).
use codex_sub_proxy.Prelude.{
  ℕ, zero, suc, ◌+◌, ◌-◌, ◌≤◌, ◌<◌, ◌≡◌, refl, sym, ap, ◌∙◌, subst, List, [], ◌∷◌, false, ltb, ◌==◌,
  length, take, sum, All, ok, arith, Bool-cases, inl, inr,
}
use codex_sub_proxy.Quota.Limits.{max_int64}
use codex_sub_proxy.Pricing.{
  AllocationRow, add_denominator, before, number, insert_remainder, sort_remainders, bump, bump_all,
}

-- The sums of the estimates, of the shares and of the rests.
abbrev pub estimates : List (ℕ × ℕ) → ℕ
estimates rs = sum (λ r. r.1) rs

abbrev pub shared : List AllocationRow → ℕ
shared rows = sum (λ r. r.microunits) rows

abbrev pub Floors : Type 0
Floors = List (AllocationRow × ℕ)

abbrev pub Remainders : Type 0
Remainders = List (ℕ × (AllocationRow × ℕ))

pub add_denominator-ok :
    (rs : List (ℕ × ℕ)) (d : ℕ)
    → d + estimates rs ≤ max_int64
    → add_denominator rs d ≡ ok (d + estimates rs)
unfolding add_denominator
add_denominator-ok [] d h = ap ok (ground arith)
add_denominator-ok ((id, e) ∷ rs) d h =
    let fits : ltb (max_int64 - e) d ≡ false = ground (arith, h) in
    rw (fits, add_denominator-ok rs (d + e) (ground (arith, h))) (ap ok (ground arith))

-- Bumps.
bump-ok :
    (i : ℕ) (rows : List AllocationRow)
    → i < length rows
    → shared rows < max_int64
    → (rows' : List AllocationRow) × (bump i rows ≡ ok rows')
      × (shared rows' ≡ shared rows + 1)
      × (length rows' ≡ length rows)
unfolding bump
bump-ok i [] inside below = ground (arith, inside)
bump-ok zero (r ∷ rs) inside below =
    let small : (r.microunits == max_int64) ≡ false = ground (arith, below) in
    (record r { microunits = r.microunits + 1 } ∷ rs, rw small refl, ground arith, refl)
bump-ok (suc i) (r ∷ rs) inside below =
    let (rows', e, more, same) = bump-ok i rs (ground (arith, inside)) (ground (arith, below)) in
    (r ∷ rows', rw e refl, ground (arith, more), ground (arith, same))

pub bump_all-ok :
    (xs : Remainders) (rows : List AllocationRow)
    → All (λ x. x.0 < length rows) xs
    → shared rows + length xs ≤ max_int64
    → (rows' : List AllocationRow) × (bump_all xs rows ≡ ok rows')
      × (shared rows' ≡ shared rows + length xs)
unfolding bump_all
bump_all-ok [] rows inside below = (rows, refl, ground arith)
bump_all-ok ((i, x) ∷ xs) rows inside below =
    let (rows1, e1, more, same) = bump-ok i rows inside.0 (ground (arith, below)) in
    let (rows2, e2, total) =
      bump_all-ok xs rows1 (subst (λ n. All (λ y. y.0 < n) xs) (sym same) inside.1)
        (ground (arith, more, below)) in
    (rows2, rw (e1, e2) refl, ground (arith, total, more))

insert-All :
    (n : ℕ) (x : ℕ × (AllocationRow × ℕ)) (xs : Remainders)
    → x.0 < n
    → All (λ y. y.0 < n) xs
    → All (λ y. y.0 < n) (insert_remainder x xs)
insert-All n x [] h hs = (h, tt)
insert-All n x (y ∷ ys) h hs = elim (Bool-cases (before y.1 x.1)) [
  | inl earlier ↦ rw earlier (hs.0, insert-All n x ys h hs.1)
  | inr later ↦ rw later (h, hs)
]

pub sort-All :
    (n : ℕ) (xs : Remainders) → All (λ y. y.0 < n) xs → All (λ y. y.0 < n) (sort_remainders xs)
unfolding sort_remainders
sort-All n [] h = tt
sort-All n (x ∷ xs) h = insert-All n x (sort_remainders xs) h.0 (sort-All n xs h.1)

length-insert :
    (x : ℕ × (AllocationRow × ℕ)) (xs : Remainders)
    → length (insert_remainder x xs) ≡ suc (length xs)
length-insert x [] = refl
length-insert x (y ∷ ys) = elim (Bool-cases (before y.1 x.1)) [
  | inl earlier ↦ rw earlier (ap suc (length-insert x ys))
  | inr later ↦ rw later refl
]

pub length-sort : (xs : Remainders) → length (sort_remainders xs) ≡ length xs
unfolding sort_remainders
length-sort [] = refl
length-sort (x ∷ xs) = length-insert x (sort_remainders xs) ∙ ap suc (length-sort xs)

pub number-All : (i n : ℕ) (fs : Floors) → i + length fs ≤ n → All (λ y. y.0 < n) (number i fs)
number-All i n [] h = tt
number-All i n (f ∷ fs) h = (ground (arith, h), number-All (suc i) n fs (ground (arith, h)))

pub length-number : (i : ℕ) (fs : Floors) → length (number i fs) ≡ length fs
length-number i [] = refl
length-number i (f ∷ fs) = ap suc (length-number (suc i) fs)

pub take-All :
    (P : ℕ × (AllocationRow × ℕ) → Type 0) (k : ℕ) (xs : Remainders) → All P xs → All P (take k xs)
take-All P zero xs h = tt
take-All P (suc k) [] h = tt
take-All P (suc k) (x ∷ xs) h = (h.0, take-All P k xs h.1)

pub length-take : (k : ℕ) (xs : Remainders) → k ≤ length xs → length (take k xs) ≡ k
length-take zero xs h = refl
length-take (suc k) [] h = ground (arith, h)
length-take (suc k) (x ∷ xs) h = ap suc (length-take k xs (ground (arith, h)))
