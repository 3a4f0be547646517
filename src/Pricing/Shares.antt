-- ===== src/Pricing/Shares.antt =====
-- The shares of a monthly cost sum to it (internal/server/pricing.go, AllocateSubscriptionCost).
use native.Mathlib.Nat.{le_of_mul-le-mul_right, add-mul, mul_comm, zero-mul}
use codex_sub_proxy.Prelude.{
  ℕ, suc, ◌+◌, ◌-◌, ◌*◌, ◌≤◌, ◌<◌, ◌≡◌, refl, sym, ap, ◌∙◌, List, [], ◌∷◌, false, ltb, ◌==◌, length,
  take, All, some, ok, arith,
}
use codex_sub_proxy.Quota.Limits.{max_int64}
use codex_sub_proxy.Pricing.{
  AllocationRequest, AllocationRow, counted, add_denominator, floor_rows, number, sort_remainders,
  bump_all, allocate_rows, allocate_subscription_cost,
}
use codex_sub_proxy.Pricing.Bumps.{
  estimates, shared, Floors, add_denominator-ok, bump_all-ok, sort-All, length-sort, number-All,
  length-number, take-All, length-take,
}
use codex_sub_proxy.Pricing.Floors.{rests, rows_of, floors-ok}

-- What is left after the floors is no more than the rows.
remaining-few :
    (cost d t rest n : ℕ)
    → 0 < d
    → t * d + rest ≡ cost * d
    → rest + n ≤ n * d
    → (t ≤ cost) × (cost - t ≤ n)
remaining-few cost d t rest n more balance few =
    let under : t ≤ cost =
      le_of_mul-le-mul_right {m = t} {n = cost} {k = d} (ground (arith, balance)) more in
    let parts : (t + (cost - t)) * d ≡ t * d + (cost - t) * d = add-mul t (cost - t) d in
    let same : t + (cost - t) ≡ cost = ground (arith, under) in
    let scaled : t * d + (cost - t) * d ≡ cost * d = sym parts ∙ ap (λ x. x * d) same in
    (
      under,
      le_of_mul-le-mul_right {m = cost - t} {n = n} {k = d} (ground (arith, scaled, balance, few))
          more,
    )

length-rows_of : (fs : Floors) → length (rows_of fs) ≡ length fs
length-rows_of [] = refl
length-rows_of (f ∷ fs) = ap suc (length-rows_of fs)

rows_steps :
    (cost : ℕ) (rs : List (ℕ × ℕ)) (d : ℕ) (fs : Floors) (t : ℕ) (rows : List AllocationRow)
    → (d == 0) ≡ false
    → floor_rows cost d rs 0 ≡ ok (fs, t)
    → ltb max_int64 t ≡ false
    → ltb cost t ≡ false
    → ltb (length fs) (cost - t) ≡ false
    → bump_all (take (cost - t) (sort_remainders (number 0 fs))) (rows_of fs) ≡ ok rows
    → allocate_rows cost d rs ≡ ok (some rows)
unfolding allocate_rows
rows_steps cost rs d fs t rows h2 h3 h4 h5 h6 h7 = rw (h2, h3, h4, h5, h6, h7) refl

-- The allocation succeeds when each of its steps does.
allocate_steps :
    (cost : ℕ) (requests : List AllocationRequest) (d : ℕ) (fs : Floors) (t : ℕ)
    (rows : List AllocationRow)
    → add_denominator (counted requests) 0 ≡ ok d
    → (d == 0) ≡ false
    → floor_rows cost d (counted requests) 0 ≡ ok (fs, t)
    → ltb max_int64 t ≡ false
    → ltb cost t ≡ false
    → ltb (length fs) (cost - t) ≡ false
    → bump_all (take (cost - t) (sort_remainders (number 0 fs))) (rows_of fs) ≡ ok rows
    → allocate_subscription_cost cost requests ≡ ok (some rows)
unfolding allocate_subscription_cost
allocate_steps cost requests d fs t rows h1 h2 h3 h4 h5 h6 h7 =
    rw h1 (rows_steps cost (counted requests) d fs t rows h2 h3 h4 h5 h6 h7)

-- For requests whose counted estimates, those that are positive and have a request id, have a sum
-- that is positive and fits into an int64, the allocation of a monthly cost that fits succeeds,
-- and the shares of its rows sum to that cost.
pub shares_sum_to_cost :
    (cost : ℕ) (requests : List AllocationRequest)
    → cost ≤ max_int64
    → 0 < estimates (counted requests)
    → estimates (counted requests) ≤ max_int64
    → (rows : List AllocationRow) × (allocate_subscription_cost cost requests ≡ ok (some rows))
      × (shared rows ≡ cost)
shares_sum_to_cost cost requests below more fits =
    let rs = counted requests in
    let d = estimates rs in
    let denominator : add_denominator rs 0 ≡ ok (0 + d) =
      add_denominator-ok rs 0 (ground (arith, fits)) in
    let (fs, t, found, total, balance, few) =
      floors-ok cost d rs 0 more below (ground arith)
        (ground (arith, zero-mul d, mul_comm d cost)) in
    let (under, enough) =
      remaining-few cost d t (rests fs) (length fs) more
        (ground (arith, balance, zero-mul d, mul_comm d cost)) few in
    let remainders = sort_remainders (number 0 fs) in
    let many : length remainders ≡ length fs = length-sort (number 0 fs) ∙ length-number 0 fs in
    let taken : length (take (cost - t) remainders) ≡ cost - t =
      length-take (cost - t) remainders (ground (arith, many, enough)) in
    let inside : All (λ y. y.0 < length (rows_of fs)) (take (cost - t) remainders) =
      take-All (λ y. y.0 < length (rows_of fs)) (cost - t) remainders
        (sort-All (length (rows_of fs)) (number 0 fs)
          (number-All 0 (length (rows_of fs)) fs (ground (arith, length-rows_of fs)))) in
    let (rows, bumped, sums) =
      bump_all-ok (take (cost - t) remainders) (rows_of fs) inside
        (ground (arith, taken, total, under, below)) in
    let some_denominator : (d == 0) ≡ false = ground (arith, more) in
    let fits_total : ltb max_int64 t ≡ false = ground (arith, under, below) in
    let not_over : ltb cost t ≡ false = ground (arith, under) in
    let not_many : ltb (length fs) (cost - t) ≡ false = ground (arith, enough) in
    (
      rows,
      allocate_steps cost requests d fs t rows (denominator ∙ ap ok (ground arith)) some_denominator
          found fits_total not_over not_many bumped,
      ground (arith, sums, taken, total, under),
    )
