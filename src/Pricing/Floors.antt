-- ===== src/Pricing/Floors.antt =====
-- The floors of the shares and their rests, the second loop of AllocateSubscriptionCost
-- (internal/server/pricing.go).
use native.Mathlib.Nat.{div-add-mod', mod-lt, le_of_mul-le-mul_right, add-mul, zero-mul, suc-mul}
use codex_sub_proxy.Prelude.{
  ℕ, ◌+◌, ◌-◌, ◌*◌, ◌/◌, ◌%◌, ◌≤◌, ◌<◌, ◌≡◌, refl, List, [], ◌∷◌, false, ltb, length, sum, map, ok,
  arith,
}
use codex_sub_proxy.Quota.Limits.{max_int64}
use codex_sub_proxy.Pricing.{AllocationRow, floor_rows}
use codex_sub_proxy.Pricing.Bumps.{estimates, shared, Floors}

-- The floors.
abbrev pub rests : Floors → ℕ
rests fs = sum (λ f. f.1) fs

abbrev pub rows_of : Floors → List AllocationRow
rows_of fs = map (λ f. f.0) fs

-- What the second loop gives: the floors and their total, which the rests bring up to the whole.
abbrev pub Floored : ℕ → ℕ → List (ℕ × ℕ) → ℕ → Type 0
Floored cost d rs total =
    (fs : Floors) × (t : ℕ) × (floor_rows cost d rs total ≡ ok (fs, t))
    × (t ≡ total + shared (rows_of fs))
    × (t * d + rests fs ≡ total * d + estimates rs * cost)
    × (rests fs + length fs ≤ length fs * d)

floor_fits :
    (ec rest td qd r cd grown all : ℕ)
    → qd + r ≡ ec
    → all ≡ ec + rest
    → grown ≡ td + qd
    → td + all ≤ cd
    → grown ≤ cd
floor_fits ec rest td qd r cd grown all h1 h2 h3 h4 = ground (arith, h1, h2, h3, h4)

floor_left :
    (ec rest td qd r cd grown all : ℕ)
    → qd + r ≡ ec
    → all ≡ ec + rest
    → grown ≡ td + qd
    → td + all ≤ cd
    → grown + rest ≤ cd
floor_left ec rest td qd r cd grown all h1 h2 h3 h4 = ground (arith, h1, h2, h3, h4)

pub floors-ok :
    (cost d : ℕ) (rs : List (ℕ × ℕ)) (total : ℕ)
    → 0 < d
    → cost ≤ max_int64
    → total ≤ cost
    → total * d + estimates rs * cost ≤ cost * d
    → Floored cost d rs total
unfolding floor_rows
floors-ok cost d [] total more below inside fits =
    ([], total, refl, ground arith, ground (arith, zero-mul cost), ground (arith, zero-mul d))
floors-ok cost d ((id, e) ∷ rs) total more below inside fits =
    let q = e * cost / d in
    let r = e * cost % d in
    let whole : q * d + r ≡ e * cost = div-add-mod' (e * cost) d in
    let small : r < d = mod-lt (e * cost) more in
    let split : (e + estimates rs) * cost ≡ e * cost + estimates rs * cost =
      add-mul e (estimates rs) cost in
    let grown : (total + q) * d ≡ total * d + q * d = add-mul total q d in
    let next : total + q ≤ cost =
      le_of_mul-le-mul_right {m = total + q} {n = cost} {k = d}
        (floor_fits (e * cost) (estimates rs * cost) (total * d) (q * d) r (cost * d)
          ((total + q) * d) ((e + estimates rs) * cost) whole split grown fits)
        more in
    let (fs, t, found, sum_fs, balance, few) = floors-ok cost d rs (total + q) more below next (
      floor_left (e * cost) (estimates rs * cost) (total * d) (q * d) r (cost * d) ((total + q) * d)
        ((e + estimates rs) * cost) whole split grown fits) in
    let fits_amount : ltb max_int64 q ≡ false = ground (arith, next, below) in
    let fits_total : ltb max_int64 total ≡ false = ground (arith, inside, below) in
    let fits_sum : ltb (max_int64 - q) total ≡ false = ground (arith, next, below) in
    (
      (record { request_id = id; numerator = e; denominator = d; microunits = q }, r) ∷ fs,
      t,
      rw (fits_amount, fits_total, fits_sum, found) refl,
      ground (arith, sum_fs),
      ground (arith, balance, whole, split, grown),
      ground (arith, few, small, suc-mul (length fs) d),
    )
