-- ===== src/Pricing/Estimate.antt =====
-- The estimate of a request's cost is exact (internal/server/pricing.go).
use native.Mathlib.Nat.{le-div_iff_mul-le, zero-mul, mul-zero}
use codex_sub_proxy.Prelude.{
  ℕ, ◌+◌, ◌-◌, ◌*◌, ◌/◌, ◌≤◌, ◌≡◌, refl, ap, ◌∙◌, sym, List, [], ◌∷◌, Bool, true, false, ltb, ◌==◌,
  sum, All, none, some, ok, fail_if, ◌>>=◌, ◌>>◌, Bool-cases, inl, inr, arith, bound, bind_inv,
  fail_if_inv,
}
use codex_sub_proxy.Quota.Limits.{max_int64}
use codex_sub_proxy.Pricing.{
  PricingError, estimate_overflow, image_overflow, ModelPrice, Usage, pricing_scale, round_half_up,
  add_parts, add_images, token_parts, has_breakdown, estimate,
}

-- The price of a count, rounded to the nearest microunit, a half up.
abbrev pub rounded : ℕ × ℕ → ℕ
rounded (count, rate) = (count * rate + pricing_scale / 2) / pricing_scale

-- A part that the 64-bit arithmetic carries.
abbrev pub Fits : ℕ × ℕ → Type 0
Fits (count, rate) = count * rate + pricing_scale / 2 ≤ max_int64

-- The estimate as the documentation of the prices defines it.
abbrev pub cost : ModelPrice → Usage ℕ → ℕ
cost p u = sum rounded (token_parts p u) + p.image * u.image_count

quotient_test : (a b : ℕ) → (b == 0) ≡ false → a * b ≤ max_int64 → ltb (max_int64 / b) a ≡ false
quotient_test a b more h =
    ground (arith, (le-div_iff_mul-le {k = b} {x = a} {y = max_int64} (ground (arith, more))).1 h)

quotient_bound : (a b : ℕ) → (b == 0) ≡ false → ltb (max_int64 / b) a ≡ false → a * b ≤ max_int64
quotient_bound a b more h =
    (le-div_iff_mul-le {k = b} {x = a} {y = max_int64} (ground (arith, more))).0 (ground (arith, h))

zero_count : (rate : ℕ) → rounded (0, rate) ≡ 0
zero_count rate = rw (zero-mul rate) refl

zero_rate : (count : ℕ) → rounded (count, 0) ≡ 0
zero_rate count = rw (mul-zero count) refl

room : (total v : ℕ) → total + v ≤ max_int64 → ltb (max_int64 - v) total ≡ false
room total v h = ground (arith, h)

round_half_up-ok : (count rate v : ℕ) → round_half_up count rate ≡ ok v → v ≡ rounded (count, rate)
unfolding round_half_up
round_half_up-ok count rate v h = elim (Bool-cases (count == 0)) [
  | inl none_used ↦ ground (arith, h, none_used, zero_count rate)
  | inr used ↦ elim (Bool-cases (rate == 0)) [
    | inl free ↦ ground (arith, h, used, free, zero_rate count)
    | inr priced ↦ ground (arith, h, used, priced)
  ]
]

round_half_up-Fits :
    (count rate : ℕ) → Fits (count, rate) → round_half_up count rate ≡ ok (rounded (count, rate))
unfolding round_half_up
round_half_up-Fits count rate h = elim (Bool-cases (count == 0)) [
  | inl none_used ↦ ground (arith, none_used, zero_count rate)
  | inr used ↦ elim (Bool-cases (rate == 0)) [
    | inl free ↦ ground (arith, used, free, zero_rate count)
    | inr priced ↦
        ground (arith, used, priced, quotient_test count rate priced (ground (arith, h)), h)
  ]
]

add_parts-ok :
    (parts : List (ℕ × ℕ)) (total v : ℕ)
    → total ≤ max_int64
    → add_parts parts total ≡ ok v
    → (v ≡ total + sum rounded parts) × (v ≤ max_int64)
unfolding add_parts
add_parts-ok [] total v below h = ground (arith, h, below)
add_parts-ok ((count, rate) ∷ parts) total v below h =
    elim (bind_inv (round_half_up count rate) _ h) [
      | bound value e rest ↦
          elim (bind_inv (fail_if (ltb (max_int64 - value) total) estimate_overflow) _ rest) [
            | bound _ fits tail ↦
                let no_overflow =
                  fail_if_inv (ltb (max_int64 - value) total) estimate_overflow fits in
                let (exact, below_max) =
                  add_parts-ok parts (total + value) v (ground (arith, no_overflow, below)) tail in
                (ground (arith, exact, round_half_up-ok count rate value e), below_max)
          ]
    ]

add_parts-Fits :
    (parts : List (ℕ × ℕ)) (total : ℕ)
    → All Fits parts
    → total + sum rounded parts ≤ max_int64
    → add_parts parts total ≡ ok (total + sum rounded parts)
unfolding add_parts
add_parts-Fits [] total fits below = ap ok (ground arith)
add_parts-Fits ((count, rate) ∷ parts) total fits below =
    let step = round_half_up-Fits count rate fits.0 in
    let rest =
      add_parts-Fits parts (total + rounded (count, rate)) fits.1 (ground (arith, below)) in
    rw (step, room total (rounded (count, rate)) (ground (arith, below)), rest)
      (ap ok (ground arith))

two_guards :
    (a b : Bool) (e e' : PricingError) (n v : ℕ)
    → (fail_if a e >> (fail_if b e' >> ok n)) ≡ ok v
    → (a ≡ false) × (b ≡ false) × (n ≡ v)
two_guards true b e e' n v h = cc
two_guards false true e e' n v h = cc
two_guards false false e e' n v h = (refl, refl, ground (arith, h))

images_drawn :
    (price count total : ℕ)
    → (count == 0) ≡ false
    → add_images price count total ≡ (
        fail_if (ltb (max_int64 / count) price) image_overflow
        >> (fail_if (ltb (max_int64 - price * count) total) estimate_overflow
            >> ok (total + price * count)))
unfolding add_images
images_drawn price count total drawn = rw drawn refl

add_images-ok :
    (price count total v : ℕ)
    → total ≤ max_int64
    → add_images price count total ≡ ok v
    → (v ≡ total + price * count) × (v ≤ max_int64)
unfolding add_images
add_images-ok price count total v below h = elim (Bool-cases (count == 0)) [
  | inl none_drawn ↦ ground (arith, h, below, none_drawn, mul-zero price)
  | inr drawn ↦
      let (divides, fits, exact) =
        two_guards (ltb (max_int64 / count) price) (ltb (max_int64 - price * count) total)
          image_overflow estimate_overflow (total + price * count) v
          (sym (images_drawn price count total drawn) ∙ h) in
      (sym exact, ground (arith, fits, exact, below, quotient_bound price count drawn divides))
]

add_images-Fits :
    (price count total : ℕ)
    → total + price * count ≤ max_int64
    → add_images price count total ≡ ok (total + price * count)
unfolding add_images
add_images-Fits price count total fits = elim (Bool-cases (count == 0)) [
  | inl none_drawn ↦ ground (arith, none_drawn, mul-zero price)
  | inr drawn ↦ ground (
    arith,
    drawn,
    quotient_test price count drawn (ground (arith, fits)),
    room total (price * count) fits,
  )
]

estimate_known :
    (p : ModelPrice) (u : Usage ℕ)
    → has_breakdown p u ≡ true
    → estimate p u ≡ (
        add_parts (token_parts p u) 0 >>= λ tokens.
        add_images p.image u.image_count tokens >>= λ total. ok (some total))
unfolding estimate
estimate_known p u has = rw has refl

estimate_sound :
    (p : ModelPrice) (u : Usage ℕ) (v : ℕ)
    → estimate p u ≡ ok (some v)
    → (v ≡ cost p u) × (v ≤ max_int64)
unfolding estimate
estimate_sound p u v h = elim (Bool-cases (has_breakdown p u)) [
  | inl has ↦ elim (bind_inv (add_parts (token_parts p u) 0) _ (sym (estimate_known p u has) ∙ h)) [
    | bound tokens e rest ↦ elim (bind_inv (add_images p.image u.image_count tokens) _ rest) [
      | bound total e' done ↦
          let (exact, small) = add_parts-ok (token_parts p u) 0 tokens (ground arith) e in
          let (sum_exact, sum_small) = add_images-ok p.image u.image_count tokens total small e' in
          (ground (arith, exact, sum_exact, done), ground (arith, sum_small, done))
    ]
  ]
  | inr lacks ↦ ground (arith, h, lacks)
]

estimate_complete :
    (p : ModelPrice) (u : Usage ℕ)
    → has_breakdown p u ≡ true
    → All Fits (token_parts p u)
    → cost p u ≤ max_int64
    → estimate p u ≡ ok (some (cost p u))
estimate_complete p u has fits below =
    let tokens = add_parts-Fits (token_parts p u) 0 fits (ground (arith, below)) in
    let images =
      add_images-Fits p.image u.image_count (0 + sum rounded (token_parts p u))
        (ground (arith, below)) in
    estimate_known p u has ∙ rw (tokens, images) (ap (λ n. ok (some n)) (ground arith))

-- For counters that are not negative: an estimate that is given is the sum of the four parts, each
-- rounded half up to the microunit, and of the images, and does not pass the largest int64;
-- without the breakdown that the prices need there is neither an estimate nor an error; and with
-- the breakdown the estimate is given whenever each part, with the half that rounds it, and the
-- sum fit into an int64.
pub estimate_exact :
    (p : ModelPrice) (u : Usage ℕ)
    → ((v : ℕ) → estimate p u ≡ ok (some v) → (v ≡ cost p u) × (v ≤ max_int64))
      × (has_breakdown p u ≡ false → estimate p u ≡ ok none)
      × (has_breakdown p u ≡ true
          → All Fits (token_parts p u)
          → cost p u ≤ max_int64
          → estimate p u ≡ ok (some (cost p u)))
unfolding estimate
estimate_exact p u = (estimate_sound p u, λ lacks. rw lacks refl, estimate_complete p u)
