-- ===== src/Pricing.antt =====
-- internal/server/pricing.go: the estimate of a request's cost and the shares of a monthly cost.
-- A number stands for a text, in the order of the texts. An int64 that the code tests for its sign
-- is a ℤ; prices are not negative, by the checks of their tables.
pub mod Estimate
pub mod Bumps
pub mod Floors
pub mod Shares
pub mod Bounds
pub mod Tests
use codex_sub_proxy.Prelude.{
  ℕ, zero, suc, ◌+◌, ◌-◌, ◌*◌, ◌/◌, ◌%◌, List, [], ◌∷◌, Bool, true, false, ◌&&◌, ◌||◌, not, ltb,
  leb, ◌==◌, length, take, map, Option, none, some, Result, ok, err, ◌>>=◌, ◌>>◌, fail_if,
  if◌then◌else◌,
}
use codex_sub_proxy.Prelude.Int.{ℤ, pos, negsuc}
use codex_sub_proxy.Prelude.Table.{modify, insert}
use codex_sub_proxy.Quota.Limits.{max_int64}

pub data PricingError : Type 0 where
  negative_usage : PricingError
  token_overflow : PricingError
  rounding_overflow : PricingError
  image_overflow : PricingError
  estimate_overflow : PricingError
  invalid_version : PricingError
  not_utc : PricingError
  denominator_overflow : PricingError
  amount_overflow : PricingError
  total_overflow : PricingError
  invalid_remainder : PricingError

-- ModelPrice: microunits per million tokens, and per image.
pub record ModelPrice : Type 0 where
  pub input : ℕ
  pub cached_input : ℕ
  pub output : ℕ
  pub reasoning : ℕ
  pub image : ℕ

-- What EstimateUsageCost reads of a UsageRecord.
pub record Usage (A : Type 0) : Type 0 where
  pub input_tokens : A
  pub cached_input_tokens : A
  pub cached_input_tokens_known : Bool
  pub output_tokens : A
  pub reasoning_tokens : A
  pub reasoning_tokens_known : Bool
  pub total_tokens : A
  pub image_count : A

abbrev pub pricing_scale : ℕ
pricing_scale = 1000000

unfoldable pub round_half_up : ℕ → ℕ → Result PricingError ℕ
round_half_up count rate = if count == 0 || rate == 0 then ok 0 else (do
  fail_if (ltb (max_int64 / rate) count) token_overflow
  fail_if (ltb (max_int64 - pricing_scale / 2) (count * rate)) rounding_overflow
  ok ((count * rate + pricing_scale / 2) / pricing_scale))

-- The loop over the four parts, with the total so far.
unfoldable pub add_parts : List (ℕ × ℕ) → ℕ → Result PricingError ℕ
unfolding round_half_up
add_parts [] total = ok total
add_parts ((count, rate) ∷ parts) total = do
  value ← round_half_up count rate
  fail_if (ltb (max_int64 - value) total) estimate_overflow
  add_parts parts (total + value)

unfoldable pub add_images : ℕ → ℕ → ℕ → Result PricingError ℕ
add_images price count total = if count == 0 then ok total else (do
  fail_if (ltb (max_int64 / count) price) image_overflow
  fail_if (ltb (max_int64 - price * count) total) estimate_overflow
  ok (total + price * count))

-- The four counts with their rates.
abbrev pub token_parts : ModelPrice → Usage ℕ → List (ℕ × ℕ)
token_parts p u =
    (u.input_tokens - u.cached_input_tokens, p.input)
    ∷ (u.cached_input_tokens, p.cached_input)
    ∷ (u.output_tokens - u.reasoning_tokens, p.output)
    ∷ (u.reasoning_tokens, p.reasoning)
    ∷ []

-- Whether the breakdown of the usage is there: `ok=false` without it.
unfoldable pub has_breakdown : ModelPrice → Usage ℕ → Bool
has_breakdown p u =
    not (ltb u.input_tokens u.cached_input_tokens || ltb u.output_tokens u.reasoning_tokens)
    && not (
        (not u.cached_input_tokens_known && not (p.cached_input == 0))
        || (not u.reasoning_tokens_known && not (p.reasoning == 0)))

abbrev pub counter : ℤ → Result PricingError ℕ
counter (pos n) = ok n
counter (negsuc n) = err negative_usage

-- The first test: no counter is negative.
unfoldable pub counters : Usage ℤ → Result PricingError (Usage ℕ)
counters u = do
  input ← counter u.input_tokens
  output ← counter u.output_tokens
  total ← counter u.total_tokens
  images ← counter u.image_count
  cached ← counter u.cached_input_tokens
  reasoning ← counter u.reasoning_tokens
  ok (record {
    input_tokens = input;
    cached_input_tokens = cached;
    cached_input_tokens_known = u.cached_input_tokens_known;
    output_tokens = output;
    reasoning_tokens = reasoning;
    reasoning_tokens_known = u.reasoning_tokens_known;
    total_tokens = total;
    image_count = images;
  })

-- The estimate of a usage whose counters are not negative.
unfoldable pub estimate : ModelPrice → Usage ℕ → Result PricingError (Option ℕ)
unfolding has_breakdown add_parts add_images
estimate p u =
    if has_breakdown p u
    then (do
      tokens ← add_parts (token_parts p u) 0
      total ← add_images p.image u.image_count tokens
      ok (some total))
    else ok none

unfoldable pub estimate_usage_cost : ModelPrice → Usage ℤ → Result PricingError (Option ℕ)
unfolding counters estimate
estimate_usage_cost p raw = counters raw >>= estimate p

-- AllocationRequest: one successful priced request of a month.
pub record AllocationRequest : Type 0 where
  pub request_id : ℕ
  pub estimate_microunits : ℤ

pub record AllocationRow : Type 0 where
  pub request_id : ℕ
  pub numerator : ℕ
  pub denominator : ℕ
  pub microunits : ℕ

-- The requests that count, with their estimates: those with an id and a positive estimate.
unfoldable pub counted : List AllocationRequest → List (ℕ × ℕ)
counted [] = []
counted (r ∷ rs) =
    let rest = counted rs in
    if r.request_id == 0 then rest else elim r.estimate_microunits [
      | pos zero ↦ rest
      | pos (suc n) ↦ (r.request_id, suc n) ∷ rest
      | negsuc n ↦ rest
    ]

-- The first loop.
unfoldable pub add_denominator : List (ℕ × ℕ) → ℕ → Result PricingError ℕ
add_denominator [] d = ok d
add_denominator ((id, e) ∷ rs) d = do
  fail_if (ltb (max_int64 - e) d) denominator_overflow
  add_denominator rs (d + e)

-- The second loop: a row for each request with the floor of its share, the rests in the same order,
-- and the total of the floors.
unfoldable pub floor_rows :
    ℕ → ℕ → List (ℕ × ℕ) → ℕ → Result PricingError (List (AllocationRow × ℕ) × ℕ)
floor_rows cost d [] total = ok ([], total)
floor_rows cost d ((id, e) ∷ rs) total = do
  fail_if (ltb max_int64 (e * cost / d)) amount_overflow
  fail_if (ltb max_int64 total || ltb (max_int64 - e * cost / d) total) total_overflow
  rest ← floor_rows cost d rs (total + e * cost / d)
  ok (
    (
      record { request_id = id; numerator = e; denominator = d; microunits = e * cost / d },
      e * cost % d,
    )
        ∷ rest.0,
    rest.1,
  )

-- The order of the remainders: the larger rest first, then the smaller request id.
abbrev pub before : AllocationRow × ℕ → AllocationRow × ℕ → Bool
before (row, rest) (row', rest') =
    ltb rest' rest || ((rest == rest') && ltb row.request_id row'.request_id)

-- The rows are numbered; the remainders are (index, row, rest).
abbrev pub number : ℕ → List (AllocationRow × ℕ) → List (ℕ × (AllocationRow × ℕ))
number i [] = []
number i (r ∷ rs) = (i, r) ∷ number (suc i) rs

-- sort.SliceStable, by insertion from the right: an entry stays in front of its equals.
abbrev pub insert_remainder :
    ℕ × (AllocationRow × ℕ) → List (ℕ × (AllocationRow × ℕ)) → List (ℕ × (AllocationRow × ℕ))
insert_remainder x [] = x ∷ []
insert_remainder x (y ∷ ys) =
    let rest = insert_remainder x ys in if before y.1 x.1 then y ∷ rest else x ∷ y ∷ ys

unfoldable pub sort_remainders : List (ℕ × (AllocationRow × ℕ)) → List (ℕ × (AllocationRow × ℕ))
sort_remainders [] = []
sort_remainders (x ∷ xs) = insert_remainder x (sort_remainders xs)

-- `row.Microunits++` on the row with the index.
unfoldable pub bump : ℕ → List AllocationRow → Result PricingError (List AllocationRow)
bump i [] = ok []
bump zero (r ∷ rs) =
    if r.microunits == max_int64
    then err amount_overflow
    else ok (record r { microunits = r.microunits + 1 } ∷ rs)
bump (suc i) (r ∷ rs) = do rest ← bump i rs; ok (r ∷ rest)

-- The last loop, over the first `remaining` remainders.
unfoldable pub bump_all :
    List (ℕ × (AllocationRow × ℕ)) → List AllocationRow → Result PricingError (List AllocationRow)
unfolding bump
bump_all [] rows = ok rows
bump_all ((i, x) ∷ xs) rows = do rows' ← bump i rows; bump_all xs rows'

-- The rows with their shares of the monthly cost; `none` if no request counts.
unfoldable pub allocate_rows :
    ℕ → ℕ → List (ℕ × ℕ) → Result PricingError (Option (List AllocationRow))
unfolding floor_rows sort_remainders bump_all
allocate_rows cost denominator rs = if denominator == 0 then ok none else (do
  (floors, total) ← floor_rows cost denominator rs 0
  fail_if (ltb max_int64 total) total_overflow
  fail_if (ltb cost total || ltb (length floors) (cost - total)) invalid_remainder
  rows ← bump_all (take (cost - total) (sort_remainders (number 0 floors))) (map (λ r. r.0) floors)
  ok (some rows))

-- AllocateSubscriptionCost after its checks of the version and the times.
unfoldable pub allocate_subscription_cost :
    ℕ → List AllocationRequest → Result PricingError (Option (List AllocationRow))
unfolding counted add_denominator allocate_rows
allocate_subscription_cost cost requests = do
  denominator ← add_denominator (counted requests) 0
  allocate_rows cost denominator (counted requests)
