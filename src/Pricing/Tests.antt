-- ===== src/Pricing/Tests.antt =====
-- The estimate and the shares on concrete inputs (internal/server/pricing.go).
use codex_sub_proxy.Prelude.{
  get_elem?, List, ℕ, ◌≤◌, ◌≡◌, refl, arith, [], ◌∷◌, true, false, All, none, some, ok,
}
use codex_sub_proxy.Prelude.Int.{ℤ, pos, negsuc}
use codex_sub_proxy.Quota.Limits.{max_int64}
use codex_sub_proxy.Pricing.{
  ModelPrice, Usage, estimate, has_breakdown, token_parts, AllocationRequest,
  allocate_subscription_cost, AllocationRow, counted,
}
use codex_sub_proxy.Pricing.Bumps.{shared}
use codex_sub_proxy.Pricing.Bounds.{Share, Share-bounds}
use codex_sub_proxy.Pricing.Shares.{shares_sum_to_cost}
use codex_sub_proxy.Pricing.Estimate.{Fits, cost, estimate_exact}

abbrev price : ModelPrice
price = record {
  input = 1250000;
  cached_input = 125000;
  output = 10000000;
  reasoning = 10000000;
  image = 40000;
}

abbrev usage : Usage ℕ
usage = record {
  input_tokens = 1001;
  cached_input_tokens = 400;
  cached_input_tokens_known = true;
  output_tokens = 300;
  reasoning_tokens = 100;
  reasoning_tokens_known = true;
  total_tokens = 1301;
  image_count = 1;
}

estimate_exact_example :
    ((v : ℕ) → estimate price usage ≡ ok (some v) → (v ≡ cost price usage) × (v ≤ max_int64))
    × (has_breakdown price usage ≡ false → estimate price usage ≡ ok none)
    × (has_breakdown price usage ≡ true
        → All Fits (token_parts price usage)
        → cost price usage ≤ max_int64
        → estimate price usage ≡ ok (some (cost price usage)))
estimate_exact_example = estimate_exact price usage

estimated : estimate price usage ≡ ok (some 43801)
unfolding estimate
estimated = refl

abbrev request : ℕ → ℤ → AllocationRequest
request id e = record { request_id = id; estimate_microunits = e }

abbrev row : ℕ → ℕ → ℕ → AllocationRow
row id e share = record { request_id = id; numerator = e; denominator = 7; microunits = share }

-- 100 microunits over 3, 3 and 1: the floors leave one, which goes to the largest rest, and of two
-- equal ones to the smaller id.
shares :
    allocate_subscription_cost 100 (
      request 5 (pos 3)
      ∷ request 0 (pos 9)
      ∷ request 4 (pos 3)
      ∷ request 6 (pos 1)
      ∷ request 7 (negsuc 0)
      ∷ [])
    ≡ ok (some (row 5 3 43 ∷ row 4 3 43 ∷ row 6 1 14 ∷ []))
unfolding allocate_subscription_cost
shares = refl

abbrev requests : List AllocationRequest
requests = request 5 (pos 3) ∷ request 4 (pos 3) ∷ request 6 (pos 1) ∷ []

shares_sum_to_cost_example :
    (rows : List AllocationRow) × (allocate_subscription_cost 100 requests ≡ ok (some rows))
    × (shared rows ≡ 100)
unfolding counted
shares_sum_to_cost_example =
    shares_sum_to_cost 100 requests (ground arith) (ground arith) (ground arith)

Share-bounds_example :
    (r : AllocationRow) × (get_elem? (row 5 3 43 ∷ row 4 3 43 ∷ row 6 1 14 ∷ []) 1 ≡ some r)
    × Share 100 7 (4, 3) r
unfolding allocate_subscription_cost
Share-bounds_example =
    Share-bounds 100 requests (row 5 3 43 ∷ row 4 3 43 ∷ row 6 1 14 ∷ []) 1 (4, 3) refl refl
