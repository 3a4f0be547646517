-- ===== src/Quota/Policy.antt =====
-- internal/apikey/quota.go, validateQuotaPolicy, validateQuotaRequest, validateQuotaUsage and the
-- tests of which quotas are on. Each value is read as a signed integer, and goes on over ℕ once its
-- test for a negative value has passed.
use codex_sub_proxy.Prelude.{
  ℕ, Bool, true, false, ◌&&◌, ◌||◌, ltb, ◌==◌, Result, ok, err, ◌>>=◌, ◌>>◌, fail_if, if◌then◌else◌,
}
use codex_sub_proxy.Prelude.Int.{ℤ, pos, negsuc}
use codex_sub_proxy.Quota.Types.{
  Amounts, token, image, cost, Error, count_range, window_range, rolling_pair, period_range,
  period_pair, default_exceeds_ceiling, request_count, negative_amount, amount_range,
}

-- 1 << 60
abbrev pub max_quota_count : ℕ
max_quota_count = 1152921504606846976

-- 365 days
abbrev pub max_quota_window : ℕ
max_quota_window = 31536000000000000

-- The fields of Policy that the quota store reads.
pub record Policy (N : Type 0) : Type 0 where
  pub max_concurrent_requests : N
  pub rolling_request_count : N
  pub rolling_request_window : N
  pub period_request_limit : N
  pub period_token_limit : N
  pub period_image_limit : N
  pub period_cost_microunit_limit : N
  pub period_duration : N
  pub token_reservation_default : N
  pub token_reservation_ceiling : N
  pub image_reservation_default : N
  pub image_reservation_ceiling : N
  pub cost_microunit_reservation_default : N
  pub cost_microunit_reservation_ceiling : N

-- `value < 0 || value > bound`
unfoldable pub in_range : ℕ → Error → ℤ → Result Error ℕ
in_range bound e (negsuc n) = err e
in_range bound e (pos n) = if ltb bound n then err e else ok n

abbrev pub bool_ne : Bool → Bool → Bool
bool_ne true true = false
bool_ne false false = false
bool_ne _ _ = true

unfoldable pub period_quota_enabled : Policy ℕ → Bool
period_quota_enabled p =
    ltb 0 p.period_request_limit
    || ltb 0 p.period_token_limit
    || ltb 0 p.period_image_limit
    || ltb 0 p.period_cost_microunit_limit

unfoldable pub quota_policy_enabled : Policy ℕ → Bool
unfolding period_quota_enabled
quota_policy_enabled p =
    ltb 0 p.max_concurrent_requests
    || ltb 0 p.rolling_request_count
    || period_quota_enabled p
    || ltb 0 p.token_reservation_default
    || ltb 0 p.token_reservation_ceiling
    || ltb 0 p.image_reservation_default
    || ltb 0 p.image_reservation_ceiling
    || ltb 0 p.cost_microunit_reservation_default
    || ltb 0 p.cost_microunit_reservation_ceiling

-- The loop over the twelve counts. The durations are filled in by the caller.
unfoldable pub check_counts : Policy ℤ → ℕ → ℕ → Result Error (Policy ℕ)
unfolding in_range
check_counts p window duration = do
  concurrent ← in_range max_quota_count count_range p.max_concurrent_requests
  rolling ← in_range max_quota_count count_range p.rolling_request_count
  requests ← in_range max_quota_count count_range p.period_request_limit
  tokens ← in_range max_quota_count count_range p.period_token_limit
  images ← in_range max_quota_count count_range p.period_image_limit
  costs ← in_range max_quota_count count_range p.period_cost_microunit_limit
  token_default ← in_range max_quota_count count_range p.token_reservation_default
  token_ceiling ← in_range max_quota_count count_range p.token_reservation_ceiling
  image_default ← in_range max_quota_count count_range p.image_reservation_default
  image_ceiling ← in_range max_quota_count count_range p.image_reservation_ceiling
  cost_default ← in_range max_quota_count count_range p.cost_microunit_reservation_default
  cost_ceiling ← in_range max_quota_count count_range p.cost_microunit_reservation_ceiling
  ok (record {
    max_concurrent_requests = concurrent;
    rolling_request_count = rolling;
    rolling_request_window = window;
    period_request_limit = requests;
    period_token_limit = tokens;
    period_image_limit = images;
    period_cost_microunit_limit = costs;
    period_duration = duration;
    token_reservation_default = token_default;
    token_reservation_ceiling = token_ceiling;
    image_reservation_default = image_default;
    image_reservation_ceiling = image_ceiling;
    cost_microunit_reservation_default = cost_default;
    cost_microunit_reservation_ceiling = cost_ceiling;
  })

-- What is tested after the counts and the window: the pairs that go together.
unfoldable pub check_period : Policy ℕ → Result Error (Policy ℕ)
unfolding period_quota_enabled
check_period p = do
  fail_if (bool_ne (period_quota_enabled p) (ltb 0 p.period_duration)) period_pair
  fail_if
      (ltb 0 p.token_reservation_ceiling
        && ltb p.token_reservation_ceiling p.token_reservation_default)
      (default_exceeds_ceiling token)
  fail_if
      (ltb 0 p.image_reservation_ceiling
        && ltb p.image_reservation_ceiling p.image_reservation_default)
      (default_exceeds_ceiling image)
  fail_if
      (ltb 0 p.cost_microunit_reservation_ceiling
        && ltb p.cost_microunit_reservation_ceiling p.cost_microunit_reservation_default)
      (default_exceeds_ceiling cost)
  ok p

unfoldable pub validate_quota_policy : Policy ℤ → Result Error (Policy ℕ)
unfolding in_range check_counts check_period
validate_quota_policy p = do
  counts ← check_counts p 0 0
  window ← in_range max_quota_window window_range p.rolling_request_window
  fail_if (bool_ne (counts.rolling_request_count == 0) (window == 0)) rolling_pair
  duration ← in_range max_quota_window period_range p.period_duration
  check_period (record counts { rolling_request_window = window; period_duration = duration })

-- The test for a negative amount comes before the test of the upper bounds.
unfoldable pub non_negative : ℤ → Result Error ℕ
non_negative (negsuc n) = err negative_amount
non_negative (pos n) = ok n

abbrev amounts_out_of_range : Amounts ℕ → Bool
amounts_out_of_range a =
    ltb max_quota_count a.tokens
    || ltb max_quota_count a.images
    || ltb max_quota_count a.cost_microunits

unfoldable pub is_one : ℤ → Bool
is_one (pos n) = n == 1
is_one (negsuc n) = false

unfoldable pub validate_quota_request : Amounts ℤ → Result Error (Amounts ℕ)
unfolding non_negative is_one
validate_quota_request r = do
  if is_one r.requests then ok tt else err request_count
  tokens ← non_negative r.tokens
  images ← non_negative r.images
  costs ← non_negative r.cost_microunits
  let a : Amounts ℕ = record {
    requests = 1;
    tokens = tokens;
    images = images;
    cost_microunits = costs;
  }
  fail_if (amounts_out_of_range a) amount_range
  ok a

-- The upper bounds of validateQuotaUsage, which the code tests again on what it has stored.
unfoldable pub usage_in_range : Amounts ℕ → Result Error (Unit {0})
usage_in_range a = fail_if (ltb 1 a.requests || amounts_out_of_range a) amount_range

unfoldable pub validate_quota_usage : Amounts ℤ → Result Error (Amounts ℕ)
unfolding non_negative usage_in_range
validate_quota_usage u = do
  requests ← non_negative u.requests
  tokens ← non_negative u.tokens
  images ← non_negative u.images
  costs ← non_negative u.cost_microunits
  let a : Amounts ℕ = record {
    requests = requests;
    tokens = tokens;
    images = images;
    cost_microunits = costs;
  }
  usage_in_range a
  ok a
