-- ===== src/Quota/Limits.antt =====
-- internal/apikey/quota.go, the arithmetic of one bucket: quotaAdd, decrementActive,
-- subtractReservation, the sum in moveReservationToUsage, checkReservationCeilings,
-- checkBucketLimits, newQuotaError and periodStartAt.
use codex_sub_proxy.Prelude.{
  ℕ, ◌+◌, ◌-◌, ◌%◌, ◌&&◌, ltb, leb, ◌==◌, Option, none, some, Result, ok, err, ◌>>=◌, ◌>>◌, fail_if,
  if◌then◌else◌,
}
use codex_sub_proxy.Quota.Types.{
  Amounts, Dim, request, token, image, cost, amount, Kind, limit, Error, exceeded,
  concurrency_inconsistent, bucket_inconsistent, QuotaBucket,
}
use codex_sub_proxy.Quota.Policy.{Policy}

-- math.MaxInt64
abbrev pub max_int64 : ℕ
max_int64 = 9223372036854775807

abbrev pub second : ℕ
second = 1000000000

unfoldable pub quota_add : ℕ → ℕ → Option ℕ
quota_add left right = if ltb (max_int64 - right) left then none else some (left + right)

abbrev pub or_fail : {A : Type 0} → Option A → Error → Result Error A
or_fail none e = err e
or_fail (some a) e = ok a

-- `now.UTC().Truncate(duration)`; the code's remaining case, a negative duration, is refused before.
unfoldable pub period_start_at : ℕ → ℕ → ℕ
period_start_at now duration = if duration == 0 then now else now - now % duration

unfoldable pub new_quota_error : Kind → ℕ → ℕ → Error
new_quota_error kind now reset_at =
    if leb reset_at now
    then exceeded (record { kind = kind; retry_after = second; reset_at = now + second })
    else exceeded (record { kind = kind; retry_after = reset_at - now; reset_at = reset_at })

unfoldable pub check_ceiling : Dim → ℕ → ℕ → ℕ → Result Error (Unit {0})
unfolding new_quota_error
check_ceiling dim ceiling amt now =
    fail_if (ltb 0 ceiling && ltb ceiling amt) (new_quota_error (limit dim) now (now + second))

unfoldable pub check_reservation_ceilings : Policy ℕ → Amounts ℕ → ℕ → Result Error (Unit {0})
unfolding check_ceiling
check_reservation_ceilings p r now = do
  check_ceiling token p.token_reservation_ceiling r.tokens now
  check_ceiling image p.image_reservation_ceiling r.images now
  check_ceiling cost p.cost_microunit_reservation_ceiling r.cost_microunits now

abbrev pub reset_time : Policy ℕ → ℕ → ℕ
unfolding period_start_at
reset_time p now =
    if ltb 0 p.period_duration
    then period_start_at now p.period_duration + p.period_duration
    else now + second

abbrev pub period_limit : Dim → Policy ℕ → ℕ
period_limit request p = p.period_request_limit
period_limit token p = p.period_token_limit
period_limit image p = p.period_image_limit
period_limit cost p = p.period_cost_microunit_limit

-- `amount > limit-used` is a comparison of signed numbers: `limit < used + amount`.
unfoldable pub check_bucket_limit :
    Dim → Policy ℕ → QuotaBucket → Amounts ℕ → ℕ → Result Error (Unit {0})
unfolding quota_add new_quota_error
check_bucket_limit dim p bucket r now =
    if period_limit dim p == 0
    then ok tt
    else elim (quota_add (amount dim bucket.reserved) (amount dim bucket.actual)) [
      | none ↦ err (new_quota_error (limit dim) now (reset_time p now))
      | some used ↦
          fail_if (ltb (period_limit dim p) (used + amount dim r))
            (new_quota_error (limit dim) now (reset_time p now))
    ]

unfoldable pub check_bucket_limits :
    Policy ℕ → QuotaBucket → Amounts ℕ → ℕ → Result Error (Unit {0})
unfolding check_bucket_limit
check_bucket_limits p bucket r now = do
  check_bucket_limit request p bucket r now
  check_bucket_limit token p bucket r now
  check_bucket_limit image p bucket r now
  check_bucket_limit cost p bucket r now

unfoldable pub decrement_active : ℕ → Result Error ℕ
decrement_active active = if active == 0 then err concurrency_inconsistent else ok (active - 1)

abbrev take_amount : ℕ → ℕ → Result Error ℕ
take_amount held amt = if ltb held amt then err bucket_inconsistent else ok (held - amt)

unfoldable pub subtract_reservation : Amounts ℕ → Amounts ℕ → Result Error (Amounts ℕ)
subtract_reservation held amt = do
  requests ← take_amount held.requests amt.requests
  tokens ← take_amount held.tokens amt.tokens
  images ← take_amount held.images amt.images
  costs ← take_amount held.cost_microunits amt.cost_microunits
  ok (record { requests = requests; tokens = tokens; images = images; cost_microunits = costs })

-- The four checked sums; `e` is the error of a sum that overflows.
unfoldable pub add_amounts : (Dim → Error) → Amounts ℕ → Amounts ℕ → Result Error (Amounts ℕ)
unfolding quota_add
add_amounts e held amt = do
  requests ← or_fail (quota_add held.requests amt.requests) (e request)
  tokens ← or_fail (quota_add held.tokens amt.tokens) (e token)
  images ← or_fail (quota_add held.images amt.images) (e image)
  costs ← or_fail (quota_add held.cost_microunits amt.cost_microunits) (e cost)
  ok (record { requests = requests; tokens = tokens; images = images; cost_microunits = costs })
