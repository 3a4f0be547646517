-- ===== src/Quota/Within.antt =====
-- checkBucketLimits (internal/apikey/quota.go) leaves room for the request in every dimension.
use codex_sub_proxy.Prelude.{
  ℕ, ◌+◌, ◌≤◌, ◌≡◌, ◌⊎◌, inl, inr, none, some, false, List, arith, ok, bound, bind_inv,
}
use codex_sub_proxy.Prelude.Table.{find}
use codex_sub_proxy.Quota.Types.{
  Amounts, Dim, request, token, image, cost, amount, QuotaBucket, Reservation,
}
use codex_sub_proxy.Quota.Policy.{Policy, period_quota_enabled}
use codex_sub_proxy.Quota.Limits.{
  period_start_at, period_limit, check_bucket_limit, check_bucket_limits, quota_add,
}
use codex_sub_proxy.Quota.Rows.{bucket_key}
use codex_sub_proxy.Quota.Sums.{plus, amount-plus}

-- The limit of a dimension is off, or what the bucket holds and has used, with `extra`, is within it.
abbrev pub Within : Policy ℕ → QuotaBucket → Amounts ℕ → Dim → Type 0
Within p b extra d =
    (period_limit d p ≡ 0)
    ⊎ (amount d b.reserved + amount d b.actual + amount d extra ≤ period_limit d p)

check_bucket_limit-Within :
    (d : Dim) (p : Policy ℕ) (b : QuotaBucket) (r : Amounts ℕ) (now : ℕ)
    → check_bucket_limit d p b r now ≡ ok tt
    → Within p b r d
unfolding check_bucket_limit quota_add
check_bucket_limit-Within d p b r now h = ground arith

pub check_bucket_limits-Within :
    (p : Policy ℕ) (b : QuotaBucket) (r : Amounts ℕ) (now : ℕ)
    → check_bucket_limits p b r now ≡ ok tt
    → (d : Dim) → Within p b r d
unfolding check_bucket_limits
check_bucket_limits-Within p b r now h d =
    elim (bind_inv (check_bucket_limit request p b r now) _ h) [
      | bound _ e0 h0 ↦ elim (bind_inv (check_bucket_limit token p b r now) _ h0) [
        | bound _ e1 h1 ↦ elim (bind_inv (check_bucket_limit image p b r now) _ h1) [
          | bound _ e2 h2 ↦ by_dim d e0 e1 e2 h2
        ]
      ]
    ]
  where
    by_dim :
        (d : Dim)
        → check_bucket_limit request p b r now ≡ ok tt
        → check_bucket_limit token p b r now ≡ ok tt
        → check_bucket_limit image p b r now ≡ ok tt
        → check_bucket_limit cost p b r now ≡ ok tt
        → Within p b r d
    by_dim request e0 e1 e2 e3 = check_bucket_limit-Within request p b r now e0
    by_dim token e0 e1 e2 e3 = check_bucket_limit-Within token p b r now e1
    by_dim image e0 e1 e2 e3 = check_bucket_limit-Within image p b r now e2
    by_dim cost e0 e1 e2 e3 = check_bucket_limit-Within cost p b r now e3

-- What an admission leaves behind for the period: no limit of it is on, or the bucket that the row
-- names is the one of the key and the current period and within every limit.
abbrev pub PeriodWithin : Policy ℕ → ℕ → ℕ → Reservation → List QuotaBucket → Type 0
PeriodWithin p key_id now row buckets =
    ((period_quota_enabled p ≡ false) × (row.bucket_id ≡ none))
    ⊎ ((b : QuotaBucket) × (row.bucket_id ≡ some b.id)
        × (b.key_id ≡ key_id)
        × (b.period_start ≡ period_start_at now p.period_duration)
        × (row.period_start ≡ b.period_start)
        × (find bucket_key b.id buckets ≡ some b)
        × ((d : Dim)
            → (period_limit d p ≡ 0)
              ⊎ (amount d b.reserved + amount d b.actual ≤ period_limit d p)))

pub Within-reserved :
    (p : Policy ℕ) (b : QuotaBucket) (r : Amounts ℕ) (now : ℕ) (d : Dim)
    → Within p b r d
    → (period_limit d p ≡ 0) ⊎ (amount d (plus b.reserved r) + amount d b.actual ≤ period_limit d p)
Within-reserved p b r now d (inl off) = inl off
Within-reserved p b r now d (inr h) = inr (omega (arith, amount-plus b.reserved r d, h))
