-- ===== src/Quota/Types.antt =====
-- internal/apikey/quota.go, the types: amounts, errors, and the rows of the four tables.
use codex_sub_proxy.Prelude.{ℕ, Option, List, Bool, true, false}

-- The four counted dimensions of a request.
pub data Dim : Type 0 where
  request token image cost : Dim

-- QuotaRequest, QuotaUsage: over ℤ as they come in, and over ℕ once they are checked.
pub record Amounts (N : Type 0) : Type 0 where
  pub requests : N
  pub tokens : N
  pub images : N
  pub cost_microunits : N

abbrev pub amount : {N : Type 0} → Dim → Amounts N → N
amount request a = a.requests
amount token a = a.tokens
amount image a = a.images
amount cost a = a.cost_microunits

-- QuotaError.Kind
pub data Kind : Type 0 where
  concurrency rate : Kind
  limit : Dim → Kind

pub record QuotaError : Type 0 where
  pub kind : Kind
  pub retry_after : ℕ
  pub reset_at : ℕ

pub data Error : Type 0 where
  blank_key_id count_range window_range rolling_pair period_range period_pair : Error
  default_exceeds_ceiling : Dim → Error
  request_count negative_amount amount_range : Error
  exceeded : QuotaError → Error
  storage concurrency_overflow usage_overflow concurrency_inconsistent : Error
  reservation_overflow : Dim → Error
  bucket_inconsistent bucket_missing reservation_not_found out_of_fuel : Error

pub data Status : Type 0 where
  pending finalizing closed released : Status

abbrev pub is_pending : Status → Bool
is_pending pending = true
is_pending _ = false

abbrev pub is_finalizing : Status → Bool
is_finalizing finalizing = true
is_finalizing _ = false

pub record QuotaState : Type 0 where
  pub key_id : ℕ
  pub active_requests : ℕ
  pub rolling_count : ℕ
  pub updated_at : ℕ

pub record QuotaBucket : Type 0 where
  pub id : ℕ
  pub key_id : ℕ
  pub period_start : ℕ
  pub reserved : Amounts ℕ
  pub actual : Amounts ℕ
  pub created_at : ℕ
  pub updated_at : ℕ

pub record RollingAdmission : Type 0 where
  pub id : ℕ
  pub key_id : ℕ
  pub request_id : ℕ
  pub expires_at : ℕ
  pub created_at : ℕ

pub record Reservation : Type 0 where
  pub id : ℕ
  pub key_id : ℕ
  pub request_id : ℕ
  pub owner_id : ℕ
  pub period_start : ℕ
  pub bucket_id : Option ℕ
  pub requested : Amounts ℕ
  pub actual : Amounts ℕ
  pub status : Status
  pub created_at : ℕ
  pub closed_at : Option ℕ
  pub recovery_reason : List ℕ
  pub recovery_at : Option ℕ

-- The tables, each in order of its primary key.
pub record Db : Type 0 where
  pub states : List QuotaState
  pub buckets : List QuotaBucket
  pub rolling : List RollingAdmission
  pub reservations : List Reservation
