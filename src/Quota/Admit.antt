-- ===== src/Quota/Admit.antt =====
-- internal/apikey/quota.go, QuotaStore.Admit. The clock's reading and the identifiers that the
-- random source gives are arguments.
use mathlib.Core.Option.{Option, none, some}
use codex_sub_proxy.Prelude.{
  ℕ, ◌+◌, List, [], ◌∷◌, Bool, true, false, ◌&&◌, ltb, leb, ◌==◌, Result, ok, err, ◌>>=◌, ◌>>◌,
  fail_if, if◌then◌else◌,
}
use codex_sub_proxy.Prelude.Int.{ℤ}
use codex_sub_proxy.Prelude.Table.{find, insert, modify}
use codex_sub_proxy.Quota.Types.{
  Amounts, concurrency, rate, QuotaState, QuotaBucket, RollingAdmission, Reservation, pending, Db,
  Error, blank_key_id, storage, concurrency_overflow, reservation_overflow,
}
use codex_sub_proxy.Quota.Policy.{
  Policy, validate_quota_policy, validate_quota_request, quota_policy_enabled, period_quota_enabled,
}
use codex_sub_proxy.Quota.Limits.{
  max_int64, second, new_quota_error, period_start_at, check_reservation_ceilings,
  check_bucket_limits, add_amounts,
}
use codex_sub_proxy.Quota.Rows.{
  state_key, bucket_key, reservation_key, lock_quota_state, cleanup_rolling_admissions,
  next_rolling_reset, lock_quota_bucket, set_state, no_amounts,
}

-- The identifiers that newQuotaUUID draws in the course of one admission.
pub record FreshIds : Type 0 where
  pub reservation : ℕ
  pub request : ℕ
  pub bucket : ℕ
  pub rolling : ℕ

-- The limits on the key's own row: concurrent requests, then the rolling window.
unfoldable pub check_state : Policy ℕ → ℕ → ℕ → QuotaState → Db → Result Error (Unit {0})
unfolding new_quota_error next_rolling_reset
check_state p key_id now state db = do
  fail_if (ltb 0 p.max_concurrent_requests && leb p.max_concurrent_requests state.active_requests)
      (new_quota_error concurrency now (now + second))
  fail_if (ltb 0 p.rolling_request_count && leb p.rolling_request_count state.rolling_count)
      (new_quota_error rate now (next_rolling_reset key_id now p.rolling_request_window db))

-- The bucket of the current period, if any limit of the period is on, and the period's start.
unfoldable pub open_bucket :
    Policy ℕ
    → Amounts ℕ
    → ℕ
    → FreshIds
    → ℕ
    → List QuotaBucket
    → Result Error (Option (ℕ × QuotaBucket) × List QuotaBucket)
unfolding period_quota_enabled period_start_at lock_quota_bucket check_bucket_limits
open_bucket p r key_id ids now buckets =
    if period_quota_enabled p
    then (do
      let start = period_start_at now p.period_duration
      locked ← lock_quota_bucket ids.bucket key_id start now buckets
      check_bucket_limits p locked.0 r now
      ok (some (start, locked.0), locked.1))
    else ok (none, buckets)

-- The reserved amounts of the bucket go up by those of the request.
unfoldable pub reserve_bucket :
    Option (ℕ × QuotaBucket) → Amounts ℕ → ℕ → List QuotaBucket → Result Error (List QuotaBucket)
unfolding add_amounts
reserve_bucket none r now buckets = ok buckets
reserve_bucket (some (start, b)) r now buckets = do
  reserved ← add_amounts reservation_overflow b.reserved r
  ok (modify bucket_key b.id (λ c. record c { reserved = reserved; updated_at = now }) buckets)

abbrev pub rolling_key : RollingAdmission → ℕ
rolling_key e = e.id

unfoldable pub record_rolling :
    Policy ℕ → ℕ → FreshIds → ℕ → List RollingAdmission → Result Error (List RollingAdmission)
record_rolling p key_id ids now rolling =
    if ltb 0 p.rolling_request_count
    then elim (find rolling_key ids.rolling rolling) [
      | some e ↦ err storage
      | none ↦ ok (
          insert rolling_key
            (record {
              id = ids.rolling;
              key_id = key_id;
              request_id = ids.request;
              expires_at = now + p.rolling_request_window;
              created_at = now;
            })
            rolling)
    ]
    else ok rolling

abbrev is_request : ℕ → List Reservation → Bool
is_request id [] = false
is_request id (r ∷ rs) = let rest = is_request id rs in if id == r.request_id then true else rest

abbrev pub start_of : Option (ℕ × QuotaBucket) → ℕ
start_of none = 0
start_of (some (start, b)) = start

abbrev pub id_of : Option (ℕ × QuotaBucket) → Option ℕ
id_of none = none
id_of (some (start, b)) = some b.id

abbrev pub new_reservation :
    ℕ → ℕ → FreshIds → ℕ → Amounts ℕ → Option (ℕ × QuotaBucket) → Reservation
new_reservation owner key_id ids now r bucket = record {
  id = ids.reservation;
  key_id = key_id;
  request_id = ids.request;
  owner_id = owner;
  period_start = start_of bucket;
  bucket_id = id_of bucket;
  requested = r;
  actual = no_amounts;
  status = pending;
  created_at = now;
  closed_at = none;
  recovery_reason = [];
  recovery_at = none;
}

-- The row is refused if its id or its request id is taken.
unfoldable pub create_reservation : Reservation → List Reservation → Result Error (List Reservation)
create_reservation r rows = elim (find reservation_key r.id rows) [
  | some old ↦ err storage
  | none ↦ do fail_if (is_request r.request_id rows) storage; ok (insert reservation_key r rows)
]

-- The transaction after the key's row is locked and its expired admissions are gone.
unfoldable pub admit_locked :
    ℕ → Policy ℕ → Amounts ℕ → ℕ → FreshIds → ℕ → QuotaState × Db → Result Error (Reservation × Db)
unfolding check_state open_bucket reserve_bucket record_rolling create_reservation
admit_locked owner p r key_id ids now (state, db) = do
  check_state p key_id now state db
  opened ← open_bucket p r key_id ids now db.buckets
  fail_if (state.active_requests == max_int64) concurrency_overflow
  let count = if ltb 0 p.rolling_request_count then state.rolling_count + 1 else state.rolling_count
  buckets ← reserve_bucket opened.0 r now opened.1
  rolling ← record_rolling p key_id ids now db.rolling
  let row = new_reservation owner key_id ids now r opened.0
  reservations ← create_reservation row db.reservations
  ok (
    row,
    record {
      states = modify state_key key_id (set_state (state.active_requests + 1) count now) db.states;
      buckets = buckets;
      rolling = rolling;
      reservations = reservations;
    },
  )

-- The tables as the call leaves them: an error rolls the transaction back.
abbrev pub after : {A : Type 0} → Db → Result Error (A × Db) → Result Error A × Db
after db (ok (a, db')) = (ok a, db')
after db (err e) = (err e, db)

-- What is tested before the transaction; `none` if no quota is on.
unfoldable pub prepare : Policy ℤ → Amounts ℤ → ℕ → ℕ → Result Error (Option (Policy ℕ × Amounts ℕ))
unfolding validate_quota_policy validate_quota_request check_reservation_ceilings
    quota_policy_enabled
prepare policy req key_id now = do
  fail_if (key_id == 0) blank_key_id
  p ← validate_quota_policy policy
  r ← validate_quota_request req
  check_reservation_ceilings p r now
  ok (if quota_policy_enabled p then some (p, r) else none)

abbrev pub admitted : Result Error (Reservation × Db) → Result Error (Option Reservation × Db)
admitted (ok (row, db)) = ok (some row, db)
admitted (err e) = err e

unfoldable pub admit_checked :
    ℕ
    → Option (Policy ℕ × Amounts ℕ)
    → ℕ
    → FreshIds
    → ℕ
    → Db
    → Result Error (Option Reservation × Db)
unfolding admit_locked cleanup_rolling_admissions lock_quota_state
admit_checked owner none key_id ids now db = ok (none, db)
admit_checked owner (some (p, r)) key_id ids now db = admitted (
    admit_locked owner p r key_id ids now
      (cleanup_rolling_admissions key_id now (lock_quota_state key_id now db)))

unfoldable pub admit :
    ℕ → Policy ℤ → Amounts ℤ → ℕ → FreshIds → ℕ → Db → Result Error (Option Reservation) × Db
unfolding prepare admit_checked
admit owner policy req key_id ids now db =
    after db
      (prepare policy req key_id now >>= λ checked. admit_checked owner checked key_id ids now db)
