-- ===== src/Quota/Settle.antt =====
-- internal/apikey/quota.go: how a reservation ends. QuotaStore.Reconcile, QuotaStore.Release and
-- the transactions under them. Database failures other than a missing row are not modelled.
use mathlib.Core.Option.{Option, none, some}
use codex_sub_proxy.Prelude.{ℕ, List, [], ◌==◌, take, Result, ok, err, ◌>>=◌, ◌>>◌, if◌then◌else◌}
use codex_sub_proxy.Prelude.Int.{ℤ}
use codex_sub_proxy.Prelude.Table.{find, modify}
use codex_sub_proxy.Quota.Types.{
  Amounts, QuotaState, QuotaBucket, Reservation, pending, finalizing, closed, released, is_pending,
  is_finalizing, Db, Error, reservation_not_found, usage_overflow,
}
use codex_sub_proxy.Quota.Policy.{validate_quota_usage, usage_in_range}
use codex_sub_proxy.Quota.Limits.{decrement_active, subtract_reservation, add_amounts}
use codex_sub_proxy.Quota.Rows.{
  state_key, bucket_key, reservation_key, lock_quota_state, load_reservation_bucket, set_active,
  set_amounts, no_amounts, mark,
}

-- A step of a transaction that only changes the tables.
abbrev pub Step : Type 0
Step = Db → Result Error Db

-- The tables as a transaction leaves them: an error rolls it back.
abbrev pub commit : Db → Result Error Db → Result Error (Unit {0}) × Db
commit db (ok db') = (ok tt, db')
commit db (err e) = (err e, db)

abbrev pub reservation? : ℕ → Db → Option Reservation
reservation? id db = find reservation_key id db.reservations

-- `if usage.Requests == 0` and `if usage.CostMicrounits == 0`
unfoldable pub default_usage : Amounts ℕ → Amounts ℕ → Amounts ℕ
default_usage requested u = record u {
  requests = if u.requests == 0 then requested.requests else u.requests;
  cost_microunits = if u.cost_microunits == 0 then requested.cost_microunits else u.cost_microunits;
}

abbrev pub record_usage : Amounts ℕ → Reservation → Reservation
record_usage u r = if is_pending r.status then record r { status = finalizing; actual = u } else r

unfoldable pub begin_quota_finalization : ℕ → Amounts ℕ → Step
unfolding default_usage usage_in_range
begin_quota_finalization id usage db = elim (reservation? id db) [
  | none ↦ err reservation_not_found
  | some r ↦
      if is_pending r.status
      then (do
        let u = default_usage r.requested usage
        usage_in_range u
        ok (record db {
          reservations = modify reservation_key id (record_usage u) db.reservations;
        }))
      else ok db
]

-- subtractReservation on the bucket, if the reservation has one.
unfoldable pub release_bucket :
    Option QuotaBucket → Amounts ℕ → ℕ → List QuotaBucket → Result Error (List QuotaBucket)
unfolding subtract_reservation
release_bucket none amt now buckets = ok buckets
release_bucket (some b) amt now buckets = do
  reserved ← subtract_reservation b.reserved amt
  ok (modify bucket_key b.id (set_amounts reserved b.actual now) buckets)

-- moveReservationToUsage
unfoldable pub move_reservation_to_usage :
    Option QuotaBucket
    → Amounts ℕ
    → Amounts ℕ
    → ℕ
    → List QuotaBucket
    → Result Error (List QuotaBucket)
unfolding subtract_reservation add_amounts
move_reservation_to_usage none amt usage now buckets = ok buckets
move_reservation_to_usage (some b) amt usage now buckets = do
  reserved ← subtract_reservation b.reserved amt
  actual ← add_amounts (λ _. usage_overflow) b.actual usage
  ok (modify bucket_key b.id (set_amounts reserved actual now) buckets)

-- releasePendingReservation once the row is read again and is still pending.
unfoldable pub release_current : QuotaState → Reservation → ℕ → List ℕ → Step
unfolding decrement_active load_reservation_bucket release_bucket
release_current state r now reason db = do
  active ← decrement_active state.active_requests
  bucket ← load_reservation_bucket r db.buckets
  buckets ← release_bucket bucket r.requested now db.buckets
  ok (record db {
    states = modify state_key r.key_id (set_active active now) db.states;
    buckets = buckets;
    reservations =
        modify reservation_key r.id (mark pending released no_amounts now reason) db.reservations;
  })

unfoldable pub release_pending_reservation : Reservation → ℕ → List ℕ → Step
unfolding lock_quota_state release_current
release_pending_reservation r now reason db =
    let (state, locked) = lock_quota_state r.key_id now db in
    elim (reservation? r.id locked) [
      | none ↦ ok locked
      | some current ↦
          if is_pending current.status
          then release_current state current now reason locked
          else ok locked
    ]

unfoldable pub release_step : ℕ → List ℕ → ℕ → Step
unfolding release_pending_reservation
release_step id reason now db = elim (reservation? id db) [
  | none ↦ err reservation_not_found
  | some r ↦
      if is_pending r.status then release_pending_reservation r now (take 128 reason) db else ok db
]

-- QuotaStore.Release
unfoldable pub release : ℕ → List ℕ → ℕ → Db → Result Error (Unit {0}) × Db
unfolding release_step
release id reason now db =
    if id == 0 then (err reservation_not_found, db) else commit db (release_step id reason now db)

-- applyFinalizingReservation once the row is read again and is still finalizing.
unfoldable pub apply_current : QuotaState → Reservation → ℕ → Step
unfolding usage_in_range decrement_active load_reservation_bucket move_reservation_to_usage
apply_current state r now db = do
  usage_in_range r.actual
  active ← decrement_active state.active_requests
  bucket ← load_reservation_bucket r db.buckets
  buckets ← move_reservation_to_usage bucket r.requested r.actual now db.buckets
  ok (record db {
    states = modify state_key r.key_id (set_active active now) db.states;
    buckets = buckets;
    reservations =
        modify reservation_key r.id (mark finalizing closed r.actual now []) db.reservations;
  })

unfoldable pub apply_locked : Reservation → ℕ → Step
unfolding lock_quota_state apply_current
apply_locked r now db =
    let (state, locked) = lock_quota_state r.key_id now db in
    elim (reservation? r.id locked) [
      | none ↦ ok locked
      | some current ↦
          if is_finalizing current.status then apply_current state current now locked else ok locked
    ]

unfoldable pub apply_finalizing_reservation : ℕ → ℕ → Step
unfolding apply_locked
apply_finalizing_reservation id now db = elim (reservation? id db) [
  | none ↦ ok db
  | some r ↦ if is_finalizing r.status then apply_locked r now db else ok db
]

-- The second transaction of Reconcile runs on what the first has committed.
abbrev pub then_apply : ℕ → ℕ → Result Error (Unit {0}) × Db → Result Error (Unit {0}) × Db
unfolding apply_finalizing_reservation
then_apply id now (ok done, db) = commit db (apply_finalizing_reservation id now db)
then_apply id now (err e, db) = (err e, db)

-- QuotaStore.Reconcile
unfoldable pub reconcile : ℕ → Amounts ℤ → ℕ → Db → Result Error (Unit {0}) × Db
unfolding validate_quota_usage begin_quota_finalization then_apply apply_finalizing_reservation
reconcile id usage now db =
    if id == 0 then (err reservation_not_found, db) else elim (validate_quota_usage usage) [
      | err e ↦ (err e, db)
      | ok u ↦ then_apply id now (commit db (begin_quota_finalization id u db))
    ]
