-- ===== src/Quota/Rows.antt =====
-- internal/apikey/quota.go, the statements on the tables: lockQuotaState, cleanupRollingAdmissions,
-- nextRollingReset, lockQuotaBucket, loadQuotaBucket, loadReservationBucket, saveQuotaBucket,
-- markQuotaReservation. A transaction is a function from the tables to a result: an error rolls it back.
use mathlib.Core.Option.{Option, none, some}
use codex_sub_proxy.Prelude.{
  ℕ, ◌+◌, ◌-◌, List, [], ◌∷◌, Bool, true, false, ◌&&◌, ◌||◌, ltb, leb, ◌==◌, take, select, Result,
  ok, err, if◌then◌else◌,
}
use codex_sub_proxy.Prelude.Table.{find, insert, modify}
use codex_sub_proxy.Quota.Types.{
  Amounts, QuotaState, QuotaBucket, RollingAdmission, Reservation, Status, pending, finalizing,
  closed, released, Db, Error, storage, bucket_missing,
}

abbrev pub quota_batch_size : ℕ
quota_batch_size = 256

abbrev pub state_key : QuotaState → ℕ
state_key s = s.key_id

abbrev pub bucket_key : QuotaBucket → ℕ
bucket_key b = b.id

abbrev pub reservation_key : Reservation → ℕ
reservation_key r = r.id

-- INSERT ... ON CONFLICT (key_id) DO UPDATE SET updated_at, then SELECT.
unfoldable pub lock_quota_state : ℕ → ℕ → Db → QuotaState × Db
lock_quota_state key_id now db = elim (find state_key key_id db.states) [
  | some s ↦ (
    record s { updated_at = now },
    record db { states = modify state_key key_id (λ t. record t { updated_at = now }) db.states },
  )
  | none ↦
      let seed : QuotaState = record {
        key_id = key_id;
        active_requests = 0;
        rolling_count = 0;
        updated_at = now;
      } in
      (seed, record db { states = insert state_key seed db.states })
]

-- UPDATE quota_states SET active_requests, rolling_count, updated_at WHERE key_id = ?
abbrev pub set_state : ℕ → ℕ → ℕ → QuotaState → QuotaState
set_state active rolling now s = record s {
  active_requests = active;
  rolling_count = rolling;
  updated_at = now;
}

abbrev pub set_active : ℕ → ℕ → QuotaState → QuotaState
set_active active now s = record s { active_requests = active; updated_at = now }

abbrev pub set_rolling : ℕ → QuotaState → QuotaState
set_rolling rolling s = record s { rolling_count = rolling }

-- ORDER BY expires_at ASC
unfoldable pub by_expiry : List RollingAdmission → List RollingAdmission
by_expiry [] = []
by_expiry (r ∷ rs) = insert (λ (e : RollingAdmission). e.expires_at) r (by_expiry rs)

abbrev pub is_id_of : List RollingAdmission → ℕ → Bool
is_id_of [] id = false
is_id_of (r ∷ rs) id = id == r.id || is_id_of rs id

-- The oldest expired admissions of the key, at most one batch of them.
unfoldable pub expired_batch : ℕ → ℕ → List RollingAdmission → List RollingAdmission
unfolding by_expiry
expired_batch key_id now rolling =
    take quota_batch_size
      (by_expiry (select (λ r. r.key_id == key_id && leb r.expires_at now) rolling))

-- DELETE ... WHERE id IN ids, and the number of rows that went.
unfoldable pub delete_rolling :
    List RollingAdmission → List RollingAdmission → ℕ × List RollingAdmission
delete_rolling ids [] = (0, [])
delete_rolling ids (r ∷ rs) =
    let (n, kept) = delete_rolling ids rs in
    if is_id_of ids r.id then (n + 1, kept) else (n, r ∷ kept)

-- The count goes down by the rows deleted, and no lower than 0, as `-` on ℕ does.
unfoldable pub drop_expired : ℕ → List RollingAdmission → QuotaState → Db → QuotaState × Db
unfolding delete_rolling
drop_expired key_id [] state db = (state, db)
drop_expired key_id (e ∷ es) state db =
    let (n, kept) = delete_rolling (e ∷ es) db.rolling in
    let count = state.rolling_count - n in
    (
      record state { rolling_count = count },
      record db { rolling = kept; states = modify state_key key_id (set_rolling count) db.states },
    )

unfoldable pub cleanup_rolling_admissions : ℕ → ℕ → QuotaState × Db → QuotaState × Db
unfolding expired_batch drop_expired
cleanup_rolling_admissions key_id now (state, db) =
    drop_expired key_id (expired_batch key_id now db.rolling) state db

unfoldable pub next_rolling_reset : ℕ → ℕ → ℕ → Db → ℕ
unfolding by_expiry
next_rolling_reset key_id now window db =
    elim (by_expiry (select (λ r. r.key_id == key_id && ltb now r.expires_at) db.rolling)) [
      | e ∷ es ↦ e.expires_at
      | [] ↦ now + window
    ]

-- WHERE key_id = ? AND period_start = ?, which a unique index serves.
unfoldable pub find_period : ℕ → ℕ → List QuotaBucket → Option QuotaBucket
find_period key_id start [] = none
find_period key_id start (b ∷ bs) =
    if b.key_id == key_id && b.period_start == start then some b else find_period key_id start bs

abbrev pub no_amounts : Amounts ℕ
no_amounts = record { requests = 0; tokens = 0; images = 0; cost_microunits = 0 }

abbrev pub touch_bucket : ℕ → QuotaBucket → QuotaBucket
touch_bucket now b = record b { updated_at = now }

abbrev pub new_bucket : ℕ → ℕ → ℕ → ℕ → QuotaBucket
new_bucket bucket_id key_id start now = record {
  id = bucket_id;
  key_id = key_id;
  period_start = start;
  reserved = no_amounts;
  actual = no_amounts;
  created_at = now;
  updated_at = now;
}

-- INSERT ... ON CONFLICT (key_id, period_start) DO UPDATE SET updated_at, then SELECT. An id that
-- another bucket has is a conflict on the primary key.
unfoldable pub lock_quota_bucket :
    ℕ → ℕ → ℕ → ℕ → List QuotaBucket → Result Error (QuotaBucket × List QuotaBucket)
unfolding find_period
lock_quota_bucket bucket_id key_id start now buckets = elim (find_period key_id start buckets) [
  | some b ↦ ok (touch_bucket now b, modify bucket_key b.id (touch_bucket now) buckets)
  | none ↦ elim (find bucket_key bucket_id buckets) [
    | some b ↦ err storage
    | none ↦
        let fresh = new_bucket bucket_id key_id start now in
        ok (fresh, insert bucket_key fresh buckets)
  ]
]

unfoldable pub or_missing : Option QuotaBucket → Result Error (Option QuotaBucket)
or_missing none = err bucket_missing
or_missing (some b) = ok (some b)

-- loadReservationBucket once the bucket's id is known not to be blank, or there is none.
unfoldable pub load_period_bucket :
    Reservation → List QuotaBucket → Result Error (Option QuotaBucket)
unfolding or_missing find_period
load_period_bucket r buckets =
    if r.period_start == 0
    then ok none
    else or_missing (find_period r.key_id r.period_start buckets)

unfoldable pub load_reservation_bucket :
    Reservation → List QuotaBucket → Result Error (Option QuotaBucket)
unfolding load_period_bucket or_missing
load_reservation_bucket r buckets = elim r.bucket_id [
  | some id ↦
      if id == 0 then load_period_bucket r buckets else or_missing (find bucket_key id buckets)
  | none ↦ load_period_bucket r buckets
]

abbrev pub set_amounts : Amounts ℕ → Amounts ℕ → ℕ → QuotaBucket → QuotaBucket
set_amounts reserved actual now b = record b {
  reserved = reserved;
  actual = actual;
  updated_at = now;
}

abbrev pub status_eq : Status → Status → Bool
status_eq pending pending = true
status_eq finalizing finalizing = true
status_eq closed closed = true
status_eq released released = true
status_eq _ _ = false

-- UPDATE quota_reservations SET ... WHERE id = ? AND status = from
abbrev pub mark : Status → Status → Amounts ℕ → ℕ → List ℕ → Reservation → Reservation
mark from to usage now [] r =
    if status_eq r.status from
    then record r { status = to; actual = usage; closed_at = some now }
    else r
mark from to usage now (c ∷ reason) r =
    if status_eq r.status from
    then record r {
      status = to;
      actual = usage;
      closed_at = some now;
      recovery_reason = c ∷ reason;
      recovery_at = some now;
    }
    else r
