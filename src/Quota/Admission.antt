-- ===== src/Quota/Admission.antt =====
-- What an admission that succeeds (internal/apikey/quota.go, QuotaStore.Admit) has gone through.
use codex_sub_proxy.Prelude.{
  ℕ, ◌+◌, ◌≡◌, Option, none, ltb, ◌==◌, List, arith, if◌then◌else◌, Result, ok, bound, bind_inv,
  inl, inr, fail_if, Option-cases,
}
use codex_sub_proxy.Prelude.Table.{find, insert, modify}
use codex_sub_proxy.Quota.Types.{
  Amounts, QuotaState, QuotaBucket, RollingAdmission, Reservation, Db, Error, concurrency_overflow,
}
use codex_sub_proxy.Quota.Policy.{Policy}
use codex_sub_proxy.Quota.Limits.{max_int64}
use codex_sub_proxy.Quota.Rows.{state_key, reservation_key, set_state}
use codex_sub_proxy.Quota.Admit.{
  FreshIds, check_state, open_bucket, reserve_bucket, record_rolling, new_reservation,
  create_reservation, admit_locked,
}

-- The new count of the rolling window.
abbrev pub next_count : Policy ℕ → QuotaState → ℕ
next_count p state =
    if ltb 0 p.rolling_request_count then state.rolling_count + 1 else state.rolling_count

abbrev admitted_db :
    ℕ
    → ℕ
    → Policy ℕ
    → QuotaState
    → List QuotaBucket
    → List RollingAdmission
    → List Reservation
    → Db
    → Db
admitted_db key_id now p state buckets rolling rows db = record {
  states =
      modify state_key key_id (set_state (state.active_requests + 1) (next_count p state) now)
        db.states;
  buckets = buckets;
  rolling = rolling;
  reservations = rows;
}

-- Each step of the transaction, with its result.
pub record Passed (owner : ℕ) (p : Policy ℕ) (r : Amounts ℕ) (key_id : ℕ) (ids : FreshIds) (now : ℕ)
    (state : QuotaState) (db : Db) (row : Reservation) (db' : Db) : Type 0 where
  pub bucket : Option (ℕ × QuotaBucket)
  pub locked : List QuotaBucket
  pub checked : check_state p key_id now state db ≡ ok tt
  pub opened : open_bucket p r key_id ids now db.buckets ≡ ok (bucket, locked)
  pub reserved : reserve_bucket bucket r now locked ≡ ok db'.buckets
  pub rolled : record_rolling p key_id ids now db.rolling ≡ ok db'.rolling
  pub is_row : row ≡ new_reservation owner key_id ids now r bucket
  pub absent : find reservation_key row.id db.reservations ≡ none
  pub rows : db'.reservations ≡ insert reservation_key row db.reservations
  pub states :
      db'.states
      ≡ modify state_key key_id
          (set_state (state.active_requests + 1) (next_count p state) now)
          db.states

create_reservation_inv :
    (r : Reservation) (rows rows' : List Reservation)
    → create_reservation r rows ≡ ok rows'
    → (find reservation_key r.id rows ≡ none) × (rows' ≡ insert reservation_key r rows)
unfolding create_reservation
create_reservation_inv r rows rows' h = elim (Option-cases (find reservation_key r.id rows)) [
  | inl free ↦ (free, ground arith)
  | inr (old, taken) ↦ ground arith
]

pub admit_locked-Passed :
    (owner : ℕ) (p : Policy ℕ) (r : Amounts ℕ) (key_id : ℕ) (ids : FreshIds) (now : ℕ)
    (state : QuotaState) (db : Db) (row : Reservation) (db' : Db)
    → admit_locked owner p r key_id ids now (state, db) ≡ ok (row, db')
    → Passed owner p r key_id ids now state db row db'
unfolding admit_locked
admit_locked-Passed owner p r key_id ids now state db row db' h =
    elim (bind_inv (check_state p key_id now state db) _ h) [
      | bound _ e0 h0 ↦ elim (bind_inv (open_bucket p r key_id ids now db.buckets) _ h0) [
        | bound (bucket, locked) e1 h1 ↦
            elim (bind_inv (fail_if (state.active_requests == max_int64) concurrency_overflow) _
              h1) [
                | bound _ _ h2 ↦ elim (bind_inv (reserve_bucket bucket r now locked) _ h2) [
                  | bound buckets e3 h3 ↦
                      elim (bind_inv (record_rolling p key_id ids now db.rolling) _ h3) [
                        | bound rolling e4 h4 ↦
                            elim (bind_inv
                              (create_reservation (new_reservation owner key_id ids now r bucket)
                                db.reservations)
                              _ h4) [
                                | bound rows e5 h5 ↦
                                    finish bucket locked buckets rolling rows e0 e1 e3 e4 e5 h5
                              ]
                      ]
                ]
              ]
      ]
    ]
  where
    finish :
        (bucket : Option (ℕ × QuotaBucket)) (locked buckets : List QuotaBucket)
        (rolling : List RollingAdmission) (rows : List Reservation)
        → check_state p key_id now state db ≡ ok tt
        → open_bucket p r key_id ids now db.buckets ≡ ok (bucket, locked)
        → reserve_bucket bucket r now locked ≡ ok buckets
        → record_rolling p key_id ids now db.rolling ≡ ok rolling
        → create_reservation (new_reservation owner key_id ids now r bucket) db.reservations
          ≡ ok rows
        → ◌≡◌ {A = Result Error (Reservation × Db)}
            (ok (
              new_reservation owner key_id ids now r bucket,
              admitted_db key_id now p state buckets rolling rows db,
            ))
            (ok (row, db'))
        → Passed owner p r key_id ids now state db row db'
    finish bucket locked buckets rolling rows e0 e1 e3 e4 e5 h5 = record {
      bucket = bucket;
      locked = locked;
      checked = e0;
      opened = e1;
      reserved = ground (arith, e3);
      rolled = ground (arith, e4);
      is_row = ground arith;
      absent = ground (arith, create_reservation_inv _ db.reservations rows e5);
      rows = ground (arith, create_reservation_inv _ db.reservations rows e5);
      states = ground arith;
    }
