-- ===== src/Quota/Outcomes.antt =====
-- What the callers of QuotaStore.Release and QuotaStore.Reconcile can rely on
-- (internal/apikey/quota.go).
use codex_sub_proxy.Prelude.{
  ℕ, ◌+◌, ◌≡◌, refl, ◌≢◌, ◌⊎◌, inl, inr, some, List, [], arith, take, ok, err, Result-cases,
  Bool-cases,
}
use codex_sub_proxy.Prelude.Int.{ℤ}
use codex_sub_proxy.Prelude.Table.{modify, find-modify, sum-modify, All-modify, modify-Unique}
use codex_sub_proxy.Quota.Types.{
  Amounts, QuotaBucket, Reservation, Db, Error, pending, finalizing, closed, released, out_of_fuel,
  is_pending,
}
use codex_sub_proxy.Quota.Policy.{validate_quota_usage, usage_in_range}
use codex_sub_proxy.Quota.Rows.{reservation_key, lock_quota_state, mark, no_amounts}
use codex_sub_proxy.Quota.Settle.{
  reservation?, commit, release_step, release, reconcile, apply_finalizing_reservation,
  begin_quota_finalization, default_usage, record_usage,
}
use codex_sub_proxy.Quota.Balance.{active_in, active_weight, held_weight, HasBucket, Balanced}
use codex_sub_proxy.Quota.Closing.{Gives, Closes}
use codex_sub_proxy.Quota.Lock.{lock_quota_state-others}
use codex_sub_proxy.Quota.Settlement.{mark-Closes}
use codex_sub_proxy.Quota.Endings.{ended_locked, release_pending_reservation_ok, apply_locked_cases}

-- What the end of the reservation `r` has done to the tables: its row is now `f r` and the other rows
-- are as they were, its bucket has given back what it asked for and is charged `added`, each key
-- counts as many active requests less as `r` was, and the books are balanced.
pub record Ended (db : Db) (r : Reservation) (f : Reservation → Reservation) (added : Amounts ℕ)
    (db' : Db) : Type 0 where
  pub balanced : Balanced db'
  pub row : reservation? r.id db' ≡ some (f r)
  pub rows : db'.reservations ≡ modify reservation_key r.id f db.reservations
  pub others : (id : ℕ) → id ≢ r.id → reservation? id db' ≡ reservation? id db
  pub buckets : Gives r added db.buckets db'.buckets
  pub active :
      (key_id : ℕ)
      → active_in key_id db'.states + active_weight key_id r ≡ active_in key_id db.states

pub ended_locked-Ended :
    (db : Db) (v : Balanced db) (r : Reservation) (f : Reservation → Reservation) (now : ℕ)
    (added : Amounts ℕ) (buckets : List QuotaBucket)
    → Closes f r
    → reservation? r.id db ≡ some r
    → Gives r added db.buckets buckets
    → Balanced (ended_locked db r now f buckets)
    → Ended db r f added (ended_locked db r now f buckets)
ended_locked-Ended db v r f now added buckets c found g b = record {
  balanced = b;
  row =
      rw (rows, find-modify reservation_key r.id r.id f db.reservations c.keeps_id) (ground arith);
  rows = rw rows refl;
  others = λ id ne.
      rw (rows, find-modify reservation_key id r.id f db.reservations c.keeps_id) (ground arith);
  buckets = g;
  active = λ k. ground (
    arith,
    c.shut,
    b.active k,
    v.active k,
    sum-modify reservation_key (active_weight k) r.id f db.reservations r found,
    rows,
  );
}
  where
    rows : (lock_quota_state r.key_id now db).1.reservations ≡ db.reservations
    rows = (lock_quota_state-others r.key_id now db).1

-- Releasing a pending reservation of balanced tables always succeeds. It closes that row as released
-- with the first 128 bytes of the reason, gives its amounts back to its bucket with no charge, takes
-- it off the active requests of its key, leaves every other reservation alone and keeps the books
-- balanced.
pub release_frees :
    (db : Db) (r : Reservation) (reason : List ℕ) (now : ℕ)
    → Balanced db
    → r.id ≢ 0
    → reservation? r.id db ≡ some r
    → r.status ≡ pending
    → (db' : Db) × (release r.id reason now db ≡ (ok tt, db'))
      × Ended db r (mark pending released no_amounts now (take 128 reason)) no_amounts db'
unfolding release release_step
release_frees db r reason now v ne found p =
    let (buckets, g, e, b) = release_pending_reservation_ok db v r found now (take 128 reason) p in
    let f = mark pending released no_amounts now (take 128 reason) in
    (
      ended_locked db r now f buckets,
      ground (arith, found, p, e),
      ended_locked-Ended db v r f now no_amounts buckets
          (mark-Closes pending released no_amounts now (take 128 reason) r refl refl p) found g b,
    )

-- A pending reservation with its success recorded.
abbrev pub success : Amounts ℕ → Reservation → Reservation
success u r = record r { status = finalizing; actual = u }

-- The tables with a success recorded on the pending reservation `r`.
abbrev pub recorded : Amounts ℕ → Reservation → Db → Db
recorded u r db = record db {
  reservations = modify reservation_key r.id (record_usage u) db.reservations;
}

recorded-found :
    (u : Amounts ℕ) (r : Reservation) (db : Db)
    → reservation? r.id db ≡ some r
    → r.status ≡ pending
    → reservation? r.id (recorded u r db) ≡ some (success u r)
recorded-found u r db found p =
    rw (find-modify reservation_key r.id r.id (record_usage u) db.reservations (λ a. ground arith))
      (ground arith)

record_usage-HasBucket :
    (u : Amounts ℕ) (buckets : List QuotaBucket) (a : Reservation)
    → HasBucket buckets a
    → HasBucket buckets (record_usage u a)
record_usage-HasBucket u buckets a h o = elim (Bool-cases (is_pending a.status)) [
  | inl p ↦ rw p (h (ground arith))
  | inr n ↦ rw n (h (rw n at o))
]

recorded-Balanced :
    (u : Amounts ℕ) (r : Reservation) (db : Db)
    → Balanced db
    → reservation? r.id db ≡ some r
    → r.status ≡ pending
    → Balanced (recorded u r db)
recorded-Balanced u r db v found p = record {
  active = λ k. ground (
    arith,
    v.active k,
    p,
    sum-modify reservation_key (active_weight k) r.id (record_usage u) db.reservations r found,
  );
  reserved = λ d id b h. ground (
    arith,
    v.reserved d id b h,
    p,
    sum-modify reservation_key (held_weight d id) r.id (record_usage u) db.reservations r found,
  );
  has_bucket =
      All-modify reservation_key (HasBucket db.buckets) (HasBucket db.buckets) r.id (record_usage u)
        db.reservations (λ a. record_usage-HasBucket u db.buckets a) (λ a h. h) v.has_bucket;
  unique = v.unique;
  unique_rows =
      modify-Unique reservation_key r.id (record_usage u) db.reservations (λ a. ground arith)
        v.unique_rows;
  named = v.named;
}

pub apply_finalizing_reservation_cases :
    (db : Db) (r : Reservation) (now : ℕ)
    → Balanced db
    → reservation? r.id db ≡ some r
    → r.status ≡ finalizing
    → ((e : Error) × (e ≢ out_of_fuel) × (apply_finalizing_reservation r.id now db ≡ err e))
      ⊎ ((db' : Db) × (apply_finalizing_reservation r.id now db ≡ ok db')
          × Ended db r (mark finalizing closed r.actual now []) r.actual db')
unfolding apply_finalizing_reservation
apply_finalizing_reservation_cases db r now v found p =
    elim (apply_locked_cases db v r found now p) [
      | inl (e, other, bad) ↦ inl (e, other, ground (arith, found, p, bad))
      | inr (buckets, g, e, b) ↦
          let f = mark finalizing closed r.actual now [] in
          inr (
            ended_locked db r now f buckets,
            ground (arith, found, p, e),
            ended_locked-Ended db v r f now r.actual buckets
                (mark-Closes finalizing closed r.actual now [] r refl refl p) found g b,
          )
    ]

-- Once the success is recorded, the call goes on with the second transaction.
reconcile_applies :
    (db : Db) (r : Reservation) (usage : Amounts ℤ) (u : Amounts ℕ) (now : ℕ)
    → r.id ≢ 0
    → reservation? r.id db ≡ some r
    → r.status ≡ pending
    → validate_quota_usage usage ≡ ok u
    → usage_in_range (default_usage r.requested u) ≡ ok tt
    → reconcile r.id usage now db
      ≡ commit
          (recorded (default_usage r.requested u) r db)
          (apply_finalizing_reservation r.id now (recorded (default_usage r.requested u) r db))
unfolding reconcile begin_quota_finalization
reconcile_applies db r usage u now ne found p valid good = ground (arith, valid, found, p, good)

-- Reconciling a pending reservation of balanced tables with a valid usage. A usage that counts no
-- request or no cost is charged what was reserved. If that is out of range the call fails and changes
-- nothing. Otherwise the success is recorded first: then the reservation is closed, charged to its
-- bucket and taken off the active requests, or the call fails and leaves the recorded success behind
-- on balanced tables.
pub reconcile_settles :
    (db : Db) (r : Reservation) (usage : Amounts ℤ) (u : Amounts ℕ) (now : ℕ)
    → Balanced db
    → r.id ≢ 0
    → reservation? r.id db ≡ some r
    → r.status ≡ pending
    → validate_quota_usage usage ≡ ok u
    → let charged = default_usage r.requested u in
      ((e : Error) × (usage_in_range charged ≡ err e) × (reconcile r.id usage now db ≡ (err e, db)))
      ⊎ ((db' : Db) × (reconcile r.id usage now db ≡ (ok tt, db'))
          × Ended
              (recorded charged r db)
              (success charged r)
              (mark finalizing closed charged now [])
              charged
              db')
      ⊎ ((e : Error) × (reconcile r.id usage now db ≡ (err e, recorded charged r db))
          × (reservation? r.id (recorded charged r db) ≡ some (success charged r))
          × Balanced (recorded charged r db))
unfolding reconcile begin_quota_finalization
reconcile_settles db r usage u now v ne found p valid =
    elim (Result-cases (usage_in_range (default_usage r.requested u))) [
      | inr (e, bad) ↦ inl (e, bad, ground (arith, valid, found, p, bad))
      | inl (_, good) ↦ inr (
          apply_cases (default_usage r.requested u)
            (reconcile_applies db r usage u now ne found p valid good))
    ]
  where
    apply_cases :
        (c : Amounts ℕ)
        → (reconcile r.id usage now db
            ≡ commit (recorded c r db) (apply_finalizing_reservation r.id now (recorded c r db)))
        → ((db' : Db) × (reconcile r.id usage now db ≡ (ok tt, db'))
            × Ended (recorded c r db) (success c r) (mark finalizing closed c now []) c db')
          ⊎ ((e : Error) × (reconcile r.id usage now db ≡ (err e, recorded c r db))
              × (reservation? r.id (recorded c r db) ≡ some (success c r))
              × Balanced (recorded c r db))
    apply_cases c step =
        elim (apply_finalizing_reservation_cases (recorded c r db) (success c r) now
          (recorded-Balanced c r db v found p) (recorded-found c r db found p) refl) [
            | inl (e, _, bad) ↦ inr (
              e,
              rw (step, bad),
              recorded-found c r db found p,
              recorded-Balanced c r db v found p,
            )
            | inr (db', fine, ended) ↦ inl (db', rw (step, fine), ended)
          ]
