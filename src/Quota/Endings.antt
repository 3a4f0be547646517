-- ===== src/Quota/Endings.antt =====
-- The steps of QuotaStore.Release, Reconcile and RecoverPending on balanced tables
-- (internal/apikey/quota.go), with the key's row locked.
use codex_sub_proxy.Prelude.{ℕ, ◌≡◌, ◌≢◌, ◌⊎◌, inl, inr, some, List, [], arith, ok, err}
use codex_sub_proxy.Prelude.Table.{find}
use codex_sub_proxy.Quota.Types.{
  QuotaBucket, Reservation, Db, Error, pending, finalizing, closed, released, out_of_fuel,
}
use codex_sub_proxy.Quota.Rows.{reservation_key, lock_quota_state, mark, no_amounts}
use codex_sub_proxy.Quota.Settle.{reservation?, release_pending_reservation, apply_locked}
use codex_sub_proxy.Quota.Balance.{Balanced}
use codex_sub_proxy.Quota.Closing.{Gives}
use codex_sub_proxy.Quota.Lock.{
  lock_quota_state-Balanced, lock_quota_state-found, lock_quota_state-others,
}
use codex_sub_proxy.Quota.Settlement.{ended, release_current_ok, apply_current_cases}

-- The tables after `r` has ended under the lock of its key's row.
abbrev pub ended_locked : Db → Reservation → ℕ → (Reservation → Reservation) → List QuotaBucket → Db
ended_locked db r now f buckets =
    ended (lock_quota_state r.key_id now db).1 r (lock_quota_state r.key_id now db).0 now f buckets

module _ (db : Db) (v : Balanced db) (r : Reservation)
    (found : find reservation_key r.id db.reservations ≡ some r) (now : ℕ) where
  found_locked : reservation? r.id (lock_quota_state r.key_id now db).1 ≡ some r
  found_locked = rw (lock_quota_state-others r.key_id now db).1 found

  pub release_pending_reservation_ok :
      (reason : List ℕ)
      → r.status ≡ pending
      → (buckets : List QuotaBucket) × Gives r no_amounts db.buckets buckets
        × (release_pending_reservation r now reason db
            ≡ ok (ended_locked db r now (mark pending released no_amounts now reason) buckets))
        × Balanced (ended_locked db r now (mark pending released no_amounts now reason) buckets)
  unfolding release_pending_reservation
  release_pending_reservation_ok reason p =
      let (buckets, g, e, b) =
        release_current_ok (lock_quota_state r.key_id now db).1
          (lock_quota_state-Balanced r.key_id now db v) r found_locked (ground arith)
          (lock_quota_state r.key_id now db).0 (lock_quota_state-found r.key_id now db) now reason
          p in
      (
        buckets,
        rw (lock_quota_state-others r.key_id now db).0 at g,
        rw (found_locked, release_pending_reservation, p) e,
        b,
      )

  pub apply_locked_cases :
      r.status ≡ finalizing
      → ((e : Error) × (e ≢ out_of_fuel) × (apply_locked r now db ≡ err e))
        ⊎ ((buckets : List QuotaBucket) × Gives r r.actual db.buckets buckets
            × (apply_locked r now db
                ≡ ok (ended_locked db r now (mark finalizing closed r.actual now []) buckets))
            × Balanced (ended_locked db r now (mark finalizing closed r.actual now []) buckets))
  unfolding apply_locked
  apply_locked_cases p =
      elim (apply_current_cases (lock_quota_state r.key_id now db).1
        (lock_quota_state-Balanced r.key_id now db v) r found_locked (ground arith)
        (lock_quota_state r.key_id now db).0 (lock_quota_state-found r.key_id now db) now p) [
          | inl (e, other, bad) ↦ inl (e, other, rw (found_locked, apply_locked, p) bad)
          | inr (buckets, g, e, b) ↦ inr (
            buckets,
            rw (lock_quota_state-others r.key_id now db).0 at g,
            rw (found_locked, apply_locked, p) e,
            b,
          )
        ]
