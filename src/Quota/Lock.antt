-- ===== src/Quota/Lock.antt =====
-- lockQuotaState (internal/apikey/quota.go) finds or makes the row of a key and leaves the books alone.

use codex_sub_proxy.Prelude.{ℕ, ◌≡◌, refl, inl, inr, some, arith, Option-cases}
use codex_sub_proxy.Prelude.Table.{find, find-insert, find-modify}
use codex_sub_proxy.Quota.Types.{Db}
use codex_sub_proxy.Quota.Rows.{state_key, lock_quota_state}
use codex_sub_proxy.Quota.Balance.{active_in, Balanced}

-- The lock finds or makes the key's row, and changes no count.
pub lock_quota_state-active :
    (k key_id now : ℕ) (db : Db)
    → active_in k (lock_quota_state key_id now db).1.states ≡ active_in k db.states
unfolding lock_quota_state
lock_quota_state-active k key_id now db = elim (Option-cases (find state_key key_id db.states)) [
  | inl absent ↦ rw (absent, lock_quota_state) (rw find-insert (ground arith))
  | inr (s, e) ↦
      rw (e, lock_quota_state)
        (rw
          (find-modify state_key k key_id (λ t. record t { updated_at = now }) db.states
            (λ a. refl))
          (ground arith))
]

pub lock_quota_state-found :
    (key_id now : ℕ) (db : Db)
    → find state_key key_id (lock_quota_state key_id now db).1.states
      ≡ some (lock_quota_state key_id now db).0
unfolding lock_quota_state
lock_quota_state-found key_id now db = elim (Option-cases (find state_key key_id db.states)) [
  | inl absent ↦ rw (absent, lock_quota_state) (rw find-insert (ground arith))
  | inr (s, e) ↦
      rw (e, lock_quota_state)
        (rw
          (find-modify state_key key_id key_id (λ t. record t { updated_at = now }) db.states
            (λ a. refl))
          (ground arith))
]

pub lock_quota_state-others :
    (key_id now : ℕ) (db : Db)
    → let locked = (lock_quota_state key_id now db).1 in
      (locked.buckets ≡ db.buckets)
      × (locked.reservations ≡ db.reservations)
      × (locked.rolling ≡ db.rolling)
unfolding lock_quota_state
lock_quota_state-others key_id now db = ground arith

pub lock_quota_state-Balanced :
    (key_id now : ℕ) (db : Db) → Balanced db → Balanced (lock_quota_state key_id now db).1
lock_quota_state-Balanced key_id now db v =
    let (same_buckets, same_rows, _) = lock_quota_state-others key_id now db in
    record {
      active = λ k. rw (lock_quota_state-active k key_id now db, same_rows) (v.active k);
      reserved = λ d id b h. rw same_rows (v.reserved d id b (rw same_buckets at h));
      has_bucket = rw (same_buckets, same_rows) v.has_bucket;
      unique = rw same_buckets v.unique;
      unique_rows = rw same_rows v.unique_rows;
      named = rw same_buckets v.named;
    }
