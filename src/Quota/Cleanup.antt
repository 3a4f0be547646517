-- ===== src/Quota/Cleanup.antt =====
-- cleanupRollingAdmissions (internal/apikey/quota.go) touches the rolling window alone.

use codex_sub_proxy.Prelude.{ℕ, ◌-◌, ◌≤◌, ◌≡◌, refl, some, List, [], ◌∷◌, arith}
use codex_sub_proxy.Prelude.Table.{find, find-modify}
use codex_sub_proxy.Quota.Types.{QuotaState, RollingAdmission, Db}
use codex_sub_proxy.Quota.Rows.{
  state_key, lock_quota_state, set_rolling, delete_rolling, drop_expired,
  cleanup_rolling_admissions, expired_batch,
}
use codex_sub_proxy.Quota.Balance.{active_in, Balanced}
use codex_sub_proxy.Quota.Lock.{
  lock_quota_state-active, lock_quota_state-found, lock_quota_state-Balanced,
}

-- What the cleanup keeps: the row of the key is the one returned, with the same active requests and
-- no larger a rolling count, and the books are as they were.
pub record Kept (key_id : ℕ) (state : QuotaState) (db : Db) (state' : QuotaState) (db' : Db)
    : Type 0 where
  pub buckets : db'.buckets ≡ db.buckets
  pub rows : db'.reservations ≡ db.reservations
  pub active : (k : ℕ) → active_in k db'.states ≡ active_in k db.states
  pub found : find state_key key_id db'.states ≡ some state'
  pub same_active : state'.active_requests ≡ state.active_requests
  pub count_le : state'.rolling_count ≤ state.rolling_count

drop_expired-Kept :
    (key_id : ℕ) (ids : List RollingAdmission) (state : QuotaState) (db : Db)
    → find state_key key_id db.states ≡ some state
    → Kept key_id state db (drop_expired key_id ids state db).0 (drop_expired key_id ids state db).1
unfolding drop_expired
drop_expired-Kept key_id [] state db e = record {
  buckets = refl;
  rows = refl;
  active = λ k. refl;
  found = e;
  same_active = refl;
  count_le = omega arith;
}
drop_expired-Kept key_id (x ∷ ids) state db e =
    let count = state.rolling_count - (delete_rolling (x ∷ ids) db.rolling).0 in
    record {
      buckets = refl;
      rows = refl;
      active = λ k.
          rw (find-modify state_key k key_id (set_rolling count) db.states (λ a. refl))
            (ground arith);
      found =
          rw (find-modify state_key key_id key_id (set_rolling count) db.states (λ a. refl))
            (ground arith);
      same_active = refl;
      count_le = omega arith;
    }

pub Kept-Balanced :
    (key_id : ℕ) (state : QuotaState) (db : Db) (state' : QuotaState) (db' : Db)
    → Kept key_id state db state' db'
    → Balanced db
    → Balanced db'
Kept-Balanced key_id state db state' db' c v = record {
  active = λ k. rw (c.active k, c.rows) (v.active k);
  reserved = λ d j b h. rw c.rows (v.reserved d j b (rw c.buckets at h));
  has_bucket = rw (c.buckets, c.rows) v.has_bucket;
  unique = rw c.buckets v.unique;
  unique_rows = rw c.rows v.unique_rows;
  named = rw c.buckets v.named;
}

-- The key's row and the tables with which an admission decides.
abbrev pub entered : ℕ → ℕ → Db → QuotaState × Db
entered key_id now db = cleanup_rolling_admissions key_id now (lock_quota_state key_id now db)

pub entered-Kept :
    (key_id now : ℕ) (db : Db)
    → Kept key_id
        (lock_quota_state key_id now db).0
        (lock_quota_state key_id now db).1
        (entered key_id now db).0
        (entered key_id now db).1
unfolding cleanup_rolling_admissions
entered-Kept key_id now db =
    drop_expired-Kept key_id (expired_batch key_id now (lock_quota_state key_id now db).1.rolling)
      (lock_quota_state key_id now db).0 (lock_quota_state key_id now db).1
      (lock_quota_state-found key_id now db)

pub entered-Balanced : (key_id now : ℕ) (db : Db) → Balanced db → Balanced (entered key_id now db).1
entered-Balanced key_id now db v =
    Kept-Balanced key_id (lock_quota_state key_id now db).0 (lock_quota_state key_id now db).1
      (entered key_id now db).0 (entered key_id now db).1 (entered-Kept key_id now db)
      (lock_quota_state-Balanced key_id now db v)

-- The returned row counts the active requests of the key.
pub entered-active :
    (key_id now : ℕ) (db : Db)
    → (entered key_id now db).0.active_requests ≡ active_in key_id db.states
entered-active key_id now db = ground (
  arith,
  (entered-Kept key_id now db).active key_id,
  (entered-Kept key_id now db).found,
  lock_quota_state-active key_id key_id now db,
)
