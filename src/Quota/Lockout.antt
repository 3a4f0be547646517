-- ===== src/Quota/Lockout.antt =====
-- The rolling limit after it is lowered (internal/apikey/quota.go). One admission forgets at most
-- quotaBatchSize expired entries, and a refusal rolls that back.
use codex_sub_proxy.Prelude.{
  ℕ, zero, suc, ◌+◌, ◌≤◌, ◌<◌, ◌≡◌, refl, inl, inr, none, some, List, [], ◌∷◌, ltb, leb, ◌==◌,
  if◌then◌else◌, length, take, select, ◌&&◌, arith, ok, err, Bool-cases,
}
use codex_sub_proxy.Prelude.Int.{ℤ}
use codex_sub_proxy.Prelude.Table.{find, Unique}
use codex_sub_proxy.Quota.Types.{
  Amounts, concurrency, rate, QuotaState, RollingAdmission, Db, Error,
}
use codex_sub_proxy.Quota.Policy.{Policy}
use codex_sub_proxy.Quota.Limits.{second, new_quota_error}
use codex_sub_proxy.Quota.Rows.{
  state_key, quota_batch_size, by_expiry, expired_batch, delete_rolling, drop_expired,
  cleanup_rolling_admissions, next_rolling_reset, lock_quota_state,
}
use codex_sub_proxy.Quota.Admit.{
  FreshIds, rolling_key, check_state, admit_locked, prepare, admit_checked, admit,
}
use codex_sub_proxy.Quota.Cleanup.{entered}
use codex_sub_proxy.Quota.Admitted.{rolling_of}

-- The rows with an id.
abbrev count_id : ℕ → List RollingAdmission → ℕ
count_id id [] = 0
count_id id (r ∷ rs) = let rest = count_id id rs in if r.id == id then rest + 1 else rest

count_id-absent :
    (id : ℕ) (rows : List RollingAdmission) → find rolling_key id rows ≡ none → count_id id rows ≡ 0
unfolding find
count_id-absent id [] e = refl
count_id-absent id (r ∷ rs) e = ground (arith, count_id-absent id rs)

count_id-le :
    (id : ℕ) (rows : List RollingAdmission) → Unique rolling_key rows → count_id id rows ≤ 1
count_id-le id [] u = omega arith
count_id-le id (r ∷ rs) u = ground (arith, count_id-le id rs u.1, count_id-absent r.id rs u.0)

delete_rolling-none : (rows : List RollingAdmission) → (delete_rolling [] rows).0 ≡ 0
unfolding delete_rolling
delete_rolling-none [] = refl
delete_rolling-none (r ∷ rs) = delete_rolling-none rs

delete_rolling-cons :
    (e : RollingAdmission) (es rows : List RollingAdmission)
    → (delete_rolling (e ∷ es) rows).0 ≤ count_id e.id rows + (delete_rolling es rows).0
unfolding delete_rolling
delete_rolling-cons e es [] = omega arith
delete_rolling-cons e es (r ∷ rs) = ground (arith, delete_rolling-cons e es rs)

-- No more rows go than there are ids.
delete_rolling-le :
    (ids rows : List RollingAdmission)
    → Unique rolling_key rows
    → (delete_rolling ids rows).0 ≤ length ids
delete_rolling-le [] rows u = omega (arith, delete_rolling-none rows)
delete_rolling-le (e ∷ es) rows u =
    omega
      (arith, delete_rolling-cons e es rows, count_id-le e.id rows u, delete_rolling-le es rows u)

length-take_le : (n : ℕ) (xs : List RollingAdmission) → length (take n xs) ≤ n
length-take_le zero xs = omega arith
length-take_le (suc n) [] = omega arith
length-take_le (suc n) (x ∷ xs) = omega (arith, length-take_le n xs)

drop_expired-count :
    (key_id : ℕ) (ids : List RollingAdmission) (state : QuotaState) (db : Db)
    → Unique rolling_key db.rolling
    → state.rolling_count ≤ (drop_expired key_id ids state db).0.rolling_count + length ids
unfolding drop_expired
drop_expired-count key_id [] state db u = omega arith
drop_expired-count key_id (e ∷ es) state db u =
    omega (arith, delete_rolling-le (e ∷ es) db.rolling u)

lock_quota_state-rolling :
    (key_id now : ℕ) (db : Db)
    → ((lock_quota_state key_id now db).0.rolling_count
        ≡ rolling_of (find state_key key_id db.states))
      × ((lock_quota_state key_id now db).1.rolling ≡ db.rolling)
unfolding lock_quota_state
lock_quota_state-rolling key_id now db = ground arith

entered-count :
    (key_id now : ℕ) (db : Db)
    → Unique rolling_key db.rolling
    → rolling_of (find state_key key_id db.states)
      ≤ (entered key_id now db).0.rolling_count + quota_batch_size
unfolding cleanup_rolling_admissions expired_batch
entered-count key_id now db u =
    let locked = lock_quota_state key_id now db in
    let (count, same) = lock_quota_state-rolling key_id now db in
    omega (
      arith,
      count,
      drop_expired-count key_id (expired_batch key_id now locked.1.rolling) locked.0 locked.1
          (rw same u),
      length-take_le quota_batch_size
          (by_expiry (select (λ e. e.key_id == key_id && leb e.expires_at now) locked.1.rolling)),
    )

check_state-full :
    (p : Policy ℕ) (key_id now : ℕ) (state : QuotaState) (db : Db)
    → 0 < p.rolling_request_count
    → p.rolling_request_count ≤ state.rolling_count
    → (e : Error) × (check_state p key_id now state db ≡ err e)
unfolding check_state
check_state-full p key_id now state db on full =
    elim (Bool-cases
      (ltb 0 p.max_concurrent_requests && leb p.max_concurrent_requests state.active_requests)) [
        | inl busy ↦ (new_quota_error concurrency now (now + second), rw busy)
        | inr free ↦ (
          new_quota_error rate now (next_rolling_reset key_id now p.rolling_request_window db),
          rw free (ground arith),
        )
      ]

-- Once the stored rolling count of a key is 256 or more above the limit, as it is after the limit was
-- lowered that far, every admission of the key is refused at whatever time it is tried, also when all
-- its entries have expired, and the tables stay as they are, so that no later attempt fares better.
pub rolling_lockout :
    (owner key_id : ℕ) (ids : FreshIds) (now : ℕ) (policy : Policy ℤ) (req : Amounts ℤ)
    (p : Policy ℕ) (r : Amounts ℕ) (db : Db)
    → Unique rolling_key db.rolling
    → prepare policy req key_id now ≡ ok (some (p, r))
    → 0 < p.rolling_request_count
    → p.rolling_request_count + quota_batch_size ≤ rolling_of (find state_key key_id db.states)
    → (e : Error) × (admit owner policy req key_id ids now db ≡ (err e, db))
unfolding admit admit_checked admit_locked
rolling_lockout owner key_id ids now policy req p r db u prepared on over =
    let (state, db1) = entered key_id now db in
    let (e, refused) =
      check_state-full p key_id now state db1 on (omega (arith, entered-count key_id now db u)) in
    (e, rw (prepared, admit) (rw refused))
