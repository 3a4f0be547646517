-- ===== src/Quota/Admitted.antt =====
-- What QuotaStore.Admit promises (internal/apikey/quota.go).
use codex_sub_proxy.Prelude.{
  ℕ, ◌+◌, ◌≤◌, ◌≡◌, refl, sym, ◌≢◌, ◌⊎◌, inl, inr, Option, none, some, false, List, ◌∙◌, arith, ok,
  bound, bind_inv, Bool-cases,
}
use codex_sub_proxy.Prelude.Table.{find, find-insert, find-modify}
use codex_sub_proxy.Quota.Types.{Amounts, QuotaState, QuotaBucket, Reservation, Db, pending}
use codex_sub_proxy.Quota.Policy.{Policy, period_quota_enabled}
use codex_sub_proxy.Quota.Limits.{period_start_at, check_bucket_limits}
use codex_sub_proxy.Quota.Rows.{
  state_key, bucket_key, reservation_key, set_state, lock_quota_bucket,
}
use codex_sub_proxy.Quota.Admit.{
  FreshIds, check_state, open_bucket, reserve_bucket, new_reservation, admit_locked,
}
use codex_sub_proxy.Quota.Settle.{reservation?}
use codex_sub_proxy.Quota.Balance.{active_in, Balanced}
use codex_sub_proxy.Quota.Lock.{lock_quota_state-others}
use codex_sub_proxy.Quota.Opening.{lock_quota_bucket_inv, lock_quota_bucket-Balanced}
use codex_sub_proxy.Quota.Admission.{Passed, next_count, admit_locked-Passed}
use codex_sub_proxy.Quota.Granting.{
  set_reserved, reserve_bucket_inv, granted, granted_free, granted_in_bucket,
}
use codex_sub_proxy.Quota.Cleanup.{entered, entered-Balanced, entered-Kept, entered-active}
use codex_sub_proxy.Quota.Sums.{plus}
use codex_sub_proxy.Quota.Within.{PeriodWithin, check_bucket_limits-Within, Within-reserved}

-- What the writes for the period leave behind: balanced books and no limit passed.
abbrev Grants : Db → Policy ℕ → ℕ → QuotaState → ℕ → ℕ → Reservation → List QuotaBucket → Type 0
Grants db p key_id state count now row buckets =
    Balanced (granted db state count now row buckets) × PeriodWithin p key_id now row buckets

module _ (owner : ℕ) (p : Policy ℕ) (r : Amounts ℕ) (key_id : ℕ) (ids : FreshIds) (now : ℕ)
    (state : QuotaState) (db : Db) (v : Balanced db) (named : ids.bucket ≢ 0)
    (held : find state_key key_id db.states ≡ some state) (count : ℕ)
    (absent : find reservation_key ids.reservation db.reservations ≡ none) where
  abbrev row_of : Option (ℕ × QuotaBucket) → Reservation
  row_of bucket = new_reservation owner key_id ids now r bucket

  in_period :
      (b : QuotaBucket) (locked buckets : List QuotaBucket)
      → lock_quota_bucket ids.bucket key_id (period_start_at now p.period_duration) now db.buckets
        ≡ ok (b, locked)
      → check_bucket_limits p b r now ≡ ok tt
      → reserve_bucket (some (period_start_at now p.period_duration, b)) r now locked ≡ ok buckets
      → Grants db p key_id state count now
          (row_of (some (period_start_at now p.period_duration, b)))
          buckets
  in_period b locked buckets l c e =
      let start = period_start_at now p.period_duration in
      let (w, s) = lock_quota_bucket-Balanced db v now ids.bucket key_id start b locked named l in
      rw (reserve_bucket_inv start b r now locked buckets e) (
        granted_in_bucket (record db { buckets = locked }) w state count now
            (row_of (some (start, b))) refl held b absent refl s,
        inr (
          set_reserved (plus b.reserved r) now b,
          refl,
          (lock_quota_bucket_inv ids.bucket key_id start now db.buckets b locked l).0,
          (lock_quota_bucket_inv ids.bucket key_id start now db.buckets b locked l).1,
          sym (lock_quota_bucket_inv ids.bucket key_id start now db.buckets b locked l).1,
          rw
              (find-modify bucket_key b.id b.id (set_reserved (plus b.reserved r) now) locked
                (λ a. refl))
              (ground (arith, s)),
          λ d. Within-reserved p b r now d (check_bucket_limits-Within p b r now c d),
        ),
      )

  -- How openBucket ends: no limit of a period is on, or the period's bucket is locked and has room.
  data Opens (bucket : Option (ℕ × QuotaBucket)) (locked : List QuotaBucket) : Type 0 where
    no_period :
        period_quota_enabled p ≡ false → bucket ≡ none → locked ≡ db.buckets → Opens bucket locked
    one_period :
        (b : QuotaBucket)
        → lock_quota_bucket ids.bucket key_id (period_start_at now p.period_duration) now db.buckets
          ≡ ok (b, locked)
        → check_bucket_limits p b r now ≡ ok tt
        → bucket ≡ some (period_start_at now p.period_duration, b)
        → Opens bucket locked

  open_bucket_inv :
      (bucket : Option (ℕ × QuotaBucket)) (locked : List QuotaBucket)
      → open_bucket p r key_id ids now db.buckets ≡ ok (bucket, locked)
      → Opens bucket locked
  unfolding open_bucket
  open_bucket_inv bucket locked op = elim (Bool-cases (period_quota_enabled p)) [
    | inr off ↦ no_period off (ground arith) (ground arith)
    | inl on ↦
        elim (bind_inv
          (lock_quota_bucket ids.bucket key_id (period_start_at now p.period_duration) now
            db.buckets)
          _ (rw (on, open_bucket) at op)) [
            | bound (b, l) e h ↦ elim (bind_inv (check_bucket_limits p b r now) _ h) [
              | bound _ c h' ↦ one_period b (ground (arith, e)) c (ground arith)
            ]
          ]
  ]

  grants :
      (bucket : Option (ℕ × QuotaBucket)) (locked buckets : List QuotaBucket)
      → Opens bucket locked
      → reserve_bucket bucket r now locked ≡ ok buckets
      → Grants db p key_id state count now (row_of bucket) buckets
  unfolding reserve_bucket
  grants bucket locked buckets (no_period off none_opened same) re =
      let kept : buckets ≡ db.buckets = ground arith in
      rw (none_opened, kept)
        (
          granted_free db v state count now (row_of none) refl held absent refl refl,
          inl (off, refl),
        )
  grants bucket locked buckets (one_period b l c opened) re =
      rw opened (in_period b locked buckets l c (rw opened at re))

check_state_inv :
    (p : Policy ℕ) (key_id now : ℕ) (state : QuotaState) (db : Db)
    → check_state p key_id now state db ≡ ok tt
    → ((p.max_concurrent_requests ≡ 0) ⊎ (state.active_requests + 1 ≤ p.max_concurrent_requests))
      × ((p.rolling_request_count ≡ 0) ⊎ (state.rolling_count + 1 ≤ p.rolling_request_count))
unfolding check_state
check_state_inv p key_id now state db h = ground arith

same_books :
    (db db' : Db)
    → db'.states ≡ db.states
    → db'.buckets ≡ db.buckets
    → db'.reservations ≡ db.reservations
    → Balanced db
    → Balanced db'
same_books db db' s b r v = record {
  active = λ k. rw (s, r) (v.active k);
  reserved = λ d j c h. rw r (v.reserved d j c (rw b at h));
  has_bucket = rw (b, r) v.has_bucket;
  unique = rw b v.unique;
  unique_rows = rw r v.unique_rows;
  named = rw b v.named;
}

abbrev pub rolling_of : Option QuotaState → ℕ
rolling_of none = 0
rolling_of (some s) = s.rolling_count

-- What an admission under the checked policy `p` has done: the books are balanced, the row is stored
-- as pending, its key counts one request more, and no limit that is on is passed.
pub record Admission (p : Policy ℕ) (r : Amounts ℕ) (key_id now : ℕ) (db : Db) (row : Reservation)
    (db' : Db) : Type 0 where
  pub balanced : Balanced db'
  pub stored : reservation? row.id db' ≡ some row
  pub fresh : reservation? row.id db ≡ none
  pub is_pending : row.status ≡ pending
  pub of_key : row.key_id ≡ key_id
  pub requested : row.requested ≡ r
  pub one_more : active_in key_id db'.states ≡ active_in key_id db.states + 1
  pub concurrent :
      (p.max_concurrent_requests ≡ 0) ⊎ (active_in key_id db'.states ≤ p.max_concurrent_requests)
  pub rolling :
      (p.rolling_request_count ≡ 0)
      ⊎ (rolling_of (find state_key key_id db'.states) ≤ p.rolling_request_count)
  pub period : PeriodWithin p key_id now row db'.buckets

module _ (owner : ℕ) (p : Policy ℕ) (r : Amounts ℕ) (key_id : ℕ) (ids : FreshIds) (now : ℕ)
    (db : Db) (row : Reservation) (db' : Db) (state : QuotaState) (db1 : Db)
    (passed : Passed owner p r key_id ids now state db1 row db') where
  new_states :
      find state_key key_id db1.states ≡ some state
      → find state_key key_id db'.states
        ≡ some (set_state (state.active_requests + 1) (next_count p state) now state)
  new_states found =
      rw
        (
          passed.states,
          find-modify state_key key_id key_id
              (set_state (state.active_requests + 1) (next_count p state) now) db1.states
              (λ a. refl),
        )
        (ground (arith, found))

  new_absent : find reservation_key ids.reservation db1.reservations ≡ none
  new_absent = ground (arith, passed.absent, passed.is_row)

  new_books :
      Grants db1 p key_id state
        (next_count p state)
        now
        (new_reservation owner key_id ids now r passed.bucket)
        db'.buckets
      → Balanced db' × PeriodWithin p key_id now row db'.buckets
  new_books (books, period) = (
    same_books
        (granted db1 state (next_count p state) now
          (new_reservation owner key_id ids now r passed.bucket) db'.buckets)
        db' passed.states refl (rw (← passed.is_row) passed.rows) books,
    rw passed.is_row period,
  )

  admission :
      Balanced db1
      → ids.bucket ≢ 0
      → find state_key key_id db1.states ≡ some state
      → state.active_requests ≡ active_in key_id db.states
      → db1.reservations ≡ db.reservations
      → Admission p r key_id now db row db'
  admission w named found act rows =
      let checks = check_state_inv p key_id now state db1 passed.checked in
      let stored = new_states found in
      let (books, period) = new_books (
        grants owner p r key_id ids now state db1 w named found (next_count p state) new_absent
          passed.bucket passed.locked db'.buckets
          (open_bucket_inv owner p r key_id ids now state db1 w named found (next_count p state)
            new_absent passed.bucket passed.locked passed.opened)
          passed.reserved) in
      record {
        balanced = books;
        stored =
            rw (passed.rows, find-insert reservation_key row.id row db1.reservations)
              (ground arith);
        fresh = rw (← rows) passed.absent;
        is_pending = rw passed.is_row refl;
        of_key = rw passed.is_row refl;
        requested = rw passed.is_row refl;
        one_more = rw stored (omega (arith, act));
        concurrent = rw stored checks.0;
        rolling = rw stored (ground (arith, checks.1));
        period = period;
      }

pub admit_locked-Admission :
    (owner : ℕ) (p : Policy ℕ) (r : Amounts ℕ) (key_id : ℕ) (ids : FreshIds) (now : ℕ) (db : Db)
    (row : Reservation) (db' : Db)
    → Balanced db
    → ids.bucket ≢ 0
    → admit_locked owner p r key_id ids now (entered key_id now db) ≡ ok (row, db')
    → Admission p r key_id now db row db'
admit_locked-Admission owner p r key_id ids now db row db' v named h =
    admission owner p r key_id ids now db row db' (entered key_id now db).0
      (entered key_id now db).1
      (admit_locked-Passed owner p r key_id ids now (entered key_id now db).0
        (entered key_id now db).1 row db' h)
      (entered-Balanced key_id now db v) named (entered-Kept key_id now db).found
      (entered-active key_id now db)
      ((entered-Kept key_id now db).rows ∙ (lock_quota_state-others key_id now db).1)
