-- ===== src/Quota/Granting.antt =====
-- A new reservation on balanced tables (internal/apikey/quota.go, the writes of QuotaStore.Admit).

use codex_sub_proxy.Prelude.{
  ℕ, ◌+◌, ◌≡◌, refl, inl, inr, none, some, true, List, [], arith, ok, sum, bound, bind_inv,
}
use codex_sub_proxy.Prelude.Table.{
  find, insert, modify, find-modify, sum-insert, modify-Unique, insert-Unique, All-map, All-insert,
}
use codex_sub_proxy.Quota.Types.{
  Amounts, QuotaState, QuotaBucket, Reservation, Db, reservation_overflow,
}
use codex_sub_proxy.Quota.Limits.{add_amounts, quota_add}
use codex_sub_proxy.Quota.Rows.{state_key, bucket_key, reservation_key, set_state}
use codex_sub_proxy.Quota.Admit.{reserve_bucket}
use codex_sub_proxy.Quota.Balance.{
  is_open, active_in, active_weight, held_weight, HasBucket, Balanced,
}
use codex_sub_proxy.Quota.Closing.{HasBucket-stored}
use codex_sub_proxy.Quota.Opening.{modify-stored}
use codex_sub_proxy.Quota.Sums.{plus, amount-plus}

add_reserved_cases :
    (held amt sum : Amounts ℕ)
    → add_amounts reservation_overflow held amt ≡ ok sum
    → sum ≡ plus held amt
unfolding add_amounts quota_add
add_reserved_cases held amt sum h = ground arith

abbrev pub set_reserved : Amounts ℕ → ℕ → QuotaBucket → QuotaBucket
set_reserved reserved now c = record c { reserved = reserved; updated_at = now }

pub reserve_bucket_inv :
    (start : ℕ) (b : QuotaBucket) (r : Amounts ℕ) (now : ℕ) (locked buckets : List QuotaBucket)
    → reserve_bucket (some (start, b)) r now locked ≡ ok buckets
    → buckets ≡ modify bucket_key b.id (set_reserved (plus b.reserved r) now) locked
unfolding reserve_bucket
reserve_bucket_inv start b r now locked buckets h =
    elim (bind_inv (add_amounts reservation_overflow b.reserved r) _ h) [
      | bound red e h' ↦ ground (arith, add_reserved_cases b.reserved r red e)
    ]

-- The tables with the reservation `row` added: its key counts one more.
abbrev pub granted : Db → QuotaState → ℕ → ℕ → Reservation → List QuotaBucket → Db
granted db state count now row buckets = record db {
  states = modify state_key row.key_id (set_state (state.active_requests + 1) count now) db.states;
  buckets = buckets;
  reservations = insert reservation_key row db.reservations;
}

module _ (db : Db) (v : Balanced db) (state : QuotaState) (count now : ℕ) (row : Reservation)
    (o : is_open row.status ≡ true) (held : find state_key row.key_id db.states ≡ some state) where
  granted_active :
      (k : ℕ)
      → active_in k (granted db state count now row []).states
        ≡ sum (active_weight k) (insert reservation_key row db.reservations)
  granted_active k =
      rw
        (
          sum-insert reservation_key (active_weight k) row db.reservations,
          find-modify state_key k row.key_id (set_state (state.active_requests + 1) count now)
              db.states (λ a. refl),
        )
        (ground (arith, v.active k))

  -- A reservation that belongs to no period.
  pub granted_free :
      find reservation_key row.id db.reservations ≡ none
      → row.bucket_id ≡ none
      → row.period_start ≡ 0
      → Balanced (granted db state count now row db.buckets)
  granted_free absent n z = record {
    active = granted_active;
    reserved = λ d j b h.
        rw (sum-insert reservation_key (held_weight d j) row db.reservations)
          (ground (arith, v.reserved d j b h));
    has_bucket =
        All-insert reservation_key (HasBucket db.buckets) row db.reservations (λ _. inl (n, z))
          v.has_bucket;
    unique = v.unique;
    unique_rows = insert-Unique reservation_key row db.reservations absent v.unique_rows;
    named = v.named;
  }

  -- A reservation in the bucket `b`.
  pub granted_in_bucket :
      (b : QuotaBucket)
      → find reservation_key row.id db.reservations ≡ none
      → row.bucket_id ≡ some b.id
      → find bucket_key b.id db.buckets ≡ some b
      → Balanced (
          granted db state count now row
            (modify bucket_key b.id (set_reserved (plus b.reserved row.requested) now) db.buckets))
  granted_in_bucket b absent n s =
      let f = set_reserved (plus b.reserved row.requested) now in
      let stored = modify-stored b.id f db.buckets (λ a. refl) in
      record {
        active = granted_active;
        reserved = λ d j c h. ground (
          arith,
          sum-insert reservation_key (held_weight d j) row db.reservations,
          v.reserved d j c,
          v.reserved d b.id b s,
          amount-plus b.reserved row.requested d,
          rw (find-modify bucket_key j b.id f db.buckets (λ a. refl)) at h,
        );
        has_bucket =
            All-insert reservation_key (HasBucket (modify bucket_key b.id f db.buckets)) row
              db.reservations (λ _. inr (b.id, (stored b.id b s).0, n, (stored b.id b s).1))
              (All-map (HasBucket db.buckets) (HasBucket (modify bucket_key b.id f db.buckets))
                db.reservations (HasBucket-stored db.buckets _ stored) v.has_bucket);
        unique = modify-Unique bucket_key b.id f db.buckets (λ a. refl) v.unique;
        unique_rows = insert-Unique reservation_key row db.reservations absent v.unique_rows;
        named =
            rw (find-modify bucket_key 0 b.id f db.buckets (λ a. refl)) (ground (arith, v.named));
      }
