-- ===== src/Quota/Closing.antt =====
-- One open reservation ends (internal/apikey/quota.go): the books stay balanced if its row is closed,
-- the key's count goes down by one and the bucket gives its amounts back.
use mathlib.Core.Option
use codex_sub_proxy.Prelude.{
  ℕ, ◌+◌, ◌≤◌, ◌≡◌, refl, inl, inr, none, some, true, false, List, ◌==◌, sum, arith, if◌then◌else◌,
}
use codex_sub_proxy.Prelude.Table.{
  find, modify, Unique, find-modify, sum-modify, sum-find_le, modify-Unique, All-modify,
}
use codex_sub_proxy.Quota.Types.{Amounts, Dim, amount, QuotaState, QuotaBucket, Reservation, Db}
use codex_sub_proxy.Quota.Rows.{state_key, bucket_key, reservation_key, set_active, set_amounts}
use codex_sub_proxy.Quota.Balance.{
  is_open, active_of, active_in, active_weight, held_weight, HasBucket, Balanced,
}

-- A change of a row that leaves its owner, key, bucket and requested amounts alone and closes it.
pub record Closes (f : Reservation → Reservation) (r : Reservation) : Type 0 where
  pub keeps_id : (a : Reservation) → (f a).id ≡ a.id
  pub keeps_key : (a : Reservation) → (f a).key_id ≡ a.key_id
  pub keeps_bucket : (a : Reservation) → (f a).bucket_id ≡ a.bucket_id
  pub keeps_start : (a : Reservation) → (f a).period_start ≡ a.period_start
  pub keeps_open : (a : Reservation) → is_open (f a).status ≡ true → is_open a.status ≡ true
  pub shut : is_open (f r).status ≡ false

-- The row of an open reservation counts for one among those of its key.
pub active_weight_own : (r : Reservation) → is_open r.status ≡ true → active_weight r.key_id r ≡ 1
active_weight_own r o = ground arith

active_in-set_active :
    (k key_id n now : ℕ) (states : List QuotaState)
    → active_in k (modify state_key key_id (set_active n now) states) ≡ (
        if k == key_id
        then active_of (Option.map (set_active n now) (find state_key k states))
        else active_in k states)
active_in-set_active k key_id n now states =
    rw (find-modify state_key k key_id (set_active n now) states (λ a. refl)) (ground arith)

module _ (db : Db) (v : Balanced db) (r : Reservation)
    (found : find reservation_key r.id db.reservations ≡ some r) (o : is_open r.status ≡ true) where
  -- The key's count is not zero.
  pub active_positive : 1 ≤ active_in r.key_id db.states
  active_positive = omega (
    arith,
    v.active r.key_id,
    sum-find_le reservation_key (active_weight r.key_id) r.id db.reservations r found,
    active_weight_own r o,
  )

module _ (db : Db) (v : Balanced db) (r : Reservation) (f : Reservation → Reservation)
    (c : Closes f r) (found : find reservation_key r.id db.reservations ≡ some r)
    (o : is_open r.status ≡ true) where
  closed_active :
      (n now : ℕ) (s : QuotaState)
      → find state_key r.key_id db.states ≡ some s
      → n + 1 ≡ s.active_requests
      → (k : ℕ)
      → active_in k (modify state_key r.key_id (set_active n now) db.states)
        ≡ sum (active_weight k) (modify reservation_key r.id f db.reservations)
  closed_active n now s e h k = rw (active_in-set_active k r.key_id n now db.states) (
      ground (
        arith,
        v.active k,
        c.shut,
        e,
        sum-modify reservation_key (active_weight k) r.id f db.reservations r found,
      ))

  -- What a bucket holds falls by the reservation's own weight.
  closed_held :
      (d : Dim) (id : ℕ)
      → sum (held_weight d id) (modify reservation_key r.id f db.reservations) + held_weight d id r
        ≡ sum (held_weight d id) db.reservations
  closed_held d id =
      ground (
        arith,
        c.shut,
        sum-modify reservation_key (held_weight d id) r.id f db.reservations r found,
      )

-- How the buckets change when `r` gives its amounts back and `added` is charged: not at all, or in
-- the bucket that it names.
pub data Gives (r : Reservation) (added : Amounts ℕ) (buckets buckets' : List QuotaBucket)
    : Type 0 where
  no_bucket : r.bucket_id ≡ none → buckets' ≡ buckets → Gives r added buckets buckets'
  in_bucket :
      (id now : ℕ) (b : QuotaBucket) (reserved actual : Amounts ℕ)
      → r.bucket_id ≡ some id
      → find bucket_key id buckets ≡ some b
      → buckets' ≡ modify bucket_key id (set_amounts reserved actual now) buckets
      → ((d : Dim) → amount d reserved + amount d r.requested ≡ amount d b.reserved)
      → ((d : Dim) → amount d actual ≡ amount d b.actual + amount d added)
      → Gives r added buckets buckets'

find-set_amounts :
    (j id now : ℕ) (reserved actual : Amounts ℕ) (buckets : List QuotaBucket)
    → find bucket_key j (modify bucket_key id (set_amounts reserved actual now) buckets) ≡ (
        if j == id
        then Option.map (set_amounts reserved actual now) (find bucket_key j buckets)
        else find bucket_key j buckets)
find-set_amounts j id now reserved actual buckets =
    find-modify bucket_key j id (set_amounts reserved actual now) buckets (λ a. refl)

-- Every bucket id that is stored stays stored.
Gives-stored :
    (r : Reservation) (added : Amounts ℕ) (buckets buckets' : List QuotaBucket)
    → Gives r added buckets buckets'
    → (j : ℕ) (b : QuotaBucket) → find bucket_key j buckets ≡ some b
    → (b' : QuotaBucket) × (find bucket_key j buckets' ≡ some b')
Gives-stored r added buckets buckets' (no_bucket e same) j b h = (b, rw same h)
Gives-stored r added buckets buckets' (in_bucket id now b0 red act e s same h0 charge) j b h = (
  if j == id then set_amounts red act now b else b,
  rw (same, find-set_amounts j id now red act buckets) (ground arith),
)

pub HasBucket-stored :
    (buckets buckets' : List QuotaBucket)
    → ((j : ℕ) (b : QuotaBucket)
        → find bucket_key j buckets ≡ some b
        → (b' : QuotaBucket) × (find bucket_key j buckets' ≡ some b'))
    → (a : Reservation) → HasBucket buckets a
    → HasBucket buckets' a
HasBucket-stored buckets buckets' stored a h o = elim (h o) [
  | inl none_named ↦ inl none_named
  | inr (id, b, e, s) ↦ let kept = stored id b s in inr (id, kept.0, e, kept.1)
]

HasBucket-Closes :
    (buckets : List QuotaBucket) (f : Reservation → Reservation) (r : Reservation)
    → Closes f r
    → (a : Reservation) → HasBucket buckets a
    → HasBucket buckets (f a)
HasBucket-Closes buckets f r c a h o = rw (c.keeps_bucket a, c.keeps_start a) (h (c.keeps_open a o))

module _ (db : Db) (v : Balanced db) (r : Reservation) (f : Reservation → Reservation)
    (c : Closes f r) (found : find reservation_key r.id db.reservations ≡ some r)
    (o : is_open r.status ≡ true) where
  closed_reserved :
      (added : Amounts ℕ) (buckets' : List QuotaBucket)
      → Gives r added db.buckets buckets'
      → (d : Dim) (j : ℕ) (b' : QuotaBucket) → find bucket_key j buckets' ≡ some b'
      → amount d b'.reserved ≡ sum (held_weight d j) (modify reservation_key r.id f db.reservations)
  closed_reserved added buckets' (no_bucket e same) d j b' h =
      ground (arith, closed_held db v r f c found o d j, v.reserved d j b' (rw same at h))
  closed_reserved added buckets' (in_bucket id now b red act e s same give charge) d j b' h =
      ground (
        arith,
        closed_held db v r f c found o d j,
        v.reserved d j b',
        v.reserved d id b s,
        give d,
        rw (same, find-set_amounts j id now red act db.buckets) at h,
      )

  closed-Unique :
      (added : Amounts ℕ) (buckets' : List QuotaBucket)
      → Gives r added db.buckets buckets'
      → Unique bucket_key buckets' × (find bucket_key 0 buckets' ≡ none)
  closed-Unique added buckets' (no_bucket e same) = rw same (v.unique, v.named)
  closed-Unique added buckets' (in_bucket id now b red act e s same give charge) = rw same (
    modify-Unique bucket_key id (set_amounts red act now) db.buckets (λ a. refl) v.unique,
    rw (find-set_amounts 0 id now red act db.buckets) (ground (arith, v.named)),
  )

  -- The books after the reservation has ended.
  pub closed-Balanced :
      (added : Amounts ℕ) (buckets' : List QuotaBucket) (n now : ℕ) (s : QuotaState)
      → Gives r added db.buckets buckets'
      → find state_key r.key_id db.states ≡ some s
      → n + 1 ≡ s.active_requests
      → Balanced (record db {
        states = modify state_key r.key_id (set_active n now) db.states;
        buckets = buckets';
        reservations = modify reservation_key r.id f db.reservations;
      })
  closed-Balanced added buckets' n now s g e h = record {
    active = closed_active db v r f c found o n now s e h;
    reserved = closed_reserved added buckets' g;
    has_bucket =
        All-modify reservation_key (HasBucket db.buckets) (HasBucket buckets') r.id f
          db.reservations
          (λ a ha. HasBucket-Closes buckets' f r c a (
            HasBucket-stored db.buckets buckets' (Gives-stored r added db.buckets buckets' g) a ha))
          (HasBucket-stored db.buckets buckets' (Gives-stored r added db.buckets buckets' g))
          v.has_bucket;
    unique = (closed-Unique added buckets' g).0;
    unique_rows = modify-Unique reservation_key r.id f db.reservations c.keeps_id v.unique_rows;
    named = (closed-Unique added buckets' g).1;
  }
