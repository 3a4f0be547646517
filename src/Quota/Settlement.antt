-- ===== src/Quota/Settlement.antt =====
-- How one open reservation ends on balanced tables (internal/apikey/quota.go,
-- releasePendingReservation and applyFinalizingReservation).

use codex_sub_proxy.Prelude.{
  ℕ, ◌+◌, ◌-◌, ◌≤◌, ◌≡◌, refl, ◌≢◌, ◌⊎◌, inl, inr, Option, none, some, true, false, List, [], arith,
  Result, ok, err, ◌>>=◌, Result-cases, bind_two, bind_two_err,
}
use codex_sub_proxy.Prelude.Table.{find, modify, find-key, sum-find_le, All-find}
use codex_sub_proxy.Quota.Types.{
  Amounts, Dim, amount, QuotaState, QuotaBucket, Reservation, Status, Db, Error, pending,
  finalizing, closed, released, usage_overflow, out_of_fuel,
}
use codex_sub_proxy.Quota.Policy.{usage_in_range}
use codex_sub_proxy.Quota.Limits.{decrement_active}
use codex_sub_proxy.Quota.Rows.{
  state_key, bucket_key, reservation_key, set_active, set_amounts, load_reservation_bucket,
  load_period_bucket, or_missing, mark, no_amounts,
}
use codex_sub_proxy.Quota.Settle.{
  release_bucket, move_reservation_to_usage, release_current, apply_current,
}
use codex_sub_proxy.Quota.Balance.{is_open, held_weight, HasBucket, Balanced}
use codex_sub_proxy.Quota.Closing.{
  Closes, Gives, no_bucket, in_bucket, active_positive, closed-Balanced,
}
use codex_sub_proxy.Quota.Sums.{
  minus, minus_lem, subtract_reservation_lem, plus, amount-plus, plus_no_amounts, add_amounts_cases,
}

-- What loadReservationBucket finds for an open reservation.
abbrev Loads : Reservation → List QuotaBucket → Result Error (Option QuotaBucket) → Type 0
Loads r buckets l =
    ((l ≡ ok none) × (r.bucket_id ≡ none))
    ⊎ ((b : QuotaBucket) × (l ≡ ok (some b))
        × (r.bucket_id ≡ some b.id)
        × (find bucket_key b.id buckets ≡ some b))

load_reservation_bucket-Loads :
    (r : Reservation) (buckets : List QuotaBucket)
    → HasBucket buckets r
    → is_open r.status ≡ true
    → find bucket_key 0 buckets ≡ none
    → Loads r buckets (load_reservation_bucket r buckets)
unfolding load_reservation_bucket load_period_bucket or_missing
load_reservation_bucket-Loads r buckets h o named = elim (h o) [
  | inl (e, start) ↦ inl (rw (e, load_reservation_bucket) (ground arith), e)
  | inr (id, b, e, s) ↦ inr (
    b,
    rw (e, load_reservation_bucket) (ground arith),
    ground (arith, find-key bucket_key id buckets b s),
    ground (arith, find-key bucket_key id buckets b s),
  )
]

-- A bucket holds at least what an open reservation that names it has asked for.
module _ (db : Db) (v : Balanced db) (r : Reservation)
    (found : find reservation_key r.id db.reservations ≡ some r) (o : is_open r.status ≡ true)
    (b : QuotaBucket) (e : r.bucket_id ≡ some b.id)
    (s : find bucket_key b.id db.buckets ≡ some b) where
  amount-le-held : (d : Dim) → amount d r.requested ≤ amount d b.reserved
  amount-le-held d = ground (
    arith,
    v.reserved d b.id b s,
    sum-find_le reservation_key (held_weight d b.id) r.id db.reservations r found,
  )

  Gives-back :
      (added actual : Amounts ℕ) (now : ℕ)
      → ((d : Dim) → amount d actual ≡ amount d b.actual + amount d added)
      → Gives r added db.buckets (
          modify bucket_key b.id (set_amounts (minus b.reserved r.requested) actual now) db.buckets)
  Gives-back added actual now charge =
      in_bucket b.id now b (minus b.reserved r.requested) actual e s refl
        (λ d. minus_lem b.reserved r.requested d (amount-le-held d)) charge

  release_bucket-some :
      (now : ℕ)
      → release_bucket (some b) r.requested now db.buckets
        ≡ ok (
            modify bucket_key b.id
              (set_amounts (minus b.reserved r.requested) b.actual now)
              db.buckets)
  unfolding release_bucket
  release_bucket-some now = rw (subtract_reservation_lem b.reserved r.requested amount-le-held)

  -- The usage is added, or does not fit an int64.
  move_reservation_to_usage-some :
      (usage : Amounts ℕ) (now : ℕ)
      → (move_reservation_to_usage (some b) r.requested usage now db.buckets ≡ err usage_overflow)
        ⊎ (move_reservation_to_usage (some b) r.requested usage now db.buckets
            ≡ ok (
                modify bucket_key b.id
                  (set_amounts (minus b.reserved r.requested) (plus b.actual usage) now)
                  db.buckets))
  unfolding move_reservation_to_usage
  move_reservation_to_usage-some usage now =
      rw (subtract_reservation_lem b.reserved r.requested amount-le-held)
        (elim (add_amounts_cases b.actual usage) [
          | inl over ↦ inl (rw over)
          | inr fits ↦ inr (rw fits)
        ])

-- The row that a release or an application of the usage leaves behind is closed.
pub mark-Closes :
    (from to : Status) (usage : Amounts ℕ) (now : ℕ) (reason : List ℕ) (r : Reservation)
    → is_open from ≡ true
    → is_open to ≡ false
    → r.status ≡ from
    → Closes (mark from to usage now reason) r
mark-Closes pending to usage now [] r of ot e = record {
  keeps_id = λ a. ground arith;
  keeps_key = λ a. ground arith;
  keeps_bucket = λ a. ground arith;
  keeps_start = λ a. ground arith;
  keeps_open = λ a h. ground arith;
  shut = ground arith;
}
mark-Closes _ to usage now _ r of ot e = record {
  keeps_id = λ a. ground arith;
  keeps_key = λ a. ground arith;
  keeps_bucket = λ a. ground arith;
  keeps_start = λ a. ground arith;
  keeps_open = λ a h. ground arith;
  shut = ground arith;
}

usage_in_range-err : (a : Amounts ℕ) {e : Error} → usage_in_range a ≡ err e → e ≢ out_of_fuel
unfolding usage_in_range
usage_in_range-err a h k = ground arith

-- The tables once `r` has ended: its row is changed by `f`, its key counts one less.
abbrev pub ended :
    Db → Reservation → QuotaState → ℕ → (Reservation → Reservation) → List QuotaBucket → Db
ended db r state now f buckets = record db {
  states = modify state_key r.key_id (set_active (state.active_requests - 1) now) db.states;
  buckets = buckets;
  reservations = modify reservation_key r.id f db.reservations;
}

module _ (db : Db) (v : Balanced db) (r : Reservation)
    (found : find reservation_key r.id db.reservations ≡ some r) (o : is_open r.status ≡ true) where
  open_HasBucket : HasBucket db.buckets r
  open_HasBucket =
      All-find reservation_key (HasBucket db.buckets) r.id db.reservations r found v.has_bucket

  loaded : Loads r db.buckets (load_reservation_bucket r db.buckets)
  loaded = load_reservation_bucket-Loads r db.buckets open_HasBucket o v.named

  -- The bucket of an open reservation can always give its amounts back.
  returned :
      (now : ℕ)
      → (buckets : List QuotaBucket) × (load_reservation_bucket r db.buckets
            >>= (λ b. release_bucket b r.requested now db.buckets)
          ≡ ok buckets)
        × Gives r no_amounts db.buckets buckets
  unfolding release_bucket
  returned now = elim loaded [
    | inl (l, e) ↦ (db.buckets, rw l, no_bucket e refl)
    | inr (b, l, e, s) ↦ (
      modify bucket_key b.id (set_amounts (minus b.reserved r.requested) b.actual now) db.buckets,
      rw l (release_bucket-some db v r found o b e s now),
      Gives-back db v r found o b e s no_amounts b.actual now (plus_no_amounts b.actual),
    )
  ]

  -- So can its amounts be moved to the usage, unless that does not fit.
  moved :
      (usage : Amounts ℕ) (now : ℕ)
      → ((load_reservation_bucket r db.buckets
            >>= (λ b. move_reservation_to_usage b r.requested usage now db.buckets))
          ≡ err usage_overflow)
        ⊎ ((buckets : List QuotaBucket) × (load_reservation_bucket r db.buckets
                >>= (λ b. move_reservation_to_usage b r.requested usage now db.buckets)
              ≡ ok buckets)
            × Gives r usage db.buckets buckets)
  unfolding move_reservation_to_usage
  moved usage now = elim loaded [
    | inl (l, e) ↦ inr (db.buckets, rw l, no_bucket e refl)
    | inr (b, l, e, s) ↦ elim (move_reservation_to_usage-some db v r found o b e s usage now) [
      | inl over ↦ inl (rw l over)
      | inr fits ↦ inr (
        modify bucket_key b.id
            (set_amounts (minus b.reserved r.requested) (plus b.actual usage) now) db.buckets,
        rw l fits,
        Gives-back db v r found o b e s usage (plus b.actual usage) now
            (λ d. amount-plus b.actual usage d),
      )
    ]
  ]

  module _ (state : QuotaState) (held : find state_key r.key_id db.states ≡ some state) where
    decrement_ok :
        (decrement_active state.active_requests ≡ ok (state.active_requests - 1))
        × (state.active_requests - 1 + 1 ≡ state.active_requests)
    unfolding decrement_active
    decrement_ok = ground (arith, active_positive db v r found o, held)

    -- A pending reservation is released in full: the step never fails on balanced tables.
    pub release_current_ok :
        (now : ℕ) (reason : List ℕ)
        → r.status ≡ pending
        → (buckets : List QuotaBucket) × Gives r no_amounts db.buckets buckets
          × (release_current state r now reason db
              ≡ ok (ended db r state now (mark pending released no_amounts now reason) buckets))
          × Balanced (ended db r state now (mark pending released no_amounts now reason) buckets)
    unfolding release_current
    release_current_ok now reason p =
        let (buckets, bs, g) = returned now in
        (
          buckets,
          g,
          rw decrement_ok.0 (
              bind_two (load_reservation_bucket r db.buckets)
                (λ b. release_bucket b r.requested now db.buckets)
                (λ bs'. ok (ended db r state now (mark pending released no_amounts now reason) bs'))
                buckets bs),
          closed-Balanced db v r (mark pending released no_amounts now reason)
              (mark-Closes pending released no_amounts now reason r refl refl p) found o no_amounts
              buckets (state.active_requests - 1) now state g held decrement_ok.1,
        )

    -- A recorded success is applied in full, unless the recorded usage is out of range or does not
    -- fit the bucket.
    pub apply_current_cases :
        (now : ℕ)
        → r.status ≡ finalizing
        → ((e : Error) × (e ≢ out_of_fuel) × (apply_current state r now db ≡ err e))
          ⊎ ((buckets : List QuotaBucket) × Gives r r.actual db.buckets buckets
              × (apply_current state r now db
                  ≡ ok (ended db r state now (mark finalizing closed r.actual now []) buckets))
              × Balanced (ended db r state now (mark finalizing closed r.actual now []) buckets))
    unfolding apply_current
    apply_current_cases now p = elim (Result-cases (usage_in_range r.actual)) [
      | inr (e, bad) ↦ inl (e, usage_in_range-err r.actual bad, rw (bad, apply_current))
      | inl (_, good) ↦ elim (moved r.actual now) [
        | inl over ↦ inl (
          usage_overflow,
          (λ h. cc),
          rw (good, decrement_ok.0)
              (bind_two_err (load_reservation_bucket r db.buckets)
                (λ b. move_reservation_to_usage b r.requested r.actual now db.buckets)
                (λ bs'. ok (ended db r state now (mark finalizing closed r.actual now []) bs'))
                usage_overflow over),
        )
        | inr (buckets, bs, g) ↦ inr (
          buckets,
          g,
          rw (good, decrement_ok.0)
              (bind_two (load_reservation_bucket r db.buckets)
                (λ b. move_reservation_to_usage b r.requested r.actual now db.buckets)
                (λ bs'. ok (ended db r state now (mark finalizing closed r.actual now []) bs'))
                buckets bs),
          closed-Balanced db v r (mark finalizing closed r.actual now [])
              (mark-Closes finalizing closed r.actual now [] r refl refl p) found o r.actual buckets
              (state.active_requests - 1) now state g held decrement_ok.1,
        )
      ]
    ]
