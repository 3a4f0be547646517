-- ===== src/Quota/Recovery.antt =====
-- QuotaStore.RecoverPending (internal/apikey/quota.go) on balanced tables: it ends, and leaves nothing
-- to recover.
use codex_sub_proxy.Prelude.{
  ℕ, zero, suc, ◌+◌, ◌≤◌, ◌≡◌, refl, ◌≢◌, inl, inr, some, Bool, true, false, List, [], ◌∷◌, sum,
  select, take, arith, Result, ok, err, ◌>>=◌, Bool-cases, Option-cases, subst, sym,
}
use codex_sub_proxy.Prelude.Table.{find, Unique, find-key, sum-modify}
use codex_sub_proxy.Quota.Types.{
  Amounts, Reservation, Db, Error, pending, finalizing, closed, released, out_of_fuel,
  is_finalizing,
}
use codex_sub_proxy.Quota.Rows.{reservation_key, mark, no_amounts}
use codex_sub_proxy.Quota.Settle.{
  reservation?, apply_finalizing_reservation, release_pending_reservation,
}
use codex_sub_proxy.Quota.Recover.{
  is_orphan, apply_batch, release_orphan, release_batch, crash_reason, recoverable,
}
use codex_sub_proxy.Quota.Balance.{is_open, Balanced}
use codex_sub_proxy.Quota.Settlement.{mark-Closes}
use codex_sub_proxy.Quota.Endings.{ended_locked, release_pending_reservation_ok}
use codex_sub_proxy.Quota.Outcomes.{Ended, ended_locked-Ended, apply_finalizing_reservation_cases}

module _ (owner : ℕ) where
  -- The rows that are still to be dealt with.
  abbrev pub left : Db → ℕ
  left db = sum (recoverable owner) db.reservations

  -- How a step of the recovery ends: with an error that is not the fuel's, or with balanced tables
  -- that have at most `n` rows left.
  pub data Goes (n : ℕ) : Result Error Db → Type 0 where
    fails : (e : Error) → e ≢ out_of_fuel → Goes n (err e)
    goes : (db' : Db) → Balanced db' → left db' ≤ n → Goes n (ok db')

  closed-left :
      (db db' : Db) (r : Reservation) (f : Reservation → Reservation) (added : Amounts ℕ)
      → reservation? r.id db ≡ some r
      → is_open (f r).status ≡ false
      → Ended db r f added db'
      → left db' + recoverable owner r ≡ left db
  closed-left db db' r f added found shut e =
      ground (
        arith,
        e.rows,
        sum-modify reservation_key (recoverable owner) r.id f db.reservations r found,
      )

  -- One row that is found is dealt with.
  pub apply_found :
      (db : Db) (v : Balanced db) (r : Reservation) (now n : ℕ)
      → reservation? r.id db ≡ some r
      → r.status ≡ finalizing
      → left db ≤ n + 1
      → Goes n (apply_finalizing_reservation r.id now db)
  apply_found db v r now n found p le =
      elim (apply_finalizing_reservation_cases db r now v found p) [
        | inl (e, other, bad) ↦ rw bad (fails e other)
        | inr (db', good, ended) ↦ rw good (
            goes db' ended.balanced (
              ground (
                arith,
                p,
                closed-left db db' r (mark finalizing closed r.actual now []) r.actual found
                    (ground arith) ended,
              )))
      ]

  pub release_found :
      (db : Db) (v : Balanced db) (r : Reservation) (now n : ℕ)
      → reservation? r.id db ≡ some r
      → is_orphan owner r ≡ true
      → left db ≤ n + 1
      → Goes n (release_pending_reservation r now crash_reason db)
  release_found db v r now n found p le =
      let pend : r.status ≡ pending = ground arith in
      let f = mark pending released no_amounts now crash_reason in
      let (buckets, g, e, b) = release_pending_reservation_ok db v r found now crash_reason pend in
      let ended =
        ended_locked-Ended db v r f now no_amounts buckets
          (mark-Closes pending released no_amounts now crash_reason r refl refl pend) found g b in
      rw e (
        goes (ended_locked db r now f buckets) b (
          ground (
            arith,
            closed-left db (ended_locked db r now f buckets) r f no_amounts found
                (ground (arith, pend)) ended,
          )))

  apply_any :
      (db : Db) (id now : ℕ) → Balanced db → Goes (left db) (apply_finalizing_reservation id now db)
  unfolding apply_finalizing_reservation
  apply_any db id now v = elim (Option-cases (reservation? id db)) [
    | inl absent ↦ rw (absent, apply_finalizing_reservation) (goes db v (omega arith))
    | inr (r, found) ↦ elim (Bool-cases (is_finalizing r.status)) [
      | inr other ↦ rw (found, apply_finalizing_reservation, other) (goes db v (omega arith))
      | inl p ↦
          let same : r.id ≡ id = find-key reservation_key id db.reservations r found in
          rw (← same) (
            apply_found db v r now (left db)
              (subst (λ j. reservation? j db ≡ some r) (sym same) found) (ground arith)
              (omega arith))
    ]
  ]

  release_any :
      (db : Db) (c : Reservation) (now : ℕ)
      → Balanced db
      → Goes (left db) (release_orphan owner now c db)
  unfolding release_orphan
  release_any db c now v = elim (Option-cases (reservation? c.id db)) [
    | inl absent ↦ rw (absent, release_orphan) (goes db v (omega arith))
    | inr (r, found) ↦ elim (Bool-cases (is_orphan owner r)) [
      | inr other ↦ rw (found, release_orphan, other) (goes db v (omega arith))
      | inl p ↦
          let same : r.id ≡ c.id = find-key reservation_key c.id db.reservations r found in
          rw (found, release_orphan, p)
            (release_found db v r now (left db)
              (subst (λ j. reservation? j db ≡ some r) (sym same) found) p (omega arith))
    ]
  ]

  pub Goes-then :
      (n m : ℕ) (x : Result Error Db) (k : Db → Result Error Db)
      → Goes n x
      → ((db' : Db) → Balanced db' → left db' ≤ n → Goes m (k db'))
      → Goes m (x >>= k)
  Goes-then n m _ k (fails e other) h = fails e other
  Goes-then n m _ k (goes db' v le) h = h db' v le

  pub apply_batch_any :
      (n now : ℕ) (cs : List Reservation) (db : Db)
      → Balanced db
      → left db ≤ n
      → Goes n (apply_batch now cs db)
  unfolding apply_batch
  apply_batch_any n now [] db v le = goes db v le
  apply_batch_any n now (c ∷ cs) db v le =
      Goes-then (left db) n (apply_finalizing_reservation c.id now db) (apply_batch now cs)
        (apply_any db c.id now v) (λ db' v' le'. apply_batch_any n now cs db' v' (omega arith))

  pub release_batch_any :
      (n now : ℕ) (cs : List Reservation) (db : Db)
      → Balanced db
      → left db ≤ n
      → Goes n (release_batch owner now cs db)
  unfolding release_batch
  release_batch_any n now [] db v le = goes db v le
  release_batch_any n now (c ∷ cs) db v le =
      Goes-then (left db) n (release_orphan owner now c db) (release_batch owner now cs)
        (release_any db c now v) (λ db' v' le'. release_batch_any n now cs db' v' (omega arith))

pub select-head :
    (p : Reservation → Bool) (rows : List Reservation) (c : Reservation) (cs : List Reservation)
    → Unique reservation_key rows
    → select p rows ≡ c ∷ cs
    → (find reservation_key c.id rows ≡ some c) × (p c ≡ true)
unfolding find
select-head p [] c cs u e = cc
select-head p (r ∷ rs) c cs u e = ground (arith, select-head p rs c cs u.1, u.0)

pub take-head :
    (n : ℕ) (xs : List Reservation) (c : Reservation) (cs : List Reservation)
    → take n xs ≡ c ∷ cs
    → (ds : List Reservation) × (xs ≡ c ∷ ds)
take-head zero xs c cs e = cc
take-head (suc n) [] c cs e = cc
take-head (suc n) (x ∷ xs) c cs e = (xs, ground arith)

pub take-nil : (n : ℕ) (xs : List Reservation) → take (suc n) xs ≡ [] → xs ≡ []
take-nil n [] e = refl
take-nil n (x ∷ xs) e = cc

pub nothing-left :
    (owner : ℕ) (rows : List Reservation)
    → select (λ r. is_finalizing r.status) rows ≡ []
    → select (is_orphan owner) rows ≡ []
    → sum (recoverable owner) rows ≡ 0
nothing-left owner [] f o = refl
nothing-left owner (r ∷ rs) f o = ground (arith, nothing-left owner rs)

pub none-selected :
    (owner : ℕ) (rows : List Reservation)
    → sum (recoverable owner) rows ≡ 0
    → (select (λ r. is_finalizing r.status) rows ≡ []) × (select (is_orphan owner) rows ≡ [])
none-selected owner [] e = (refl, refl)
none-selected owner (r ∷ rs) e = ground (arith, none-selected owner rs)
