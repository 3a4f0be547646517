-- ===== src/Quota/Recovered.antt =====
-- The loop of QuotaStore.RecoverPending (internal/apikey/quota.go): every round makes progress, so the
-- number of rows to recover bounds the rounds.
use codex_sub_proxy.Prelude.{
  ℕ, zero, suc, ◌+◌, ◌-◌, ◌≤◌, ◌<◌, ◌≡◌, refl, ◌≢◌, ◌⊎◌, inl, inr, true, false, List, [], ◌∷◌, ◌&&◌,
  ◌==◌, select, arith, Result, ok, err, ◌>>=◌, Bool-cases, sym, ◌∙◌,
}
use mathlib.Core.Bool.{false≢true}
use codex_sub_proxy.Quota.Types.{Reservation, Db, Error, out_of_fuel, is_finalizing}
use codex_sub_proxy.Quota.Rows.{quota_batch_size}
use codex_sub_proxy.Quota.Settle.{commit, apply_finalizing_reservation}
use codex_sub_proxy.Quota.Recover.{
  is_orphan, finalizing_batch, orphan_batch, apply_batch, release_orphan, release_batch, no_rows,
  recover_round, recover_loop, recover_pending,
}
use codex_sub_proxy.Quota.Balance.{Balanced}
use codex_sub_proxy.Quota.Recovery.{
  left, Goes, fails, goes, apply_found, release_found, Goes-then, apply_batch_any,
  release_batch_any, select-head, take-head, take-nil, nothing-left, none-selected,
}

module _ (owner : ℕ) where
  apply_batch_head :
      (n now : ℕ) (c : Reservation) (cs : List Reservation) (db : Db)
      → Balanced db
      → finalizing_batch db ≡ c ∷ cs
      → left owner db ≤ n + 1
      → Goes owner n (apply_batch now (finalizing_batch db) db)
  unfolding apply_batch finalizing_batch
  apply_batch_head n now c cs db v e le =
      let (ds, sel) = take-head quota_batch_size _ c cs e in
      let (found, p) =
        select-head (λ r. is_finalizing r.status) db.reservations c ds v.unique_rows sel in
      rw e (
        Goes-then owner n n (apply_finalizing_reservation c.id now db) (apply_batch now cs)
          (apply_found owner db v c now n found (ground arith) le)
          (λ db' v' le'. apply_batch_any owner n now cs db' v' le'))

  release_batch_head :
      (n now : ℕ) (c : Reservation) (cs : List Reservation) (db : Db)
      → Balanced db
      → orphan_batch owner db ≡ c ∷ cs
      → left owner db ≤ n + 1
      → Goes owner n (release_batch owner now (orphan_batch owner db) db)
  unfolding release_batch orphan_batch release_orphan
  release_batch_head n now c cs db v e le =
      let (ds, sel) = take-head quota_batch_size _ c cs e in
      let (found, p) = select-head (is_orphan owner) db.reservations c ds v.unique_rows sel in
      rw e (
        Goes-then owner n n (release_orphan owner now c db) (release_batch owner now cs)
          (rw (found, release_orphan, p) (release_found owner db v c now n found p le))
          (λ db' v' le'. release_batch_any owner n now cs db' v' le'))

  -- A round that has a batch leaves fewer rows.
  round-Goes :
      (n now : ℕ) (fs os : List Reservation) (db : Db)
      → finalizing_batch db ≡ fs
      → orphan_batch owner db ≡ os
      → no_rows fs && no_rows os ≡ false
      → Balanced db
      → left owner db ≤ n + 1
      → Goes owner n (recover_round owner now db)
  unfolding recover_round
  round-Goes n now (c ∷ cs) os db f o some_rows v le =
      Goes-then owner n n (apply_batch now (finalizing_batch db) db)
        (release_batch owner now (orphan_batch owner db)) (apply_batch_head n now c cs db v f le)
        (λ db' v' le'. release_batch_any owner n now (orphan_batch owner db) db' v' le')
  round-Goes n now [] (c ∷ cs) db f o some_rows v le =
      rw f (unfold apply_batch in release_batch_head n now c cs db v o le)
  round-Goes n now [] [] db f o some_rows v le = cc

  -- How the recovery ends.
  pub data Recovers : Result Error Db → Type 0 where
    fails_early : (e : Error) → e ≢ out_of_fuel → Recovers (err e)
    recovers : (db' : Db) → Balanced db' → left owner db' ≡ 0 → Recovers (ok db')

  loop_next :
      (n m now fuel : ℕ) (x : Result Error Db)
      → Goes owner n x
      → ((db' : Db)
          → Balanced db'
          → left owner db' ≤ n
          → Recovers (recover_loop fuel owner now db'))
      → Recovers (x >>= recover_loop fuel owner now)
  loop_next n m now fuel _ (fails e other) h = fails_early e other
  loop_next n m now fuel _ (goes db' v le) h = h db' v le

  no_rows-nil : (rows : List Reservation) → no_rows rows ≡ true → rows ≡ []
  no_rows-nil [] e = refl
  no_rows-nil (r ∷ rs) e = cc

  nothing_left_db :
      (db : Db)
      → (no_rows (finalizing_batch db) && no_rows (orphan_batch owner db)) ≡ true
      → left owner db ≡ 0
  unfolding finalizing_batch orphan_batch
  nothing_left_db db e =
      nothing-left owner db.reservations (take-nil 255 _ (no_rows-nil _ (ground arith)))
        (take-nil 255 _ (no_rows-nil _ (ground arith)))

  rows_left :
      (db : Db)
      → (no_rows (finalizing_batch db) && no_rows (orphan_batch owner db)) ≡ false
      → 1 ≤ left owner db
  unfolding finalizing_batch orphan_batch
  rows_left db more = elim (Bool-cases (left owner db == 0)) [
    | inr some_left ↦ ground arith
    | inl zero_left ↦
        let (f, o) = none-selected owner db.reservations (ground arith) in
        absurd (false≢true (sym more ∙ rw (f, o) refl))
  ]

  pub recover_loop-Recovers :
      (fuel now : ℕ) (db : Db)
      → Balanced db
      → left owner db < fuel
      → Recovers (recover_loop fuel owner now db)
  unfolding recover_loop
  recover_loop-Recovers zero now db v lt = absurd (omega arith)
  recover_loop-Recovers (suc fuel) now db v lt =
      elim (Bool-cases (no_rows (finalizing_batch db) && no_rows (orphan_batch owner db))) [
        | inl done ↦ rw done (recovers db v (nothing_left_db db done))
        | inr more ↦ rw more (
            loop_next (left owner db - 1) 0 now fuel (recover_round owner now db)
              (round-Goes (left owner db - 1) now (finalizing_batch db) (orphan_batch owner db) db
                refl refl more v (omega arith))
              (λ db' v' le.
                recover_loop-Recovers fuel now db' v' (omega (arith, rows_left db more))))
      ]

-- Recovery from balanced tables ends within its fuel. It succeeds with balanced tables in which no
-- reservation is finalizing and none of another process is pending, or it fails with an error that is
-- not that of the fuel and changes nothing.
pub recover_pending_ends :
    (owner now : ℕ) (db : Db)
    → Balanced db
    → ((e : Error) × (e ≢ out_of_fuel) × (recover_pending owner now db ≡ (err e, db)))
      ⊎ ((db' : Db) × (recover_pending owner now db ≡ (ok tt, db'))
          × Balanced db'
          × (select (λ r. is_finalizing r.status) db'.reservations ≡ [])
          × (select (is_orphan owner) db'.reservations ≡ []))
unfolding recover_pending
recover_pending_ends owner now db v =
    ends (recover_loop (left owner db + 1) owner now db)
      (recover_loop-Recovers owner (left owner db + 1) now db v (omega arith))
  where
    ends :
        (x : Result Error Db)
        → Recovers owner x
        → ((e : Error) × (e ≢ out_of_fuel) × (commit db x ≡ (err e, db)))
          ⊎ ((db' : Db) × (commit db x ≡ (ok tt, db'))
              × Balanced db'
              × (select (λ r. is_finalizing r.status) db'.reservations ≡ [])
              × (select (is_orphan owner) db'.reservations ≡ []))
    ends _ (fails_early e other) = inl (e, other, refl)
    ends _ (recovers db' w none_left) =
        let (f, o) = none-selected owner db'.reservations none_left in inr (db', refl, w, f, o)
