-- ===== src/Quota/Recover.antt =====
-- internal/apikey/quota.go, QuotaStore.RecoverPending: at start-up the store applies the recorded
-- successes and releases what other processes left in flight, in batches, in one transaction.
use mathlib.Core.Option.{none, some}
use codex_sub_proxy.Prelude.{
  ℕ, zero, suc, ◌+◌, List, [], ◌∷◌, Bool, true, false, ◌&&◌, not, ◌==◌, take, select, sum, count_if,
  Result, ok, err, ◌>>=◌, if◌then◌else◌,
}
use codex_sub_proxy.Quota.Types.{Reservation, Db, Error, out_of_fuel, is_pending, is_finalizing}
use codex_sub_proxy.Quota.Rows.{quota_batch_size}
use codex_sub_proxy.Quota.Settle.{
  Step, commit, reservation?, apply_finalizing_reservation, release_pending_reservation,
}

-- `status = 'pending' AND owner_id <> ?`
abbrev pub is_orphan : ℕ → Reservation → Bool
is_orphan owner r = is_pending r.status && not (r.owner_id == owner)

unfoldable pub finalizing_batch : Db → List Reservation
finalizing_batch db = take quota_batch_size (select (λ r. is_finalizing r.status) db.reservations)

unfoldable pub orphan_batch : ℕ → Db → List Reservation
orphan_batch owner db = take quota_batch_size (select (is_orphan owner) db.reservations)

unfoldable pub apply_batch : ℕ → List Reservation → Step
apply_batch now [] db = ok db
apply_batch now (c ∷ cs) db = do
  db' ← apply_finalizing_reservation c.id now db
  apply_batch now cs db'

-- "process crash recovery"
abbrev pub crash_reason : List ℕ
crash_reason =
    b'p' ∷ b'r' ∷ b'o' ∷ b'c' ∷ b'e' ∷ b's' ∷ b's' ∷ b' ' ∷ b'c' ∷ b'r' ∷ b'a' ∷ b's' ∷ b'h' ∷ b' '
    ∷ b'r' ∷ b'e' ∷ b'c' ∷ b'o' ∷ b'v' ∷ b'e' ∷ b'r' ∷ b'y' ∷ []

unfoldable pub release_orphan : ℕ → ℕ → Reservation → Step
unfolding release_pending_reservation
release_orphan owner now c db = elim (reservation? c.id db) [
  | none ↦ ok db
  | some r ↦ if is_orphan owner r then release_pending_reservation r now crash_reason db else ok db
]

unfoldable pub release_batch : ℕ → ℕ → List Reservation → Step
unfolding release_orphan
release_batch owner now [] db = ok db
release_batch owner now (c ∷ cs) db = do
  db' ← release_orphan owner now c db
  release_batch owner now cs db'

abbrev pub no_rows : List Reservation → Bool
no_rows [] = true
no_rows (r ∷ rs) = false

-- One round of the loop, on the two batches that it has loaded.
unfoldable pub recover_round : ℕ → ℕ → Step
unfolding apply_batch release_batch finalizing_batch orphan_batch
recover_round owner now db = do
  db' ← apply_batch now (finalizing_batch db) db
  release_batch owner now (orphan_batch owner db) db'

-- The loop ends when both batches are empty. The fuel bounds the rounds.
unfoldable pub recover_loop : ℕ → ℕ → ℕ → Step
unfolding finalizing_batch orphan_batch recover_round
recover_loop zero owner now db = err out_of_fuel
recover_loop (suc fuel) owner now db =
    let more = recover_round owner now db >>= recover_loop fuel owner now in
    if no_rows (finalizing_batch db) && no_rows (orphan_batch owner db) then ok db else more

-- The rows that recovery is still to deal with.
abbrev pub recoverable : ℕ → Reservation → ℕ
recoverable owner r = count_if (is_finalizing r.status) + count_if (is_orphan owner r)

unfoldable pub recover_pending : ℕ → ℕ → Db → Result Error (Unit {0}) × Db
unfolding recover_loop
recover_pending owner now db =
    commit db (recover_loop (sum (recoverable owner) db.reservations + 1) owner now db)
