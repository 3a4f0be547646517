-- ===== src/Quota/Final.antt =====
-- An ended reservation stays as it is (internal/apikey/quota.go, the status tests of Release and
-- Reconcile).
use codex_sub_proxy.Prelude.{ℕ, ◌≡◌, ◌≢◌, some, false, List, arith, ok}
use codex_sub_proxy.Prelude.Int.{ℤ}
use codex_sub_proxy.Quota.Types.{Amounts, Reservation, Db}
use codex_sub_proxy.Quota.Policy.{validate_quota_usage}
use codex_sub_proxy.Quota.Settle.{
  reservation?, release_step, release, reconcile, begin_quota_finalization,
  apply_finalizing_reservation,
}
use codex_sub_proxy.Quota.Balance.{is_open}

-- A reservation that is closed or released is final, in whatever tables: to release it and to
-- reconcile it with a valid usage succeed and change nothing.
pub ended_is_final :
    (db : Db) (r : Reservation) (id now : ℕ) (reason : List ℕ) (usage : Amounts ℤ) (u : Amounts ℕ)
    → id ≢ 0
    → reservation? id db ≡ some r
    → is_open r.status ≡ false
    → validate_quota_usage usage ≡ ok u
    → (release id reason now db ≡ (ok tt, db)) × (reconcile id usage now db ≡ (ok tt, db))
unfolding release release_step reconcile begin_quota_finalization apply_finalizing_reservation
ended_is_final db r id now reason usage u ne found shut valid =
    (ground (arith, found, shut), ground (arith, found, shut, valid))
