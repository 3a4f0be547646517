-- ===== src/Lease.antt =====
-- internal/server/quota.go: the lease that a request handler holds on its quota reservation, and the
-- amounts it asks for.
pub mod Once
mod Tests
use codex_sub_proxy.Prelude.{
  ℕ, ◌≡◌, refl, Option, none, some, Bool, true, false, ◌||◌, List, [], ◌∷◌, ◌==◌, if◌then◌else◌,
  arith, Result, ok, err, ◌⊎◌, inl, inr,
}
use codex_sub_proxy.Prelude.Int.{ℤ, pos}
use codex_sub_proxy.Quota.Types.{Amounts, Kind, concurrency, rate, limit, Reservation, Db, Error}
use codex_sub_proxy.Quota.Policy.{Policy}
use codex_sub_proxy.Quota.Admit.{FreshIds, admit}
use codex_sub_proxy.Quota.Settle.{reconcile, release}

-- quotaLease; the store is the tables that the operations take.
pub record Lease : Type 0 where
  pub id : ℕ
  pub closed : Bool
  pub success_known : Bool

-- No lease if no quota is on.
unfoldable pub lease_of : Option Reservation → Option Lease
lease_of none = none
lease_of (some r) = some (record { id = r.id; closed = false; success_known = false })

abbrev leased : Result Error (Option Reservation) × Db → Result Error (Option Lease) × Db
unfolding lease_of
leased (ok r, db) = (ok (lease_of r), db)
leased (err e, db) = (err e, db)

unfoldable pub admit_request_quota :
    ℕ → Policy ℤ → Amounts ℤ → ℕ → FreshIds → ℕ → Db → Result Error (Option Lease) × Db
unfolding leased
admit_request_quota owner policy req key_id ids now db =
    leased (admit owner policy req key_id ids now db)

-- The lease is closed also when the store fails.
unfoldable pub reconcile_lease : Lease → Amounts ℤ → ℕ → Db → Result Error (Unit {0}) × Lease × Db
reconcile_lease l usage now db =
    if l.closed
    then (ok tt, l, db)
    else let (r, db') = reconcile l.id usage now db in
      (r, record l { closed = true; success_known = true }, db')

abbrev released_lease : Result Error (Unit {0}) × Db → Lease → Result Error (Unit {0}) × Lease × Db
released_lease (ok done, db) l = (ok tt, record l { closed = true }, db)
released_lease (err e, db) l = (err e, l, db)

unfoldable pub release_lease : Lease → List ℕ → ℕ → Db → Result Error (Unit {0}) × Lease × Db
release_lease l reason now db =
    if l.closed || l.success_known
    then (ok tt, l, db)
    else released_lease (release l.id reason now db) l

-- The calls that a handler makes on its lease, deferred ones included.
pub data Call : Type 0 where
  reconciles : Amounts ℤ → ℕ → Call
  releases : List ℕ → ℕ → Call

unfoldable pub run_call : Call → Lease → Db → Lease × Db
unfolding reconcile_lease release_lease
run_call (reconciles usage now) l db =
    let (r, l', db') = reconcile_lease l usage now db in (l', db')
run_call (releases reason now) l db = let (r, l', db') = release_lease l reason now db in (l', db')

unfoldable pub run_calls : List Call → Lease → Db → Lease × Db
unfolding run_call
run_calls [] l db = (l, db)
run_calls (c ∷ cs) l db = let (l', db') = run_call c l db in run_calls cs l' db'

-- quotaResponseCode; `none` is an error that is no QuotaError.
pub data ResponseCode : Type 0 where
  rate_limit_exceeded concurrency_limit_exceeded quota_exceeded : ResponseCode

unfoldable pub quota_response_code : Option Kind → ResponseCode
quota_response_code none = rate_limit_exceeded
quota_response_code (some concurrency) = concurrency_limit_exceeded
quota_response_code (some rate) = rate_limit_exceeded
quota_response_code (some (limit d)) = quota_exceeded

abbrev or_default : {A : Type 0} → Option A → A → A
or_default none d = d
or_default (some a) d = a

unfoldable pub response_quota_request : Policy ℕ → Option ℤ → Amounts ℤ
response_quota_request p max_output_tokens = record {
  requests = pos 1;
  tokens = or_default max_output_tokens (pos p.token_reservation_default);
  images = pos 0;
  cost_microunits = pos p.cost_microunit_reservation_default;
}

unfoldable pub image_quota_request : Policy ℕ → Option ℤ → Amounts ℤ
image_quota_request p count = record {
  requests = pos 1;
  tokens = pos 0;
  images =
      or_default count
        (pos (if p.image_reservation_default == 0 then 1 else p.image_reservation_default));
  cost_microunits = pos p.cost_microunit_reservation_default;
}
