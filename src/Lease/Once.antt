-- ===== src/Lease/Once.antt =====
-- A lease acts on its reservation once (internal/server/quota.go), and what it asks for is valid.
use codex_sub_proxy.Prelude.{
  ℕ, ◌≤◌, ◌≡◌, refl, none, true, false, List, [], ◌∷◌, arith, ok, bound, bind_inv, fail_if, ◌==◌,
  if◌then◌else◌,
}
use codex_sub_proxy.Prelude.Int.{ℤ, pos, negsuc}
use codex_sub_proxy.Quota.Types.{
  Amounts, Db, Error, count_range, window_range, period_range, rolling_pair,
}
use codex_sub_proxy.Quota.Policy.{
  Policy, max_quota_count, max_quota_window, bool_ne, in_range, check_counts, check_period,
  validate_quota_policy, validate_quota_request,
}
use codex_sub_proxy.Quota.Settle.{release}
use codex_sub_proxy.Lease.{
  Lease, Call, reconciles, releases, reconcile_lease, release_lease, run_call, run_calls,
  response_quota_request, image_quota_request,
}

closed_stays :
    (cs : List Call) (l : Lease) (db : Db) → l.closed ≡ true → run_calls cs l db ≡ (l, db)
unfolding run_calls run_call reconcile_lease release_lease
closed_stays [] l db c = refl
closed_stays (reconciles usage now ∷ cs) l db c = ground (arith, c, closed_stays cs l db)
closed_stays (releases reason now ∷ cs) l db c = ground (arith, c, closed_stays cs l db)

-- After a lease has been reconciled, with whatever outcome, no later call on it changes the lease or
-- the tables: not a deferred release, nor a second reconciliation.
pub reconcile_is_last :
    (usage : Amounts ℤ) (now : ℕ) (cs : List Call) (l : Lease) (db : Db)
    → run_calls (reconciles usage now ∷ cs) l db ≡ run_call (reconciles usage now) l db
unfolding run_calls run_call reconcile_lease
reconcile_is_last usage now cs l db =
    closed_stays cs (run_call (reconciles usage now) l db).0
      (run_call (reconciles usage now) l db).1 (ground arith)

-- After a release that the store has accepted, no later call changes the lease or the tables.
pub release_is_last :
    (reason : List ℕ) (now : ℕ) (cs : List Call) (l : Lease) (db : Db)
    → l.closed ≡ false
    → l.success_known ≡ false
    → (release l.id reason now db).0 ≡ ok tt
    → run_calls (releases reason now ∷ cs) l db
      ≡ (record l { closed = true }, (release l.id reason now db).1)
unfolding run_calls run_call release_lease
release_is_last reason now cs l db open_lease no_success accepted = ground (
  arith,
  open_lease,
  no_success,
  accepted,
  closed_stays cs (record l { closed = true }) (release l.id reason now db).1,
)

in_range-le : (bound_ : ℕ) (e : Error) (i : ℤ) {n : ℕ} → in_range bound_ e i ≡ ok n → n ≤ bound_
unfolding in_range
in_range-le bound_ e (pos m) h = ground arith
in_range-le bound_ e (negsuc m) h = cc

check_counts-le :
    (raw : Policy ℤ) (p : Policy ℕ)
    → check_counts raw 0 0 ≡ ok p
    → (p.token_reservation_default ≤ max_quota_count)
      × (p.image_reservation_default ≤ max_quota_count)
      × (p.cost_microunit_reservation_default ≤ max_quota_count)
unfolding check_counts
check_counts-le raw p h = ground (
  arith,
  in_range-le max_quota_count count_range raw.token_reservation_default,
  in_range-le max_quota_count count_range raw.image_reservation_default,
  in_range-le max_quota_count count_range raw.cost_microunit_reservation_default,
)

check_period-same : (p q : Policy ℕ) → check_period p ≡ ok q → q ≡ p
unfolding check_period
check_period-same p q h = ground arith

validate_quota_policy-le :
    (raw : Policy ℤ) (p : Policy ℕ)
    → validate_quota_policy raw ≡ ok p
    → (p.token_reservation_default ≤ max_quota_count)
      × (p.image_reservation_default ≤ max_quota_count)
      × (p.cost_microunit_reservation_default ≤ max_quota_count)
unfolding validate_quota_policy
validate_quota_policy-le raw p h = elim (bind_inv (check_counts raw 0 0) _ h) [
  | bound c e h0 ↦
      elim (bind_inv (in_range max_quota_window window_range raw.rolling_request_window) _ h0) [
        | bound w _ h1 ↦
            elim (bind_inv (fail_if (bool_ne (c.rolling_request_count == 0) (w == 0)) rolling_pair)
              _ h1) [
                | bound _ _ h2 ↦
                    elim (bind_inv (in_range max_quota_window period_range raw.period_duration) _
                      h2) [
                        | bound d _ h3 ↦
                            let same =
                              check_period-same
                                (record c { rolling_request_window = w; period_duration = d }) p
                                h3 in
                            ground (arith, check_counts-le raw c e, same)
                      ]
              ]
      ]
]

-- Under a policy that is valid, what a handler asks for is a valid request: for a response with no
-- output limit it is the policy's reservation defaults, and for images with no count the image
-- default, or one image if that is 0.
pub default_requests_valid :
    (raw : Policy ℤ) (p : Policy ℕ)
    → validate_quota_policy raw ≡ ok p
    → (validate_quota_request (response_quota_request p none)
        ≡ ok (record {
          requests = 1;
          tokens = p.token_reservation_default;
          images = 0;
          cost_microunits = p.cost_microunit_reservation_default;
        }))
      × (validate_quota_request (image_quota_request p none)
          ≡ ok (record {
            requests = 1;
            tokens = 0;
            images = if p.image_reservation_default == 0 then 1 else p.image_reservation_default;
            cost_microunits = p.cost_microunit_reservation_default;
          }))
unfolding validate_quota_request response_quota_request image_quota_request
default_requests_valid raw p h = ground (arith, validate_quota_policy-le raw p h)
