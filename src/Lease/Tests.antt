-- ===== src/Lease/Tests.antt =====
-- The lease of a request handler (internal/server/quota.go) on concrete tables.
use codex_sub_proxy.Prelude.{◌≡◌, refl, none, true, false, [], ◌∷◌, ok}
use codex_sub_proxy.Prelude.Table.{find}
use codex_sub_proxy.Quota.Policy.{validate_quota_policy, validate_quota_request}
use codex_sub_proxy.Quota.Settle.{release}
use codex_sub_proxy.Lease.{
  Lease, reconciles, releases, run_call, run_calls, response_quota_request, image_quota_request,
}
use codex_sub_proxy.Lease.Once.{reconcile_is_last, release_is_last, default_requests_valid}
use codex_sub_proxy.Quota.Tests.{raw, policy, raw_usage, success_rows}

abbrev lease : Lease
lease = record { id = 11; closed = false; success_known = false }

reconcile_is_last_example :
    run_calls (reconciles raw_usage 8 ∷ releases [] 9 ∷ []) lease success_rows
    ≡ run_call (reconciles raw_usage 8) lease success_rows
reconcile_is_last_example = reconcile_is_last raw_usage 8 (releases [] 9 ∷ []) lease success_rows

release_is_last_example :
    run_calls (releases [] 8 ∷ reconciles raw_usage 9 ∷ []) lease success_rows
    ≡ (record lease { closed = true }, (release 11 [] 8 success_rows).1)
unfolding release find
release_is_last_example =
    release_is_last [] 8 (reconciles raw_usage 9 ∷ []) lease success_rows refl refl refl

default_requests_valid_example :
    (validate_quota_request (response_quota_request policy none)
      ≡ ok (record { requests = 1; tokens = 100; images = 0; cost_microunits = 0 }))
    × (validate_quota_request (image_quota_request policy none)
        ≡ ok (record { requests = 1; tokens = 0; images = 1; cost_microunits = 0 }))
unfolding validate_quota_policy
default_requests_valid_example = default_requests_valid raw policy refl
