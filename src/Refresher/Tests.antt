-- ===== src/Refresher/Tests.antt =====
-- The refresher (internal/codex/refresh.go) on concrete credentials.
use codex_sub_proxy.Prelude.{
  ℕ, ◌≡◌, refl, Result, [], ◌∷◌, true, false, ◌==◌, none, some, ok, err, arith,
}
use codex_sub_proxy.Broker.{current}
use codex_sub_proxy.Refresher.{
  Credential, Failure, cancelled, requires_login, Refresher, needs_refresh, credential_round,
  snapshot_round, gives, clear_then_again, finish_refresh, clear_changed_failures,
}
use codex_sub_proxy.Refresher.Run.{
  loading, Input, World, at_start, onward, begins, start_refresh, new_refresher,
}
use codex_sub_proxy.Refresher.Agreement.{Beside, credential_round-snapshot_round}
use codex_sub_proxy.Refresher.Flight.{OneFlight, NoneLost, Reached-OneFlight}
use codex_sub_proxy.Refresher.Waiting.{
  gone_on, Course, over, asks, runs, Answered, Course-answers_calls,
}
use codex_sub_proxy.Refresher.Ends.{requires_login_until_changed}

abbrev old : Credential
old = record {
  access_token = 1;
  id_token = 2;
  refresh_token = 3;
  expires_at = 5;
  account_id = 4;
  user_id = 0;
  workspace_id = 0;
  plan_type = 0;
  account_is_fedramp = false;
  email = 0;
}

abbrev renewed : Credential
renewed = record old { refresh_token = 7; expires_at = 900000000000 }

abbrev input : Input
input = record { file = ok old; now = 6; refreshed = err requires_login }

-- A wait that the end of the caller's context cuts short.
abbrev no_wait : ℕ → Result Failure Credential
no_wait call = err cancelled

abbrev flying : Refresher
flying = record new_refresher { in_flight = some 0; calls = record { answer = none } ∷ [] }

credential_round-snapshot_round_example :
    Beside no_wait none none
      (ok renewed)
      6
      (credential_round no_wait new_refresher (ok renewed) new_refresher 6)
      (snapshot_round (λ t. t == 0) new_refresher (ok renewed) new_refresher 6)
unfolding new_refresher
credential_round-snapshot_round_example =
    credential_round-snapshot_round no_wait (λ t. t == 0) new_refresher (ok renewed) new_refresher 6

is_current :
    snapshot_round (λ t. t == 0) new_refresher (ok renewed) new_refresher 6
    ≡ some (record { available = true; state = current })
unfolding new_refresher snapshot_round
is_current = refl

-- Two callers have asked for a refresh, and its goroutine has not gone on yet.
abbrev busy : World
busy = record {
  refresher = record flying { generation = 1 };
  goroutines = record { call = 0; phase = loading false old } ∷ [];
}

Reached-OneFlight_example : OneFlight busy × NoneLost busy
unfolding new_refresher start_refresh
Reached-OneFlight_example =
    Reached-OneFlight busy (onward (onward at_start (begins false old)) (begins true old))

abbrev finished : World
finished =
    gone_on input
      (gone_on input (gone_on input (start_refresh true old (gone_on input (gone_on input busy)))))

busy-Course : Course finished 5 busy
busy-Course = runs input (runs input (asks true old (runs input (runs input (runs input over)))))

Course-answers_calls_example : Answered 0 finished
unfolding new_refresher start_refresh
Course-answers_calls_example =
    Course-answers_calls busy finished 5 0 (record { answer = none })
      (onward (onward at_start (begins false old)) (begins true old)) refl busy-Course (omega arith)

requires_login_until_changed_example :
    (credential_round no_wait
        (finish_refresh 0 (err requires_login) 3 flying)
        (ok renewed)
        (finish_refresh 0 (err requires_login) 3 flying)
        6
      ≡ clear_then_again renewed)
    × (credential_round no_wait
          (clear_changed_failures renewed (finish_refresh 0 (err requires_login) 3 flying))
          (ok renewed)
          (clear_changed_failures renewed (finish_refresh 0 (err requires_login) 3 flying))
          6
        ≡ gives renewed)
unfolding new_refresher needs_refresh
requires_login_until_changed_example =
    requires_login_until_changed no_wait 0 3 flying renewed 6 refl refl
