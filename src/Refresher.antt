-- ===== src/Refresher.antt =====
-- internal/codex/refresh.go: the refresher of a credential. One mutex guards the state, and every
-- function here is what the code does under one lock, or between two: what happens in between comes
-- in as an argument. The credential file, the clock and the OAuth endpoint are arguments too; the
-- contexts of the callers are left out.
use codex_sub_proxy.Prelude.{
  ℕ, zero, suc, ◌+◌, ◌%◌, ◌^◌, List, [], ◌∷◌, ◌++◌, Bool, true, false, ◌&&◌, ◌||◌, not, leb, ◌==◌,
  length, Option, none, some, Result, ok, err, if◌then◌else◌,
}
use codex_sub_proxy.Broker.{
  CredentialStatus, missing, current, refreshable, expired, refreshing, transient_failure,
  permanent_failure, CredentialSnapshot,
}
pub mod Agreement
pub mod Run
pub mod Flight
pub mod Ends
pub mod Waiting
pub mod Tests

-- Credential; a text is a number, 0 for the empty one, and a time too, 0 for the zero time.
pub record Credential : Type 0 where
  pub access_token : ℕ
  pub id_token : ℕ
  pub refresh_token : ℕ
  pub expires_at : ℕ
  pub account_id : ℕ
  pub user_id : ℕ
  pub workspace_id : ℕ
  pub plan_type : ℕ
  pub account_is_fedramp : Bool
  pub email : ℕ

-- What a load, a refresh or a wait can fail of: an unreadable file, a refresh token that needs a new
-- login, the end of a context, or anything else.
pub data Failure : Type 0 where
  load_failed : Failure
  requires_login : Failure
  cancelled : Failure
  temporary : Failure

-- refreshCall; it has an answer once its channel is closed.
pub record RefreshCall : Type 0 where
  pub answer : Option (Result Failure Credential)

-- Refresher. A pointer to a call is its index in the list of all calls so far.
pub record Refresher : Type 0 where
  pub in_flight : Option ℕ
  pub generation : ℕ
  pub permanent_token : ℕ
  pub transient_token : ℕ
  pub calls : List RefreshCall

-- Five minutes in nanoseconds.
abbrev pub refresh_skew : ℕ
refresh_skew = 300000000000

-- `generation++` on a uint64.
abbrev pub next_generation : ℕ → ℕ
next_generation g = (g + 1) % 2 ^ 64

unfoldable pub needs_refresh : Credential → ℕ → Bool
needs_refresh c now = c.expires_at == 0 || leb c.expires_at (now + refresh_skew)

abbrev same_flag : Bool → Bool → Bool
same_flag true b = b
same_flag false b = not b

unfoldable pub same_credential : Credential → Credential → Bool
same_credential left right =
    left.access_token == right.access_token
    && left.id_token == right.id_token
    && left.refresh_token == right.refresh_token
    && left.expires_at == right.expires_at
    && left.account_id == right.account_id
    && left.user_id == right.user_id
    && left.workspace_id == right.workspace_id
    && left.plan_type == right.plan_type
    && same_flag left.account_is_fedramp right.account_is_fedramp
    && left.email == right.email

-- `token != "" && token != credential.RefreshToken`
abbrev pub changed_from : ℕ → Credential → Bool
changed_from token c = not (token == 0) && not (token == c.refresh_token)

-- `token != "" && token == credential.RefreshToken`
abbrev pub failed_with : ℕ → Credential → Bool
failed_with token c = not (token == 0) && token == c.refresh_token

-- clearChangedFailures
unfoldable pub clear_changed_failures : Credential → Refresher → Refresher
clear_changed_failures c r = record r {
  permanent_token = if changed_from r.permanent_token c then 0 else r.permanent_token;
  transient_token = if changed_from r.transient_token c then 0 else r.transient_token;
  generation =
      if changed_from r.permanent_token c || changed_from r.transient_token c
      then next_generation r.generation
      else r.generation;
}

-- hasPermanentFailure
unfoldable pub has_permanent_failure : Credential → Refresher → Bool
has_permanent_failure c r = failed_with r.permanent_token c

unfoldable pub credential_available_at : (ℕ → Bool) → Credential → ℕ → Bool
credential_available_at is_space c now =
    not (is_space c.access_token)
    && not (is_space c.refresh_token)
    && not (is_space c.account_id)
    && not (c.expires_at == 0)
    && not (leb c.expires_at now)

-- What a round of Credential comes to: it goes around again, at once, after clearing failures or
-- after waiting for a call; or it ends, with the error of the call that it has waited for, with
-- another error, with the credential or with a refresh.
pub data Verdict : Type 0 where
  again : Verdict
  clear_then_again : Credential → Verdict
  wait_then_again : ℕ → Verdict
  wait_then_fail : ℕ → Failure → Verdict
  fails : Failure → Verdict
  gives : Credential → Verdict
  refreshes : Credential → Verdict

-- What follows a waitForRefresh that gives `a`: an error is returned, a credential is dropped.
abbrev pub after_wait : ℕ → Result Failure Credential → Verdict
after_wait call (ok c) = wait_then_again call
after_wait call (err e) = wait_then_fail call e

abbrev pub wait_or_again : (ℕ → Result Failure Credential) → Option ℕ → Verdict
wait_or_again awaited none = again
wait_or_again awaited (some call) = after_wait call (awaited call)

abbrev pub wait_or : (ℕ → Result Failure Credential) → Option ℕ → Verdict → Verdict
wait_or awaited none v = v
wait_or awaited (some call) v = after_wait call (awaited call)

-- Credential's round: what waitForRefresh gives for each call (the call's answer, or the end of the
-- caller's context), the state at its first lock, what it loaded, the state at its second lock.
unfoldable pub credential_round :
    (ℕ → Result Failure Credential)
    → Refresher
    → Result Failure Credential
    → Refresher
    → ℕ
    → Verdict
unfolding needs_refresh
credential_round awaited seen loaded r now =
    if not (seen.generation == r.generation)
    then wait_or_again awaited r.in_flight
    else elim loaded [
      | err e ↦ fails e
      | ok c ↦
          if changed_from seen.permanent_token c || changed_from seen.transient_token c
          then clear_then_again c
          else if failed_with seen.permanent_token c
          then fails requires_login
          else wait_or awaited seen.in_flight
              (if not (needs_refresh c now) then gives c else refreshes c)
    ]

abbrev pub observed : CredentialStatus → Bool → Option CredentialSnapshot
observed state available = some (record { available = available; state = state })

abbrev pub expiry_state : Credential → ℕ → Bool → Option CredentialSnapshot
expiry_state c now available =
    if c.expires_at == 0 || leb c.expires_at now
    then observed expired false
    else if leb c.expires_at (now + refresh_skew)
    then observed refreshable available
    else observed current available

abbrev pub flight_state : Option ℕ → Bool → Option CredentialSnapshot → Option CredentialSnapshot
flight_state (some c) available s = observed refreshing available
flight_state none available s = s

-- Snapshot's round; none is one that goes around again.
unfoldable pub snapshot_round :
    (ℕ → Bool) → Refresher → Result Failure Credential → Refresher → ℕ → Option CredentialSnapshot
unfolding credential_available_at
snapshot_round is_space seen loaded r now =
    if not (seen.generation == r.generation) then none else elim loaded [
      | err e ↦ observed missing false
      | ok c ↦
          if changed_from seen.permanent_token c || changed_from seen.transient_token c
          then none
          else if failed_with seen.permanent_token c
          then observed permanent_failure false
          else flight_state seen.in_flight (credential_available_at is_space c now) (
              if failed_with seen.transient_token c
              then observed transient_failure (credential_available_at is_space c now)
              else expiry_state c now (credential_available_at is_space c now))
    ]

abbrev pub join_or_begin : Option ℕ → Refresher → (ℕ × Bool) × Refresher
join_or_begin (some c) r = ((c, false), r)
join_or_begin none r = (
  (length r.calls, true),
  record r {
    in_flight = some (length r.calls);
    generation = next_generation r.generation;
    calls = r.calls ++ record { answer = none } ∷ [];
  },
)

-- The part of refreshSingleFlight under the lock: the call to wait for and whether it is a new one,
-- for which the goroutine of runRefresh is started.
unfoldable pub refresh_single_flight : Refresher → (ℕ × Bool) × Refresher
refresh_single_flight r = join_or_begin r.in_flight r

-- `call.credential`, `call.err` and the closing of `call.done`.
unfoldable pub answer_call : ℕ → Result Failure Credential → List RefreshCall → List RefreshCall
answer_call i a [] = []
answer_call zero a (c ∷ cs) = record { answer = some a } ∷ cs
answer_call (suc i) a (c ∷ cs) = c ∷ answer_call i a cs

abbrev permanent_after : Result Failure Credential → ℕ → ℕ → ℕ
permanent_after (ok c) token old = 0
permanent_after (err requires_login) token old = token
permanent_after (err load_failed) token old = old
permanent_after (err cancelled) token old = old
permanent_after (err temporary) token old = old

abbrev transient_after : Result Failure Credential → ℕ → ℕ → ℕ
transient_after (ok c) token old = 0
transient_after (err requires_login) token old = 0
transient_after (err load_failed) token old = token
transient_after (err cancelled) token old = old
transient_after (err temporary) token old = token

abbrev pub landed : Option ℕ → ℕ → Option ℕ
landed none call = none
landed (some c) call = if c == call then none else some c

-- finishRefresh; `token` is the refresh token of the credential that was refreshed.
unfoldable pub finish_refresh : ℕ → Result Failure Credential → ℕ → Refresher → Refresher
unfolding answer_call
finish_refresh call a token r = record {
  in_flight = landed r.in_flight call;
  generation = next_generation r.generation;
  permanent_token = permanent_after a token r.permanent_token;
  transient_token = transient_after a token r.transient_token;
  calls = answer_call call a r.calls;
}
