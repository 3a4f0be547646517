-- ===== src/Refresher/Agreement.antt =====
-- Snapshot and Credential of a refresher agree on what they observe (internal/codex/refresh.go).
use codex_sub_proxy.Prelude.{
  ℕ, ◌+◌, ◌≡◌, refl, ◌⊎◌, Bool, true, false, ◌||◌, not, leb, ◌==◌, Option, none, some, Result, ok,
  err, arith, if◌then◌else◌, Bool-cases, inl, inr,
}
use codex_sub_proxy.Broker.{
  CredentialStatus, missing, current, refreshable, expired, refreshing, transient_failure,
  permanent_failure, CredentialSnapshot,
}
use codex_sub_proxy.Refresher.{
  Credential, Failure, requires_login, Refresher, refresh_skew, needs_refresh,
  credential_available_at, changed_from, failed_with, Verdict, again, clear_then_again,
  wait_then_again, wait_then_fail, after_wait, fails, gives, refreshes, wait_or, wait_or_again,
  observed, expiry_state, flight_state, credential_round, snapshot_round,
}

-- Credential waits for a call and goes around again, or fails with the error that the wait gives.
abbrev pub Waits : (ℕ → Result Failure Credential) → ℕ → Verdict → Type 0
Waits awaited call v =
    ((c : Credential) × (awaited call ≡ ok c) × (v ≡ wait_then_again call))
    ⊎ ((e : Failure) × (awaited call ≡ err e) × (v ≡ wait_then_fail call e))

-- What Credential does where Snapshot reports a state, by what its waits give, the call in flight,
-- the credential that was loaded and the time.
abbrev pub Agrees :
    (ℕ → Result Failure Credential)
    → Option ℕ
    → Result Failure Credential
    → ℕ
    → Verdict
    → CredentialStatus
    → Type 0
Agrees awaited flight loaded now v missing = (e : Failure) × (loaded ≡ err e) × (v ≡ fails e)
Agrees awaited flight loaded now v current = (c : Credential) × (loaded ≡ ok c) × (v ≡ gives c)
Agrees awaited flight loaded now v refreshable =
    (c : Credential) × (loaded ≡ ok c) × (v ≡ refreshes c)
Agrees awaited flight loaded now v expired = (c : Credential) × (loaded ≡ ok c) × (v ≡ refreshes c)
Agrees awaited flight loaded now v refreshing =
    (call : ℕ) × (flight ≡ some call) × Waits awaited call v
Agrees awaited flight loaded now v transient_failure =
    (c : Credential) × (loaded ≡ ok c)
    × (v ≡ (if needs_refresh c now then refreshes c else gives c))
Agrees awaited flight loaded now v permanent_failure = v ≡ fails requires_login

-- Credential goes around as Snapshot does: at once, after clearing the failures of the credential
-- that it has loaded, or after a wait for the call that is in flight by then, whose error ends it.
abbrev pub GoesOn :
    (ℕ → Result Failure Credential) → Option ℕ → Result Failure Credential → Verdict → Type 0
GoesOn awaited later loaded v =
    ((later ≡ none) × (v ≡ again))
    ⊎ ((call : ℕ) × (later ≡ some call) × Waits awaited call v)
    ⊎ ((c : Credential) × (loaded ≡ ok c) × (v ≡ clear_then_again c))

waited :
    (awaited : ℕ → Result Failure Credential) (call : ℕ) (a : Result Failure Credential)
    → awaited call ≡ a
    → Waits awaited call (after_wait call a)
waited awaited call (ok c) e = inl (c, e, refl)
waited awaited call (err x) e = inr (x, e, refl)

module _ (awaited : ℕ → Result Failure Credential) (flight later : Option ℕ)
    (loaded : Result Failure Credential) (now : ℕ) where
  -- What Credential does next to what Snapshot reports; none is a round that goes around again.
  abbrev pub Beside : Verdict → Option CredentialSnapshot → Type 0
  Beside v none = GoesOn awaited later loaded v
  Beside v (some s) = Agrees awaited flight loaded now v s.state

  if_Beside :
      (b : Bool) (v w : Verdict) (s t : Option CredentialSnapshot)
      → (b ≡ true → Beside v s)
      → (b ≡ false → Beside w t)
      → Beside (if b then v else w) (if b then s else t)
  if_Beside true v w s t yes_case no_case = yes_case refl
  if_Beside false v w s t yes_case no_case = no_case refl

module _ (awaited : ℕ → Result Failure Credential) (later : Option ℕ) (now : ℕ) where
  -- By the time of expiry.
  by_expiry :
      (c : Credential) (available : Bool)
      → Beside awaited none later
          (ok c)
          now
          (if not (needs_refresh c now) then gives c else refreshes c)
          (expiry_state c now available)
  unfolding needs_refresh
  by_expiry c available = elim (Bool-cases (c.expires_at == 0 || leb c.expires_at now)) [
    | inl over ↦ rw over (c, refl, ground (arith, over))
    | inr valid ↦ rw valid (elim (Bool-cases (leb c.expires_at (now + refresh_skew))) [
      | inl soon ↦ rw soon (c, refl, ground (arith, valid, soon))
      | inr further ↦ rw further (c, refl, ground (arith, valid, further))
    ])
  ]

  turned : (b : Bool) (v w : Verdict) → (if not b then v else w) ≡ (if b then w else v)
  turned true v w = refl
  turned false v w = refl

  with_flight :
      (flight : Option ℕ) (c : Credential) (b available : Bool)
      → Beside awaited flight later
          (ok c)
          now
          (wait_or awaited flight (if not (needs_refresh c now) then gives c else refreshes c))
          (flight_state flight available
            (if b then observed transient_failure available else expiry_state c now available))
  with_flight none c true available =
      (c, refl, turned (needs_refresh c now) (gives c) (refreshes c))
  with_flight none c false available = by_expiry c available
  with_flight (some call) c b available = (call, refl, waited awaited call (awaited call) refl)

  changed_round :
      (o : Option ℕ) (loaded : Result Failure Credential)
      → GoesOn awaited o loaded (wait_or_again awaited o)
  changed_round none loaded = inl (refl, refl)
  changed_round (some call) loaded = inr (inl (call, refl, waited awaited call (awaited call) refl))

-- For the same observations, Credential fails with the error of the load where Snapshot reports a
-- missing credential, gives the credential where it reports a current one, refreshes a refreshable
-- or expired one, waits for the call in flight where it reports a refresh, asks for a new login
-- where it reports a permanent failure, and after a transient failure refreshes if the credential
-- needs it and else gives it. Where Snapshot goes around again, Credential clears the changed
-- failures first, or waits for the call that is in flight by then if there is one. A wait that gives
-- an error makes Credential fail with it, and one that does not is followed by another round.
pub credential_round-snapshot_round :
    (awaited : ℕ → Result Failure Credential) (is_space : ℕ → Bool) (seen : Refresher)
    (loaded : Result Failure Credential) (r : Refresher) (now : ℕ)
    → Beside awaited seen.in_flight r.in_flight loaded now
        (credential_round awaited seen loaded r now)
        (snapshot_round is_space seen loaded r now)
unfolding credential_round snapshot_round
credential_round-snapshot_round awaited is_space seen (err e) r now =
    if_Beside awaited seen.in_flight r.in_flight (err e) now (not (seen.generation == r.generation))
      (wait_or_again awaited r.in_flight) (fails e) none (observed missing false)
      (λ _. changed_round awaited r.in_flight now r.in_flight (err e)) (λ _. (e, refl, refl))
credential_round-snapshot_round awaited is_space seen (ok c) r now =
    let available = credential_available_at is_space c now in
    let v0 =
      wait_or awaited seen.in_flight (if not (needs_refresh c now) then gives c else refreshes c) in
    let s0 = flight_state seen.in_flight available (
      if failed_with seen.transient_token c
      then observed transient_failure available
      else expiry_state c now available) in
    let v1 = if failed_with seen.permanent_token c then fails requires_login else v0 in
    let s1 = if failed_with seen.permanent_token c then observed permanent_failure false else s0 in
    let changed = changed_from seen.permanent_token c || changed_from seen.transient_token c in
    if_Beside awaited seen.in_flight r.in_flight (ok c) now (not (seen.generation == r.generation))
      (wait_or_again awaited r.in_flight) (if changed then clear_then_again c else v1) none
      (if changed then none else s1) (λ _. changed_round awaited r.in_flight now r.in_flight (ok c))
      (λ _.
        if_Beside awaited seen.in_flight r.in_flight (ok c) now changed (clear_then_again c) v1 none
          s1 (λ _. inr (inr (c, refl, refl)))
          (λ _.
            if_Beside awaited seen.in_flight r.in_flight (ok c) now
              (failed_with seen.permanent_token c) (fails requires_login) v0
              (observed permanent_failure false) s0 (λ _. refl)
              (λ _.
                with_flight awaited r.in_flight now seen.in_flight c
                  (failed_with seen.transient_token c) available)))
