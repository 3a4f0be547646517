-- ===== src/Refresher/Ends.antt =====
-- How a refresh fails for good, and what callers do after it (internal/codex/refresh.go).
use codex_sub_proxy.Prelude.{
  ℕ, ◌≡◌, refl, ap, ◌∙◌, Bool, true, false, ◌||◌, not, ◌==◌, Option, none, some, Result, ok, err,
  arith, if◌then◌else◌, Bool-cases, inl, inr,
}
use codex_sub_proxy.Refresher.{
  Credential, Failure, requires_login, Refresher, needs_refresh, changed_from, failed_with,
  clear_changed_failures, finish_refresh, landed, Verdict, clear_then_again, fails, gives,
  refreshes, wait_or, wait_or_again, credential_round,
}

lands : (o : Option ℕ) (c : ℕ) → o ≡ some c → landed o c ≡ none
lands o c e = ap (λ p. landed p c) e ∙ ground arith

same_number : (n : ℕ) → (n == n) ≡ true
same_number n = ground arith

failed_round :
    (token : ℕ) (c : Credential)
    → (token == 0) ≡ false
    → (v : Verdict)
    → (if changed_from token c || changed_from 0 c
        then clear_then_again c
        else if failed_with token c
        then fails requires_login
        else v)
      ≡ (if token == c.refresh_token then fails requires_login else clear_then_again c)
failed_round token c some_token v = elim (Bool-cases (token == c.refresh_token)) [
  | inl same ↦ rw (some_token, same) refl
  | inr other ↦ rw (some_token, other) refl
]

cleared_round :
    (token : ℕ) (c : Credential)
    → (token == 0) ≡ false
    → (v : Verdict)
    → (let token' = if changed_from token c then 0 else token in
        if changed_from token' c || changed_from 0 c
        then clear_then_again c
        else if failed_with token' c
        then fails requires_login
        else v)
      ≡ (if token == c.refresh_token then fails requires_login else v)
cleared_round token c some_token v = elim (Bool-cases (token == c.refresh_token)) [
  | inl same ↦ rw (some_token, same) (rw (some_token, same) refl)
  | inr other ↦ rw (some_token, other) refl
]

at_generation : (g : ℕ) (v w : Verdict) → (if not (g == g) then v else w) ≡ w
at_generation g v w = rw (same_number g) refl

turned : (b : Bool) (v w : Verdict) → (if not b then v else w) ≡ (if b then w else v)
turned true v w = refl
turned false v w = refl

-- When a refresh fails because its token needs a new login, every later call that finds the same
-- token in the file, in the state that this failure leaves, fails at once with that error; one that
-- finds another token clears the failure, and then gives the credential, or refreshes it if its
-- time is up.
pub requires_login_until_changed :
    (awaited : ℕ → Result Failure Credential) (call token : ℕ) (r : Refresher) (c : Credential)
    (now : ℕ)
    → (token == 0) ≡ false
    → r.in_flight ≡ some call
    → let r' = finish_refresh call (err requires_login) token r in
      let r'' = clear_changed_failures c r' in
      (credential_round awaited r' (ok c) r' now
        ≡ (if token == c.refresh_token then fails requires_login else clear_then_again c))
      × (credential_round awaited r'' (ok c) r'' now ≡ (
          if token == c.refresh_token
          then fails requires_login
          else if needs_refresh c now
          then refreshes c
          else gives c))
unfolding finish_refresh credential_round clear_changed_failures
requires_login_until_changed awaited call token r c now some_token flying =
    let r' = finish_refresh call (err requires_login) token r in
    let r'' = clear_changed_failures c r' in
    let v =
      wait_or awaited (landed r.in_flight call)
        (if not (needs_refresh c now) then gives c else refreshes c) in
    (
      at_generation r'.generation (wait_or_again awaited r'.in_flight) (
            if changed_from token c || changed_from 0 c
            then clear_then_again c
            else if failed_with token c
            then fails requires_login
            else v)
          ∙ failed_round token c some_token v,
      at_generation r''.generation (wait_or_again awaited r''.in_flight) (
            let token' = if changed_from token c then 0 else token in
            if changed_from token' c || changed_from 0 c
            then clear_then_again c
            else if failed_with token' c
            then fails requires_login
            else v)
          ∙ cleared_round token c some_token v
          ∙ ap (λ w. if token == c.refresh_token then fails requires_login else w)
              (ap
                  (λ o.
                    wait_or awaited o (if not (needs_refresh c now) then gives c else refreshes c))
                  (lands r.in_flight call flying)
                ∙ turned (needs_refresh c now) (gives c) (refreshes c)),
    )
