-- ===== src/Refresher/Run.antt =====
-- internal/codex/refresh.go: the goroutine of runRefresh, and the steps of all goroutines and callers
-- of a refresher in any order.
use codex_sub_proxy.Prelude.{
  ℕ, zero, suc, List, [], ◌∷◌, ◌++◌, Bool, true, false, ◌&&◌, ◌||◌, not, Option, none, some, Result,
  ok, err, if◌then◌else◌,
}
use codex_sub_proxy.Refresher.{
  Credential, Failure, requires_login, Refresher, needs_refresh, same_credential,
  clear_changed_failures, has_permanent_failure, refresh_single_flight, finish_refresh,
}

-- Where the goroutine of runRefresh stands, cut where callers can take steps in between: at the reading
-- of the file, the two locks, the exchange with the endpoint and the last lock. It is before it loads
-- the file, clears changed failures, tests for a permanent one, asks the endpoint, or finishes.
pub data Phase : Type 0 where
  loading : Bool → Credential → Phase
  clearing : Bool → Credential → Credential → Phase
  checking : Bool → Credential → Credential → Phase
  requesting : Credential → Phase
  finishing : Result Failure Credential → ℕ → Phase

-- What the world gives to a step: the file, the clock and the answer of `refresh`.
pub record Input : Type 0 where
  pub file : Result Failure Credential
  pub now : ℕ
  pub refreshed : Result Failure Credential

abbrev pub after_load : Bool → Credential → Result Failure Credential → Phase
after_load force observed (ok source) = clearing force observed source
after_load force observed (err e) = finishing (err e) 0

-- A step of runRefresh for a call; the goroutine is over where no phase is left.
unfoldable pub run_refresh : ℕ → Phase → Input → Refresher → Option Phase × Refresher
unfolding clear_changed_failures has_permanent_failure same_credential needs_refresh finish_refresh
run_refresh call (loading force observed) input r = (some (after_load force observed input.file), r)
run_refresh call (clearing force observed source) input r =
    (some (checking force observed source), clear_changed_failures source r)
run_refresh call (checking force observed source) input r = (
  some (
      if has_permanent_failure source r
      then finishing (err requires_login) source.refresh_token
      else if (force && not (same_credential source observed))
          || (not force && not (needs_refresh source input.now))
      then finishing (ok source) source.refresh_token
      else requesting source),
  r,
)
run_refresh call (requesting source) input r =
    (some (finishing input.refreshed source.refresh_token), r)
run_refresh call (finishing a token) input r = (none, finish_refresh call a token r)

-- A goroutine of runRefresh, by the call that it answers.
pub record Goroutine : Type 0 where
  pub call : ℕ
  pub phase : Phase

-- The refresher and the goroutines that it has started.
pub record World : Type 0 where
  pub refresher : Refresher
  pub goroutines : List Goroutine

abbrev pub started : Bool → Credential → List Goroutine → (ℕ × Bool) × Refresher → World
started force observed gs ((call, false), r) = record { refresher = r; goroutines = gs }
started force observed gs ((call, true), r) = record {
  refresher = r;
  goroutines = gs ++ record { call = call; phase = loading force observed } ∷ [];
}

-- refreshSingleFlight, up to its wait.
unfoldable pub start_refresh : Bool → Credential → World → World
unfolding refresh_single_flight
start_refresh force observed w =
    started force observed w.goroutines (refresh_single_flight w.refresher)

abbrev pub go_on : ℕ → Option Phase → List Goroutine → List Goroutine
go_on call none gs = gs
go_on call (some p) gs = record { call = call; phase = p } ∷ gs

-- A step of the goroutine of an index.
unfoldable pub advance : ℕ → Input → List Goroutine → Refresher → List Goroutine × Refresher
unfolding run_refresh
advance i input [] r = ([], r)
advance zero input (g ∷ gs) r =
    let (p, r') = run_refresh g.call g.phase input r in (go_on g.call p gs, r')
advance (suc i) input (g ∷ gs) r = let (gs', r') = advance i input gs r in (g ∷ gs', r')

-- The steps of the program: a caller clears failures, a caller asks for a refresh, a goroutine goes on.
pub data Step (w : World) : World → Type 0 where
  clears : (c : Credential) → Step w (record w { refresher = clear_changed_failures c w.refresher })
  begins : (force : Bool) (observed : Credential) → Step w (start_refresh force observed w)
  goes :
      (i : ℕ) (input : Input)
      → Step w (record {
        refresher = (advance i input w.goroutines w.refresher).1;
        goroutines = (advance i input w.goroutines w.refresher).0;
      })

-- NewRefresher
unfoldable pub new_refresher : Refresher
new_refresher = record {
  in_flight = none;
  generation = 0;
  permanent_token = 0;
  transient_token = 0;
  calls = [];
}

pub data Reached : World → Type 0 where
  at_start : Reached (record { refresher = new_refresher; goroutines = [] })
  onward : {w w' : World} → Reached w → Step w w' → Reached w'
