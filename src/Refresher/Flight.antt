-- ===== src/Refresher/Flight.antt =====
-- A refresher runs at most one refresh at a time (internal/codex/refresh.go).
use codex_sub_proxy.Prelude.{
  ℕ, zero, suc, ◌≡◌, refl, sym, ap, ◌∙◌, subst, List, [], ◌∷◌, ◌++◌, Bool, true, false, ◌&&◌, ◌||◌,
  not, ◌==◌, length, get_elem?, Option, none, some, Result, ok, err, arith, if◌then◌else◌,
  Bool-cases, inl, inr, ◌⊎◌,
}
use codex_sub_proxy.Refresher.{
  Credential, Failure, requires_login, RefreshCall, Refresher, needs_refresh, same_credential,
  clear_changed_failures, has_permanent_failure, answer_call, finish_refresh, landed, join_or_begin,
}
use codex_sub_proxy.Refresher.Run.{
  Phase, loading, clearing, checking, requesting, finishing, after_load, Input, run_refresh,
  Goroutine, World, started, start_refresh, go_on, advance, new_refresher, Step, clears, begins,
  goes, Reached, at_start, onward,
}

-- The goroutine that asks the endpoint does so with a token that has not failed for good.
abbrev pub Allowed : Phase → Refresher → Type 0
Allowed (requesting source) r = has_permanent_failure source r ≡ false
Allowed (loading force observed) r = Unit
Allowed (clearing force observed source) r = Unit
Allowed (checking force observed source) r = Unit
Allowed (finishing a token) r = Unit

-- No refresh and no goroutine, or one refresh with its goroutine.
abbrev pub OneFlight : World → Type 0
OneFlight w =
    ((w.refresher.in_flight ≡ none) × (w.goroutines ≡ []))
    ⊎ ((g : Goroutine) × (w.refresher.in_flight ≡ some g.call)
        × (w.goroutines ≡ g ∷ [])
        × Allowed g.phase w.refresher)

abbrev pub is_answered : RefreshCall → Bool
is_answered call = elim call.answer [ none ↦ false | some a ↦ true ]

-- A call that has no answer yet is the one in flight.
abbrev pub NoneLost : World → Type 0
NoneLost w =
    (i : ℕ) (call : RefreshCall)
    → get_elem? w.refresher.calls i ≡ some call
    → (is_answered call ≡ true) ⊎ (w.refresher.in_flight ≡ some i)

-- Clearing keeps what is allowed.
cleared :
    (c : Credential) (p : Phase) (r : Refresher)
    → Allowed p r
    → Allowed p (clear_changed_failures c r)
unfolding clear_changed_failures has_permanent_failure
cleared c (requesting source) r h = ground (arith, h)
cleared c (loading force observed) r h = tt
cleared c (clearing force observed source) r h = tt
cleared c (checking force observed source) r h = tt
cleared c (finishing a token) r h = tt

clears-OneFlight :
    (c : Credential) (w : World)
    → OneFlight w
    → OneFlight (record w { refresher = clear_changed_failures c w.refresher })
unfolding clear_changed_failures
clears-OneFlight c w (inl (empty, idle)) = inl (empty, idle)
clears-OneFlight c w (inr (g, flying, only, allowed)) =
    inr (g, flying, only, cleared c g.phase w.refresher allowed)

pub begun :
    (force : Bool) (observed : Credential) (w : World) (o : Option ℕ)
    → w.refresher.in_flight ≡ o
    → start_refresh force observed w
      ≡ started force observed w.goroutines (join_or_begin o w.refresher)
unfolding start_refresh
begun force observed w o e =
    ap (λ p. started force observed w.goroutines (join_or_begin p w.refresher)) e

before_last :
    (calls : List RefreshCall) (c : RefreshCall) (i : ℕ)
    → (i == length calls) ≡ false
    → get_elem? (calls ++ c ∷ []) i ≡ get_elem? calls i
before_last [] c zero h = cc
before_last [] c (suc i) h = refl
before_last (d ∷ calls) c zero h = refl
before_last (d ∷ calls) c (suc i) h = before_last calls c i (ground (arith, h))

begins-OneFlight :
    (force : Bool) (observed : Credential) (w : World)
    → OneFlight w
    → OneFlight (start_refresh force observed w)
begins-OneFlight force observed w (inl (empty, idle)) =
    subst OneFlight (sym (begun force observed w none empty)) (
      inr (
        record { call = length w.refresher.calls; phase = loading force observed },
        refl,
        ap
            (λ gs.
              gs ++ record { call = length w.refresher.calls; phase = loading force observed } ∷ [])
            idle,
        tt,
      ))
begins-OneFlight force observed w (inr (g, flying, only, allowed)) =
    subst OneFlight (sym (begun force observed w (some g.call) flying))
      (inr (g, flying, only, allowed))

begins-NoneLost :
    (force : Bool) (observed : Credential) (w : World)
    → OneFlight w
    → NoneLost w
    → NoneLost (start_refresh force observed w)
begins-NoneLost force observed w (inr (g, flying, only, allowed)) h =
    subst NoneLost (sym (begun force observed w (some g.call) flying)) h
begins-NoneLost force observed w (inl (empty, idle)) h =
    subst NoneLost (sym (begun force observed w none empty)) (λ i call at.
      elim (Bool-cases (i == length w.refresher.calls)) [
        | inl new ↦ inr (ap some (ground (arith, new)))
        | inr old ↦
            elim (h i call
              (sym (before_last w.refresher.calls (record { answer = none }) i old) ∙ at)) [
                | inl answered ↦ inl answered
                | inr flying ↦ cc (sym empty ∙ flying)
              ]
      ])

abbrev moved : ℕ → Input → List Goroutine → Refresher → World
moved i input gs r = record {
  refresher = (advance i input gs r).1;
  goroutines = (advance i input gs r).0;
}

-- The only goroutine goes on.
abbrev stepped : Goroutine → Option Phase × Refresher → World
stepped g (p, r) = record { refresher = r; goroutines = go_on g.call p [] }

loaded_is_Allowed :
    (force : Bool) (observed : Credential) (file : Result Failure Credential) (r : Refresher)
    → Allowed (after_load force observed file) r
loaded_is_Allowed force observed (ok source) r = tt
loaded_is_Allowed force observed (err e) r = tt

checked_is_Allowed :
    (force fresh : Bool) (source : Credential) (b : Bool) (r : Refresher)
    → has_permanent_failure source r ≡ b
    → Allowed
        (if b
          then finishing (err requires_login) source.refresh_token
          else if fresh
          then finishing (ok source) source.refresh_token
          else requesting source)
        r
checked_is_Allowed force fresh source true r e = tt
checked_is_Allowed force true source false r e = tt
checked_is_Allowed force false source false r e = e

lands : (o : Option ℕ) (c : ℕ) → o ≡ some c → landed o c ≡ none
lands o c e = ap (λ p. landed p c) e ∙ ground arith

stepped-OneFlight :
    (g : Goroutine) (p : Phase) (input : Input) (r : Refresher)
    → r.in_flight ≡ some g.call
    → Allowed p r
    → OneFlight (stepped g (run_refresh g.call p input r))
unfolding run_refresh clear_changed_failures finish_refresh
stepped-OneFlight g (loading force observed) input r flying allowed = inr (
  record { call = g.call; phase = after_load force observed input.file },
  flying,
  refl,
  loaded_is_Allowed force observed input.file r,
)
stepped-OneFlight g (clearing force observed source) input r flying allowed =
    inr (record { call = g.call; phase = checking force observed source }, flying, refl, tt)
stepped-OneFlight g (checking force observed source) input r flying allowed = inr (
  record {
    call = g.call;
    phase =
        if has_permanent_failure source r
        then finishing (err requires_login) source.refresh_token
        else if (force && not (same_credential source observed))
            || (not force && not (needs_refresh source input.now))
        then finishing (ok source) source.refresh_token
        else requesting source;
  },
  flying,
  refl,
  checked_is_Allowed force
      ((force && not (same_credential source observed))
        || (not force && not (needs_refresh source input.now)))
      source (has_permanent_failure source r) r refl,
)
stepped-OneFlight g (requesting source) input r flying allowed = inr (
  record { call = g.call; phase = finishing input.refreshed source.refresh_token },
  flying,
  refl,
  tt,
)
stepped-OneFlight g (finishing a token) input r flying allowed =
    inl (lands r.in_flight g.call flying, refl)

-- What is not one flight's goroutine does nothing.
moved-OneFlight :
    (i : ℕ) (input : Input) (g : Goroutine) (r : Refresher)
    → r.in_flight ≡ some g.call
    → Allowed g.phase r
    → OneFlight (moved i input (g ∷ []) r)
unfolding advance
moved-OneFlight zero input g r flying allowed = stepped-OneFlight g g.phase input r flying allowed
moved-OneFlight (suc i) input g r flying allowed = inr (g, flying, refl, allowed)

goes-OneFlight :
    (i : ℕ) (input : Input) (w : World)
    → OneFlight w
    → OneFlight (moved i input w.goroutines w.refresher)
unfolding advance
goes-OneFlight i input w (inl (empty, idle)) =
    subst (λ gs. OneFlight (moved i input gs w.refresher)) (sym idle) (inl (empty, refl))
goes-OneFlight i input w (inr (g, flying, only, allowed)) =
    subst (λ gs. OneFlight (moved i input gs w.refresher)) (sym only)
      (moved-OneFlight i input g w.refresher flying allowed)

answered_is :
    (c : ℕ) (a : Result Failure Credential) (calls : List RefreshCall) (i : ℕ) (call : RefreshCall)
    → get_elem? (answer_call c a calls) i ≡ some call
    → (is_answered call ≡ true) ⊎ ((get_elem? calls i ≡ some call) × ((i == c) ≡ false))
unfolding answer_call
answered_is c a [] i call at = cc
answered_is zero a (d ∷ calls) zero call at =
    inl (ap (λ o. elim o [ none ↦ false | some e ↦ is_answered e ]) (sym at))
answered_is zero a (d ∷ calls) (suc i) call at = inr (at, ground arith)
answered_is (suc c) a (d ∷ calls) zero call at = inr (at, ground arith)
answered_is (suc c) a (d ∷ calls) (suc i) call at = elim (answered_is c a calls i call at) [
  | inl answered ↦ inl answered
  | inr (old, other) ↦ inr (old, ground (arith, other))
]

stepped-NoneLost :
    (g : Goroutine) (p : Phase) (input : Input) (gs : List Goroutine) (r : Refresher)
    → r.in_flight ≡ some g.call
    → NoneLost (record { refresher = r; goroutines = gs })
    → NoneLost (stepped g (run_refresh g.call p input r))
unfolding run_refresh clear_changed_failures finish_refresh
stepped-NoneLost g (loading force observed) input gs r flying h = h
stepped-NoneLost g (clearing force observed source) input gs r flying h = h
stepped-NoneLost g (checking force observed source) input gs r flying h = h
stepped-NoneLost g (requesting source) input gs r flying h = h
stepped-NoneLost g (finishing a token) input gs r flying h = λ i call at.
    elim (answered_is g.call a r.calls i call at) [
      | inl answered ↦ inl answered
      | inr (old, other) ↦ elim (h i call old) [
        | inl answered ↦ inl answered
        | inr this ↦ inl (ground (arith, sym flying ∙ this, other))
      ]
    ]

goes-NoneLost :
    (i : ℕ) (input : Input) (w : World)
    → OneFlight w
    → NoneLost w
    → NoneLost (moved i input w.goroutines w.refresher)
unfolding advance
goes-NoneLost i input w (inl (empty, idle)) h =
    subst (λ gs. NoneLost (moved i input gs w.refresher)) (sym idle) h
goes-NoneLost zero input w (inr (g, flying, only, allowed)) h =
    subst (λ gs. NoneLost (moved 0 input gs w.refresher)) (sym only)
      (stepped-NoneLost g g.phase input w.goroutines w.refresher flying h)
goes-NoneLost (suc i) input w (inr (g, flying, only, allowed)) h =
    subst (λ gs. NoneLost (moved (suc i) input gs w.refresher)) (sym only) h

Step-OneFlight : {w w' : World} → Step w w' → OneFlight w → OneFlight w'
Step-OneFlight {w} (clears c) h = clears-OneFlight c w h
Step-OneFlight {w} (begins force observed) h = begins-OneFlight force observed w h
Step-OneFlight {w} (goes i input) h = goes-OneFlight i input w h

Step-NoneLost : {w w' : World} → Step w w' → OneFlight w → NoneLost w → NoneLost w'
unfolding clear_changed_failures
Step-NoneLost {w} (clears c) flight h = h
Step-NoneLost {w} (begins force observed) flight h = begins-NoneLost force observed w flight h
Step-NoneLost {w} (goes i input) flight h = goes-NoneLost i input w flight h

-- In every state that callers and goroutines reach, in whatever order they take their steps, either
-- no refresh is in flight and no goroutine runs, or exactly one goroutine runs, for the call in
-- flight, and if it is asking the endpoint then not with a refresh token that has failed for good;
-- and every call that has no answer yet is the one in flight.
pub Reached-OneFlight : (w : World) → Reached w → OneFlight w × NoneLost w
unfolding new_refresher
Reached-OneFlight w at_start = (inl (refl, refl), λ i call at. cc)
Reached-OneFlight w (onward {w = before} reached step) =
    let (flight, none_lost) = Reached-OneFlight before reached in
    (Step-OneFlight step flight, Step-NoneLost step flight none_lost)
