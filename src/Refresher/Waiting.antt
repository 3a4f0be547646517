-- ===== src/Refresher/Waiting.antt =====
-- A call that a caller waits for gets its answer (internal/codex/refresh.go, refreshSingleFlight,
-- runRefresh and finishRefresh).
use codex_sub_proxy.Prelude.{
  ℕ, zero, suc, ◌++◌, subst, ◌⊎◌, ◌+◌, ◌-◌, ◌≤◌, ◌≡◌, refl, sym, get_elem?, ◌∙◌, List, [], ◌∷◌,
  Bool, true, false, ◌&&◌, ◌||◌, not, Option, none, some, Result, ok, err, arith, if◌then◌else◌,
  inl, inr,
}
use codex_sub_proxy.Refresher.{
  Credential, Failure, requires_login, RefreshCall, Refresher, answer_call, needs_refresh,
  same_credential, clear_changed_failures, has_permanent_failure, finish_refresh,
}
use codex_sub_proxy.Refresher.Run.{
  Phase, loading, clearing, checking, requesting, finishing, Input, after_load, run_refresh,
  Goroutine, World, start_refresh, clears, begins, go_on, advance, goes, Reached, onward,
}
use codex_sub_proxy.Refresher.Flight.{begun, OneFlight, is_answered, NoneLost, Reached-OneFlight}

-- The steps that a phase has left.
abbrev steps_left : Option Phase → ℕ
steps_left none = 0
steps_left (some (loading force observed)) = 5
steps_left (some (clearing force observed source)) = 4
steps_left (some (checking force observed source)) = 3
steps_left (some (requesting source)) = 2
steps_left (some (finishing a token)) = 1

if_fewer :
    (b : Bool) (p q : Phase) (n : ℕ)
    → steps_left (some p) ≤ n
    → steps_left (some q) ≤ n
    → steps_left (some (if b then p else q)) ≤ n
if_fewer true p q n hp hq = hp
if_fewer false p q n hp hq = hq

loaded_fewer :
    (force : Bool) (observed : Credential) (file : Result Failure Credential)
    → steps_left (some (after_load force observed file)) ≤ 4
loaded_fewer force observed (ok source) = omega arith
loaded_fewer force observed (err e) = omega arith

fewer :
    (call : ℕ) (p : Phase) (input : Input) (r : Refresher)
    → suc (steps_left (run_refresh call p input r).0) ≤ steps_left (some p)
unfolding run_refresh
fewer call (loading force observed) input r = ground (arith, loaded_fewer force observed input.file)
fewer call (clearing force observed source) input r = omega arith
fewer call (checking force observed source) input r =
    let login = finishing (err requires_login) source.refresh_token in
    let fresh = finishing (ok source) source.refresh_token in
    let is_fresh =
      (force && not (same_credential source observed))
      || (not force && not (needs_refresh source input.now)) in
    ground (
      arith,
      if_fewer (has_permanent_failure source r) login
          (if is_fresh then fresh else requesting source) 2 (omega arith)
          (if_fewer is_fresh fresh (requesting source) 2 (omega arith) (omega arith)),
    )
fewer call (requesting source) input r = omega arith
fewer call (finishing a token) input r = omega arith

some_left : (p : Phase) → 1 ≤ steps_left (some p)
some_left (loading force observed) = omega arith
some_left (clearing force observed source) = omega arith
some_left (checking force observed source) = omega arith
some_left (requesting source) = omega arith
some_left (finishing a token) = omega arith

most : (p : Phase) → steps_left (some p) ≤ 5
most (loading force observed) = omega arith
most (clearing force observed source) = omega arith
most (checking force observed source) = omega arith
most (requesting source) = omega arith
most (finishing a token) = omega arith

-- The steps that all goroutines have left.
abbrev all_left : List Goroutine → ℕ
all_left [] = 0
all_left (g ∷ gs) = steps_left (some g.phase) + all_left gs

none_left : (gs : List Goroutine) → all_left gs ≤ 0 → gs ≡ []
none_left [] h = refl
none_left (g ∷ gs) h = ground (arith, h, some_left g.phase)

all_left-go_on :
    (call : ℕ) (p : Option Phase) (gs : List Goroutine)
    → all_left (go_on call p gs) ≡ steps_left p + all_left gs
all_left-go_on call none gs = omega arith
all_left-go_on call (some p) gs = refl

all_left-advance :
    (input : Input) (gs : List Goroutine) (r : Refresher)
    → all_left (advance 0 input gs r).0 ≤ all_left gs - 1
unfolding advance
all_left-advance input [] r = omega arith
all_left-advance input (g ∷ gs) r = omega (
  arith,
  all_left-go_on g.call (run_refresh g.call g.phase input r).0 gs,
  fewer g.call g.phase input r,
)

at_most : (w : World) → OneFlight w → all_left w.goroutines ≤ 5
at_most w (inl (empty, idle)) = rw idle (omega arith)
at_most w (inr (g, flying, only, allowed)) = rw only (omega (arith, most g.phase))

idle_is_grounded : (w : World) → OneFlight w → w.goroutines ≡ [] → w.refresher.in_flight ≡ none
idle_is_grounded w (inl (empty, idle)) h = empty
idle_is_grounded w (inr (g, flying, only, allowed)) h = cc (sym only ∙ h)

-- A call stays in the list, and its answer too.
abbrev Lasts : ℕ → List RefreshCall → List RefreshCall → Type 0
Lasts c calls calls' =
    (call : RefreshCall)
    → get_elem? calls c ≡ some call
    → (call' : RefreshCall) × (get_elem? calls' c ≡ some call')
      × (is_answered call ≡ true → is_answered call' ≡ true)

same_Lasts : (c : ℕ) (calls : List RefreshCall) → Lasts c calls calls
same_Lasts c calls call at = (call, at, λ answered. answered)

answer_call-Lasts :
    (i c : ℕ) (a : Result Failure Credential) (calls : List RefreshCall)
    → Lasts c calls (answer_call i a calls)
unfolding answer_call
answer_call-Lasts i c a [] call at = cc
answer_call-Lasts zero zero a (x ∷ calls) call at = (record { answer = some a }, refl, λ _. refl)
answer_call-Lasts zero (suc c) a (x ∷ calls) call at = (call, at, λ answered. answered)
answer_call-Lasts (suc i) zero a (x ∷ calls) call at = (call, at, λ answered. answered)
answer_call-Lasts (suc i) (suc c) a (x ∷ calls) call at = answer_call-Lasts i c a calls call at

snoc_Lasts : (c : ℕ) (calls : List RefreshCall) (x : RefreshCall) → Lasts c calls (calls ++ x ∷ [])
snoc_Lasts c [] x call at = cc
snoc_Lasts zero (y ∷ calls) x call at = (call, at, λ answered. answered)
snoc_Lasts (suc c) (y ∷ calls) x call at = snoc_Lasts c calls x call at

run_refresh-Lasts :
    (call : ℕ) (p : Phase) (input : Input) (r : Refresher) (c : ℕ)
    → Lasts c r.calls (run_refresh call p input r).1.calls
unfolding run_refresh clear_changed_failures finish_refresh
run_refresh-Lasts call (loading force observed) input r c = same_Lasts c r.calls
run_refresh-Lasts call (clearing force observed source) input r c = same_Lasts c r.calls
run_refresh-Lasts call (checking force observed source) input r c = same_Lasts c r.calls
run_refresh-Lasts call (requesting source) input r c = same_Lasts c r.calls
run_refresh-Lasts call (finishing a token) input r c = answer_call-Lasts call c a r.calls

advance-Lasts :
    (input : Input) (gs : List Goroutine) (r : Refresher) (c : ℕ)
    → Lasts c r.calls (advance 0 input gs r).1.calls
unfolding advance
advance-Lasts input [] r c = same_Lasts c r.calls
advance-Lasts input (g ∷ gs) r c = run_refresh-Lasts g.call g.phase input r c

begins-Lasts :
    (force : Bool) (observed : Credential) (w : World) (c : ℕ) (o : Option ℕ)
    → w.refresher.in_flight ≡ o
    → Lasts c w.refresher.calls (start_refresh force observed w).refresher.calls
begins-Lasts force observed w c none e =
    subst (λ (v : World). Lasts c w.refresher.calls v.refresher.calls)
      (sym (begun force observed w none e))
      (snoc_Lasts c w.refresher.calls (record { answer = none }))
begins-Lasts force observed w c (some k) e =
    subst (λ (v : World). Lasts c w.refresher.calls v.refresher.calls)
      (sym (begun force observed w (some k) e)) (same_Lasts c w.refresher.calls)

-- A step of the goroutine that runs.
abbrev pub gone_on : Input → World → World
gone_on input w = record {
  refresher = (advance 0 input w.goroutines w.refresher).1;
  goroutines = (advance 0 input w.goroutines w.refresher).0;
}

-- A course of steps that ends in a state, with the number of steps of the goroutine that runs;
-- callers clear failures and ask for refreshes in between as they like.
pub data Course (w' : World) : ℕ → World → Type 0 where
  over : Course w' 0 w'
  clears_failures :
      {n : ℕ} {w : World} (c : Credential)
      → Course w' n (record w { refresher = clear_changed_failures c w.refresher })
      → Course w' n w
  asks :
      {n : ℕ} {w : World} (force : Bool) (observed : Credential)
      → Course w' n (start_refresh force observed w)
      → Course w' n w
  runs : {n : ℕ} {w : World} (input : Input) → Course w' n (gone_on input w) → Course w' (suc n) w

-- The call is there, and has an answer or at most `m` steps to go.
abbrev Waiting : ℕ → ℕ → World → Type 0
Waiting c m w =
    (call : RefreshCall) × (get_elem? w.refresher.calls c ≡ some call)
    × ((is_answered call ≡ true) ⊎ (all_left w.goroutines ≤ m))

abbrev pub Answered : ℕ → World → Type 0
Answered c w =
    (call : RefreshCall) × (get_elem? w.refresher.calls c ≡ some call) × (is_answered call ≡ true)

after_step :
    (c m m' : ℕ) (w w2 : World)
    → Lasts c w.refresher.calls w2.refresher.calls
    → (all_left w.goroutines ≤ m → all_left w2.goroutines ≤ m')
    → Waiting c m w
    → Waiting c m' w2
after_step c m m' w w2 lasts fewer_left (call, at, inl answered) =
    let (call', at', stays) = lasts call at in (call', at', inl (stays answered))
after_step c m m' w w2 lasts fewer_left (call, at, inr left) =
    let (call', at', stays) = lasts call at in (call', at', inr (fewer_left left))

asked :
    (c m : ℕ) (w : World) (force : Bool) (observed : Credential)
    → NoneLost w
    → Waiting c m w
    → Waiting c m (start_refresh force observed w)
asked c m w force observed lost (call, at, state) = elim (lost c call at) [
  | inl answered ↦
      let (call', at', stays) =
        begins-Lasts force observed w c w.refresher.in_flight refl call at in
      (call', at', inl (stays answered))
  | inr flying ↦
      subst (Waiting c m) (sym (begun force observed w (some c) flying)) (call, at, state)
]

no_more : (c : ℕ) (w : World) → Reached w → Waiting c 0 w → Answered c w
no_more c w h (call, at, inl answered) = (call, at, answered)
no_more c w h (call, at, inr left) =
    let (one, lost) = Reached-OneFlight w h in
    let grounded = idle_is_grounded w one (none_left w.goroutines left) in
    (
      call,
      at,
      elim (lost c call at) [ inl answered ↦ answered | inr flying ↦ cc (sym grounded ∙ flying) ],
    )

clear_Lasts :
    (k : Credential) (r : Refresher) (c : ℕ) → Lasts c r.calls (clear_changed_failures k r).calls
unfolding clear_changed_failures
clear_Lasts k r c = same_Lasts c r.calls

Course-answers :
    (c : ℕ) (w' : World) (n : ℕ) (w : World)
    → Reached w
    → Waiting c n w
    → Course w' n w
    → Answered c w'
Course-answers c w' _ _ h waiting over = no_more c w' h waiting
Course-answers c w' n w h waiting (clears_failures k rest) =
    Course-answers c w' n _ (onward h (clears k))
      (after_step c n n w (record w { refresher = clear_changed_failures k w.refresher })
        (clear_Lasts k w.refresher c) (λ left. left) waiting)
      rest
Course-answers c w' n w h waiting (asks force observed rest) =
    Course-answers c w' n _ (onward h (begins force observed))
      (asked c n w force observed (Reached-OneFlight w h).1 waiting) rest
Course-answers c w' (suc n) w h waiting (runs input rest) =
    Course-answers c w' n (gone_on input w) (onward h (goes 0 input))
      (after_step c (suc n) n w (gone_on input w) (advance-Lasts input w.goroutines w.refresher c)
        (λ left. omega (arith, left, all_left-advance input w.goroutines w.refresher)) waiting)
      rest

-- Every call gets its answer: from a state that callers and goroutines can reach, on every course of
-- further steps with five of the goroutine that runs or more, whatever this finds in the file, at the
-- clock and at the endpoint, and whatever callers do in between, each call of the first state has an
-- answer in the last one.
pub Course-answers_calls :
    (w w' : World) (n c : ℕ) (call : RefreshCall)
    → Reached w
    → get_elem? w.refresher.calls c ≡ some call
    → Course w' n w
    → 5 ≤ n
    → Answered c w'
Course-answers_calls w w' n c call h at course enough =
    Course-answers c w' n w h
      (call, at, inr (omega (arith, at_most w (Reached-OneFlight w h).0, enough))) course
