-- ===== src/Broker/Selection.antt =====
-- The profile that ProfileBroker.profile gives (internal/server/broker.go).
use codex_sub_proxy.Prelude.{
  ℕ, ◌≡◌, refl, sym, ap, ◌∙◌, subst, List, [], ◌∷◌, true, false, ◌==◌, All, none, some, map, Result,
  ok, err, Result-cases, Option-cases, Bool-cases, inl, inr, arith, not,
}
use codex_sub_proxy.Prelude.Table.{find, find-key, Unique, All-map}
use codex_sub_proxy.Accounts.{
  Account, no_available_account, Selector, single, round_robin, quota_aware, account_usable_at,
  select_account,
}
use codex_sub_proxy.Accounts.Lists.{In, All-get_elem?}
use codex_sub_proxy.Accounts.Choice.{ok-Ends, err-Ends, candidate, select_account_complete}
use codex_sub_proxy.Broker.{
  BrokerProfile, ProfileBroker, SelectionRequest, BrokerError, selection, profile_key,
  current_profile_account, refreshed, forced_account, forced_profile, selected_profile, profile,
}

current-id : (p : BrokerProfile) → (current_profile_account p).id ≡ profile_key p
unfolding current_profile_account
current-id p =
    elim p.refresher
      as (λ r. (current_profile_account (record p { refresher = r })).id ≡ profile_key p) [
        | none ↦ refl
        | some s ↦ refl
      ]

at_own :
    (p : BrokerProfile) (ps : List BrokerProfile)
    → find profile_key (current_profile_account p).id (p ∷ ps) ≡ some p
unfolding find
at_own p ps = ground (arith, current-id p)

found_behind :
    (p q : BrokerProfile) (ps : List BrokerProfile) (id : ℕ)
    → find profile_key (profile_key p) ps ≡ none
    → find profile_key id ps ≡ some q
    → find profile_key id (p ∷ ps) ≡ some q
unfolding find
found_behind p q ps id fresh e = elim (Bool-cases (id == profile_key p)) [
  | inl same ↦ ground (arith, fresh, e, same)
  | inr other ↦ rw (other, e) refl
]

-- Every current account is that of the profile which its id finds.
found-All :
    (ps : List BrokerProfile)
    → Unique profile_key ps
    → All
        (λ a.
          (q : BrokerProfile) × (find profile_key a.id ps ≡ some q)
          × (current_profile_account q ≡ a))
        (map current_profile_account ps)
unfolding find
found-All [] u = tt
found-All (p ∷ ps) u = (
  (p, at_own p ps, refl),
  All-map
      (λ a.
        (q : BrokerProfile) × (find profile_key a.id ps ≡ some q) × (current_profile_account q ≡ a))
      (λ a.
        (q : BrokerProfile) × (find profile_key a.id (p ∷ ps) ≡ some q)
        × (current_profile_account q ≡ a))
      (map current_profile_account ps) (λ a (q, e, same). (q, found_behind p q ps a.id u.0 e, same))
      (found-All ps u.1),
)

candidate-usable :
    (s : Selector) (model now : ℕ) (a : Account)
    → candidate s model now a ≡ true
    → account_usable_at a model now ≡ true
candidate-usable single model now a h = ground (arith, h)
candidate-usable (round_robin n) model now a h = h
candidate-usable (quota_aware n) model now a h = h

-- The profile is the current state of one of the broker's, and its account is usable.
abbrev pub Serves : ℕ → ℕ → List BrokerProfile → BrokerProfile → Type 0
Serves model now ps p =
    (account_usable_at p.account model now ≡ true)
    × ((q : BrokerProfile) × (find profile_key (profile_key p) ps ≡ some q) × (p ≡ refreshed q))

-- A choice that succeeds serves, and the only error is ErrNoAvailableAccount.
abbrev pub Serving : ℕ → ℕ → List BrokerProfile → Result BrokerError BrokerProfile → Type 0
Serving model now ps (ok p) = Serves model now ps p
Serving model now ps (err e) = e ≡ selection no_available_account

own_key :
    (p : BrokerProfile) (id : ℕ) (ps : List BrokerProfile)
    → find profile_key id ps ≡ some p
    → find profile_key (profile_key (refreshed p)) ps ≡ some p
own_key p id ps e =
    ap (λ k. find profile_key k ps) (current-id p ∙ find-key profile_key id ps p e) ∙ e

Serving-err :
    (now : ℕ) (ps : List BrokerProfile) (model : ℕ) (r : Result BrokerError BrokerProfile)
    → r ≡ err (selection no_available_account)
    → Serving model now ps r
Serving-err now ps model r e = subst (Serving model now ps) (sym e) refl

Serving-ok :
    (now : ℕ) (ps : List BrokerProfile) (model : ℕ) (r : Result BrokerError BrokerProfile)
    (q : BrokerProfile)
    → r ≡ ok (refreshed q)
    → find profile_key (profile_key (refreshed q)) ps ≡ some q
    → account_usable_at (current_profile_account q) model now ≡ true
    → Serving model now ps r
Serving-ok now ps model r q e found usable =
    subst (Serving model now ps) (sym e) (usable, (q, found, refl))

forced-Serving :
    (now : ℕ) (ps : List BrokerProfile) (model forced : ℕ)
    → Serving model now ps (forced_profile now ps model forced)
unfolding forced_profile
forced-Serving now ps model forced = elim (Option-cases (find profile_key forced ps)) [
  | inl missing ↦
      Serving-err now ps model (forced_profile now ps model forced)
        (rw (forced_profile, missing) refl)
  | inr (p, found) ↦ elim (Bool-cases (account_usable_at (current_profile_account p) model now)) [
    | inl usable ↦
        Serving-ok now ps model (forced_profile now ps model forced) p
          (rw (forced_profile, found, usable) refl) (own_key p forced ps found) usable
    | inr not_usable ↦
        Serving-err now ps model (forced_profile now ps model forced)
          (rw (forced_profile, found, not_usable) refl)
  ]
]

selected_at :
    (ps : List BrokerProfile) (a : Account) (q : BrokerProfile)
    → find profile_key a.id ps ≡ some q
    → selected_profile ps (ok a) ≡ ok (refreshed q)
unfolding selected_profile
selected_at ps a q found = rw (selected_profile, found) refl

selected-Serving :
    (s : Selector) (now : ℕ) (ps : List BrokerProfile) (model : ℕ)
    → Unique profile_key ps
    → Serving model now ps
        (selected_profile ps (select_account s false model now (map current_profile_account ps)).0)
unfolding selected_profile
selected-Serving s now ps model u =
    let chosen = (select_account s false model now (map current_profile_account ps)).0 in
    let complete = select_account_complete s model now (map current_profile_account ps) in
    elim (Result-cases chosen) [
      | inl (a, e) ↦
          let ((i, listed), candidate_a) =
            ok-Ends (λ c. In c (map current_profile_account ps) × (candidate s model now c ≡ true))
              (All (λ c. candidate s model now c ≡ false) (map current_profile_account ps)) a e
              complete in
          let (q, found, same) =
            All-get_elem?
              (λ c.
                (q : BrokerProfile) × (find profile_key c.id ps ≡ some q)
                × (current_profile_account q ≡ c))
              (map current_profile_account ps) i (found-All ps u) listed in
          Serving-ok now ps model (selected_profile ps chosen) q
            (ap (selected_profile ps) e ∙ selected_at ps a q found) (own_key q a.id ps found)
            (ap (λ c. account_usable_at c model now) same
              ∙ candidate-usable s model now a candidate_a)
      | inr (x, e) ↦ Serving-err now ps model (selected_profile ps chosen) (
          ap (selected_profile ps) e
          ∙ ap (λ y. err (selection y))
              (err-Ends
                (λ c. In c (map current_profile_account ps) × (candidate s model now c ≡ true))
                (All (λ c. candidate s model now c ≡ false) (map current_profile_account ps)) x e
                complete))
    ]

-- For profiles with different ids and a context that has not ended, the profile that is chosen,
-- forced or by the selector, has a usable account and is the current state of one of the broker's
-- profiles, and the only error is ErrNoAvailableAccount.
pub profile_serves :
    (trim : ℕ → ℕ) (now : ℕ) (request : SelectionRequest) (forced : ℕ) (broker : ProfileBroker)
    → Unique profile_key broker.profiles
    → Serving request.model now broker.profiles (profile trim false now request forced broker).0
unfolding profile
profile_serves trim now request forced broker u =
    let id =
      trim (forced_account now broker.profiles request (trim request.affinity_account_id) forced) in
    elim (Bool-cases (not (id == 0))) [
      | inl pinned ↦ rw pinned (forced-Serving now broker.profiles request.model id)
      | inr free ↦ rw free (selected-Serving broker.selector now broker.profiles request.model u)
    ]

forced-key :
    (now : ℕ) (ps : List BrokerProfile) (model id : ℕ) (p : BrokerProfile)
    → forced_profile now ps model id ≡ ok p
    → profile_key p ≡ id
unfolding forced_profile
forced-key now ps model id p h = elim (Option-cases (find profile_key id ps)) [
  | inl missing ↦ ground (arith, h, missing)
  | inr (q, found) ↦ elim (Bool-cases (account_usable_at (current_profile_account q) model now)) [
    | inl usable ↦
        ground (arith, h, found, usable, current-id q, find-key profile_key id ps q found)
    | inr not_usable ↦ ground (arith, h, found, not_usable)
  ]
]

given_stays :
    (now : ℕ) (ps : List BrokerProfile) (request : SelectionRequest) (affinity forced : ℕ)
    → (forced == 0) ≡ false
    → forced_account now ps request affinity forced ≡ forced
unfolding forced_account
given_stays now ps request affinity forced given = rw given refl

-- A forced account is never replaced by another: the profile, if there is one, is that of the forced
-- id, and the selector is left as it is, with or without a profile.
pub forced_is_honoured :
    (trim : ℕ → ℕ) (now : ℕ) (request : SelectionRequest) (forced : ℕ) (broker : ProfileBroker)
    → (forced == 0) ≡ false
    → (trim forced == 0) ≡ false
    → ((profile trim false now request forced broker).1 ≡ broker)
      × ((p : BrokerProfile)
          → (profile trim false now request forced broker).0 ≡ ok p
          → profile_key p ≡ trim forced)
unfolding profile
forced_is_honoured trim now request forced broker given trimmed =
    let stays =
      given_stays now broker.profiles request (trim request.affinity_account_id) forced given in
    rw (stays, trimmed)
      (refl, λ p h. forced-key now broker.profiles request.model (trim forced) p h)
