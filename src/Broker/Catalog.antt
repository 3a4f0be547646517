-- ===== src/Broker/Catalog.antt =====
-- What an update of the model catalog does to an account (internal/server/broker.go).
use codex_sub_proxy.Prelude.{
  ℕ, ◌≡◌, refl, ap, ◌∙◌, List, [], ◌∷◌, Bool, true, false, ◌&&◌, ◌||◌, ◌==◌, some, ok, Bool-cases,
  inl, inr, arith,
}
use codex_sub_proxy.Prelude.Table.{find, find-modify, modify}
use codex_sub_proxy.Accounts.{Account, has_model, is_empty, in_service, account_usable_at}
use codex_sub_proxy.Broker.{BrokerProfile, ProfileBroker, profile_key}
use codex_sub_proxy.Broker.Calls.{
  ModelInfo, catalog_usable, model_id, catalog_models, lite_models, install_catalog,
  update_model_catalog, account_responses_lite, supports_responses_lite,
}

-- Some entry of the catalog passes the test under this model id.
abbrev pub offers : (ℕ → ℕ) → (ModelInfo → Bool) → ℕ → List ModelInfo → Bool
offers trim test model [] = false
offers trim test model (m ∷ ms) = (model_id trim m == model && test m) || offers trim test model ms

catalog-offers :
    (trim : ℕ → ℕ) (model : ℕ) (ms : List ModelInfo)
    → (model == 0) ≡ false
    → has_model model (catalog_models trim ms) ≡ offers trim catalog_usable model ms
unfolding catalog_models
catalog-offers trim model [] named = refl
catalog-offers trim model (m ∷ ms) named = ground (arith, named, catalog-offers trim model ms named)

lite-offers :
    (trim : ℕ → ℕ) (model : ℕ) (ms : List ModelInfo)
    → (model == 0) ≡ false
    → has_model model (lite_models trim ms)
      ≡ offers trim (λ m. catalog_usable m && supports_responses_lite m) model ms
unfolding lite_models
lite-offers trim model [] named = refl
lite-offers trim model (m ∷ ms) named = ground (arith, named, lite-offers trim model ms named)

empty-has : (model : ℕ) (models : List ℕ) → is_empty models ≡ true → has_model model models ≡ false
empty-has model [] e = refl
empty-has model (m ∷ ms) e = cc

loaded-serves :
    (a : Account) (models : List ℕ) (model now : ℕ)
    → (model == 0) ≡ false
    → a.models ≡ models
    → a.catalog_loaded ≡ true
    → account_usable_at a model now ≡ (in_service a now && has_model model models)
unfolding account_usable_at
loaded-serves a models model now named same loaded = elim (Bool-cases (is_empty models)) [
  | inl none_left ↦ ground (arith, named, same, loaded, none_left, empty-has model models none_left)
  | inr some_left ↦ ground (arith, named, same, loaded, some_left)
]

-- For a profile of the broker's, after a loaded catalog is installed its account serves a named
-- model just when it is in service and an entry that is offered has that id, and it speaks the
-- lite protocol for it, unasked, just when such an entry supports it or the account always does;
-- the other profiles stay as they are.
pub update_catalog_serves :
    (trim : ℕ → ℕ) (account_id : ℕ) (ms : List ModelInfo) (broker : ProfileBroker)
    (p : BrokerProfile)
    → (trim account_id == 0) ≡ false
    → find profile_key (trim account_id) broker.profiles ≡ some p
    → (after : ProfileBroker) × (q : BrokerProfile) × (update_model_catalog trim account_id ms true
          broker
        ≡ ok after)
      × (find profile_key (trim account_id) after.profiles ≡ some q)
      × ((model now : ℕ)
          → (model == 0) ≡ false
          → (account_usable_at q.account model now
              ≡ (in_service q.account now && offers trim catalog_usable model ms))
            × (account_responses_lite q.account model false ≡ (
                p.account.responses_lite
                || offers trim (λ m. catalog_usable m && supports_responses_lite m) model ms)))
      × ((other : ℕ)
          → (other == trim account_id) ≡ false
          → find profile_key other after.profiles ≡ find profile_key other broker.profiles)
unfolding update_model_catalog install_catalog account_responses_lite
update_catalog_serves trim account_id ms broker p named found =
    let id = trim account_id in
    let install = install_catalog trim ms true in
    let after = record broker { profiles = modify profile_key id install broker.profiles } in
    let change = (λ (j : ℕ). find-modify profile_key j id install broker.profiles (λ q. refl)) in
    (
      after,
      install p,
      rw (named, found) refl,
      ground (arith, change id, found),
      λ model now named_model. (
        loaded-serves (install p).account (catalog_models trim ms) model now named_model refl refl
            ∙ ap (λ b. in_service (install p).account now && b)
                (catalog-offers trim model ms named_model),
        ap (λ b. p.account.responses_lite || b) (lite-offers trim model ms named_model),
      ),
      λ other differs. ground (arith, change other, differs),
    )
