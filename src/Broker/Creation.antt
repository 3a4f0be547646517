-- ===== src/Broker/Creation.antt =====
-- NewProfileBroker and the update of a catalog keep the profiles apart (internal/server/broker.go).
use codex_sub_proxy.Prelude.{
  ℕ, ◌≡◌, refl, List, [], ◌∷◌, Bool, true, false, ◌&&◌, ◌||◌, not, ◌==◌, All, some, Result, ok, err,
  Option-cases, Bool-cases, inl, inr, arith, subst, ap, ◌∙◌, bound, bind_inv,
}
use codex_sub_proxy.Prelude.Table.{find, Unique, modify, modify-Unique}
use codex_sub_proxy.Accounts.{Selector}
use codex_sub_proxy.Broker.{
  BrokerProfile, ProfileBroker, BrokerError, profile_key, add_profiles, new_profile_broker,
}
use codex_sub_proxy.Broker.Calls.{ModelInfo, install_catalog, update_model_catalog}

-- A profile that can serve: it has an id and a client.
abbrev pub UsableProfile : BrokerProfile → Type 0
UsableProfile p = ((profile_key p == 0) ≡ false) × ((p.responses || p.images) ≡ true)

-- The profiles have different ids and can serve.
abbrev pub WellFormed : List BrokerProfile → Type 0
WellFormed ps = Unique profile_key ps × All UsableProfile ps

ok_is : {A : Type 0} {a b : A} → ◌≡◌ {A = Result BrokerError A} (ok a) (ok b) → a ≡ b
ok_is {a = a} e = ap (λ r. elim r [ ok x ↦ x | err x ↦ a ]) e

add_profiles-WellFormed :
    (ps taken : List BrokerProfile) {all : List BrokerProfile}
    → WellFormed taken
    → add_profiles ps taken ≡ ok all
    → WellFormed all
unfolding add_profiles
add_profiles-WellFormed [] taken w h = subst WellFormed (ok_is h) w
add_profiles-WellFormed (p ∷ ps) taken w h = elim (Bool-cases (profile_key p == 0)) [
  | inl blank ↦ ground (arith, h, blank)
  | inr named ↦ elim (Bool-cases (not p.responses && not p.images)) [
    | inl bare ↦ ground (arith, h, named, bare)
    | inr served ↦ elim (Option-cases (find profile_key (profile_key p) taken)) [
      | inl fresh ↦
          add_profiles-WellFormed ps (p ∷ taken)
            ((fresh, w.0), ((named, ground (arith, served)), w.1))
            (ground (arith, h, named, served, fresh))
      | inr (q, twin) ↦ ground (arith, h, named, served, twin)
    ]
  ]
]

-- The profiles of a new broker have different ids, and each has an id and a client.
pub new_profile_broker-WellFormed :
    (s : Selector) (ps : List BrokerProfile) (broker : ProfileBroker)
    → new_profile_broker s ps ≡ ok broker
    → WellFormed broker.profiles
unfolding new_profile_broker
new_profile_broker-WellFormed s [] broker h = cc
new_profile_broker-WellFormed s (p ∷ ps) broker h =
    elim (bind_inv (add_profiles (p ∷ ps) []) (λ all. ok (record { selector = s; profiles = all }))
      h) [
        | bound all e done ↦
            subst WellFormed (ap (λ b. b.profiles) (ok_is done))
              (add_profiles-WellFormed (p ∷ ps) [] (tt, tt) e)
      ]

found_update :
    (trim : ℕ → ℕ) (account_id : ℕ) (ms : List ModelInfo) (loaded : Bool) (broker : ProfileBroker)
    (p : BrokerProfile)
    → (trim account_id == 0) ≡ false
    → find profile_key (trim account_id) broker.profiles ≡ some p
    → ok (record broker {
      profiles =
          modify profile_key (trim account_id) (install_catalog trim ms loaded) broker.profiles;
    })
      ≡ update_model_catalog trim account_id ms loaded broker
unfolding update_model_catalog
found_update trim account_id ms loaded broker p named found = rw (named, found) refl

-- An update of the model catalog keeps the ids different.
pub update_model_catalog-Unique :
    (trim : ℕ → ℕ) (account_id : ℕ) (ms : List ModelInfo) (loaded : Bool)
    (broker after : ProfileBroker)
    → Unique profile_key broker.profiles
    → update_model_catalog trim account_id ms loaded broker ≡ ok after
    → Unique profile_key after.profiles
unfolding update_model_catalog
update_model_catalog-Unique trim account_id ms loaded broker after u h =
    elim (Bool-cases (trim account_id == 0)) [
      | inl blank ↦ ground (arith, h, blank)
      | inr named ↦ elim (Option-cases (find profile_key (trim account_id) broker.profiles)) [
        | inl unknown ↦ ground (arith, h, named, unknown)
        | inr (p, found) ↦
            subst (λ b. Unique profile_key b.profiles)
              (ok_is (found_update trim account_id ms loaded broker p named found ∙ h))
              (modify-Unique profile_key (trim account_id) (install_catalog trim ms loaded)
                broker.profiles (λ q. refl) u)
      ]
    ]
