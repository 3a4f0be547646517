-- ===== src/Broker.antt =====
-- internal/server/broker.go, ProfileBroker: the choice of an account and the dispatch to its client,
-- and what it uses of internal/codex/models.go and of the credential snapshot of
-- internal/codex/refresh.go. A number stands for a text; strings.TrimSpace, the callbacks and the
-- transports are parameters. The profiles are the rows of a table, keyed by the account's id.
pub mod Selection
pub mod Calls
pub mod Dispatch
pub mod Catalog
pub mod Creation
pub mod Tests
use codex_sub_proxy.Prelude.{
  ℕ, List, [], ◌∷◌, ◌++◌, Bool, true, false, ◌&&◌, ◌||◌, not, ◌==◌, Option, none, some, Result, ok,
  err, ◌>>=◌, if◌then◌else◌, map, ap,
}
use codex_sub_proxy.Prelude.Table.{find, modify}
use codex_sub_proxy.Accounts.{
  Account, SelectError, no_available_account, Selector, is_empty, has_model, account_usable_at,
  select_account, context_done, account_id,
}

pub data CredentialStatus : Type 0 where
  missing : CredentialStatus
  current : CredentialStatus
  refreshable : CredentialStatus
  expired : CredentialStatus
  refreshing : CredentialStatus
  transient_failure : CredentialStatus
  permanent_failure : CredentialStatus

pub record CredentialSnapshot : Type 0 where
  pub available : Bool
  pub state : CredentialStatus

-- An expired credential can be refreshed by the call that it serves.
unfoldable pub credential_snapshot_usable : CredentialSnapshot → Bool
credential_snapshot_usable s = elim s.state [
  | expired ↦ true
  | refreshing ↦ true
  | transient_failure ↦ true
  | missing ↦ s.available
  | current ↦ s.available
  | refreshable ↦ s.available
  | permanent_failure ↦ s.available
]

-- The account, the snapshot of its refresher, if it has one, and which of the clients it has.
pub record BrokerProfile : Type 0 where
  pub account : Account
  pub refresher : Option CredentialSnapshot
  pub responses : Bool
  pub images : Bool

pub record ProfileBroker : Type 0 where
  pub selector : Selector
  pub profiles : List BrokerProfile

pub record SelectionRequest : Type 0 where
  pub model : ℕ
  pub previous_response_id : ℕ
  pub affinity_account_id : ℕ

pub data BrokerError : Type 0 where
  selection : SelectError → BrokerError
  account_vanished : BrokerError
  no_profile : BrokerError
  empty_profile_id : BrokerError
  no_transport : BrokerError
  duplicate_profile : BrokerError
  unavailable : BrokerError
  bind_failed : BrokerError
  upstream : ℕ → BrokerError
  empty_catalog_id : BrokerError
  unknown_catalog_id : BrokerError

abbrev pub profile_key : BrokerProfile → ℕ
profile_key p = p.account.id

-- The loop of NewProfileBroker, with the profiles that it has taken.
unfoldable pub add_profiles :
    List BrokerProfile → List BrokerProfile → Result BrokerError (List BrokerProfile)
add_profiles [] taken = ok taken
add_profiles (p ∷ ps) taken =
    let rest = add_profiles ps (p ∷ taken) in
    if profile_key p == 0
    then err empty_profile_id
    else if not p.responses && not p.images
    then err no_transport
    else elim (find profile_key (profile_key p) taken) [
      | some q ↦ err duplicate_profile
      | none ↦ rest
    ]

unfoldable pub new_profile_broker : Selector → List BrokerProfile → Result BrokerError ProfileBroker
unfolding add_profiles
new_profile_broker s [] = err no_profile
new_profile_broker s (p ∷ ps) = do
  profiles ← add_profiles (p ∷ ps) []
  ok (record { selector = s; profiles = profiles })

abbrev pub set_available : Bool → Account → Account
set_available b a = record a { available = b }

unfoldable pub current_profile_account : BrokerProfile → Account
unfolding credential_snapshot_usable
current_profile_account p = elim p.refresher [
  | none ↦ p.account
  | some s ↦ set_available (credential_snapshot_usable s) p.account
]

-- The profile with the current state of its account.
abbrev pub refreshed : BrokerProfile → BrokerProfile
refreshed p = record p { account = current_profile_account p }

-- The affinity account stands in for a forced one if it is usable, or always for a continuation.
unfoldable pub forced_account : ℕ → List BrokerProfile → SelectionRequest → ℕ → ℕ → ℕ
unfolding find account_usable_at current_profile_account
forced_account now profiles request affinity forced =
    if not (forced == 0) then forced else elim (find profile_key affinity profiles) [
      | none ↦ forced
      | some p ↦
          if not (request.previous_response_id == 0)
            || account_usable_at (current_profile_account p) request.model now
          then affinity
          else forced
    ]

-- The forced account, if it is there and usable.
unfoldable pub forced_profile : ℕ → List BrokerProfile → ℕ → ℕ → Result BrokerError BrokerProfile
unfolding find account_usable_at current_profile_account
forced_profile now profiles model forced = elim (find profile_key forced profiles) [
  | none ↦ err (selection no_available_account)
  | some p ↦
      if account_usable_at (current_profile_account p) model now
      then ok (refreshed p)
      else err (selection no_available_account)
]

-- The profile of the account that the selector has given.
unfoldable pub selected_profile :
    List BrokerProfile → Result SelectError Account → Result BrokerError BrokerProfile
unfolding find current_profile_account
selected_profile profiles (err e) = err (selection e)
selected_profile profiles (ok a) = elim (find profile_key a.id profiles) [
  | none ↦ err account_vanished
  | some p ↦ ok (refreshed p)
]

-- ProfileBroker.profile. `trim` is strings.TrimSpace, `done` whether the context has ended.
unfoldable pub profile :
    (ℕ → ℕ)
    → Bool
    → ℕ
    → SelectionRequest
    → ℕ
    → ProfileBroker
    → Result BrokerError BrokerProfile × ProfileBroker
unfolding forced_account forced_profile selected_profile select_account
profile trim true now request forced broker = (err (selection context_done), broker)
profile trim false now request forced broker =
    let id =
      trim (forced_account now broker.profiles request (trim request.affinity_account_id) forced) in
    let accounts = map current_profile_account broker.profiles in
    let (chosen, selector) = select_account broker.selector false request.model now accounts in
    if not (id == 0)
    then (forced_profile now broker.profiles request.model id, broker)
    else (selected_profile broker.profiles chosen, record broker { selector = selector })
