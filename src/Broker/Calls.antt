-- ===== src/Broker/Calls.antt =====
-- internal/server/broker.go: the five calls of ProfileBroker that reach the upstream service, and
-- the update of a model catalog.
use codex_sub_proxy.Prelude.{
  ℕ, List, [], ◌∷◌, Bool, true, false, ◌&&◌, ◌||◌, not, ◌==◌, Option, none, some, Result, ok, err,
  if◌then◌else◌, map,
}
use codex_sub_proxy.Prelude.Table.{find, modify}
use codex_sub_proxy.Accounts.{Account, has_model, account_usable_at}
use codex_sub_proxy.Broker.{
  BrokerProfile, ProfileBroker, SelectionRequest, BrokerError, unavailable, bind_failed,
  empty_catalog_id, unknown_catalog_id, profile_key, profile, current_profile_account,
}

-- What the selection of an account is for: the request body's model, whether it asks for the lite
-- protocol, and whether the headers do.
pub record UpstreamRequest : Type 0 where
  pub selection : SelectionRequest
  pub model : ℕ
  pub responses_lite : Bool
  pub lite_header : Bool

-- The calls of the callback and of the transport, in their order.
pub data Action : Type 0 where
  bound : Account → Action
  sent : Account → UpstreamRequest → Action

-- The error or the upstream's result, the account that goes with either, and what was called.
pub record Outcome : Type 0 where
  pub result : Result BrokerError ℕ
  pub account : Option Account
  pub actions : List Action

-- The callback of the caller, which may be missing; whether it accepts the account.
abbrev pub Bind : Type 0
Bind = Option (Account → Bool)

-- The client of the profile, called with the account's credentials.
abbrev pub Send : Type 0
Send = Account → UpstreamRequest → Result BrokerError ℕ

unfoldable pub account_responses_lite : Account → ℕ → Bool → Bool
account_responses_lite a model requested =
    requested || a.responses_lite || has_model model a.responses_lite_models

-- requestHeaders: the lite protocol in the headers, and in the body if it is in the headers.
unfoldable pub request_headers : Account → UpstreamRequest → UpstreamRequest
unfolding account_responses_lite
request_headers a u =
    let lite = u.lite_header || account_responses_lite a u.model u.responses_lite in
    record u { lite_header = lite; responses_lite = u.responses_lite || lite }

-- The images clients get the headers of the request as they are.
abbrev pub same_headers : Account → UpstreamRequest → UpstreamRequest
same_headers a u = u

-- bindSelected, then the client's call.
unfoldable pub bind_and_send :
    (Account → UpstreamRequest → UpstreamRequest)
    → Bind
    → Send
    → UpstreamRequest
    → Account
    → Outcome
bind_and_send headers none send u a = record {
  result = err bind_failed;
  account = some a;
  actions = [];
}
bind_and_send headers (some bind) send u a =
    if bind a
    then record {
      result = send a (headers a u);
      account = some a;
      actions = bound a ∷ sent a (headers a u) ∷ [];
    }
    else record { result = err bind_failed; account = some a; actions = bound a ∷ [] }

-- The common course of the calls, on the profile that was chosen.
unfoldable pub dispatch :
    (BrokerProfile → Bool)
    → (Account → UpstreamRequest → UpstreamRequest)
    → Bind
    → Send
    → UpstreamRequest
    → Result BrokerError BrokerProfile
    → Outcome
unfolding bind_and_send
dispatch client headers bind send u (err e) = record {
  result = err e;
  account = none;
  actions = [];
}
dispatch client headers bind send u (ok p) =
    if client p
    then bind_and_send headers bind send u p.account
    else record { result = err unavailable; account = some p.account; actions = [] }

module _ (trim : ℕ → ℕ) (done : Bool) (now : ℕ) where
  -- DoResponses
  unfoldable pub do_responses :
      UpstreamRequest → ℕ → Bind → Send → ProfileBroker → Outcome × ProfileBroker
  unfolding profile dispatch request_headers
  do_responses u forced bind send broker =
      let (chosen, broker') = profile trim done now u.selection forced broker in
      (dispatch (λ p. p.responses) request_headers bind send u chosen, broker')

  -- StreamResponses; the callback for the events is in `send`, and the result is the error alone.
  unfoldable pub stream_responses :
      UpstreamRequest → ℕ → Bind → Send → ProfileBroker → Outcome × ProfileBroker
  unfolding profile dispatch request_headers
  stream_responses u forced bind send broker =
      let (chosen, broker') = profile trim done now u.selection forced broker in
      (dispatch (λ p. p.responses) request_headers bind send u chosen, broker')

  -- Compact
  unfoldable pub compact :
      UpstreamRequest → ℕ → Bind → Send → ProfileBroker → Outcome × ProfileBroker
  unfolding profile dispatch request_headers
  compact u forced bind send broker =
      let (chosen, broker') = profile trim done now u.selection forced broker in
      (dispatch (λ p. p.responses) request_headers bind send u chosen, broker')

  -- GenerateImage
  unfoldable pub generate_image :
      UpstreamRequest → ℕ → Bind → Send → ProfileBroker → Outcome × ProfileBroker
  unfolding profile dispatch
  generate_image u forced bind send broker =
      let (chosen, broker') = profile trim done now u.selection forced broker in
      (dispatch (λ p. p.images) same_headers bind send u chosen, broker')

  -- EditImage
  unfoldable pub edit_image :
      UpstreamRequest → ℕ → Bind → Send → ProfileBroker → Outcome × ProfileBroker
  unfolding profile dispatch
  edit_image u forced bind send broker =
      let (chosen, broker') = profile trim done now u.selection forced broker in
      (dispatch (λ p. p.images) same_headers bind send u chosen, broker')

-- One model of a catalog. `listed` is whether the visibility, trimmed, is "list"; the capabilities
-- are the Boolean values under the three keys that the code reads.
pub record ModelInfo : Type 0 where
  pub id : ℕ
  pub slug : ℕ
  pub listed : Bool
  pub supported_in_api : Bool
  pub catalog_metadata : Bool
  pub use_responses_lite : Bool
  pub capabilities : List (Option Bool)

unfoldable pub catalog_usable : ModelInfo → Bool
catalog_usable m = if not m.catalog_metadata then true else m.supported_in_api && m.listed

abbrev pub any_true : List (Option Bool) → Bool
any_true [] = false
any_true (some true ∷ xs) = true
any_true (some false ∷ xs) = any_true xs
any_true (none ∷ xs) = any_true xs

unfoldable pub supports_responses_lite : ModelInfo → Bool
supports_responses_lite m = if m.use_responses_lite then true else any_true m.capabilities

-- The slug, or the id if the slug is blank.
unfoldable pub model_id : (ℕ → ℕ) → ModelInfo → ℕ
model_id trim m = if trim m.slug == 0 then trim m.id else trim m.slug

-- The models that the catalog installs, and those of them with the lite protocol.
unfoldable pub catalog_models : (ℕ → ℕ) → List ModelInfo → List ℕ
unfolding model_id catalog_usable
catalog_models trim [] = []
catalog_models trim (m ∷ ms) =
    let rest = catalog_models trim ms in
    if model_id trim m == 0 || not (catalog_usable m) then rest else model_id trim m ∷ rest

unfoldable pub lite_models : (ℕ → ℕ) → List ModelInfo → List ℕ
unfolding model_id catalog_usable supports_responses_lite
lite_models trim [] = []
lite_models trim (m ∷ ms) =
    let rest = lite_models trim ms in
    if model_id trim m == 0 || not (catalog_usable m) || not (supports_responses_lite m)
    then rest
    else model_id trim m ∷ rest

unfoldable pub install_catalog : (ℕ → ℕ) → List ModelInfo → Bool → BrokerProfile → BrokerProfile
unfolding catalog_models lite_models
install_catalog trim ms loaded p = record p {
  account = record p.account {
    models = catalog_models trim ms;
    responses_lite_models = lite_models trim ms;
    catalog_configured = true;
    catalog_loaded = loaded;
  };
}

unfoldable pub update_model_catalog :
    (ℕ → ℕ) → ℕ → List ModelInfo → Bool → ProfileBroker → Result BrokerError ProfileBroker
unfolding find install_catalog modify
update_model_catalog trim account_id ms loaded broker =
    if trim account_id == 0
    then err empty_catalog_id
    else elim (find profile_key (trim account_id) broker.profiles) [
      | none ↦ err unknown_catalog_id
      | some p ↦ ok (record broker {
        profiles =
            modify profile_key (trim account_id) (install_catalog trim ms loaded) broker.profiles;
      })
    ]

-- Accounts
unfoldable pub accounts : ProfileBroker → List Account
unfolding current_profile_account
accounts broker = map current_profile_account broker.profiles

abbrev any_usable : ℕ → List Account → Bool
any_usable now [] = false
any_usable now (a ∷ rest) = account_usable_at a 0 now || any_usable now rest

-- Ready; the registry of the models, if there is one, decides by a rule of its own.
unfoldable pub ready : Option (List Account → Bool) → ℕ → ProfileBroker → Bool
unfolding accounts account_usable_at
ready none now broker = any_usable now (accounts broker)
ready (some catalog_ready) now broker = catalog_ready (accounts broker)
