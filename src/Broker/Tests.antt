-- ===== src/Broker/Tests.antt =====
-- The broker on concrete profiles (internal/server/broker.go).
use codex_sub_proxy.Prelude.{ℕ, ◌≡◌, refl, [], ◌∷◌, true, false, ◌&&◌, ◌||◌, ◌==◌, none, some, ok}
use codex_sub_proxy.Prelude.Table.{find}
use codex_sub_proxy.Accounts.{round_robin, in_service, account_usable_at}
use codex_sub_proxy.Accounts.Tests.{account}
use codex_sub_proxy.Broker.{
  BrokerProfile, ProfileBroker, SelectionRequest, expired, profile_key, new_profile_broker, profile,
}
use codex_sub_proxy.Broker.Selection.{Serving, profile_serves, forced_is_honoured}
use codex_sub_proxy.Broker.Calls.{
  UpstreamRequest, Bind, Send, ModelInfo, request_headers, same_headers, do_responses,
  stream_responses, compact, generate_image, edit_image, catalog_usable, supports_responses_lite,
  account_responses_lite, update_model_catalog,
}
use codex_sub_proxy.Broker.Dispatch.{Course, calls_bind_first}
use codex_sub_proxy.Broker.Catalog.{offers, update_catalog_serves}
use codex_sub_proxy.Broker.Creation.{WellFormed, new_profile_broker-WellFormed}

abbrev first : BrokerProfile
first = record { account = account 1 true 50; refresher = none; responses = true; images = false }

abbrev second : BrokerProfile
second = record {
  account = account 2 true 10;
  refresher = some (record { available = false; state = expired });
  responses = true;
  images = true;
}

abbrev broker : ProfileBroker
broker = record { selector = round_robin 4; profiles = first ∷ second ∷ [] }

abbrev request : SelectionRequest
request = record { model = 21; previous_response_id = 0; affinity_account_id = 0 }

abbrev same_text : ℕ → ℕ
same_text t = t

abbrev upstream_request : UpstreamRequest
upstream_request = record {
  selection = request;
  model = 21;
  responses_lite = false;
  lite_header = false;
}

abbrev accept : Bind
accept = some (λ a. a.id == 2)

abbrev answer : Send
answer a u = ok 200

profile_serves_example : Serving 21 9 broker.profiles (profile same_text false 9 request 0 broker).0
unfolding find
profile_serves_example = profile_serves same_text 9 request 0 broker (refl, (refl, tt))

forced_is_honoured_example :
    ((profile same_text false 9 request 2 broker).1 ≡ broker)
    × ((p : BrokerProfile)
        → (profile same_text false 9 request 2 broker).0 ≡ ok p
        → profile_key p ≡ 2)
forced_is_honoured_example = forced_is_honoured same_text 9 request 2 broker refl refl

calls_bind_first_example :
    Course 21 9 broker.profiles
      (λ p. p.responses)
      request_headers
      accept
      answer
      upstream_request
      (do_responses same_text false 9 upstream_request 0 accept answer broker).0
    × Course 21 9 broker.profiles
        (λ p. p.responses)
        request_headers
        accept
        answer
        upstream_request
        (stream_responses same_text false 9 upstream_request 0 accept answer broker).0
    × Course 21 9 broker.profiles
        (λ p. p.responses)
        request_headers
        accept
        answer
        upstream_request
        (compact same_text false 9 upstream_request 0 accept answer broker).0
    × Course 21 9 broker.profiles
        (λ p. p.images)
        same_headers
        accept
        answer
        upstream_request
        (generate_image same_text false 9 upstream_request 0 accept answer broker).0
    × Course 21 9 broker.profiles
        (λ p. p.images)
        same_headers
        accept
        answer
        upstream_request
        (edit_image same_text false 9 upstream_request 0 accept answer broker).0
unfolding find
calls_bind_first_example =
    calls_bind_first same_text 9 upstream_request 0 accept answer broker (refl, (refl, tt))

abbrev entry : ModelInfo
entry = record {
  id = 31;
  slug = 0;
  listed = true;
  supported_in_api = true;
  catalog_metadata = true;
  use_responses_lite = true;
  capabilities = [];
}

update_catalog_serves_example :
    (after : ProfileBroker) × (q : BrokerProfile) × (update_model_catalog same_text 2
        (entry ∷ [])
        true
        broker
      ≡ ok after)
    × (find profile_key 2 after.profiles ≡ some q)
    × ((model now : ℕ)
        → (model == 0) ≡ false
        → (account_usable_at q.account model now
            ≡ (in_service q.account now && offers same_text catalog_usable model (entry ∷ [])))
          × (account_responses_lite q.account model false ≡ (
              second.account.responses_lite
              || offers same_text
                  (λ m. catalog_usable m && supports_responses_lite m)
                  model
                  (entry ∷ []))))
    × ((other : ℕ)
        → (other == 2) ≡ false
        → find profile_key other after.profiles ≡ find profile_key other broker.profiles)
unfolding find
update_catalog_serves_example =
    update_catalog_serves same_text 2 (entry ∷ []) broker second refl refl

new_profile_broker-WellFormed_example : WellFormed (second ∷ first ∷ [])
unfolding new_profile_broker find
new_profile_broker-WellFormed_example =
    new_profile_broker-WellFormed (round_robin 4) (first ∷ second ∷ [])
      (record broker { profiles = second ∷ first ∷ [] }) refl
