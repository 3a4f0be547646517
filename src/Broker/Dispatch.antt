-- ===== src/Broker/Dispatch.antt =====
-- The calls of ProfileBroker bind the account before they send (internal/server/broker.go).
use codex_sub_proxy.Prelude.{
  ℕ, ◌≡◌, refl, sym, subst, List, [], ◌∷◌, Bool, true, false, none, some, Result, ok, err,
  Bool-cases, inl, inr,
}
use codex_sub_proxy.Prelude.Table.{Unique}
use codex_sub_proxy.Accounts.{Account, no_available_account}
use codex_sub_proxy.Broker.{
  BrokerProfile, ProfileBroker, BrokerError, selection, unavailable, bind_failed, profile_key,
  profile,
}
use codex_sub_proxy.Broker.Selection.{Serves, Serving, profile_serves}
use codex_sub_proxy.Broker.Calls.{
  UpstreamRequest, bound, sent, Outcome, Bind, Send, request_headers, same_headers, bind_and_send,
  dispatch, do_responses, stream_responses, compact, generate_image, edit_image,
}

-- The courses of a call that needs a client of the profile. In the last one the account was accepted
-- by the callback and only then sent to, and the call's result is the upstream's.
pub data Course (model now : ℕ) (ps : List BrokerProfile) (client : BrokerProfile → Bool)
    (headers : Account → UpstreamRequest → UpstreamRequest) (bind : Bind) (send : Send)
    (u : UpstreamRequest) : Outcome → Type 0 where
  not_selected :
      Course model now ps client headers bind send u
        (record { result = err (selection no_available_account); account = none; actions = [] })
  no_client :
      (p : BrokerProfile)
      → Serves model now ps p
      → client p ≡ false
      → Course model now ps client headers bind send u
          (record { result = err unavailable; account = some p.account; actions = [] })
  no_callback :
      (p : BrokerProfile)
      → Serves model now ps p
      → bind ≡ none
      → Course model now ps client headers bind send u
          (record { result = err bind_failed; account = some p.account; actions = [] })
  refused :
      (p : BrokerProfile) (b : Account → Bool)
      → Serves model now ps p
      → bind ≡ some b
      → b p.account ≡ false
      → Course model now ps client headers bind send u (record {
        result = err bind_failed;
        account = some p.account;
        actions = bound p.account ∷ [];
      })
  passed_on :
      (p : BrokerProfile) (b : Account → Bool)
      → Serves model now ps p
      → client p ≡ true
      → bind ≡ some b
      → b p.account ≡ true
      → Course model now ps client headers bind send u (record {
        result = send p.account (headers p.account u);
        account = some p.account;
        actions = bound p.account ∷ sent p.account (headers p.account u) ∷ [];
      })

module _ {model now : ℕ} {ps : List BrokerProfile} (client : BrokerProfile → Bool)
    (headers : Account → UpstreamRequest → UpstreamRequest) (send : Send)
    (u : UpstreamRequest) where
  bind_and_send-Course :
      (bind : Bind) (p : BrokerProfile)
      → Serves model now ps p
      → client p ≡ true
      → Course model now ps client headers bind send u (bind_and_send headers bind send u p.account)
  unfolding bind_and_send
  bind_and_send-Course none p serves has = no_callback p serves refl
  bind_and_send-Course (some b) p serves has = elim (Bool-cases (b p.account)) [
    | inl accepts ↦ rw accepts (passed_on p b serves has refl accepts)
    | inr rejects ↦ rw rejects (refused p b serves refl rejects)
  ]

  dispatch-Course :
      (bind : Bind) (r : Result BrokerError BrokerProfile)
      → Serving model now ps r
      → Course model now ps client headers bind send u (dispatch client headers bind send u r)
  unfolding dispatch
  dispatch-Course bind (err e) serves =
      subst
        (λ x.
          Course model now ps client headers bind send u
            (record { result = err x; account = none; actions = [] }))
        (sym serves) not_selected
  dispatch-Course bind (ok p) serves = elim (Bool-cases (client p)) [
    | inl has ↦ rw has (bind_and_send-Course bind p serves has)
    | inr lacks ↦ rw lacks (no_client p serves lacks)
  ]

-- For profiles with different ids and a context that has not ended, each call takes one of the
-- courses: no account can serve, or a usable account of the broker's is chosen, the callback is
-- called with it if the profile has the client, and if the callback accepts it that very account
-- is sent to, once, and the upstream's result is the call's.
pub calls_bind_first :
    (trim : ℕ → ℕ) (now : ℕ) (u : UpstreamRequest) (forced : ℕ) (bind : Bind) (send : Send)
    (broker : ProfileBroker)
    → Unique profile_key broker.profiles
    → Course u.selection.model now broker.profiles
        (λ p. p.responses)
        request_headers
        bind
        send
        u
        (do_responses trim false now u forced bind send broker).0
      × Course u.selection.model now broker.profiles
          (λ p. p.responses)
          request_headers
          bind
          send
          u
          (stream_responses trim false now u forced bind send broker).0
      × Course u.selection.model now broker.profiles
          (λ p. p.responses)
          request_headers
          bind
          send
          u
          (compact trim false now u forced bind send broker).0
      × Course u.selection.model now broker.profiles
          (λ p. p.images)
          same_headers
          bind
          send
          u
          (generate_image trim false now u forced bind send broker).0
      × Course u.selection.model now broker.profiles
          (λ p. p.images)
          same_headers
          bind
          send
          u
          (edit_image trim false now u forced bind send broker).0
unfolding do_responses stream_responses compact generate_image edit_image
calls_bind_first trim now u forced bind send broker unique =
    let chosen = (profile trim false now u.selection forced broker).0 in
    let serves = profile_serves trim now u.selection forced broker unique in
    (
      dispatch-Course (λ p. p.responses) request_headers send u bind chosen serves,
      dispatch-Course (λ p. p.responses) request_headers send u bind chosen serves,
      dispatch-Course (λ p. p.responses) request_headers send u bind chosen serves,
      dispatch-Course (λ p. p.images) same_headers send u bind chosen serves,
      dispatch-Course (λ p. p.images) same_headers send u bind chosen serves,
    )
