-- ===== src/Keys/Granted.antt =====
-- Who passes the Authorizer: only a caller with the raw key of a stored record, while the record is in
-- service and grants the endpoint and the model (internal/apikey/store.go).

use codex_sub_proxy.Prelude.{
  ℕ, ◌≡◌, refl, sym, ap, ◌∙◌, subst, List, ◌++◌, true, ◌&&◌, ◌||◌, not, ltb, ◌==◌, length, take,
  select, Option, none, some, Result, ok, err, ◌>>=◌, ◌>>◌, fail_if, fail_if_inv, bind_inv, bound,
  arith, Option-cases, inl, inr,
}
use codex_sub_proxy.Prelude.Bytes.{Bytes, same}
use codex_sub_proxy.Keys.{
  key_prefix, Record, Principal, KeyError, invalid_key, forbidden, invalid_policy, KeyLibrary,
  is_set, has_expired, parse_key, digest_matches, matching, validate_policy, principal_from_record,
  admit_record, authenticate,
}
use codex_sub_proxy.Keys.Store.{
  committed, contains, find_record, touch_rows, rows_affected, refresh_principal,
  authorize_principal, authorized, authorize,
}
use codex_sub_proxy.Keys.Sound.{
  Stored, matching_inv, take-Stored, select-Stored, find-Stored, InService, in_service, admit_inv,
}

module _ (lib : KeyLibrary) where
  -- The record of a raw key.
  abbrev pub KeyOf : Bytes → Record → Type 0
  KeyOf raw r = digest_matches (lib.digest_key raw) r.digest ≡ true

  authenticate_inv :
      (raw : Bytes) (now : ℕ) (db : List Record) (p : Principal)
      → authenticate lib raw now db ≡ ok p
      → (r : Record) × Stored r db
        × KeyOf raw r
        × InService lib r now
        × (p ≡ principal_from_record lib r)
  unfolding authenticate
  authenticate_inv raw now db p h =
      let found =
        λ (public : Bytes). take 17 (select (λ r. same r.prefix (key_prefix ++ public)) db) in
      let last = λ (public : Bytes).
        elim (matching (lib.digest_key raw) (found public)) as (λ _. Result KeyError Principal) [
          | none ↦ err invalid_key
          | some r ↦ admit_record lib r now
        ] in
      elim (bind_inv (parse_key raw)
        (λ (public, secret). fail_if (ltb 16 (length (found public))) invalid_key >> last public)
        h) [
          | bound parts parsed rest ↦
              elim (bind_inv (fail_if (ltb 16 (length (found parts.0))) invalid_key)
                (λ _. last parts.0) rest) [
                  | bound u few end ↦
                      at_match (found parts.0)
                        (λ r h'.
                          (select-Stored (λ s. same s.prefix (key_prefix ++ parts.0)) r db
                            (take-Stored 17 r
                              (select (λ s. same s.prefix (key_prefix ++ parts.0)) db) h')).0)
                        (matching (lib.digest_key raw) (found parts.0)) refl end
                ]
        ]
    where
      at_match :
          (rs : List Record)
          → ((r : Record) → Stored r rs → Stored r db)
          → (o : Option Record) → matching (lib.digest_key raw) rs ≡ o
          → (elim o as (λ _. Result KeyError Principal) [
            | none ↦ err invalid_key
            | some r ↦ admit_record lib r now
          ])
            ≡ ok p
          → (r : Record) × Stored r db
            × KeyOf raw r
            × InService lib r now
            × (p ≡ principal_from_record lib r)
      at_match rs within none found end = cc
      at_match rs within (some r) found end =
          let (stored, fits) = matching_inv (lib.digest_key raw) rs r found in
          let (service, is_it) = admit_inv lib r now p end in
          (r, within r stored, fits, service, is_it)

  -- The record grants a use.
  abbrev pub Grants : Record → ℕ → ℕ → Type 0
  Grants r endpoint model =
      (contains r.policy.allowed_endpoints endpoint ≡ true)
      × ((model == 0 || contains r.policy.allowed_models model) ≡ true)

  refresh_inv :
      (r : Record) (endpoint model now : ℕ) (p : Principal)
      → refresh_principal lib r endpoint model now ≡ ok p
      → InService lib r now × Grants r endpoint model × (p ≡ principal_from_record lib r)
  unfolding refresh_principal
  refresh_inv r endpoint model now p h =
      let step4 =
        fail_if (not (model == 0) && not (contains r.policy.allowed_models model)) forbidden in
      let step3 = fail_if (not (contains r.policy.allowed_endpoints endpoint)) forbidden in
      let step2 = fail_if (not (validate_policy lib r.policy)) invalid_policy in
      let step1 =
        fail_if (is_set r.revoked_at || is_set r.disabled_at || has_expired r.policy.expires_at now)
          invalid_key in
      let last : Result KeyError Principal = ok (principal_from_record lib r) in
      elim (bind_inv step1 (λ _. step2 >> (step3 >> (step4 >> last))) h) [
        | bound a usable h2 ↦ elim (bind_inv step2 (λ _. step3 >> (step4 >> last)) h2) [
          | bound b valid h3 ↦ elim (bind_inv step3 (λ _. step4 >> last) h3) [
            | bound c endpoint_in h4 ↦ elim (bind_inv step4 (λ _. last) h4) [
              | bound d model_in end ↦ (
                in_service lib r now (fail_if_inv _ _ usable) (fail_if_inv _ _ valid),
                (
                  ground (arith, fail_if_inv _ _ endpoint_in),
                  ground (arith, fail_if_inv _ _ model_in),
                ),
                ground (arith, end),
              )
            ]
          ]
        ]
      ]

  committed_inv :
      (db db' : List Record) (x : Result KeyError (Principal × List Record)) (p : Principal)
      → committed db x ≡ (ok p, db')
      → x ≡ ok (p, db')
  committed_inv db db' (ok (q, db'')) p h =
      ap
        (λ (y : Result KeyError Principal × List Record).
          elim y.0 as (λ _. Result KeyError (Principal × List Record)) [
            | ok q' ↦ ok (q', y.1)
            | err e ↦ err e
          ])
        h
  committed_inv db db' (err e) p h =
      cc (ap (λ (y : Result KeyError Principal × List Record). y.0) h)

  -- What a use that AuthorizePrincipal lets pass rests on.
  abbrev pub Granted : Bytes → ℕ → ℕ → ℕ → List Record → Principal → List Record → Type 0
  Granted id endpoint model now db p db' =
      (s : Record) × Stored s db
      × (same s.id id ≡ true)
      × InService lib s now
      × Grants s endpoint model
      × (p ≡ principal_from_record lib s)
      × (db' ≡ touch_rows s.id now db)

  -- The update of AuthorizePrincipal.
  abbrev touched : Record → ℕ → List Record → Principal → Result KeyError (Principal × List Record)
  touched s now db q =
      fail_if (not (rows_affected s.id now db == 1)) invalid_key >> ok (q, touch_rows s.id now db)

  update_inv :
      (s : Record) (id : Bytes) (endpoint model now : ℕ) (db db' : List Record) (p : Principal)
      → Stored s db
      → same s.id id ≡ true
      → (refresh_principal lib s endpoint model now >>= touched s now db) ≡ ok (p, db')
      → Granted id endpoint model now db p db'
  update_inv s id endpoint model now db db' p stored is_it h =
      elim (bind_inv (refresh_principal lib s endpoint model now) (touched s now db) h) [
        | bound q refreshed rest ↦
            elim (bind_inv (fail_if (not (rows_affected s.id now db == 1)) invalid_key)
              (λ _. given_back q) rest) [
                | bound u affected end ↦
                    let (service, grants, is_s) = refresh_inv s endpoint model now q refreshed in
                    let ends = ok_pair end in
                    (s, stored, is_it, service, grants, sym ends.0 ∙ is_s, sym ends.1)
              ]
      ]
    where
      given_back : Principal → Result KeyError (Principal × List Record)
      given_back q = ok (q, touch_rows s.id now db)

      ok_pair :
          {a b : Principal} {x y : List Record}
          → Path (Result KeyError (Principal × List Record)) (ok (a, x)) (ok (b, y))
          → (a ≡ b) × (x ≡ y)
      ok_pair {a} {b} {x} {y} e = (
        ap (λ r. elim r [ ok z ↦ z.0 | err e' ↦ a ]) e,
        ap (λ r. elim r [ ok z ↦ z.1 | err e' ↦ x ]) e,
      )

  authorize_principal_inv :
      (q : Principal) (endpoint model now : ℕ) (db db' : List Record) (p : Principal)
      → authorize_principal lib q endpoint model now db ≡ (ok p, db')
      → Granted q.id endpoint model now db p db'
  unfolding authorize_principal
  authorize_principal_inv q endpoint model now db db' p h =
      elim (Option-cases (find_record q.id db)) [
        | inl nothing ↦
            cc (
              sym (ap (λ o. step o) nothing)
              ∙ committed_inv db db' (step (find_record q.id db)) p h)
        | inr (s, found) ↦
            let (stored, is_it) = find-Stored q.id db s found in
            update_inv s q.id endpoint model now db db' p stored is_it
              (sym (ap (λ o. step o) found) ∙ committed_inv db db' (step (find_record q.id db)) p h)
      ]
    where
      step : Option Record → Result KeyError (Principal × List Record)
      step o = elim o [
        | none ↦ err invalid_key
        | some r ↦ refresh_principal lib r endpoint model now >>= touched r now db
      ]

  -- When Authorize lets a raw key pass for an endpoint and a model, then the table has a record whose
  -- digest is the one of the key and which was in service at the first reading of the clock: not
  -- revoked, not disabled, not expired and with a valid policy; a record of the same id is in service
  -- at the second reading and allows the endpoint, and the model if one is named; the principal is
  -- that record's; and the table changes only by the time of its last use.
  pub authorize_sound :
      (raw : Bytes) (endpoint model now later : ℕ) (db db' : List Record) (p : Principal)
      → authorize lib raw endpoint model now later db ≡ (ok p, db')
      → (r : Record) × Stored r db
        × KeyOf raw r
        × InService lib r now
        × Granted r.id endpoint model later db p db'
  unfolding authorize
  authorize_sound raw endpoint model now later db db' p h =
      from (authenticate lib raw now db) refl h
    where
      from :
          (a : Result KeyError Principal)
          → authenticate lib raw now db ≡ a
          → authorized lib a endpoint model later db ≡ (ok p, db')
          → (r : Record) × Stored r db
            × KeyOf raw r
            × InService lib r now
            × Granted r.id endpoint model later db p db'
      from (ok q) is h =
          let (r, stored, fits, service, is_r) = authenticate_inv raw now db q is in
          (
            r,
            stored,
            fits,
            service,
            subst (λ (q' : Principal). Granted q'.id endpoint model later db p db') is_r
                (authorize_principal_inv q endpoint model later db db' p h),
          )
      from (err e) is h = cc (ap (λ (y : Result KeyError Principal × List Record). y.0) h)
