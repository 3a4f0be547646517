-- ===== src/Keys/Created.antt =====
-- A key that has just been created passes Authenticate (internal/apikey/store.go).
use codex_sub_proxy.Prelude.{
  ℕ, ◌≡◌, refl, sym, ap, ◌∙◌, subst, List, [], ◌∷◌, ◌++◌, true, false, ◌||◌, not, length, select,
  none, some, Result, ok, err, ◌>>◌, fail_if, fail_if_inv, bind_inv, bound, arith,
}
use codex_sub_proxy.Prelude.Bytes.{Bytes, same, same_refl}
use codex_sub_proxy.Keys.{
  KeyPolicy, Record, KeyError, invalid_expiry, invalid_policy, taken, KeyLibrary, is_set,
  has_expired, digest_matches, matching, validate_policy, principal_from_record, admit_record,
  authenticate,
}
use codex_sub_proxy.Keys.Store.{committed, generate_record, is_taken, create_tx}
use codex_sub_proxy.Keys.Form.{AreBytes, parse_key-encode_hex, digest_matches_self}

only_one :
    (lib : KeyLibrary) (r : Record) (db : List Record)
    → is_taken lib r db ≡ false
    → select (λ s. same s.prefix r.prefix) (db ++ r ∷ []) ≡ r ∷ []
only_one lib r [] free = rw (same_refl r.prefix) refl
only_one lib r (s ∷ db) free =
    let other : same s.prefix r.prefix ≡ false = ground (arith, free) in
    rw other (only_one lib r db (ground (arith, free)))

module _ (lib : KeyLibrary) where
  -- What CreateTx has passed through.
  create_inv :
      (policy : KeyPolicy) (public_bytes secret_bytes id_bytes : Bytes) (now later : ℕ)
      (db db' : List Record) (raw : Bytes) (r : Record)
      → create_tx lib policy public_bytes secret_bytes id_bytes now later db ≡ (ok (raw, r), db')
      → (validate_policy lib policy ≡ true)
        × (generate_record lib policy public_bytes secret_bytes id_bytes later ≡ (raw, r))
        × (is_taken lib r db ≡ false)
        × (db' ≡ db ++ r ∷ [])
  unfolding create_tx
  create_inv policy public_bytes secret_bytes id_bytes now later db db' raw r h =
      let made = generate_record lib policy public_bytes secret_bytes id_bytes later in
      let last : Result KeyError ((Bytes × Record) × List Record) =
        ok ((made.0, made.1), db ++ made.1 ∷ []) in
      let step3 = fail_if (is_taken lib made.1 db) taken in
      let step2 = fail_if (has_expired policy.expires_at now) invalid_expiry in
      let step1 = fail_if (not (validate_policy lib policy)) invalid_policy in
      elim (bind_inv step1 (λ _. step2 >> (step3 >> last))
        (opened (step1 >> (step2 >> (step3 >> last))) h)) [
          | bound a valid h2 ↦ elim (bind_inv step2 (λ _. step3 >> last) h2) [
            | bound b lives h3 ↦ elim (bind_inv step3 (λ _. last) h3) [
              | bound c free end ↦
                  let is_made : (made ≡ (raw, r)) × (db ++ made.1 ∷ [] ≡ db') = ok_pair end in
                  (
                    ground (arith, fail_if_inv _ _ valid),
                    is_made.0,
                    subst (λ (m : Bytes × Record). is_taken lib m.1 db ≡ false) is_made.0
                        (fail_if_inv _ _ free),
                    sym is_made.1 ∙ ap (λ (m : Bytes × Record). db ++ m.1 ∷ []) is_made.0,
                  )
            ]
          ]
        ]
    where
      opened :
          (x : Result KeyError ((Bytes × Record) × List Record))
          → committed db x ≡ (ok (raw, r), db')
          → x ≡ ok ((raw, r), db')
      opened (ok ((raw', r'), db'')) e =
          ap
            (λ (y : Result KeyError (Bytes × Record) × List Record).
              elim y.0 as (λ _. Result KeyError ((Bytes × Record) × List Record)) [
                | ok q ↦ ok (q, y.1)
                | err e' ↦ err e'
              ])
            e
      opened (err e') e = cc (ap (λ (y : Result KeyError (Bytes × Record) × List Record). y.0) e)

      ok_pair :
          {m n : Bytes × Record} {x y : List Record}
          → Path (Result KeyError ((Bytes × Record) × List Record)) (ok (m, x)) (ok (n, y))
          → (m ≡ n) × (x ≡ y)
      ok_pair {m} {n} {x} {y} e = (
        ap (λ k. elim k [ ok z ↦ z.0 | err e' ↦ m ]) e,
        ap (λ k. elim k [ ok z ↦ z.1 | err e' ↦ x ]) e,
      )

  admit_new :
      (r : Record) (at : ℕ)
      → r.revoked_at ≡ none
      → r.disabled_at ≡ none
      → has_expired r.policy.expires_at at ≡ false
      → validate_policy lib r.policy ≡ true
      → admit_record lib r at ≡ ok (principal_from_record lib r)
  unfolding admit_record
  admit_new r at not_revoked not_disabled lives valid =
      let usable : (is_set r.revoked_at
            || is_set r.disabled_at
            || has_expired r.policy.expires_at at)
          ≡ false =
        ap (λ o. is_set o || is_set r.disabled_at || has_expired r.policy.expires_at at) not_revoked
        ∙ ap (λ o. is_set o || has_expired r.policy.expires_at at) not_disabled
        ∙ lives in
      ground (arith, usable, valid)

  found_alone :
      (r : Record) (wanted : Bytes)
      → digest_matches wanted r.digest ≡ true
      → matching wanted (r ∷ []) ≡ some r
  unfolding matching
  found_alone r wanted fits = rw fits refl

  generated_passes :
      (policy : KeyPolicy) (public_bytes secret_bytes id_bytes : Bytes) (later at : ℕ)
      (db : List Record)
      → length public_bytes ≡ 8
      → length secret_bytes ≡ 32
      → AreBytes public_bytes
      → AreBytes secret_bytes
      → ((text : Bytes) → length (lib.digest_key text) ≡ 32)
      → validate_policy lib policy ≡ true
      → has_expired policy.expires_at at ≡ false
      → let m = generate_record lib policy public_bytes secret_bytes id_bytes later in
        is_taken lib m.1 db ≡ false
        → authenticate lib m.0 at (db ++ m.1 ∷ []) ≡ ok (principal_from_record lib m.1)
  unfolding generate_record authenticate
  generated_passes policy public_bytes secret_bytes id_bytes later at db p8 s32 all_public
        all_secret sized valid lives free =
      let m = generate_record lib policy public_bytes secret_bytes id_bytes later in
      rw
        (
          parse_key-encode_hex public_bytes secret_bytes p8 s32 all_public all_secret,
          only_one lib m.1 db free,
          found_alone m.1 (lib.digest_key m.0)
              (digest_matches_self (lib.digest_key m.0) (sized m.0)),
        )
        (admit_new m.1 at refl refl lives valid)

  -- The raw key that CreateTx gives back, from 8 and 32 random bytes, authenticates its caller as the
  -- record that CreateTx has stored, as long as the key has not expired, if a digest has 32 bytes.
  pub create_tx-authenticate :
      (policy : KeyPolicy) (public_bytes secret_bytes id_bytes : Bytes) (now later at : ℕ)
      (db db' : List Record) (raw : Bytes) (r : Record)
      → length public_bytes ≡ 8
      → length secret_bytes ≡ 32
      → AreBytes public_bytes
      → AreBytes secret_bytes
      → ((text : Bytes) → length (lib.digest_key text) ≡ 32)
      → create_tx lib policy public_bytes secret_bytes id_bytes now later db ≡ (ok (raw, r), db')
      → has_expired policy.expires_at at ≡ false
      → authenticate lib raw at db' ≡ ok (principal_from_record lib r)
  create_tx-authenticate policy public_bytes secret_bytes id_bytes now later at db db' raw r p8 s32
        all_public all_secret sized created lives =
      let (valid, made, free, after) =
        create_inv policy public_bytes secret_bytes id_bytes now later db db' raw r created in
      subst (λ rows. authenticate lib raw at rows ≡ ok (principal_from_record lib r)) (sym after)
        (subst
          (λ (m : Bytes × Record).
            is_taken lib m.1 db ≡ false
            → authenticate lib m.0 at (db ++ m.1 ∷ []) ≡ ok (principal_from_record lib m.1))
          made
          (generated_passes policy public_bytes secret_bytes id_bytes later at db p8 s32 all_public
            all_secret sized valid lives)
          free)
