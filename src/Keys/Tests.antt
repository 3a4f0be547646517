-- ===== src/Keys/Tests.antt =====
-- The API keys (internal/apikey/store.go) on a concrete key.
use codex_sub_proxy.Prelude.{
  ℕ, zero, suc, ◌≡◌, refl, List, [], ◌∷◌, true, some, ok, err, length, arith,
}
use codex_sub_proxy.Prelude.Bytes.{Bytes}
use codex_sub_proxy.Quota.Tests.{raw}
use codex_sub_proxy.Keys.{
  KeyPolicy, Record, forbidden, invalid_key, KeyLibrary, zeros, authenticate, principal_from_record,
}
use codex_sub_proxy.Keys.Store.{generate_record, create_tx, authorize}
use codex_sub_proxy.Keys.Sound.{Stored, InService}
use codex_sub_proxy.Keys.Granted.{Granted, KeyOf, authorize_sound}
use codex_sub_proxy.Keys.Form.{AreBytes}
use codex_sub_proxy.Keys.Created.{create_tx-authenticate}

abbrev lib : KeyLibrary
lib = record { digest_key = λ text. length text ∷ zeros 31; valid_tags = λ p. true }

abbrev policy : KeyPolicy
policy = record {
  name = 1;
  owner = 2;
  allowed_endpoints = 4 ∷ 5 ∷ [];
  allowed_models = 6 ∷ [];
  expires_at = some 900;
  limits = raw;
}

abbrev public_bytes : Bytes
public_bytes = 1 ∷ 2 ∷ 3 ∷ 254 ∷ 5 ∷ 6 ∷ 7 ∷ 255 ∷ []

abbrev secret_bytes : Bytes
secret_bytes = zeros 32

abbrev raw_key : Bytes
raw_key = (generate_record lib policy public_bytes secret_bytes (9 ∷ []) 50).0

abbrev stored : Record
stored = (generate_record lib policy public_bytes secret_bytes (9 ∷ []) 50).1

zeros-AreBytes : (n : ℕ) → AreBytes (zeros n)
zeros-AreBytes zero = tt
zeros-AreBytes (suc n) = (omega arith, zeros-AreBytes n)

create_tx-authenticate_example :
    authenticate lib raw_key 60 (stored ∷ []) ≡ ok (principal_from_record lib stored)
unfolding create_tx
create_tx-authenticate_example =
    create_tx-authenticate lib policy public_bytes secret_bytes (9 ∷ []) 49 50 60 [] (stored ∷ [])
      raw_key stored refl refl
      (
        omega arith,
        (
          omega arith,
          (
            omega arith,
            (omega arith, (omega arith, (omega arith, (omega arith, (omega arith, tt))))),
          ),
        ),
      )
      (zeros-AreBytes 32) (λ text. refl) refl refl

-- A use that is not allowed, and one after the key has expired.
refused :
    (authorize lib raw_key 7 0 60 61 (stored ∷ []) ≡ (err forbidden, stored ∷ []))
    × (authorize lib raw_key 4 6 60 900 (stored ∷ []) ≡ (err invalid_key, stored ∷ []))
unfolding authorize create_tx
refused = (refl, refl)

abbrev used : List Record
used = record stored { last_used_at = some 61 } ∷ []

authorize_sound_example :
    (r : Record) × Stored r (stored ∷ [])
    × KeyOf lib raw_key r
    × InService lib r 60
    × Granted lib r.id 4 6 61 (stored ∷ []) (principal_from_record lib stored) used
unfolding authorize create_tx
authorize_sound_example =
    authorize_sound lib raw_key 4 6 60 61 (stored ∷ []) used (principal_from_record lib stored) refl
