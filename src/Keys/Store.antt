-- ===== src/Keys/Store.antt =====
-- internal/apikey/store.go and key.go: the creation of a key, and AuthorizePrincipal. The table of the
-- keys is a list of records; a transaction gives back the table that it was called with when it fails.
use codex_sub_proxy.Prelude.{
  ℕ, ◌+◌, ◌/◌, ◌%◌, List, [], ◌∷◌, ◌++◌, Bool, false, ◌&&◌, ◌||◌, not, ltb, ◌==◌, count_if, Option,
  none, some, Result, ok, err, ◌>>=◌, ◌>>◌, fail_if, if◌then◌else◌,
}
use codex_sub_proxy.Prelude.Bytes.{Bytes, same}
use codex_sub_proxy.Keys.{
  key_prefix, KeyPolicy, Record, Principal, KeyError, invalid_key, forbidden, invalid_expiry,
  invalid_policy, taken, KeyLibrary, is_set, has_expired, validate_policy, principal_from_record,
  authenticate,
}

-- hex.EncodeToString
abbrev pub hex_digit : ℕ → ℕ
hex_digit d = if ltb d 10 then 48 + d else 87 + d

unfoldable pub encode_hex : Bytes → Bytes
encode_hex [] = []
encode_hex (b ∷ bs) = hex_digit (b / 16) ∷ hex_digit (b % 16) ∷ encode_hex bs

abbrev pub contains : List ℕ → ℕ → Bool
contains [] wanted = false
contains (v ∷ vs) wanted = v == wanted || contains vs wanted

-- The record of an id.
abbrev pub find_record : Bytes → List Record → Option Record
find_record id [] = none
find_record id (r ∷ rs) = let later = find_record id rs in if same r.id id then some r else later

-- The rows that the update of last_used_at is for, and the update.
abbrev pub in_use : Bytes → ℕ → Record → Bool
in_use id now r =
    same r.id id
    && not (is_set r.revoked_at)
    && not (is_set r.disabled_at)
    && not (has_expired r.policy.expires_at now)

abbrev pub later_of : Option ℕ → ℕ → Option ℕ
later_of none now = some now
later_of (some t) now = if ltb t now then some now else some t

abbrev pub touch : ℕ → Record → Record
touch now r = record r { last_used_at = later_of r.last_used_at now }

unfoldable pub touch_rows : Bytes → ℕ → List Record → List Record
touch_rows id now [] = []
touch_rows id now (r ∷ rs) = (if in_use id now r then touch now r else r) ∷ touch_rows id now rs

unfoldable pub rows_affected : Bytes → ℕ → List Record → ℕ
rows_affected id now [] = 0
rows_affected id now (r ∷ rs) = count_if (in_use id now r) + rows_affected id now rs

abbrev pub committed :
    {A : Type 0} → List Record → Result KeyError (A × List Record) → Result KeyError A × List Record
committed db (ok (a, db')) = (ok a, db')
committed db (err e) = (err e, db)

module _ (lib : KeyLibrary) where
  -- The policy of the loaded record, and its tests for the endpoint and the model.
  unfoldable pub refresh_principal : Record → ℕ → ℕ → ℕ → Result KeyError Principal
  unfolding validate_policy
  refresh_principal r endpoint model now = do
    fail_if (is_set r.revoked_at || is_set r.disabled_at || has_expired r.policy.expires_at now)
        invalid_key
    fail_if (not (validate_policy lib r.policy)) invalid_policy
    fail_if (not (contains r.policy.allowed_endpoints endpoint)) forbidden
    fail_if (not (model == 0) && not (contains r.policy.allowed_models model)) forbidden
    ok (principal_from_record lib r)

  -- AuthorizePrincipal
  unfoldable pub authorize_principal :
      Principal → ℕ → ℕ → ℕ → List Record → Result KeyError Principal × List Record
  unfolding refresh_principal touch_rows rows_affected
  authorize_principal p endpoint model now db = committed db (elim (find_record p.id db) [
    | none ↦ err invalid_key
    | some r ↦ do
      refreshed ← refresh_principal r endpoint model now
      fail_if (not (rows_affected r.id now db == 1)) invalid_key
      ok (refreshed, touch_rows r.id now db)
  ])

  abbrev pub authorized :
      Result KeyError Principal → ℕ → ℕ → ℕ → List Record → Result KeyError Principal × List Record
  authorized (ok p) endpoint model now db = authorize_principal p endpoint model now db
  authorized (err e) endpoint model now db = (err e, db)

  -- Authorize; the two parts read the clock one after the other.
  unfoldable pub authorize :
      Bytes → ℕ → ℕ → ℕ → ℕ → List Record → Result KeyError Principal × List Record
  unfolding authenticate authorize_principal
  authorize raw endpoint model now later db =
      authorized (authenticate lib raw now db) endpoint model later db

  -- generateRecord with its three draws of random bytes.
  unfoldable pub generate_record : KeyPolicy → Bytes → Bytes → Bytes → ℕ → Bytes × Record
  unfolding encode_hex
  generate_record policy public_bytes secret_bytes id_bytes now =
      let raw = key_prefix ++ encode_hex public_bytes ++ b'_' ∷ encode_hex secret_bytes in
      (
        raw,
        record {
          id = encode_hex id_bytes;
          prefix = key_prefix ++ encode_hex public_bytes;
          digest = lib.digest_key raw;
          policy = policy;
          created_at = now;
          disabled_at = none;
          revoked_at = none;
          last_used_at = none;
        },
      )

  -- The row of a key that the unique columns let in.
  abbrev pub is_taken : Record → List Record → Bool
  is_taken r [] = false
  is_taken r (s ∷ rs) = same s.id r.id || same s.prefix r.prefix || is_taken r rs

  -- CreateTx; the clock is read for the expiry and again for the record.
  unfoldable pub create_tx :
      KeyPolicy
      → Bytes
      → Bytes
      → Bytes
      → ℕ
      → ℕ
      → List Record
      → Result KeyError (Bytes × Record) × List Record
  unfolding validate_policy generate_record
  create_tx policy public_bytes secret_bytes id_bytes now later db = committed db (do
    fail_if (not (validate_policy lib policy)) invalid_policy
    fail_if (has_expired policy.expires_at now) invalid_expiry
    let (raw, r) = generate_record policy public_bytes secret_bytes id_bytes later
    fail_if (is_taken r db) taken
    ok ((raw, r), db ++ r ∷ []))
