-- ===== src/Keys.antt =====
-- internal/apikey/key.go and store.go: the API keys, their records in the database, and the
-- Authorizer, which tells from a raw key who calls. The random bytes, the clock and the HMAC are
-- arguments.
use codex_sub_proxy.Prelude.{
  ℕ, zero, suc, ◌+◌, ◌/◌, ◌%◌, List, [], ◌∷◌, ◌++◌, Bool, true, false, ◌&&◌, ◌||◌, not, ltb, leb,
  ◌==◌, length, take, drop, select, Option, none, some, Result, ok, err, ◌>>=◌, ◌>>◌, fail_if,
  if◌then◌else◌,
}
use codex_sub_proxy.Prelude.Int.{ℤ}
use codex_sub_proxy.Prelude.Bytes.{Bytes, is_blank, same, has_prefix}
use codex_sub_proxy.Quota.Policy.{Policy, validate_quota_policy}
pub mod Store
pub mod Sound
pub mod Granted
pub mod Form
pub mod Created
pub mod Tests

abbrev pub key_prefix : Bytes
key_prefix = b'c' ∷ b's' ∷ b'p' ∷ b'_' ∷ b'l' ∷ b'i' ∷ b'v' ∷ b'e' ∷ b'_' ∷ []

abbrev pub bearer : Bytes
bearer = b'B' ∷ b'e' ∷ b'a' ∷ b'r' ∷ b'e' ∷ b'r' ∷ b' ' ∷ []

-- Policy. Names, owners, endpoints and models are only compared, and so are numbers, 0 for the empty
-- text; `limits` has the quota fields.
pub record KeyPolicy : Type 0 where
  pub name : ℕ
  pub owner : ℕ
  pub allowed_endpoints : List ℕ
  pub allowed_models : List ℕ
  pub expires_at : Option ℕ
  pub limits : Policy ℤ

-- Record
pub record Record : Type 0 where
  pub id : Bytes
  pub prefix : Bytes
  pub digest : Bytes
  pub policy : KeyPolicy
  pub created_at : ℕ
  pub disabled_at : Option ℕ
  pub revoked_at : Option ℕ
  pub last_used_at : Option ℕ

pub record Principal : Type 0 where
  pub id : Bytes
  pub prefix : Bytes
  pub policy : KeyPolicy

pub data KeyError : Type 0 where
  invalid_key : KeyError
  forbidden : KeyError
  invalid_expiry : KeyError
  invalid_policy : KeyError
  taken : KeyError

-- What the code asks of libraries: HMAC-SHA256 with the key of the store, and the tests of the
-- validator's tags on the texts of a policy.
pub record KeyLibrary : Type 0 where
  pub digest_key : Bytes → Bytes
  pub valid_tags : KeyPolicy → Bool

abbrev pub is_set : Option ℕ → Bool
is_set none = false
is_set (some t) = true

-- `ExpiresAt != nil && !now.Before(ExpiresAt)`
abbrev pub has_expired : Option ℕ → ℕ → Bool
has_expired none now = false
has_expired (some t) now = leb t now

-- strings.IndexByte, none for -1.
unfoldable pub index_byte : ℕ → Bytes → Option ℕ
index_byte b [] = none
index_byte b (c ∷ cs) =
    let later = index_byte b cs in
    if c == b then some 0 else elim later [ none ↦ none | some i ↦ some (suc i) ]

abbrev between : ℕ → ℕ → ℕ → Bool
between low high c = leb low c && leb c high

-- The loops over the characters of the two parts of a key.
unfoldable pub key_bytes : Bytes → Bool
key_bytes [] = true
key_bytes (c ∷ cs) =
    (between b'a' b'z' c || between b'A' b'Z' c || between b'0' b'9' c || c == b'-' || c == b'_')
    && key_bytes cs

-- The two parts of a raw key, with the tests of their form.
unfoldable pub parse_key : Bytes → Result KeyError (Bytes × Bytes)
unfolding index_byte key_bytes
parse_key raw = do
  fail_if (length raw == 0 || ltb 256 (length raw) || not (has_prefix raw key_prefix)) invalid_key
  let rest = drop (length key_prefix) raw
  elim (index_byte b'_' rest) [
    | none ↦ err invalid_key
    | some separator ↦ do
      fail_if (ltb separator 8 || ltb 32 separator || suc separator == length rest) invalid_key
      let secret = drop (suc separator) rest
      fail_if (ltb (length secret) 32 || ltb 128 (length secret)) invalid_key
      fail_if (not (key_bytes (take separator rest)) || not (key_bytes secret)) invalid_key
      ok (take separator rest, secret)
  ]

abbrev pub zeros : ℕ → Bytes
zeros zero = []
zeros (suc n) = 0 ∷ zeros n

-- `copy(stored[:], digest)` and the comparison with the digest of the key and with its size.
unfoldable pub digest_matches : Bytes → Bytes → Bool
digest_matches wanted stored = same wanted (take 32 (stored ++ zeros 32)) && length stored == 32

-- The last record that matches.
unfoldable pub matching : Bytes → List Record → Option Record
unfolding digest_matches
matching wanted [] = none
matching wanted (r ∷ rs) =
    let later = matching wanted rs in
    elim later [ some m ↦ some m | none ↦ if digest_matches wanted r.digest then some r else none ]

module _ (lib : KeyLibrary) where
  abbrev pub valid_limits : Policy ℤ → Bool
  valid_limits p = elim (validate_quota_policy p) [ ok q ↦ true | err e ↦ false ]

  -- validatePolicy
  unfoldable pub validate_policy : KeyPolicy → Bool
  unfolding validate_quota_policy
  validate_policy p = lib.valid_tags p && valid_limits p.limits

  abbrev pub principal_from_record : Record → Principal
  principal_from_record r = record { id = r.id; prefix = r.prefix; policy = r.policy }

  -- The tests of a matching record, and Record.Policy.
  unfoldable pub admit_record : Record → ℕ → Result KeyError Principal
  unfolding validate_policy
  admit_record r now = do
    fail_if (is_set r.revoked_at || is_set r.disabled_at || has_expired r.policy.expires_at now)
        invalid_key
    fail_if (not (validate_policy r.policy)) invalid_policy
    ok (principal_from_record r)

  -- Authenticate; the candidates are at most one more than it allows.
  unfoldable pub authenticate : Bytes → ℕ → List Record → Result KeyError Principal
  unfolding parse_key matching admit_record
  authenticate raw now db = do
    (public, secret) ← parse_key raw
    let candidates = take 17 (select (λ r. same r.prefix (key_prefix ++ public)) db)
    fail_if (ltb 16 (length candidates)) invalid_key
    elim (matching (lib.digest_key raw) candidates) [
      | none ↦ err invalid_key
      | some r ↦ admit_record r now
    ]

  abbrev has_space : Bytes → Bool
  has_space [] = false
  has_space (c ∷ cs) = c == b' ' || c == 9 || c == 13 || c == 10 || has_space cs

  -- AuthenticateHeader
  unfoldable pub authenticate_header : Bytes → ℕ → List Record → Result KeyError Principal
  unfolding authenticate
  authenticate_header header now db = do
    fail_if (ltb 4096 (length header) || not (has_prefix header bearer)) invalid_key
    fail_if (has_space (drop (length bearer) header)) invalid_key
    authenticate (drop (length bearer) header) now db
