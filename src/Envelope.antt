-- ===== src/Envelope.antt =====
-- internal/envelope/envelope.go: the encrypted envelope of credentials and payloads. A byte is a
-- number below 256. AES-GCM is not under the repository, so it is a parameter.
pub mod RoundTrip
pub mod Tests
use codex_sub_proxy.Prelude.{
  ℕ, ◌+◌, ◌*◌, ◌/◌, ◌%◌, ◌^◌, ◌≡◌, List, [], ◌∷◌, ◌++◌, Bool, true, false, ◌&&◌, ◌||◌, not, ltb,
  ◌==◌, length, take, drop, Option, none, some, Result, ok, err, ◌>>=◌, ◌>>◌, fail_if,
  if◌then◌else◌,
}

abbrev pub Bytes : Type 0
Bytes = List ℕ

abbrev pub key_size : ℕ
key_size = 32

abbrev pub nonce_size : ℕ
nonce_size = 12

abbrev pub tag_size : ℕ
tag_size = 16

abbrev pub max_previous_keys : ℕ
max_previous_keys = 4

abbrev pub max_plaintext_size : ℕ
max_plaintext_size = 2 ^ 20

-- The magic, the version of the envelope, that of the key, and the nonce.
abbrev pub header_size : ℕ
header_size = 4 + 1 + 4 + nonce_size

abbrev pub max_envelope_size : ℕ
max_envelope_size = header_size + max_plaintext_size + tag_size

abbrev pub max_ciphertext_size : ℕ
max_ciphertext_size = max_plaintext_size + tag_size

-- AES-256-GCM: `seal key nonce plaintext associated` and `open` of a ciphertext. Opening under the
-- same key, nonce and associated data gives the plaintext back, and the tag has 16 bytes.
pub record Aead : Type 0 where
  pub seal : Bytes → Bytes → Bytes → Bytes → Bytes
  pub open_sealed : Bytes → Bytes → Bytes → Bytes → Option Bytes
  pub open-seal :
      (key nonce plaintext associated : Bytes)
      → open_sealed key nonce (seal key nonce plaintext associated) associated ≡ some plaintext
  pub length-seal :
      (key nonce plaintext associated : Bytes)
      → length (seal key nonce plaintext associated) ≡ length plaintext + tag_size

pub data EnvelopeError : Type 0 where
  invalid_key_version : EnvelopeError
  invalid_key_size : EnvelopeError
  invalid_key_set : EnvelopeError
  invalid_domain : EnvelopeError
  too_large : EnvelopeError
  empty_input : EnvelopeError
  invalid_envelope : EnvelopeError
  unsupported_envelope : EnvelopeError
  key_unavailable : EnvelopeError
  not_authentic : EnvelopeError

pub record Key : Type 0 where
  pub version : ℕ
  pub bytes : Bytes

pub record KeySet : Type 0 where
  pub active : Key
  pub previous : List Key

unfoldable pub new_key : ℕ → Bytes → Result EnvelopeError Key
new_key version value = do
  fail_if (version == 0) invalid_key_version
  fail_if (not (length value == key_size)) invalid_key_size
  ok (record { version = version; bytes = value })

abbrev pub has_version : ℕ → List Key → Bool
has_version v [] = false
has_version v (k ∷ ks) = (k.version == v) || has_version v ks

-- `unique=Version,dive`: the versions are positive and differ.
abbrev pub versions_valid : List Key → Bool
versions_valid [] = true
versions_valid (k ∷ ks) =
    not (k.version == 0) && not (has_version k.version ks) && versions_valid ks

-- The rules of the two structs and keySetStructValidation.
unfoldable pub key_set_valid : KeySet → Bool
key_set_valid keys =
    not (keys.active.version == 0)
    && not (ltb max_previous_keys (length keys.previous))
    && versions_valid keys.previous
    && not (has_version keys.active.version keys.previous)

unfoldable pub new_key_set : Key → List Key → Result EnvelopeError KeySet
unfolding key_set_valid
new_key_set active previous =
    let keys : KeySet = record { active = active; previous = previous } in
    if key_set_valid keys then ok keys else err invalid_key_set

unfoldable pub find_previous : List Key → ℕ → Option Key
find_previous [] version = none
find_previous (k ∷ ks) version =
    let rest = find_previous ks version in if k.version == version then some k else rest

unfoldable pub find_key : KeySet → ℕ → Option Key
unfolding find_previous
find_key keys version =
    if keys.active.version == version then some keys.active else find_previous keys.previous version

-- "csp:credential:v1" and "csp:payload:v1"
unfoldable pub domain_tag : ℕ → Result EnvelopeError Bytes
domain_tag domain =
    if domain == 1
    then ok (
        b'c' ∷ b's' ∷ b'p' ∷ b':' ∷ b'c' ∷ b'r' ∷ b'e' ∷ b'd' ∷ b'e' ∷ b'n' ∷ b't' ∷ b'i' ∷ b'a'
        ∷ b'l' ∷ b':' ∷ b'v' ∷ b'1' ∷ [])
    else if domain == 2
    then ok (
        b'c' ∷ b's' ∷ b'p' ∷ b':' ∷ b'p' ∷ b'a' ∷ b'y' ∷ b'l' ∷ b'o' ∷ b'a' ∷ b'd' ∷ b':' ∷ b'v'
        ∷ b'1' ∷ [])
    else err invalid_domain

-- binary.BigEndian.PutUint32
abbrev pub put_uint32 : ℕ → Bytes
put_uint32 v = v / 2 ^ 24 % 256 ∷ v / 2 ^ 16 % 256 ∷ v / 2 ^ 8 % 256 ∷ v % 256 ∷ []

abbrev pub byte_at : ℕ → Bytes → ℕ
byte_at i bytes = elim (drop i bytes) [ [] ↦ 0 | b ∷ bs ↦ b ]

-- binary.BigEndian.Uint32 of the four bytes from an index on.
abbrev pub uint32_at : ℕ → Bytes → ℕ
uint32_at i bytes =
    byte_at i bytes * 2 ^ 24
    + byte_at (i + 1) bytes * 2 ^ 16
    + byte_at (i + 2) bytes * 2 ^ 8
    + byte_at (i + 3) bytes

-- The magic "CSPE" and the version 1.
abbrev pub preamble : Bytes
preamble = b'C' ∷ b'S' ∷ b'P' ∷ b'E' ∷ 1 ∷ []

-- sameMagic and the version's byte.
unfoldable pub same_preamble : Bytes → Bool
same_preamble header =
    byte_at 0 header == b'C'
    && byte_at 1 header == b'S'
    && byte_at 2 header == b'P'
    && byte_at 3 header == b'E'
    && byte_at 4 header == 1

abbrev pub make_header : ℕ → Bytes → Bytes
make_header version nonce = preamble ++ (put_uint32 version ++ nonce)

-- Encrypt, with the nonce that the random source gives.
unfoldable pub encrypt : Aead → Bytes → Bytes → ℕ → KeySet → Result EnvelopeError Bytes
unfolding key_set_valid domain_tag
encrypt aead nonce plaintext domain keys = do
  fail_if (not (key_set_valid keys)) invalid_key_set
  tag ← domain_tag domain
  fail_if (ltb max_plaintext_size (length plaintext)) too_large
  let header = make_header keys.active.version nonce
  let ciphertext = aead.seal keys.active.bytes nonce plaintext (tag ++ header)
  fail_if (ltb max_ciphertext_size (length ciphertext)) too_large
  ok (header ++ ciphertext)

abbrev pub or_fail : Option Key → Result EnvelopeError Key
or_fail none = err key_unavailable
or_fail (some k) = ok k

abbrev pub authentic : Option Bytes → Result EnvelopeError Bytes
authentic none = err not_authentic
authentic (some plaintext) = ok plaintext

unfoldable pub decrypt : Aead → Bytes → ℕ → KeySet → Result EnvelopeError Bytes
unfolding key_set_valid domain_tag same_preamble find_key
decrypt aead bytes domain keys = do
  fail_if (not (key_set_valid keys)) invalid_key_set
  tag ← domain_tag domain
  fail_if (length bytes == 0) empty_input
  fail_if (ltb max_envelope_size (length bytes)) too_large
  fail_if (ltb (length bytes) (header_size + tag_size)) invalid_envelope
  let header = take header_size bytes
  fail_if (not (same_preamble header)) unsupported_envelope
  key ← or_fail (find_key keys (uint32_at 5 header))
  let ciphertext = drop header_size bytes
  fail_if (ltb max_ciphertext_size (length ciphertext) || ltb (length ciphertext) tag_size)
      invalid_envelope
  plaintext ← authentic (aead.open_sealed key.bytes (drop 9 header) ciphertext (tag ++ header))
  fail_if (ltb max_plaintext_size (length plaintext)) too_large
  ok plaintext
