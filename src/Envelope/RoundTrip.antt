-- ===== src/Envelope/RoundTrip.antt =====
-- What Encrypt seals, Decrypt opens, also after the keys have been rotated
-- (internal/envelope/envelope.go).
use codex_sub_proxy.Prelude.{
  ℕ, zero, suc, ◌+◌, ◌^◌, ◌≤◌, ◌<◌, ◌≡◌, refl, ap, ◌∙◌, [], ◌∷◌, ◌++◌, true, false, ltb, ◌==◌,
  length, take, drop, some, ok, arith,
}
use codex_sub_proxy.Envelope.{
  Bytes, nonce_size, tag_size, header_size, max_plaintext_size, max_envelope_size,
  max_ciphertext_size, Aead, Key, KeySet, key_set_valid, find_key, domain_tag, uint32_at,
  same_preamble, make_header, encrypt, decrypt,
}

pub take-++ : (xs ys : Bytes) (n : ℕ) → length xs ≡ n → take n (xs ++ ys) ≡ xs
take-++ [] ys zero e = refl
take-++ [] ys (suc n) e = ground (arith, e)
take-++ (x ∷ xs) ys zero e = ground (arith, e)
take-++ (x ∷ xs) ys (suc n) e = ap (λ zs. x ∷ zs) (take-++ xs ys n (ground (arith, e)))

drop-++ : (xs ys : Bytes) (n : ℕ) → length xs ≡ n → drop n (xs ++ ys) ≡ ys
drop-++ [] ys zero e = refl
drop-++ [] ys (suc n) e = ground (arith, e)
drop-++ (x ∷ xs) ys zero e = ground (arith, e)
drop-++ (x ∷ xs) ys (suc n) e = drop-++ xs ys n (ground (arith, e))

pub length-++ : (xs ys : Bytes) → length (xs ++ ys) ≡ length xs + length ys
length-++ [] ys = ground arith
length-++ (x ∷ xs) ys = ground (arith, length-++ xs ys)

uint32-put : (v : ℕ) (nonce : Bytes) → v < 2 ^ 32 → uint32_at 5 (make_header v nonce) ≡ v
uint32-put v nonce h = ground (arith, h)

same_preamble-header : (v : ℕ) (nonce : Bytes) → same_preamble (make_header v nonce) ≡ true
unfolding same_preamble
same_preamble-header v nonce = refl

length-header :
    (v : ℕ) (nonce : Bytes) → length nonce ≡ nonce_size → length (make_header v nonce) ≡ header_size
length-header v nonce h = ground (arith, h)

-- Decrypt succeeds when each of its steps does.
decrypt_steps :
    (aead : Aead) (bytes : Bytes) (domain : ℕ) (keys : KeySet) (tag header ciphertext : Bytes)
    (key : Key) (plaintext : Bytes)
    → key_set_valid keys ≡ true
    → domain_tag domain ≡ ok tag
    → (length bytes == 0) ≡ false
    → ltb max_envelope_size (length bytes) ≡ false
    → ltb (length bytes) (header_size + tag_size) ≡ false
    → take header_size bytes ≡ header
    → drop header_size bytes ≡ ciphertext
    → same_preamble header ≡ true
    → find_key keys (uint32_at 5 header) ≡ some key
    → ltb max_ciphertext_size (length ciphertext) ≡ false
    → ltb (length ciphertext) tag_size ≡ false
    → aead.open_sealed key.bytes (drop 9 header) ciphertext (tag ++ header) ≡ some plaintext
    → ltb max_plaintext_size (length plaintext) ≡ false
    → decrypt aead bytes domain keys ≡ ok plaintext
unfolding decrypt
decrypt_steps aead bytes domain keys tag header ciphertext key plaintext h1 h2 h3 h4 h5 h6 h7 h8 h9
      h10 h11 h12 h13 =
    rw (h1, h2, h3, h4, h5, h6, h7, h8, h9, h10, h11, h12, h13) refl

length-envelope :
    (aead : Aead) (key nonce plaintext associated header : Bytes)
    → length header ≡ header_size
    → length (header ++ aead.seal key nonce plaintext associated)
      ≡ header_size + (length plaintext + tag_size)
length-envelope aead key nonce plaintext associated header h =
    length-++ header (aead.seal key nonce plaintext associated)
    ∙ ground (arith, h, aead.length-seal key nonce plaintext associated)

encrypt_steps :
    (aead : Aead) (nonce plaintext : Bytes) (domain : ℕ) (keys : KeySet) (tag : Bytes)
    → key_set_valid keys ≡ true
    → domain_tag domain ≡ ok tag
    → ltb max_plaintext_size (length plaintext) ≡ false
    → ltb max_ciphertext_size (
        length (
          aead.seal keys.active.bytes nonce plaintext
            (tag ++ make_header keys.active.version nonce)))
      ≡ false
    → encrypt aead nonce plaintext domain keys
      ≡ ok (
          make_header keys.active.version nonce
          ++ aead.seal keys.active.bytes nonce plaintext
              (tag ++ make_header keys.active.version nonce))
unfolding encrypt
encrypt_steps aead nonce plaintext domain keys tag h1 h2 h3 h4 = rw (h1, h2, h3, h4) refl

-- With a nonce of 12 bytes and a key version of 32 bits, a plaintext that is not too large is
-- encrypted under valid keys and a known domain, and what Encrypt gives is opened in that domain
-- by every valid set of keys in which the version of the key still finds it: the same set, or a
-- later one that holds the key as a previous one.
pub decrypt-encrypt :
    (aead : Aead) (nonce plaintext : Bytes) (domain : ℕ) (keys later : KeySet) (tag : Bytes)
    → length nonce ≡ nonce_size
    → keys.active.version < 2 ^ 32
    → key_set_valid keys ≡ true
    → domain_tag domain ≡ ok tag
    → length plaintext ≤ max_plaintext_size
    → key_set_valid later ≡ true
    → find_key later keys.active.version ≡ some keys.active
    → (bytes : Bytes) × (encrypt aead nonce plaintext domain keys ≡ ok bytes)
      × (decrypt aead bytes domain later ≡ ok plaintext)
decrypt-encrypt aead nonce plaintext domain keys later tag size word valid known small valid'
      found =
    let header = make_header keys.active.version nonce in
    let sealed = aead.seal keys.active.bytes nonce plaintext (tag ++ header) in
    let sealed_size = aead.length-seal keys.active.bytes nonce plaintext (tag ++ header) in
    let whole =
      length-envelope aead keys.active.bytes nonce plaintext (tag ++ header) header
        (length-header keys.active.version nonce size) in
    (
      header ++ sealed,
      encrypt_steps aead nonce plaintext domain keys tag valid known (ground (arith, small))
          (ground (arith, sealed_size, small)),
      decrypt_steps aead (header ++ sealed) domain later tag header sealed keys.active plaintext
          valid' known (ground (arith, whole)) (ground (arith, whole, small))
          (ground (arith, whole))
          (take-++ header sealed header_size (length-header keys.active.version nonce size))
          (drop-++ header sealed header_size (length-header keys.active.version nonce size))
          (same_preamble-header keys.active.version nonce)
          (ap (find_key later) (uint32-put keys.active.version nonce word) ∙ found)
          (ground (arith, sealed_size, small)) (ground (arith, sealed_size))
          (aead.open-seal keys.active.bytes nonce plaintext (tag ++ header))
          (ground (arith, small)),
    )
