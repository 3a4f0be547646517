-- ===== src/Envelope/Tests.antt =====
-- The envelope with a toy cipher (internal/envelope/envelope.go): the plaintext and a tag of zeros.
use codex_sub_proxy.Prelude.{◌-◌, ◌≡◌, refl, ap, [], ◌∷◌, ◌++◌, length, take, some, ok, arith}
use codex_sub_proxy.Envelope.{
  Bytes, Aead, Key, KeySet, key_set_valid, find_key, domain_tag, encrypt, decrypt,
}
use codex_sub_proxy.Envelope.RoundTrip.{take-++, length-++, decrypt-encrypt}

abbrev zeros : Bytes
zeros = 0 ∷ 0 ∷ 0 ∷ 0 ∷ 0 ∷ 0 ∷ 0 ∷ 0 ∷ 0 ∷ 0 ∷ 0 ∷ 0 ∷ 0 ∷ 0 ∷ 0 ∷ 0 ∷ []

untagged : (p : Bytes) → take (length (p ++ zeros) - 16) (p ++ zeros) ≡ p
untagged p = take-++ p zeros (length (p ++ zeros) - 16) (ground (arith, length-++ p zeros))

abbrev toy : Aead
toy = record {
  seal = λ key nonce p associated. p ++ zeros;
  open_sealed = λ key nonce c associated. some (take (length c - 16) c);
  open-seal = λ key nonce p associated. ap some (untagged p);
  length-seal = λ key nonce p associated. length-++ p zeros;
}

abbrev old_key : Key
old_key = record { version = 7; bytes = 1 ∷ 2 ∷ [] }

abbrev new_key : Key
new_key = record { version = 8; bytes = 3 ∷ 4 ∷ [] }

abbrev old_keys : KeySet
old_keys = record { active = old_key; previous = [] }

abbrev rotated : KeySet
rotated = record { active = new_key; previous = old_key ∷ [] }

abbrev nonce : Bytes
nonce = 1 ∷ 2 ∷ 3 ∷ 4 ∷ 5 ∷ 6 ∷ 7 ∷ 8 ∷ 9 ∷ 10 ∷ 11 ∷ 12 ∷ []

abbrev payload_tag : Bytes
payload_tag =
    b'c' ∷ b's' ∷ b'p' ∷ b':' ∷ b'p' ∷ b'a' ∷ b'y' ∷ b'l' ∷ b'o' ∷ b'a' ∷ b'd' ∷ b':' ∷ b'v' ∷ b'1'
    ∷ []

decrypt-encrypt_example :
    (bytes : Bytes) × (encrypt toy nonce (9 ∷ 8 ∷ 7 ∷ []) 2 old_keys ≡ ok bytes)
    × (decrypt toy bytes 2 rotated ≡ ok (9 ∷ 8 ∷ 7 ∷ []))
unfolding key_set_valid domain_tag find_key
decrypt-encrypt_example =
    decrypt-encrypt toy nonce (9 ∷ 8 ∷ 7 ∷ []) 2 old_keys rotated payload_tag refl (ground arith)
      refl refl (ground arith) refl refl
