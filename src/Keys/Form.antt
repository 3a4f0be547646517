-- ===== src/Keys/Form.antt =====
-- A generated key has the form that Authenticate takes apart (internal/apikey/key.go and store.go).
use codex_sub_proxy.Prelude.{
  ℕ, suc, ◌*◌, ◌/◌, ◌%◌, ◌<◌, ◌≡◌, refl, sym, ap, ◌∙◌, subst, [], ◌∷◌, ◌++◌, Bool, true, false,
  ◌&&◌, not, ◌==◌, length, take, drop, All, some, ok, arith, Bool-cases, inl, inr,
}
use codex_sub_proxy.Prelude.Bytes.{Bytes, same_refl, length-append}
use codex_sub_proxy.Keys.{key_prefix, index_byte, key_bytes, parse_key, zeros, digest_matches}
use codex_sub_proxy.Keys.Store.{hex_digit, encode_hex}

-- A list of bytes.
abbrev pub AreBytes : Bytes → Type 0
AreBytes bs = All (λ b. b < 256) bs

pub take_append : (a b : Bytes) → take (length a) (a ++ b) ≡ a
take_append [] b = refl
take_append (x ∷ a) b = ap (λ t. x ∷ t) (take_append a b)

pub length-encode_hex : (bs : Bytes) → length (encode_hex bs) ≡ 2 * length bs
unfolding encode_hex
length-encode_hex [] = refl
length-encode_hex (b ∷ bs) = ground (arith, length-encode_hex bs)

low_digit : (b : ℕ) → b % 16 < 16
low_digit b = omega arith

high_digit : (b : ℕ) → b < 256 → b / 16 < 16
high_digit b h = omega (arith, h)

-- A character of a key that is no separator.
abbrev plain : ℕ → Bool
plain c = key_bytes (c ∷ []) && not (c == b'_')

hex_is_plain : (d : ℕ) → d < 16 → plain (hex_digit d) ≡ true
unfolding key_bytes
hex_is_plain d h = ground (arith, h)

key_bytes-cons :
    (c : ℕ) (cs : Bytes) → plain c ≡ true → key_bytes cs ≡ true → key_bytes (c ∷ cs) ≡ true
unfolding key_bytes
key_bytes-cons c cs h rest = ground (arith, h, rest)

pub key_bytes-encode_hex : (bs : Bytes) → AreBytes bs → key_bytes (encode_hex bs) ≡ true
unfolding encode_hex key_bytes
key_bytes-encode_hex [] all = refl
key_bytes-encode_hex (b ∷ bs) (small, all) =
    key_bytes-cons (hex_digit (b / 16)) (hex_digit (b % 16) ∷ encode_hex bs)
      (hex_is_plain (b / 16) (high_digit b small))
      (key_bytes-cons (hex_digit (b % 16)) (encode_hex bs) (hex_is_plain (b % 16) (low_digit b))
        (key_bytes-encode_hex bs all))

index_byte-cons :
    (c : ℕ) (cs : Bytes) (n : ℕ)
    → plain c ≡ true
    → index_byte b'_' cs ≡ some n
    → index_byte b'_' (c ∷ cs) ≡ some (suc n)
unfolding index_byte
index_byte-cons c cs n h rest = elim (Bool-cases (c == b'_')) [
  | inl is_mark ↦ cc (sym h ∙ not_plain c is_mark)
  | inr other ↦ rw (other, rest) refl
]
  where
    not_plain : (c : ℕ) → (c == b'_') ≡ true → plain c ≡ false
    not_plain c e = ground (arith, e)

index_byte-encode_hex :
    (bs rest : Bytes)
    → AreBytes bs
    → index_byte b'_' (encode_hex bs ++ b'_' ∷ rest) ≡ some (length (encode_hex bs))
unfolding encode_hex index_byte
index_byte-encode_hex [] rest all = refl
index_byte-encode_hex (b ∷ bs) rest (small, all) =
    index_byte-cons (hex_digit (b / 16)) (hex_digit (b % 16) ∷ encode_hex bs ++ b'_' ∷ rest)
      (suc (length (encode_hex bs))) (hex_is_plain (b / 16) (high_digit b small))
      (index_byte-cons (hex_digit (b % 16)) (encode_hex bs ++ b'_' ∷ rest) (length (encode_hex bs))
        (hex_is_plain (b % 16) (low_digit b)) (index_byte-encode_hex bs rest all))

drop_past : (a : Bytes) (x : ℕ) (b : Bytes) → drop (suc (length a)) (a ++ x ∷ b) ≡ b
drop_past [] x b = refl
drop_past (y ∷ a) x b = drop_past a x b

-- The parts of a key come apart again.
pub parse_key-parts :
    (public secret : Bytes)
    → length public ≡ 16
    → length secret ≡ 64
    → index_byte b'_' (public ++ b'_' ∷ secret) ≡ some (length public)
    → key_bytes public ≡ true
    → key_bytes secret ≡ true
    → parse_key (key_prefix ++ public ++ b'_' ∷ secret) ≡ ok (public, secret)
unfolding parse_key
parse_key-parts public secret p16 s64 mark ok_public ok_secret =
    let len : length (public ++ b'_' ∷ secret) ≡ 81 =
      length-append public (b'_' ∷ secret) ∙ ground (arith, p16, s64) in
    let front = take_append public (b'_' ∷ secret) in
    let back = drop_past public b'_' secret in
    rw (len, mark, front, back, p16, s64, ok_public, ok_secret) (rw len refl)

-- A key made of random bytes.
pub parse_key-encode_hex :
    (public secret : Bytes)
    → length public ≡ 8
    → length secret ≡ 32
    → AreBytes public
    → AreBytes secret
    → parse_key (key_prefix ++ encode_hex public ++ b'_' ∷ encode_hex secret)
      ≡ ok (encode_hex public, encode_hex secret)
parse_key-encode_hex public secret p8 s32 all_public all_secret =
    parse_key-parts (encode_hex public) (encode_hex secret)
      (length-encode_hex public ∙ ap (λ n. 2 * n) p8)
      (length-encode_hex secret ∙ ap (λ n. 2 * n) s32)
      (index_byte-encode_hex public (encode_hex secret) all_public)
      (key_bytes-encode_hex public all_public) (key_bytes-encode_hex secret all_secret)

take_exact : (n : ℕ) (a b : Bytes) → length a ≡ n → take n (a ++ b) ≡ a
take_exact n a b e = subst (λ k. take k (a ++ b) ≡ a) e (take_append a b)

-- A digest matches itself.
pub digest_matches_self :
    (digest : Bytes) → length digest ≡ 32 → digest_matches digest digest ≡ true
unfolding digest_matches
digest_matches_self digest e = rw (take_exact 32 digest (zeros 32) e, same_refl digest, e) refl
