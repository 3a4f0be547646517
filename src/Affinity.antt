-- ===== src/Affinity.antt =====
-- internal/server/session.go: the hash under which the requests of a session keep their account, with
-- RequestHeaderConfig of internal/codex/accounts.go. SHA-256 with its hexadecimal print is an
-- argument.
use codex_sub_proxy.Prelude.{
  ℕ, List, [], ◌∷◌, ◌++◌, Bool, true, false, ◌&&◌, ◌||◌, not, ltb, ◌==◌, length, Option, none, some,
  if◌then◌else◌,
}
use codex_sub_proxy.Prelude.Bytes.{Bytes, is_blank, same}
pub mod Distinct
pub mod Tests

-- The texts of RequestHeaderConfig.
pub record Headers : Type 0 where
  pub session_id : Bytes
  pub thread_id : Bytes

-- `strings.ContainsAny(value, "\x00\r\n")`
abbrev pub has_breaks : Bytes → Bool
has_breaks [] = false
has_breaks (c ∷ cs) = c == 0 || c == 13 || c == 10 || has_breaks cs

abbrev pub bad_value : Bytes → Bool
bad_value value = ltb 256 (length value) || has_breaks value

-- Validate
unfoldable pub valid_headers : Headers → Bool
valid_headers h = not (bad_value h.session_id) && not (bad_value h.thread_id)

-- "codex-sub-proxy/session-affinity/v1"
abbrev pub session_affinity_hash_salt : Bytes
session_affinity_hash_salt =
    b'c' ∷ b'o' ∷ b'd' ∷ b'e' ∷ b'x' ∷ b'-' ∷ b's' ∷ b'u' ∷ b'b' ∷ b'-' ∷ b'p' ∷ b'r' ∷ b'o' ∷ b'x'
    ∷ b'y' ∷ b'/' ∷ b's' ∷ b'e' ∷ b's' ∷ b's' ∷ b'i' ∷ b'o' ∷ b'n' ∷ b'-' ∷ b'a' ∷ b'f' ∷ b'f'
    ∷ b'i' ∷ b'n' ∷ b'i' ∷ b't' ∷ b'y' ∷ b'/' ∷ b'v' ∷ b'1' ∷ []

abbrev pub session_tag : Bytes
session_tag = b's' ∷ b'e' ∷ b's' ∷ b's' ∷ b'i' ∷ b'o' ∷ b'n' ∷ b'_' ∷ b'i' ∷ b'd' ∷ []

abbrev pub thread_tag : Bytes
thread_tag = b't' ∷ b'h' ∷ b'r' ∷ b'e' ∷ b'a' ∷ b'd' ∷ b'_' ∷ b'i' ∷ b'd' ∷ []

abbrev pub session_part : Bytes → Bytes
session_part session = if is_blank session then [] else session_tag ++ 0 ∷ session

abbrev pub with_thread : Bytes → Bytes → Bytes
with_thread identity thread =
    if is_blank thread
    then identity
    else (if is_blank identity then [] else identity ++ 0 ∷ []) ++ (thread_tag ++ 0 ∷ thread)

-- sessionAffinityIdentity
unfoldable pub session_affinity_identity : Headers → Bytes
session_affinity_identity h = with_thread (session_part h.session_id) h.thread_id

-- The bytes that sessionAffinityHash hashes; none where it gives the empty text.
unfoldable pub affinity_input : Bytes → Headers → Option Bytes
unfolding valid_headers session_affinity_identity
affinity_input api_key_id h =
    if not (valid_headers h)
    then none
    else if is_blank (session_affinity_identity h) || is_blank api_key_id
    then none
    else some (session_affinity_hash_salt ++ 0 ∷ (api_key_id ++ 0 ∷ session_affinity_identity h))

-- sessionAffinityHash
unfoldable pub session_affinity_hash : (Bytes → Bytes) → Bytes → Headers → Bytes
unfolding affinity_input
session_affinity_hash digest api_key_id h = elim (affinity_input api_key_id h) [
  | none ↦ []
  | some x ↦ digest x
]

-- sessionAffinityHashForAccount
unfoldable pub session_affinity_hash_for_account : Bytes → Bytes → Bytes → Bytes
session_affinity_hash_for_account hash hinted account =
    if is_blank hash || (not (is_blank hinted) && not (same hinted account)) then [] else hash
