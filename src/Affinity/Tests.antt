-- ===== src/Affinity/Tests.antt =====
-- The session hash (internal/server/session.go) on concrete headers.
use codex_sub_proxy.Prelude.{◌≡◌, refl, [], ◌∷◌}
use codex_sub_proxy.Prelude.Bytes.{Bytes}
use codex_sub_proxy.Affinity.{Headers, session_affinity_hash, session_affinity_hash_for_account}
use codex_sub_proxy.Affinity.Distinct.{affinity_input_distinct}

abbrev headers : Headers
headers = record { session_id = b's' ∷ []; thread_id = b't' ∷ [] }

abbrev key : Bytes
key = b'k' ∷ []

abbrev hashed : Bytes
hashed = session_affinity_hash (λ x. x) (b'k' ∷ []) headers

nothing_hashed :
    session_affinity_hash (λ x. x) (b'k' ∷ []) (record { session_id = []; thread_id = [] }) ≡ []
unfolding session_affinity_hash
nothing_hashed = refl

account_hash : session_affinity_hash_for_account (b'h' ∷ []) (b'a' ∷ []) (b'b' ∷ []) ≡ []
unfolding session_affinity_hash_for_account
account_hash = refl

affinity_input_distinct_example :
    (key ≡ key)
    × (headers.session_id ≡ headers.session_id)
    × (headers.thread_id ≡ headers.thread_id)
unfolding session_affinity_hash
affinity_input_distinct_example =
    affinity_input_distinct key key headers headers hashed refl refl refl refl
