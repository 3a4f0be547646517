-- ===== src/Quota/Balance.antt =====
-- The books of the quota store (internal/apikey/quota.go): what the tables say of one another.
use codex_sub_proxy.Prelude.{
  ℕ, ◌≡◌, ◌⊎◌, Option, none, some, Bool, true, false, ◌&&◌, ◌||◌, List, ◌==◌, sum, count_if, All,
  if◌then◌else◌,
}
use codex_sub_proxy.Prelude.Table.{find, Unique}
use codex_sub_proxy.Quota.Types.{
  Dim, amount, QuotaState, QuotaBucket, Reservation, Status, is_pending, is_finalizing, Db,
}
use codex_sub_proxy.Quota.Rows.{state_key, bucket_key, reservation_key}

-- A reservation that holds its amounts: not yet closed or released.
abbrev pub is_open : Status → Bool
is_open s = is_pending s || is_finalizing s

abbrev pub active_of : Option QuotaState → ℕ
active_of none = 0
active_of (some s) = s.active_requests

abbrev pub active_in : ℕ → List QuotaState → ℕ
active_in key_id states = active_of (find state_key key_id states)

abbrev pub active_weight : ℕ → Reservation → ℕ
active_weight key_id r = count_if (is_open r.status && r.key_id == key_id)

abbrev pub refers_to : ℕ → Option ℕ → Bool
refers_to id none = false
refers_to id (some b) = b == id

abbrev pub held_weight : Dim → ℕ → Reservation → ℕ
held_weight d id r =
    if is_open r.status && refers_to id r.bucket_id then amount d r.requested else 0

-- An open reservation names a bucket that is stored, or belongs to no period.
abbrev pub HasBucket : List QuotaBucket → Reservation → Type 0
HasBucket buckets r =
    is_open r.status ≡ true
    → ((r.bucket_id ≡ none) × (r.period_start ≡ 0))
      ⊎ ((id : ℕ) × (b : QuotaBucket) × (r.bucket_id ≡ some id)
          × (find bucket_key id buckets ≡ some b))

-- The active requests of a key are its open reservations, and what a bucket has reserved is the sum
-- of what the open reservations that name it have asked for.
pub record Balanced (db : Db) : Type 0 where
  pub active :
      (key_id : ℕ) → active_in key_id db.states ≡ sum (active_weight key_id) db.reservations
  pub reserved :
      (d : Dim) (id : ℕ) (b : QuotaBucket)
      → find bucket_key id db.buckets ≡ some b
      → amount d b.reserved ≡ sum (held_weight d id) db.reservations
  pub has_bucket : All (HasBucket db.buckets) db.reservations
  pub unique : Unique bucket_key db.buckets
  pub unique_rows : Unique reservation_key db.reservations
  pub named : find bucket_key 0 db.buckets ≡ none
