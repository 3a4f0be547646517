-- ===== src/Quota/Opening.antt =====
-- lockQuotaBucket (internal/apikey/quota.go) on balanced tables: the bucket of the current period is
-- found or made, and the books stay balanced.
use mathlib.Core.Option
use codex_sub_proxy.Prelude.{
  ℕ, ◌≡◌, refl, ◌≢◌, inl, inr, Option, none, some, List, [], ◌∷◌, ◌&&◌, ◌==◌, if◌then◌else◌, arith,
  ok, sum, All, Bool-cases, Option-cases,
}
use codex_sub_proxy.Prelude.Table.{
  find, insert, modify, Unique, find-insert, find-modify, insert-Unique, modify-Unique, All-map,
}
use codex_sub_proxy.Quota.Types.{
  Dim, request, token, image, cost, amount, QuotaBucket, Reservation, Db,
}
use codex_sub_proxy.Quota.Rows.{
  bucket_key, find_period, lock_quota_bucket, no_amounts, touch_bucket, new_bucket,
}
use codex_sub_proxy.Quota.Balance.{is_open, refers_to, held_weight, HasBucket, Balanced}
use codex_sub_proxy.Quota.Closing.{HasBucket-stored}

-- A bucket that is found by its period is the one stored under its id.
find_period-find :
    (key_id start : ℕ) (b : QuotaBucket) (buckets : List QuotaBucket)
    → Unique bucket_key buckets
    → find_period key_id start buckets ≡ some b
    → find bucket_key b.id buckets ≡ some b
unfolding find find_period
find_period-find key_id start b [] u e = cc
find_period-find key_id start b (c ∷ cs) u e =
    ground (arith, find_period-find key_id start b cs u.1, u.0)

-- A bucket that is found by its period has the key and the start of the period.
find_period_inv :
    (key_id start : ℕ) (b : QuotaBucket) (buckets : List QuotaBucket)
    → find_period key_id start buckets ≡ some b
    → (b.key_id ≡ key_id) × (b.period_start ≡ start)
unfolding find_period
find_period_inv key_id start b [] e = cc
find_period_inv key_id start b (c ∷ cs) e =
    elim (Bool-cases (c.key_id == key_id && c.period_start == start)) [
      | inl this ↦ (ground (arith, e, this), ground (arith, e, this))
      | inr other ↦ find_period_inv key_id start b cs (ground (arith, e, other))
    ]

-- The bucket that is locked is the one of the key and the period.
pub lock_quota_bucket_inv :
    (bucket_id key_id start now : ℕ) (buckets : List QuotaBucket) (b : QuotaBucket)
    (locked : List QuotaBucket)
    → lock_quota_bucket bucket_id key_id start now buckets ≡ ok (b, locked)
    → (b.key_id ≡ key_id) × (b.period_start ≡ start)
unfolding lock_quota_bucket
lock_quota_bucket_inv bucket_id key_id start now buckets b locked e =
    elim (Option-cases (find_period key_id start buckets)) [
      | inr (a, f) ↦
          let (k, s) = find_period_inv key_id start a buckets f in
          (ground (arith, e, f, k), ground (arith, e, f, s))
      | inl absent ↦ elim (Option-cases (find bucket_key bucket_id buckets)) [
        | inr (a, taken) ↦ ground (arith, e, absent, taken)
        | inl free ↦ (ground (arith, e, absent, free), ground (arith, e, absent, free))
      ]
    ]

-- No open reservation holds anything in a bucket that is not stored.
held-fresh :
    (d : Dim) (id : ℕ) (buckets : List QuotaBucket) (rows : List Reservation)
    → find bucket_key id buckets ≡ none
    → All (HasBucket buckets) rows
    → sum (held_weight d id) rows ≡ 0
held-fresh d id buckets [] e h = refl
held-fresh d id buckets (r ∷ rs) e h =
    elim (Bool-cases (is_open r.status && refers_to id r.bucket_id)) [
      | inr clear ↦ rw clear (omega (arith, held-fresh d id buckets rs e h.1))
      | inl names ↦ elim (h.0 (ground arith)) [
        | inl (n, _) ↦ ground arith
        | inr (j, b, n, s) ↦ ground arith
      ]
    ]

amount-no_amounts : (d : Dim) → amount d no_amounts ≡ 0
amount-no_amounts request = refl
amount-no_amounts token = refl
amount-no_amounts image = refl
amount-no_amounts cost = refl

-- A change that leaves the ids alone loses no bucket.
pub modify-stored :
    (id : ℕ) (f : QuotaBucket → QuotaBucket) (buckets : List QuotaBucket)
    → ((a : QuotaBucket) → (f a).id ≡ a.id)
    → (j : ℕ) (b : QuotaBucket) → find bucket_key j buckets ≡ some b
    → (b' : QuotaBucket) × (find bucket_key j (modify bucket_key id f buckets) ≡ some b')
modify-stored id f buckets keeps j b h =
    (if j == id then f b else b, rw (find-modify bucket_key j id f buckets keeps) (ground arith))

touch-reserved :
    (j id now : ℕ) (o : Option QuotaBucket) (b : QuotaBucket)
    → (if j == id then Option.map (touch_bucket now) o else o) ≡ some b
    → (a : QuotaBucket) × (o ≡ some a) × (a.reserved ≡ b.reserved)
touch-reserved j id now none b h = ground arith
touch-reserved j id now (some a) b h = (a, refl, ground arith)

module _ (db : Db) (v : Balanced db) (now : ℕ) where
  touched-Balanced :
      (id : ℕ)
      → Balanced (record db { buckets = modify bucket_key id (touch_bucket now) db.buckets })
  touched-Balanced id = record {
    active = v.active;
    reserved = λ d j b h.
        let (a, e, same) =
          touch-reserved j id now (find bucket_key j db.buckets) b
            (rw (find-modify bucket_key j id (touch_bucket now) db.buckets (λ a. refl)) at h) in
        rw (← same) (v.reserved d j a e);
    has_bucket =
        All-map (HasBucket db.buckets)
          (HasBucket (modify bucket_key id (touch_bucket now) db.buckets)) db.reservations
          (HasBucket-stored db.buckets _
            (modify-stored id (touch_bucket now) db.buckets (λ a. refl)))
          v.has_bucket;
    unique = modify-Unique bucket_key id (touch_bucket now) db.buckets (λ a. refl) v.unique;
    unique_rows = v.unique_rows;
    named =
        rw (find-modify bucket_key 0 id (touch_bucket now) db.buckets (λ a. refl))
          (ground (arith, v.named));
  }

  inserted-Balanced :
      (b : QuotaBucket)
      → b.id ≢ 0
      → b.reserved ≡ no_amounts
      → find bucket_key b.id db.buckets ≡ none
      → Balanced (record db { buckets = insert bucket_key b db.buckets })
  inserted-Balanced b ne zero_held fresh = record {
    active = v.active;
    reserved = λ d j c h. ground (
      arith,
      held-fresh d b.id db.buckets db.reservations fresh v.has_bucket,
      amount-no_amounts d,
      v.reserved d j c,
      rw (find-insert bucket_key j b db.buckets) at h,
    );
    has_bucket =
        All-map (HasBucket db.buckets) (HasBucket (insert bucket_key b db.buckets)) db.reservations
          (HasBucket-stored db.buckets _ insert-stored) v.has_bucket;
    unique = insert-Unique bucket_key b db.buckets fresh v.unique;
    unique_rows = v.unique_rows;
    named = rw (find-insert bucket_key 0 b db.buckets) (ground (arith, v.named));
  }
    where
      insert-stored :
          (j : ℕ) (c : QuotaBucket)
          → find bucket_key j db.buckets ≡ some c
          → (c' : QuotaBucket) × (find bucket_key j (insert bucket_key b db.buckets) ≡ some c')
      insert-stored j c h =
          (if j == b.id then b else c, rw (find-insert bucket_key j b db.buckets) (ground arith))

  -- The lock gives the stored bucket of the period, or refuses an id that is taken.
  pub lock_quota_bucket-Balanced :
      (id key_id start : ℕ) (b : QuotaBucket) (buckets : List QuotaBucket)
      → id ≢ 0
      → lock_quota_bucket id key_id start now db.buckets ≡ ok (b, buckets)
      → Balanced (record db { buckets = buckets }) × (find bucket_key b.id buckets ≡ some b)
  unfolding lock_quota_bucket
  lock_quota_bucket-Balanced id key_id start b buckets ne e =
      elim (Option-cases (find_period key_id start db.buckets)) [
        | inr (a, f) ↦
            let stored = find_period-find key_id start a db.buckets v.unique f in
            let locked : buckets ≡ modify bucket_key a.id (touch_bucket now) db.buckets =
              ground arith in
            let same : b ≡ touch_bucket now a = ground arith in
            rw (locked, same)
              (
                touched-Balanced a.id,
                rw (find-modify bucket_key a.id a.id (touch_bucket now) db.buckets (λ c. refl))
                    (ground arith),
              )
        | inl f ↦ elim (Option-cases (find bucket_key id db.buckets)) [
          | inr (a, taken) ↦ ground arith
          | inl free ↦
              let fresh = new_bucket id key_id start now in
              let locked : buckets ≡ insert bucket_key fresh db.buckets = ground arith in
              let same : b ≡ fresh = ground arith in
              rw (locked, same)
                (
                  inserted-Balanced fresh ne refl free,
                  rw (find-insert bucket_key id fresh db.buckets) (ground arith),
                )
        ]
      ]
