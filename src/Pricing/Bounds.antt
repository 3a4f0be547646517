-- ===== src/Pricing/Bounds.antt =====
-- Each share of a monthly cost is its floor or one more (internal/server/pricing.go,
-- AllocateSubscriptionCost).
use codex_sub_proxy.Prelude.{
  ℕ, zero, suc, ◌+◌, ◌-◌, ◌*◌, ◌/◌, ◌%◌, ◌≤◌, ◌<◌, ◌≡◌, refl, sym, ap, ◌∙◌, subst, List, [], ◌∷◌,
  Bool, true, false, ltb, ◌||◌, ◌==◌, count_if, length, get_elem?, take, sum, Option, none, some,
  Result, ok, err, ◌>>=◌, ◌>>◌, fail_if, bind_inv, bound, arith, if◌then◌else◌, Bool-cases, inl,
  inr,
}
use codex_sub_proxy.Quota.Limits.{max_int64}
use codex_sub_proxy.Pricing.{
  PricingError, amount_overflow, total_overflow, invalid_remainder, denominator_overflow,
  AllocationRequest, AllocationRow, counted, add_denominator, floor_rows, before, number,
  insert_remainder, sort_remainders, bump, bump_all, allocate_rows, allocate_subscription_cost,
}
use codex_sub_proxy.Pricing.Bumps.{estimates, Floors, Remainders}
use codex_sub_proxy.Pricing.Floors.{rows_of}

-- How often an index stands among the remainders.
abbrev times : ℕ → Remainders → ℕ
times j xs = sum (λ x. count_if (j == x.0)) xs

abbrev grown : AllocationRow → ℕ → AllocationRow
grown row n = record row { microunits = row.microunits + n }

rows_are :
    (x y : List AllocationRow)
    → Path (Result PricingError (List AllocationRow)) (ok x) (ok y)
    → x ≡ y
rows_are x y e = ap (λ r. elim r [ ok z ↦ z | err e' ↦ x ]) e

row_is : (a b : AllocationRow) → some a ≡ some b → a ≡ b
row_is a b e = ap (λ o. elim o [ some c ↦ c | none ↦ a ]) e

unchanged : (row : AllocationRow) (n : ℕ) → n ≡ 0 → row ≡ grown row n
unchanged row n e = ap (λ m. record row { microunits = m }) (ground (arith, e))

bump_here :
    (b : Bool) (r row : AllocationRow) (rs rows' : List AllocationRow) (j : ℕ)
    → (if b then err amount_overflow else ok (grown r 1 ∷ rs)) ≡ ok rows'
    → get_elem? (r ∷ rs) j ≡ some row
    → get_elem? rows' j ≡ some (grown row (count_if (j == 0)))
bump_here true r row rs rows' j h at = cc
bump_here false r row rs rows' zero h at =
    ap (λ l. get_elem? l 0) (sym (rows_are (grown r 1 ∷ rs) rows' h))
    ∙ ap (λ o. some (grown o 1)) (row_is r row at)
bump_here false r row rs rows' (suc j) h at =
    ap (λ l. get_elem? l (suc j)) (sym (rows_are (grown r 1 ∷ rs) rows' h))
    ∙ at
    ∙ ap some (unchanged row (count_if (suc j == 0)) (ground arith))

bump_inv :
    (i j : ℕ) (rows rows' : List AllocationRow) (row : AllocationRow)
    → bump i rows ≡ ok rows'
    → get_elem? rows j ≡ some row
    → get_elem? rows' j ≡ some (grown row (count_if (j == i)))
unfolding bump
bump_inv i j [] rows' row h at = cc
bump_inv zero j (r ∷ rs) rows' row h at =
    bump_here (r.microunits == max_int64) r row rs rows' j h at
bump_inv (suc i) zero (r ∷ rs) rows' row h at =
    elim (bind_inv (bump i rs) (λ rest. ok (r ∷ rest)) h) [
      | bound rest first end ↦
          ap (λ l. get_elem? l 0) (sym (rows_are (r ∷ rest) rows' end))
          ∙ at
          ∙ ap some (unchanged row (count_if (0 == suc i)) (ground arith))
    ]
bump_inv (suc i) (suc j) (r ∷ rs) rows' row h at =
    elim (bind_inv (bump i rs) (λ rest. ok (r ∷ rest)) h) [
      | bound rest first end ↦
          ap (λ l. get_elem? l (suc j)) (sym (rows_are (r ∷ rest) rows' end))
          ∙ bump_inv i j rs rest row first at
          ∙ ap (λ n. some (grown row n)) (ground arith)
    ]

bump_all_inv :
    (xs : Remainders) (j : ℕ) (rows rows' : List AllocationRow) (row : AllocationRow)
    → bump_all xs rows ≡ ok rows'
    → get_elem? rows j ≡ some row
    → get_elem? rows' j ≡ some (grown row (times j xs))
unfolding bump_all
bump_all_inv [] j rows rows' row h at =
    ap (λ l. get_elem? l j) (sym (rows_are rows rows' h)) ∙ at ∙ ap some (unchanged row 0 refl)
bump_all_inv ((i, x) ∷ xs) j rows rows' row h at =
    elim (bind_inv (bump i rows) (λ more. bump_all xs more) h) [
      | bound more first rest ↦
          bump_all_inv xs j more rows' (grown row (count_if (j == i))) rest
            (bump_inv i j rows more row first at)
          ∙ ap (λ n. some (record row { microunits = n })) (ground arith)
    ]

abbrev floor_row : ℕ → ℕ → ℕ × ℕ → AllocationRow
floor_row cost d (id, e) = record {
  request_id = id;
  numerator = e;
  denominator = d;
  microunits = e * cost / d;
}

floors_are : (x y : Floors × ℕ) → Path (Result PricingError (Floors × ℕ)) (ok x) (ok y) → x.0 ≡ y.0
floors_are x y e = ap (λ r. elim r [ ok z ↦ z.0 | err e' ↦ x.0 ]) e

pair_is : (a b : ℕ × ℕ) → some a ≡ some b → a ≡ b
pair_is a b e = ap (λ o. elim o [ some c ↦ c | none ↦ a ]) e

floors_inv :
    (cost d : ℕ) (rs : List (ℕ × ℕ)) (total : ℕ) (fs : Floors) (t j : ℕ) (x : ℕ × ℕ)
    → floor_rows cost d rs total ≡ ok (fs, t)
    → get_elem? rs j ≡ some x
    → get_elem? (rows_of fs) j ≡ some (floor_row cost d x)
unfolding floor_rows
floors_inv cost d [] total fs t j x h at = cc
floors_inv cost d ((id, e) ∷ rs) total fs t j x h at =
    let q = e * cost / d in
    let front : AllocationRow × ℕ = (floor_row cost d (id, e), e * cost % d) in
    let step1 = fail_if (ltb max_int64 q) amount_overflow in
    let step2 = fail_if (ltb max_int64 total || ltb (max_int64 - q) total) total_overflow in
    elim (bind_inv step1 (λ _. step2 >> (floor_rows cost d rs (total + q) >>= joined front)) h) [
      | bound a small h2 ↦
          elim (bind_inv step2 (λ _. floor_rows cost d rs (total + q) >>= joined front) h2) [
            | bound b fits h3 ↦
                elim (bind_inv (floor_rows cost d rs (total + q)) (joined front) h3) [
                  | bound rest found end ↦
                      ap (λ l. get_elem? (rows_of l) j)
                        (sym (floors_are (front ∷ rest.0, rest.1) (fs, t) end))
                      ∙ at_row j rest.0
                          (λ k. floors_inv cost d rs (total + q) rest.0 rest.1 k x found) at
                ]
          ]
    ]
  where
    at_row :
        (k : ℕ) (more : Floors)
        → ((m : ℕ)
            → get_elem? rs m ≡ some x
            → get_elem? (rows_of more) m ≡ some (floor_row cost d x))
        → get_elem? ((id, e) ∷ rs) k ≡ some x
        → get_elem? (floor_row cost d (id, e) ∷ rows_of more) k ≡ some (floor_row cost d x)
    at_row zero more next at = ap (λ y. some (floor_row cost d y)) (pair_is (id, e) x at)
    at_row (suc m) more next at = next m at

    joined : AllocationRow × ℕ → Floors × ℕ → Result PricingError (Floors × ℕ)
    joined front rest = ok (front ∷ rest.0, rest.1)

times-take : (j k : ℕ) (xs : Remainders) → times j (take k xs) ≤ times j xs
times-take j zero xs = omega arith
times-take j (suc k) [] = omega arith
times-take j (suc k) (x ∷ xs) = ground (arith, times-take j k xs)

times-insert :
    (j : ℕ) (x : ℕ × (AllocationRow × ℕ)) (xs : Remainders)
    → times j (insert_remainder x xs) ≡ count_if (j == x.0) + times j xs
times-insert j x [] = refl
times-insert j x (y ∷ ys) = elim (Bool-cases (before y.1 x.1)) [
  | inl earlier ↦ rw earlier (ground (arith, times-insert j x ys))
  | inr later ↦ rw later refl
]

times-sort : (j : ℕ) (xs : Remainders) → times j (sort_remainders xs) ≡ times j xs
unfolding sort_remainders
times-sort j [] = refl
times-sort j (x ∷ xs) =
    times-insert j x (sort_remainders xs) ∙ ap (λ n. count_if (j == x.0) + n) (times-sort j xs)

times-below : (j i : ℕ) (fs : Floors) → j < i → times j (number i fs) ≡ 0
times-below j i [] h = refl
times-below j i (f ∷ fs) h = ground (arith, h, times-below j (suc i) fs (omega (arith, h)))

times-number : (j i : ℕ) (fs : Floors) → times j (number i fs) ≤ 1
times-number j i [] = omega arith
times-number j i (f ∷ fs) = elim (Bool-cases (j == i)) [
  | inl here ↦ ground (arith, here, times-below j (suc i) fs (ground (arith, here)))
  | inr other ↦ ground (arith, other, times-number j (suc i) fs)
]

denominator_is :
    (rs : List (ℕ × ℕ)) (d d' : ℕ) → add_denominator rs d ≡ ok d' → d' ≡ d + estimates rs
unfolding add_denominator
denominator_is [] d d' h = ground (arith, h)
denominator_is ((id, e) ∷ rs) d d' h =
    elim (bind_inv (fail_if (ltb (max_int64 - e) d) denominator_overflow)
      (λ _. add_denominator rs (d + e)) h) [
        | bound a fits rest ↦ denominator_is rs (d + e) d' rest ∙ ground arith
      ]

-- A row for a request, with its floor or one more.
abbrev pub Share : ℕ → ℕ → ℕ × ℕ → AllocationRow → Type 0
Share cost d (id, e) row =
    (row.request_id ≡ id)
    × (row.numerator ≡ e)
    × (row.denominator ≡ d)
    × (e * cost / d ≤ row.microunits)
    × (row.microunits ≤ e * cost / d + 1)

rows_inv :
    (cost d : ℕ) (rs : List (ℕ × ℕ)) (rows : List AllocationRow) (j : ℕ) (x : ℕ × ℕ)
    → allocate_rows cost d rs ≡ ok (some rows)
    → get_elem? rs j ≡ some x
    → (row : AllocationRow) × (get_elem? rows j ≡ some row) × Share cost d x row
unfolding allocate_rows
rows_inv cost d rs rows j x h at = elim (Bool-cases (d == 0)) [
  | inl nothing ↦ cc (sym (ap (λ b. if b then ok none else chain) nothing) ∙ h)
  | inr more ↦
      elim (bind_inv (floor_rows cost d rs 0) after_floors
        (sym (ap (λ b. if b then ok none else chain) more) ∙ h)) [
          | bound out found h2 ↦
              elim (bind_inv (fail_if (ltb max_int64 out.1) total_overflow) (λ _. bounded out) h2) [
                | bound a fits h3 ↦
                    elim (bind_inv
                      (fail_if (ltb cost out.1 || ltb (length out.0) (cost - out.1))
                        invalid_remainder)
                      (λ _. bump_all (chosen out) (rows_of out.0) >>= given_back) h3) [
                        | bound b few h4 ↦
                            elim (bind_inv (bump_all (chosen out) (rows_of out.0)) given_back h4) [
                              | bound rows' bumped end ↦ (
                                grown (floor_row cost d x) (times j (chosen out)),
                                ap
                                      (λ r. elim r as (λ _. Option AllocationRow) [
                                        | ok o ↦ elim o [ some l ↦ get_elem? l j | none ↦ none ]
                                        | err e ↦ none
                                      ])
                                      (sym end)
                                    ∙ bump_all_inv (chosen out) j (rows_of out.0) rows'
                                        (floor_row cost d x) bumped
                                        (floors_inv cost d rs 0 out.0 out.1 j x found at),
                                (
                                  refl,
                                  refl,
                                  refl,
                                  at_least (x.1 * cost / d) (times j (chosen out)),
                                  at_most (x.1 * cost / d) (times j (chosen out)) (once out),
                                ),
                              )
                            ]
                      ]
              ]
        ]
]
  where
    chosen : Floors × ℕ → Remainders
    chosen out = take (cost - out.1) (sort_remainders (number 0 out.0))

    given_back : List AllocationRow → Result PricingError (Option (List AllocationRow))
    given_back l = ok (some l)

    bounded : Floors × ℕ → Result PricingError (Option (List AllocationRow))
    bounded out =
        fail_if (ltb cost out.1 || ltb (length out.0) (cost - out.1)) invalid_remainder
        >> (bump_all (take (cost - out.1) (sort_remainders (number 0 out.0))) (rows_of out.0)
            >>= λ l. ok (some l))

    after_floors : Floors × ℕ → Result PricingError (Option (List AllocationRow))
    after_floors out = fail_if (ltb max_int64 out.1) total_overflow >> bounded out

    chain : Result PricingError (Option (List AllocationRow))
    chain = floor_rows cost d rs 0 >>= after_floors

    once : (out : Floors × ℕ) → times j (chosen out) ≤ 1
    once out = ground (
      arith,
      times-take j (cost - out.1) (sort_remainders (number 0 out.0)),
      times-sort j (number 0 out.0),
      times-number j 0 out.0,
    )

    at_least : (q n : ℕ) → q ≤ q + n
    at_least q n = omega arith

    at_most : (q n : ℕ) → n ≤ 1 → q + n ≤ q + 1
    at_most q n h = omega (arith, h)

-- When the allocation of a monthly cost gives rows, each request that counts has a row in its place,
-- with its own id and estimate, the sum of the estimates, and as its share the floor of the cost
-- times the estimate over that sum, or one microunit more.
pub Share-bounds :
    (cost : ℕ) (requests : List AllocationRequest) (rows : List AllocationRow) (j : ℕ) (x : ℕ × ℕ)
    → allocate_subscription_cost cost requests ≡ ok (some rows)
    → get_elem? (counted requests) j ≡ some x
    → (row : AllocationRow) × (get_elem? rows j ≡ some row)
      × Share cost (estimates (counted requests)) x row
unfolding allocate_subscription_cost
Share-bounds cost requests rows j x h at =
    elim (bind_inv (add_denominator (counted requests) 0)
      (λ d. allocate_rows cost d (counted requests)) h) [
        | bound d summed rest ↦
            rows_inv cost (estimates (counted requests)) (counted requests) rows j x
              (subst (λ n. allocate_rows cost n (counted requests) ≡ ok (some rows))
                (denominator_is (counted requests) 0 d summed ∙ ground arith) rest)
              at
      ]
