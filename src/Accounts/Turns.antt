-- ===== src/Accounts/Turns.antt =====
-- RoundRobinSelector gives every eligible account its turn (internal/codex/accounts.go).
use native.Mathlib.Nat.{mod-lt, mod-eq_of_lt, mod-add-mod, add-mod_left}
use codex_sub_proxy.Prelude.{
  ℕ, zero, suc, ◌+◌, ◌-◌, ◌%◌, ◌^◌, ◌<◌, ◌≡◌, refl, List, [], ◌∷◌, length, get_elem?, some, false,
  arith, ok, inl, inr, ap, ◌∙◌, sym, leb, Bool-cases, true,
}
use codex_sub_proxy.Accounts.{
  Account, Selector, round_robin, is_empty, eligible_accounts, pick, select_account,
}

-- Every residue comes up within one period.
sums_to : (r i : ℕ) → leb r i ≡ true → r + (i - r) ≡ i
sums_to r i le = ground arith

wraps_to : (r m i : ℕ) → r < m → r + (m - r + i) ≡ m + i
wraps_to r m i h = ground arith

residue_reached : (n m i : ℕ) → i < m → (k : ℕ) × (k < m) × ((n + k) % m ≡ i)
residue_reached n m i h =
    let below = mod-lt n {m = m} (ground (arith, h)) in
    elim (Bool-cases (leb (n % m) i)) [
      | inl le ↦ (
        i - n % m,
        ground (arith, h),
        sym (mod-add-mod n m (i - n % m)) ∙ ap (λ x. x % m) (sums_to (n % m) i le) ∙ mod-eq_of_lt h,
      )
      | inr gt ↦ (
        m - n % m + i,
        ground (arith, h, gt, below),
        sym (mod-add-mod n m (m - n % m + i))
            ∙ ap (λ x. x % m) (wraps_to (n % m) m i below)
            ∙ add-mod_left m i
            ∙ mod-eq_of_lt h,
      )
    ]

-- `k` selections in a row.
unfoldable pub after_selections : ℕ → Selector → ℕ → ℕ → List Account → Selector
unfolding select_account
after_selections zero s model now accounts = s
after_selections (suc k) s model now accounts =
    after_selections k (select_account s false model now accounts).1 model now accounts

advance :
    (n model now : ℕ) (accounts : List Account)
    → is_empty (eligible_accounts accounts model now) ≡ false
    → n + 1 < 2 ^ 64
    → (select_account (round_robin n) false model now accounts).1 ≡ round_robin (n + 1)
unfolding select_account
advance n model now accounts some_eligible below =
    rw some_eligible (ap round_robin (mod-eq_of_lt below))

after-round_robin :
    (k n model now : ℕ) (accounts : List Account)
    → is_empty (eligible_accounts accounts model now) ≡ false
    → n + k < 2 ^ 64
    → after_selections k (round_robin n) model now accounts ≡ round_robin (n + k)
unfolding after_selections select_account
after-round_robin zero n model now accounts some_eligible below = ap round_robin (ground arith)
after-round_robin (suc k) n model now accounts some_eligible below =
    ap (λ s. after_selections k s model now accounts)
      (advance n model now accounts some_eligible (ground (arith, below)))
    ∙ after-round_robin k (n + 1) model now accounts some_eligible (ground (arith, below))
    ∙ ap round_robin (ground arith)

found_in :
    (xs : List Account) (i : ℕ) (a : Account)
    → get_elem? xs i ≡ some a
    → (i < length xs) × (is_empty xs ≡ false)
found_in [] i a e = cc
found_in (x ∷ xs) zero a e = (ground arith, refl)
found_in (x ∷ xs) (suc i) a e = (ground (arith, found_in xs i a e), refl)

pick-hit :
    (index i : ℕ) (xs : List Account) (a : Account)
    → index % length xs ≡ i
    → get_elem? xs i ≡ some a
    → pick index xs ≡ ok a
unfolding pick
pick-hit index i xs a e found = rw (pick, e, found) refl

-- On a fixed list at a fixed time, while its counter does not wrap around, a round-robin selector
-- gives each account that is eligible its turn: from any state, one of the next selections, no
-- more than the eligible accounts are, is that account.
pub round_robin_turn :
    (n model now i : ℕ) (accounts : List Account) (a : Account)
    → get_elem? (eligible_accounts accounts model now) i ≡ some a
    → n + length (eligible_accounts accounts model now) < 2 ^ 64
    → (k : ℕ) × (k < length (eligible_accounts accounts model now))
      × ((select_account
            (after_selections k (round_robin n) model now accounts)
            false
            model
            now
            accounts).0
          ≡ ok a)
unfolding select_account pick
round_robin_turn n model now i accounts a found below =
    let xs = eligible_accounts accounts model now in
    let (inside, more) = found_in xs i a found in
    let (k, early, hits) = residue_reached n (length xs) i inside in
    let s' = after-round_robin k n model now accounts more (ground (arith, early, below)) in
    (k, early, rw (s', more) (pick-hit (n + k) i xs a hits found))
