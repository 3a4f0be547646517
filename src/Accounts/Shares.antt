-- ===== src/Accounts/Shares.antt =====
-- The accounts that share the least used percentage (internal/codex/accounts.go).
use codex_sub_proxy.Prelude.{
  ℕ, ◌≤◌, ◌≡◌, refl, List, [], ◌∷◌, true, false, ltb, ◌==◌, select, All, arith, if◌then◌else◌,
  Bool-cases, inl, inr, ◌⊎◌,
}
use codex_sub_proxy.Prelude.Table.{All-map}
use codex_sub_proxy.Accounts.{Account, is_empty, account_quota_percent, least_used, tied_accounts}
use codex_sub_proxy.Accounts.Lists.{All-select}

-- The least share is no more than any, and it is the first one or that of a later account.
least_used-le :
    (best : ℕ) (xs : List Account)
    → (least_used best xs ≤ best) × All (λ a. least_used best xs ≤ account_quota_percent a) xs
unfolding least_used
least_used-le best [] = (ground arith, tt)
least_used-le best (x ∷ xs) =
    let next = if ltb (account_quota_percent x) best then account_quota_percent x else best in
    let (below, all) = least_used-le next xs in
    (ground (arith, below), (ground (arith, below), all))

at_head :
    (x : Account) (n : ℕ) (xs : List Account)
    → n ≡ account_quota_percent x
    → is_empty (select (λ a. account_quota_percent a == n) (x ∷ xs)) ≡ false
at_head x n xs e = ground (arith, e)

in_tail :
    (x : Account) (n : ℕ) (xs : List Account)
    → is_empty (select (λ a. account_quota_percent a == n) xs) ≡ false
    → is_empty (select (λ a. account_quota_percent a == n) (x ∷ xs)) ≡ false
in_tail x n xs e = ground (arith, e)

least_used-attained :
    (best : ℕ) (xs : List Account)
    → (least_used best xs ≡ best)
      ⊎ (is_empty (select (λ a. account_quota_percent a == least_used best xs) xs) ≡ false)
unfolding least_used
least_used-attained best [] = inl refl
least_used-attained best (x ∷ xs) =
    let next = if ltb (account_quota_percent x) best then account_quota_percent x else best in
    elim (least_used-attained next xs) [
      | inl same ↦ elim (Bool-cases (ltb (account_quota_percent x) best)) [
        | inl less ↦ inr (at_head x (least_used best (x ∷ xs)) xs (ground (arith, same)))
        | inr more ↦ inl (ground (arith, same))
      ]
      | inr later ↦ inr (in_tail x (least_used best (x ∷ xs)) xs later)
    ]

-- The accounts that share the least percentage are some of the list, and no account of it has less.
tied-some : (xs : List Account) → is_empty xs ≡ false → is_empty (tied_accounts xs) ≡ false
unfolding tied_accounts least_used
tied-some [] h = cc
tied-some (x ∷ xs) h = elim (least_used-attained (account_quota_percent x) xs) [
  | inl first ↦ at_head x (least_used (account_quota_percent x) xs) xs first
  | inr later ↦ in_tail x (least_used (account_quota_percent x) xs) xs later
]

pub tied-empty : (xs : List Account) → is_empty (tied_accounts xs) ≡ is_empty xs
unfolding tied_accounts
tied-empty [] = refl
tied-empty (x ∷ xs) = tied-some (x ∷ xs) refl

pub trivial-All : (xs : List Account) → All (λ a. Unit {0}) xs
trivial-All [] = tt
trivial-All (x ∷ xs) = (tt, trivial-All xs)

pub tied-All :
    (P : Account → Type 0) (xs : List Account)
    → All P xs
    → All
        (λ a. P a × All (λ b. account_quota_percent a ≤ account_quota_percent b) xs)
        (tied_accounts xs)
unfolding tied_accounts
tied-All P [] h = tt
tied-All P (x ∷ xs) h =
    let least = least_used (account_quota_percent x) xs in
    let all = least_used-le (account_quota_percent x) xs in
    All-map (λ a. P a × ((account_quota_percent a == least) ≡ true))
      (λ a. P a × All (λ b. account_quota_percent a ≤ account_quota_percent b) (x ∷ xs))
      (select (λ b. account_quota_percent b == least) (x ∷ xs))
      (λ a ha. (
        ha.0,
        All-map (λ b. least ≤ account_quota_percent b)
            (λ b. account_quota_percent a ≤ account_quota_percent b) (x ∷ xs)
            (λ b hb. ground (arith, ha.1, hb)) all,
      ))
      (All-select P (λ b. account_quota_percent b == least) (x ∷ xs) h)
