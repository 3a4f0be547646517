-- ===== src/Accounts/Choice.antt =====
-- What the selectors choose (internal/codex/accounts.go).
use codex_sub_proxy.Prelude.{
  ℕ, ◌≤◌, ◌≡◌, refl, List, [], ◌∷◌, Bool, true, false, ◌&&◌, All, Result, ok, err, if◌then◌else◌,
  Bool-cases, inl, inr, subst, ◌∙◌,
}
use codex_sub_proxy.Prelude.Table.{All-map}
use codex_sub_proxy.Accounts.{
  Account, SelectError, no_available_account, Selector, single, round_robin, quota_aware, is_empty,
  account_usable_at, account_quota_percent, sorted_accounts, eligible_accounts, next_index,
  select_single, pick, tied_accounts, select_account,
}
use codex_sub_proxy.Accounts.Lists.{
  In, In-All, All-sorted, sorted-All, eligible-All, All-eligible, not_true, empty-All, pick-All,
}
use codex_sub_proxy.Accounts.Shares.{tied-empty, trivial-All, tied-All}

-- The accounts that a selector may choose.
abbrev pub candidate : Selector → ℕ → ℕ → Account → Bool
candidate single model now a = a.is_default && account_usable_at a model now
candidate (round_robin n) model now a = account_usable_at a model now
candidate (quota_aware n) model now a = account_usable_at a model now

-- What a selection ends with: an account with a property, or the one error under a condition.
abbrev pub Ends : (Account → Type 0) → Type 0 → Result SelectError Account → Type 0
Ends P Q (ok a) = P a
Ends P Q (err e) = (e ≡ no_available_account) × Q

Ends-map :
    (P R : Account → Type 0) (Q S : Type 0) (r : Result SelectError Account)
    → ((a : Account) → P a → R a)
    → (Q → S)
    → Ends P Q r
    → Ends R S r
Ends-map P R Q S (ok a) f g h = f a h
Ends-map P R Q S (err e) f g h = (h.0, g h.1)

pub ok-Ends :
    (P : Account → Type 0) (Q : Type 0) (a : Account) {r : Result SelectError Account}
    → r ≡ ok a
    → Ends P Q r
    → P a
ok-Ends P Q a e h = subst (Ends P Q) e h

pub err-Ends :
    (P : Account → Type 0) (Q : Type 0) (x : SelectError) {r : Result SelectError Account}
    → r ≡ err x
    → Ends P Q r
    → x ≡ no_available_account
err-Ends P Q x e h = (subst (Ends P Q) e h).0

if-Ends :
    (P : Account → Type 0) (Q : Type 0) (b : Bool) (x : Account) (r : Result SelectError Account)
    → (b ≡ true → P x)
    → (b ≡ false → Ends P Q r)
    → Ends P Q (if b then ok x else r)
if-Ends P Q true x r f g = f refl
if-Ends P Q false x r f g = g refl

select_single-Ends :
    (P : Account → Type 0) (model now : ℕ) (xs : List Account)
    → All P xs
    → Ends
        (λ a. P a × (candidate single model now a ≡ true))
        (All (λ a. candidate single model now a ≡ false) xs)
        (select_single xs model now)
unfolding select_single
select_single-Ends P model now [] h = (refl, tt)
select_single-Ends P model now (x ∷ xs) h =
    if-Ends (λ a. P a × (candidate single model now a ≡ true))
      (All (λ a. candidate single model now a ≡ false) (x ∷ xs)) (candidate single model now x) x
      (select_single xs model now) (λ hit. (h.0, hit))
      (λ miss.
        Ends-map (λ a. P a × (candidate single model now a ≡ true))
          (λ a. P a × (candidate single model now a ≡ true))
          (All (λ a. candidate single model now a ≡ false) xs)
          (All (λ a. candidate single model now a ≡ false) (x ∷ xs)) (select_single xs model now)
          (λ a ha. ha) (λ rest. (miss, rest)) (select_single-Ends P model now xs h.1))

none-eligible :
    (model now : ℕ) (accounts : List Account)
    → is_empty (eligible_accounts accounts model now) ≡ true
    → All (λ a. account_usable_at a model now ≡ false) accounts
none-eligible model now accounts e =
    All-map (λ a. account_usable_at a model now ≡ true → account_usable_at a model now ≡ false)
      (λ a. account_usable_at a model now ≡ false) accounts
      (λ a h. not_true (account_usable_at a model now) h)
      (All-eligible (λ a. account_usable_at a model now ≡ false) model now accounts
        (empty-All (λ a. account_usable_at a model now ≡ false)
          (eligible_accounts accounts model now) e))

-- The two rotating selectors pick from a part of the eligible accounts.
rotating-Ends :
    (P : Account → Type 0) (model now index : ℕ) (s s' : Selector) (accounts xs : List Account)
    → is_empty xs ≡ is_empty (eligible_accounts accounts model now)
    → All P xs
    → Ends P
        (All (λ a. account_usable_at a model now ≡ false) accounts)
        (if◌then◌else◌ {A = Result SelectError Account × Selector}
          (is_empty (eligible_accounts accounts model now))
          (err no_available_account, s)
          (pick index xs, s')).0
rotating-Ends P model now index s s' accounts xs same h =
    elim (Bool-cases (is_empty (eligible_accounts accounts model now))) [
      | inl e ↦ rw e (refl, none-eligible model now accounts e)
      | inr more ↦ let (a, found, pa) = pick-All P index xs (same ∙ more) h in rw (more, found) pa
    ]

-- For a context that has not ended, a selection gives a usable account of the list, for
-- SingleSelector the default one; if the list has none, and only then, it fails, with
-- ErrNoAvailableAccount.
pub select_account_complete :
    (s : Selector) (model now : ℕ) (accounts : List Account)
    → Ends
        (λ a. In a accounts × (candidate s model now a ≡ true))
        (All (λ a. candidate s model now a ≡ false) accounts)
        (select_account s false model now accounts).0
unfolding select_account
select_account_complete single model now accounts =
    Ends-map (λ a. In a accounts × (candidate single model now a ≡ true))
      (λ a. In a accounts × (candidate single model now a ≡ true))
      (All (λ a. candidate single model now a ≡ false) (sorted_accounts accounts))
      (All (λ a. candidate single model now a ≡ false) accounts)
      (select_single (sorted_accounts accounts) model now) (λ a h. h)
      (sorted-All (λ a. candidate single model now a ≡ false) accounts)
      (select_single-Ends (λ a. In a accounts) model now (sorted_accounts accounts)
        (All-sorted (λ a. In a accounts) accounts (In-All accounts)))
select_account_complete (round_robin n) model now accounts =
    rotating-Ends (λ a. In a accounts × (account_usable_at a model now ≡ true)) model now n
      (round_robin n) (round_robin (next_index n)) accounts (eligible_accounts accounts model now)
      refl (eligible-All (λ a. In a accounts) model now accounts (In-All accounts))
select_account_complete (quota_aware n) model now accounts =
    rotating-Ends (λ a. In a accounts × (account_usable_at a model now ≡ true)) model now n
      (quota_aware n) (quota_aware (next_index n)) accounts
      (tied_accounts (eligible_accounts accounts model now))
      (tied-empty (eligible_accounts accounts model now))
      (All-map
        (λ a.
          (In a accounts × (account_usable_at a model now ≡ true))
          × All (λ b. account_quota_percent a ≤ account_quota_percent b)
              (eligible_accounts accounts model now))
        (λ a. In a accounts × (account_usable_at a model now ≡ true))
        (tied_accounts (eligible_accounts accounts model now)) (λ a h. h.0)
        (tied-All (λ a. In a accounts × (account_usable_at a model now ≡ true))
          (eligible_accounts accounts model now)
          (eligible-All (λ a. In a accounts) model now accounts (In-All accounts))))

-- The account that QuotaAwareSelector gives is used no more than any usable account of the list.
pub quota_aware-least :
    (index model now : ℕ) (accounts : List Account) (a : Account)
    → (select_account (quota_aware index) false model now accounts).0 ≡ ok a
    → All
        (λ b.
          account_usable_at b model now ≡ true → account_quota_percent a ≤ account_quota_percent b)
        accounts
unfolding select_account
quota_aware-least index model now accounts a chosen =
    let xs = eligible_accounts accounts model now in
    let least =
      (λ (c : Account). All (λ b. account_quota_percent c ≤ account_quota_percent b) xs) in
    All-eligible (λ b. account_quota_percent a ≤ account_quota_percent b) model now accounts
      (ok-Ends least (All (λ c. account_usable_at c model now ≡ false) accounts) a chosen (
        rotating-Ends least model now index (quota_aware index) (quota_aware (next_index index))
          accounts (tied_accounts xs) (tied-empty xs)
          (All-map (λ c. Unit {0} × least c) least (tied_accounts xs) (λ c h. h.1)
            (tied-All (λ c. Unit {0}) xs (trivial-All xs)))))
