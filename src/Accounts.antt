-- ===== src/Accounts.antt =====
-- internal/codex/accounts.go: the accounts of the upstream service and the three selectors.
-- A number stands for a text (an account, a model), 0 for the empty one, in the order of the texts;
-- times are nanoseconds, 0 the zero time. A float64 is given by its 64 bits.
pub mod Lists
pub mod Shares
pub mod Choice
pub mod Turns
pub mod Tests
use codex_sub_proxy.Prelude.{
  ℕ, ◌+◌, ◌%◌, ◌^◌, List, [], ◌∷◌, Bool, true, false, ◌&&◌, ◌||◌, not, ltb, ◌==◌, length, get_elem?,
  select, Option, none, some, Result, ok, err, if◌then◌else◌,
}
use codex_sub_proxy.Prelude.Table.{insert}

pub record QuotaSnapshot : Type 0 where
  pub used_percent : ℕ
  pub known : Bool

pub record Account : Type 0 where
  pub id : ℕ
  pub enabled : Bool
  pub is_default : Bool
  pub available : Bool
  pub cooldown_until : ℕ
  pub models : List ℕ
  pub catalog_configured : Bool
  pub catalog_loaded : Bool
  pub responses_lite : Bool
  -- The models that the map holds, all of them with the value true.
  pub responses_lite_models : List ℕ
  pub quota : Option QuotaSnapshot
  pub used_percent : ℕ
  pub quota_known : Bool

pub data SelectError : Type 0 where
  no_available_account : SelectError
  context_done : SelectError
  -- The panic of an index out of range.
  out_of_range : SelectError

abbrev pub is_empty {ℓ} : {A : Type ℓ} → List A → Bool
is_empty [] = true
is_empty (x ∷ xs) = false

abbrev pub has_model : ℕ → List ℕ → Bool
has_model model [] = false
has_model model (m ∷ ms) = (m == model) || has_model model ms

-- accountUsableAt, the tests on the account's own state.
unfoldable pub in_service : Account → ℕ → Bool
in_service a now =
    a.enabled
    && a.available
    && not (not (a.cooldown_until == 0) && ltb now a.cooldown_until)
    && not (a.catalog_configured && not a.catalog_loaded)

unfoldable pub account_usable_at : Account → ℕ → ℕ → Bool
unfolding in_service
account_usable_at a model now =
    if not (in_service a now)
    then false
    else if model == 0
    then true
    else if is_empty a.models
    then not a.catalog_loaded
    else has_model model a.models

-- The bits of +Inf: below them are the finite numbers that are not negative, in their own order.
-- The bits of -0, which counts as 0.
abbrev pub inf_bits : ℕ
inf_bits = 9218868437227405312

abbrev pub neg_zero_bits : ℕ
neg_zero_bits = 2 ^ 63

abbrev pub valid_quota_percent : ℕ → Bool
valid_quota_percent bits = ltb bits inf_bits || bits == neg_zero_bits

-- The bits of the same number, with 0 for -0: comparing them compares the numbers.
abbrev pub order_bits : ℕ → ℕ
order_bits bits = if bits == neg_zero_bits then 0 else bits

abbrev pub own_percent : Account → ℕ
own_percent a =
    if a.quota_known && valid_quota_percent a.used_percent then order_bits a.used_percent else 0

unfoldable pub account_quota_percent : Account → ℕ
account_quota_percent a = elim a.quota [
  | none ↦ own_percent a
  | some q ↦
      if q.known && valid_quota_percent q.used_percent
      then order_bits q.used_percent
      else own_percent a
]

abbrev pub account_id : Account → ℕ
account_id a = a.id

-- A stable sort by id.
unfoldable pub sorted_accounts : List Account → List Account
sorted_accounts [] = []
sorted_accounts (a ∷ accounts) = insert account_id a (sorted_accounts accounts)

unfoldable pub eligible_accounts : List Account → ℕ → ℕ → List Account
unfolding sorted_accounts
eligible_accounts accounts model now =
    select (λ a. account_usable_at a model now) (sorted_accounts accounts)

-- The two rotating selectors keep the count of their selections, an atomic uint64.
pub data Selector : Type 0 where
  single : Selector
  round_robin : ℕ → Selector
  quota_aware : ℕ → Selector

-- SingleSelector.Select: the loop over the sorted accounts.
unfoldable pub select_single : List Account → ℕ → ℕ → Result SelectError Account
select_single [] model now = err no_available_account
select_single (a ∷ accounts) model now =
    let rest = select_single accounts model now in
    if a.is_default && account_usable_at a model now then ok a else rest

-- `list[index%len(list)]`
unfoldable pub pick : ℕ → List Account → Result SelectError Account
pick index accounts = elim (get_elem? accounts (index % length accounts)) [
  | some a ↦ ok a
  | none ↦ err out_of_range
]

-- QuotaAwareSelector.Select: the least share among the accounts, the first loop.
unfoldable pub least_used : ℕ → List Account → ℕ
least_used best [] = best
least_used best (a ∷ accounts) =
    let used = account_quota_percent a in least_used (if ltb used best then used else best) accounts

-- The second loop.
unfoldable pub tied_accounts : List Account → List Account
unfolding least_used
tied_accounts [] = []
tied_accounts (a ∷ accounts) =
    let best = least_used (account_quota_percent a) accounts in
    select (λ b. account_quota_percent b == best) (a ∷ accounts)

-- `selector.next.Add(1)`
abbrev pub next_index : ℕ → ℕ
next_index index = (index + 1) % 2 ^ 64

-- Select of each selector: the account, and the selector as the call leaves it. `done` is whether
-- the context has ended.
unfoldable pub select_account :
    Selector → Bool → ℕ → ℕ → List Account → Result SelectError Account × Selector
unfolding select_single eligible_accounts pick tied_accounts sorted_accounts
select_account selector true model now accounts = (err context_done, selector)
select_account single false model now accounts =
    (select_single (sorted_accounts accounts) model now, single)
select_account (round_robin index) false model now accounts =
    let eligible = eligible_accounts accounts model now in
    if is_empty eligible
    then (err no_available_account, round_robin index)
    else (pick index eligible, round_robin (next_index index))
select_account (quota_aware index) false model now accounts =
    let eligible = eligible_accounts accounts model now in
    if is_empty eligible
    then (err no_available_account, quota_aware index)
    else (pick index (tied_accounts eligible), quota_aware (next_index index))
