-- ===== src/Accounts/Tests.antt =====
-- The selectors on concrete accounts (internal/codex/accounts.go).
use codex_sub_proxy.Prelude.{
  ℕ, ◌≤◌, ◌<◌, ◌≡◌, refl, List, [], ◌∷◌, Bool, true, false, length, All, none, ok, arith,
}
use codex_sub_proxy.Prelude.Table.{insert}
use codex_sub_proxy.Accounts.{
  Account, round_robin, account_usable_at, account_quota_percent, eligible_accounts, select_account,
}
use codex_sub_proxy.Accounts.Lists.{In}
use codex_sub_proxy.Accounts.Choice.{candidate, Ends, select_account_complete, quota_aware-least}
use codex_sub_proxy.Accounts.Turns.{after_selections, round_robin_turn}

-- An account with its id, whether it is enabled, and the bits of its share.
abbrev pub account : ℕ → Bool → ℕ → Account
account id enabled share = record {
  id = id;
  enabled = enabled;
  is_default = false;
  available = true;
  cooldown_until = 0;
  models = 21 ∷ [];
  catalog_configured = true;
  catalog_loaded = true;
  responses_lite = false;
  responses_lite_models = [];
  quota = none;
  used_percent = share;
  quota_known = true;
}

abbrev three : List Account
three = account 3 true 40 ∷ account 1 true 50 ∷ account 2 false 10 ∷ []

select_account_complete_example :
    Ends
      (λ a. In a three × (candidate (round_robin 5) 21 9 a ≡ true))
      (All (λ a. candidate (round_robin 5) 21 9 a ≡ false) three)
      (select_account (round_robin 5) false 21 9 three).0
select_account_complete_example = select_account_complete (round_robin 5) 21 9 three

quota_aware-least_example :
    All
      (λ b.
        account_usable_at b 21 9 ≡ true
        → account_quota_percent (account 3 true 40) ≤ account_quota_percent b)
      three
unfolding select_account insert account_usable_at account_quota_percent
quota_aware-least_example = quota_aware-least 5 21 9 three (account 3 true 40) refl

round_robin_turn_example :
    (k : ℕ) × (k < length (eligible_accounts three 21 9))
    × ((select_account (after_selections k (round_robin 5) 21 9 three) false 21 9 three).0
        ≡ ok (account 1 true 50))
unfolding eligible_accounts insert account_usable_at
round_robin_turn_example = round_robin_turn 5 21 9 0 three (account 1 true 50) refl (ground arith)
