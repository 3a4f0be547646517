-- ===== src/Quota/Sums.antt =====
-- The checked sums and differences of amounts (internal/apikey/quota.go, quotaAdd and
-- subtractReservation), as plain sums and differences.

use codex_sub_proxy.Prelude.{ℕ, ◌+◌, ◌-◌, ◌≤◌, ◌≡◌, refl, ◌⊎◌, arith, ok, err}
use codex_sub_proxy.Quota.Types.{Amounts, Dim, request, token, image, cost, amount, usage_overflow}
use codex_sub_proxy.Quota.Limits.{subtract_reservation, add_amounts, quota_add}
use codex_sub_proxy.Quota.Rows.{no_amounts}

abbrev pub minus : Amounts ℕ → Amounts ℕ → Amounts ℕ
minus a b = record {
  requests = a.requests - b.requests;
  tokens = a.tokens - b.tokens;
  images = a.images - b.images;
  cost_microunits = a.cost_microunits - b.cost_microunits;
}

pub minus_lem :
    (a b : Amounts ℕ) (d : Dim)
    → amount d b ≤ amount d a
    → amount d (minus a b) + amount d b ≡ amount d a
minus_lem a b request h = omega arith
minus_lem a b token h = omega arith
minus_lem a b image h = omega arith
minus_lem a b cost h = omega arith

-- The subtraction succeeds if no amount is larger than what is held.
pub subtract_reservation_lem :
    (held amt : Amounts ℕ)
    → ((d : Dim) → amount d amt ≤ amount d held)
    → subtract_reservation held amt ≡ ok (minus held amt)
unfolding subtract_reservation
subtract_reservation_lem held amt h = ground (arith, h request, h token, h image, h cost)

abbrev pub plus : Amounts ℕ → Amounts ℕ → Amounts ℕ
plus a b = record {
  requests = a.requests + b.requests;
  tokens = a.tokens + b.tokens;
  images = a.images + b.images;
  cost_microunits = a.cost_microunits + b.cost_microunits;
}

pub amount-plus : (a b : Amounts ℕ) (d : Dim) → amount d (plus a b) ≡ amount d a + amount d b
amount-plus a b request = refl
amount-plus a b token = refl
amount-plus a b image = refl
amount-plus a b cost = refl

pub plus_no_amounts : (a : Amounts ℕ) (d : Dim) → amount d a ≡ amount d a + amount d no_amounts
plus_no_amounts a request = omega arith
plus_no_amounts a token = omega arith
plus_no_amounts a image = omega arith
plus_no_amounts a cost = omega arith

pub add_amounts_cases :
    (held amt : Amounts ℕ)
    → (add_amounts (λ _. usage_overflow) held amt ≡ err usage_overflow)
      ⊎ (add_amounts (λ _. usage_overflow) held amt ≡ ok (plus held amt))
unfolding add_amounts quota_add
add_amounts_cases held amt = ground arith
