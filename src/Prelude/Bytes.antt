-- ===== src/Prelude/Bytes.antt =====
-- Texts as lists of bytes, with the comparisons of Go's strings package.
use Prim.Native.Nat.{ℕ, ◌+◌}
use mathlib.Core.Bool.{Bool, true, false, ◌&&◌}
use mathlib.Core.List.{List, [], ◌∷◌, ◌++◌}
use mathlib.Core.Path.{◌≡◌, refl, ap}
use native.Mathlib.Omega.{arith}
use codex_sub_proxy.Prelude.Tests.{◌==◌}
use codex_sub_proxy.Prelude.Lists.{length, take, drop}

abbrev pub Bytes : Type 0
Bytes = List ℕ

-- `text == ""`
abbrev pub is_blank : Bytes → Bool
is_blank [] = true
is_blank (b ∷ bs) = false

abbrev pub same : Bytes → Bytes → Bool
same [] [] = true
same [] (b ∷ bs) = false
same (a ∷ as') [] = false
same (a ∷ as') (b ∷ bs) = a == b && same as' bs

-- strings.HasPrefix
abbrev pub has_prefix : Bytes → Bytes → Bool
has_prefix text [] = true
has_prefix [] (b ∷ bs) = false
has_prefix (a ∷ as') (b ∷ bs) = a == b && has_prefix as' bs

pub same-eq : (a b : Bytes) → same a b ≡ true → a ≡ b
same-eq [] [] h = refl
same-eq [] (b ∷ bs) h = cc
same-eq (a ∷ as') [] h = cc
same-eq (a ∷ as') (b ∷ bs) h = ground (arith, h, same-eq as' bs)

pub same_refl : (a : Bytes) → same a a ≡ true
same_refl [] = refl
same_refl (a ∷ as') = ground (arith, same_refl as')

-- A text is its prefix and what comes behind it.
pub prefix_split :
    (text front : Bytes) → has_prefix text front ≡ true → front ++ drop (length front) text ≡ text
prefix_split text [] h = refl
prefix_split [] (b ∷ bs) h = cc
prefix_split (a ∷ as') (b ∷ bs) h = ground (arith, h, prefix_split as' bs)

pub has_prefix-append : (front rest : Bytes) → has_prefix (front ++ rest) front ≡ true
has_prefix-append [] rest = refl
has_prefix-append (a ∷ as') rest = ground (arith, has_prefix-append as' rest)

pub take_all : (a : Bytes) → take (length a) a ≡ a
take_all [] = refl
take_all (a ∷ as') = ap (λ t. a ∷ t) (take_all as')

pub append_nil : (a : Bytes) → a ++ [] ≡ a
append_nil [] = refl
append_nil (a ∷ as') = ap (λ t. a ∷ t) (append_nil as')

pub append_assoc : (a b c : Bytes) → (a ++ b) ++ c ≡ a ++ (b ++ c)
append_assoc [] b c = refl
append_assoc (a ∷ as') b c = ap (λ t. a ∷ t) (append_assoc as' b c)

pub length-append : (a b : Bytes) → length (a ++ b) ≡ length a + length b
length-append [] b = ground arith
length-append (a ∷ as') b = ground (arith, length-append as' b)

pub drop_all : (a : Bytes) → drop (length a) a ≡ []
drop_all [] = refl
drop_all (a ∷ as') = drop_all as'

pub drop_append : (a b : Bytes) → drop (length a) (a ++ b) ≡ b
drop_append [] b = refl
drop_append (x ∷ a) b = drop_append a b
