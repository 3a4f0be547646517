-- ===== src/Prelude/Results.antt =====
-- Go's pair of a value and an error: a value, or the error alone.
use mathlib.Core.Bool.{Bool, true, false}
use mathlib.Core.Path.{◌≡◌, refl}
use mathlib.Core.Logic.{◌⊎◌, inl, inr}

pub data Result (E A : Type 0) : Type 0 where
  ok : A → Result E A
  err : E → Result E A

infixl 5 ◌>>=◌ ◌>>◌
abbrev pub ◌>>=◌ : {E A B : Type 0} → Result E A → (A → Result E B) → Result E B
ok a >>= f = f a
err e >>= f = err e

abbrev pub ◌>>◌ : {E B : Type 0} → Result E (Unit {0}) → Result E B → Result E B
m >> k = m >>= λ _. k

-- `if bad { return err }`
abbrev pub fail_if : {E : Type 0} → Bool → E → Result E (Unit {0})
fail_if true e = err e
fail_if false e = ok tt

pub Result-cases :
    {E A : Type 0} (r : Result E A) → ((a : A) × (r ≡ ok a)) ⊎ ((e : E) × (r ≡ err e))
Result-cases (ok a) = inl (a, refl)
Result-cases (err e) = inr (e, refl)

-- Two steps that succeed together hand their value on.
pub bind_two :
    {E A B C : Type 0} (m : Result E A) (f : A → Result E B) (k : B → Result E C) (b : B)
    → (m >>= f) ≡ ok b
    → (m >>= λ a. f a >>= k) ≡ k b
bind_two (ok a) f k b h = rw h
bind_two (err e) f k b h = cc

pub bind_two_err :
    {E A B C : Type 0} (m : Result E A) (f : A → Result E B) (k : B → Result E C) (e : E)
    → (m >>= f) ≡ err e
    → (m >>= λ a. f a >>= k) ≡ err e
bind_two_err (ok a) f k e h = rw h
bind_two_err (err e) f k e' h = cc

-- What a chain that succeeded has passed through.
pub data Bound {E A B : Type 0} (m : Result E A) (f : A → Result E B) (b : B) : Type 0 where
  bound : (a : A) → m ≡ ok a → f a ≡ ok b → Bound m f b

pub bind_inv :
    {E A B : Type 0} (m : Result E A) (f : A → Result E B) {b : B} → (m >>= f) ≡ ok b → Bound m f b
bind_inv (ok a) f h = bound a refl h
bind_inv (err e) f h = cc

pub fail_if_inv : {E : Type 0} (b : Bool) (e : E) {t : Unit {0}} → fail_if b e ≡ ok t → b ≡ false
fail_if_inv true e h = cc
fail_if_inv false e h = refl
