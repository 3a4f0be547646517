-- ===== src/Prelude/Table.antt =====
-- A database table: its rows in order of a primary key, which `key` reads off a row.
use Prim.Native.Nat.{ℕ, ◌+◌, ◌≤◌}
use mathlib.Core.Path.{◌≡◌, refl, subst}
use mathlib.Core.Logic.{inl, inr}
use mathlib.Core.List.{List, [], ◌∷◌}
use mathlib.Core.Option.{Option, none, some}
use mathlib.Core.Option
use native.Mathlib.Omega.{arith}
use codex_sub_proxy.Prelude.Tests.{leb, ◌==◌, if◌then◌else◌, Bool-cases}
use codex_sub_proxy.Prelude.Lists.{sum, All}

pub All-map :
    {A : Type 0} (P Q : A → Type 0) (rows : List A)
    → ((a : A) → P a → Q a)
    → All P rows
    → All Q rows
All-map P Q [] h hs = hs
All-map P Q (b ∷ rows) h hs = (h b hs.0, All-map P Q rows h hs.1)

module _ {A : Type 0} (key : A → ℕ) where
  -- SELECT ... WHERE id = ? LIMIT 1
  unfoldable pub find : ℕ → List A → Option A
  find id [] = none
  find id (a ∷ rows) = if id == key a then some a else find id rows

  -- INSERT; the callers test that the key is not taken.
  unfoldable pub insert : A → List A → List A
  insert a [] = a ∷ []
  insert a (b ∷ rows) = if leb (key a) (key b) then a ∷ b ∷ rows else b ∷ insert a rows

  -- UPDATE ... WHERE id = ?
  unfoldable pub modify : ℕ → (A → A) → List A → List A
  modify id f [] = []
  modify id f (a ∷ rows) = if id == key a then f a ∷ rows else a ∷ modify id f rows

  pub find-insert :
      (id : ℕ) (a : A) (rows : List A)
      → find id (insert a rows) ≡ (if id == key a then some a else find id rows)
  unfolding find insert
  find-insert id a [] = refl
  find-insert id a (b ∷ rows) = ground (arith, find-insert id a rows)

  pub find-key : (id : ℕ) (rows : List A) (a : A) → find id rows ≡ some a → key a ≡ id
  unfolding find
  find-key id [] a e = cc
  find-key id (b ∷ rows) a e = ground (arith, find-key id rows a)

  pub find-modify :
      (id j : ℕ) (f : A → A) (rows : List A)
      → ((a : A) → key (f a) ≡ key a)
      → find id (modify j f rows) ≡ (if id == j then Option.map f (find id rows) else find id rows)
  unfolding find modify
  find-modify id j f [] keeps = ground arith
  find-modify id j f (b ∷ rows) keeps = ground (arith, keeps b, find-modify id j f rows keeps)

  pub sum-insert : (w : A → ℕ) (a : A) (rows : List A) → sum w (insert a rows) ≡ w a + sum w rows
  unfolding insert
  sum-insert w a [] = refl
  sum-insert w a (b ∷ rows) = ground (arith, sum-insert w a rows)

  -- Replacing the row with key `id` trades its weight for that of the new row.
  pub sum-modify :
      (w : A → ℕ) (id : ℕ) (f : A → A) (rows : List A) (a : A)
      → find id rows ≡ some a
      → sum w (modify id f rows) + w a ≡ sum w rows + w (f a)
  unfolding find modify
  sum-modify w id f [] a e = cc
  sum-modify w id f (b ∷ rows) a e = elim (Bool-cases (id == key b)) [
    | inl hit ↦ rw (hit, modify) (ground arith)
    | inr miss ↦ rw (miss, modify) (ground (arith, sum-modify w id f rows a))
  ]

  pub sum-find_le :
      (w : A → ℕ) (id : ℕ) (rows : List A) (a : A) → find id rows ≡ some a → w a ≤ sum w rows
  unfolding find
  sum-find_le w id [] a e = cc
  sum-find_le w id (b ∷ rows) a e = ground (arith, sum-find_le w id rows a)

  -- No two rows share a key.
  abbrev pub Unique : List A → Type 0
  Unique [] = Unit
  Unique (a ∷ rows) = (find (key a) rows ≡ none) × Unique rows

  pub insert-Unique :
      (a : A) (rows : List A) → find (key a) rows ≡ none → Unique rows → Unique (insert a rows)
  unfolding find insert
  insert-Unique a [] e u = (refl, tt)
  insert-Unique a (b ∷ rows) e u = elim (Bool-cases (leb (key a) (key b))) [
    | inl le ↦ rw (le, insert) (e, u)
    | inr gt ↦
        rw (gt, insert)
          (ground (arith, find-insert (key b) a rows), insert-Unique a rows (ground arith) u.1)
  ]

  pub modify-Unique :
      (id : ℕ) (f : A → A) (rows : List A)
      → ((a : A) → key (f a) ≡ key a)
      → Unique rows
      → Unique (modify id f rows)
  unfolding find modify
  modify-Unique id f [] keeps u = tt
  modify-Unique id f (b ∷ rows) keeps u = elim (Bool-cases (id == key b)) [
    | inl hit ↦ rw (hit, modify) (rw (keeps b) u.0, u.1)
    | inr miss ↦
        rw (miss, modify)
          (
            ground (arith, find-modify (key b) id f rows keeps, u.0),
            modify-Unique id f rows keeps u.1,
          )
  ]

  pub All-insert :
      (P : A → Type 0) (a : A) (rows : List A) → P a → All P rows → All P (insert a rows)
  unfolding insert
  All-insert P a [] h hs = (h, hs)
  All-insert P a (b ∷ rows) h hs = elim (Bool-cases (leb (key a) (key b))) [
    | inl le ↦ rw (le, insert) (h, hs)
    | inr gt ↦ rw (gt, insert) (hs.0, All-insert P a rows h hs.1)
  ]

  pub All-modify :
      (P Q : A → Type 0) (id : ℕ) (f : A → A) (rows : List A)
      → ((a : A) → P a → Q (f a))
      → ((a : A) → P a → Q a)
      → All P rows
      → All Q (modify id f rows)
  unfolding modify
  All-modify P Q id f [] g h hs = hs
  All-modify P Q id f (b ∷ rows) g h hs = elim (Bool-cases (id == key b)) [
    | inl hit ↦ rw (hit, modify) (g b hs.0, All-map P Q rows h hs.1)
    | inr miss ↦ rw (miss, modify) (h b hs.0, All-modify P Q id f rows g h hs.1)
  ]

  pub All-find :
      (P : A → Type 0) (id : ℕ) (rows : List A) (a : A) → find id rows ≡ some a → All P rows → P a
  unfolding find
  All-find P id [] a e hs = cc
  All-find P id (b ∷ rows) a e hs = elim (Bool-cases (id == key b)) [
    | inl hit ↦ subst P (ground arith) hs.0
    | inr miss ↦ All-find P id rows a (ground arith) hs.1
  ]
