-- ===== src/Prelude/Keyed.antt =====
-- Tables as lists of rows: a key finds and replaces its first row, and rows are counted by a test.
use Prim.Native.Nat.{ℕ, ◌+◌, ◌≤◌}
use Prim.Native.String.{String}
use mathlib.Core.Path.{◌≡◌, ap, ◌∙◌}
use mathlib.Core.Logic.{inl, inr}
use mathlib.Core.Bool.{Bool, true, ◌&&◌}
use mathlib.Core.Option.{Option, none, some}
use mathlib.Core.List.{List, [], ◌∷◌}
use native.Mathlib.Omega.{arith}
use text.Mathlib.TextEquality.{eq_iff}
use text.Mathlib.TextPositions.{eq_refl}
use legal_rag_agent.Prelude.Tests.{◌=t=◌, if◌then◌else◌, indicator, is_some, Bool-cases}
use legal_rag_agent.Prelude.Lists.{Each, Each-imp}

module _ {A : Type 0} where
  -- SELECT by a primary key.
  unfoldable pub find_by : (A → String) → String → List A → Option A
  find_by key id [] = none
  find_by key id (x ∷ xs) = if key x =t= id then some x else find_by key id xs

  -- UPDATE of the row with the new row's key.
  unfoldable pub put_by : (A → String) → A → List A → List A
  put_by key y [] = []
  put_by key y (x ∷ xs) = if key x =t= key y then y ∷ xs else x ∷ put_by key y xs

  -- SELECT count(*) WHERE ...
  unfoldable pub count_by : (A → Bool) → List A → ℕ
  count_by p [] = 0
  count_by p (x ∷ xs) = indicator (p x) + count_by p xs

module _ {A : Type 0} (key : A → String) where
  pub find_by-key : (id : String) (xs : List A) (x : A) → find_by key id xs ≡ some x → key x ≡ id
  unfolding find_by
  find_by-key id [] x h = cc
  find_by-key id (y ∷ xs) x h = ground (arith, eq_iff (key y) id, find_by-key id xs x)

  pub find_by_self :
      (id : String) (xs : List A) (x : A)
      → find_by key id xs ≡ some x
      → find_by key (key x) xs ≡ some x
  find_by_self id xs x h = ap (λ k. find_by key k xs) (find_by-key id xs x h) ∙ h

  pub find-put_by :
      (id : String) (y : A) (xs : List A)
      → find_by key id (put_by key y xs)
        ≡ (if key y =t= id && is_some (find_by key id xs) then some y else find_by key id xs)
  unfolding find_by put_by
  find-put_by id y [] = ground arith
  find-put_by id y (x ∷ xs) =
      ground
        (arith, eq_iff (key x) id, eq_iff (key y) id, eq_iff (key x) (key y), find-put_by id y xs)

  pub count-put_by :
      (p : A → Bool) (x y : A) (xs : List A)
      → find_by key (key y) xs ≡ some x
      → count_by p (put_by key y xs) + indicator (p x) ≡ count_by p xs + indicator (p y)
  unfolding find_by put_by count_by
  count-put_by p x y [] h = cc
  count-put_by p x y (z ∷ xs) h = elim (Bool-cases (key z =t= key y)) [
    | inl here ↦ ground arith
    | inr there ↦ ground (arith, count-put_by p x y xs)
  ]

  -- A row that passes a test counts.
  pub find_by-counts :
      (p : A → Bool) (id : String) (xs : List A) (x : A)
      → find_by key id xs ≡ some x
      → p x ≡ true
      → 1 ≤ count_by p xs
  unfolding find_by count_by
  find_by-counts p id [] x h t = cc
  find_by-counts p id (y ∷ xs) x h t = ground (arith, find_by-counts p id xs x)

  -- A primary key: no two rows have the same.
  abbrev pub Distinct : List A → Type 0
  Distinct [] = Unit
  Distinct (x ∷ xs) = (find_by key (key x) xs ≡ none) × Distinct xs

  pub put_by-Distinct : (y : A) (xs : List A) → Distinct xs → Distinct (put_by key y xs)
  unfolding put_by
  put_by-Distinct y [] d = tt
  put_by-Distinct y (x ∷ xs) (free, d) = elim (Bool-cases (key x =t= key y)) [
    | inl here ↦ rw here (ap (λ k. find_by key k xs) (eq_key x y here) ∙ free, d)
    | inr there ↦ rw there (ground (arith, find-put_by (key x) y xs), put_by-Distinct y xs d)
  ]
    where
      eq_key : (x y : A) → (key x =t= key y) ≡ true → key y ≡ key x
      eq_key x y h = ground (arith, eq_iff (key x) (key y))

  -- Each row of such a table is the one that its key finds.
  abbrev pub Stands : List A → A → Type 0
  Stands xs x = find_by key (key x) xs ≡ some x

  Stands-cons :
      (z : A) (zs : List A)
      → find_by key (key z) zs ≡ none
      → (x : A) → Stands zs x
      → Stands (z ∷ zs) x
  unfolding find_by
  Stands-cons z zs free x h = ground (arith, eq_iff (key z) (key x))

  pub Distinct-Stands : (xs : List A) → Distinct xs → Each (Stands xs) xs
  unfolding find_by
  Distinct-Stands [] d = tt
  Distinct-Stands (x ∷ xs) (free, d) = (
    ground (arith, eq_refl (key x)),
    Each-imp (Stands xs) (Stands (x ∷ xs)) (Stands-cons x xs free) xs (Distinct-Stands xs d),
  )
