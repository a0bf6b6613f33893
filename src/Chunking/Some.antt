-- ===== src/Chunking/Some.antt =====
-- Elements of lists, through what chunking does to lists.
use mathlib.Core.Path.{subst}
use legal_rag_agent.Prelude.{
  ℕ, ◌+◌, sym, Bool, true, false, List, [], ◌∷◌, ◌++◌, ◌⊎◌, inl, inr, if◌then◌else◌,
}
use legal_rag_agent.Chunking.Covers.{Covers}
use legal_rag_agent.Chunking.Chunks.{Outcome, returned, raised, running, ◌>>=◌, each}
use legal_rag_agent.Chunking.Strategies.{place, sorted, enumerate}

-- A statement of some element.
abbrev pub Some {ℓ} : {A : Type ℓ} → (A → Type 0) → List A → Type 0
Some P [] = ⊥
Some P (x ∷ xs) = P x ⊎ Some P xs

-- The call returns a value with a property.
abbrev pub Gets {ℓ} : {A : Type ℓ} → (A → Type 0) → Outcome A → Type 0
Gets P (returned a) = P a
Gets P raised = ⊥
Gets P running = ⊥

pub Gets-bind :
    {A : Type 0} {B : Type 0} (P : A → Type 0) (Q : B → Type 0) (m : Outcome A) (f : A → Outcome B)
    → Gets P m
    → ((a : A) → P a → Gets Q (f a))
    → Gets Q (m >>= f)
Gets-bind P Q (returned a) f h k = k a h
Gets-bind P Q raised f h k = absurd h
Gets-bind P Q running f h k = absurd h

module _ {A : Type 0} where
  pub Some-left : (P : A → Type 0) (xs ys : List A) → Some P xs → Some P (xs ++ ys)
  Some-left P [] ys h = absurd h
  Some-left P (x ∷ xs) ys (inl h) = inl h
  Some-left P (x ∷ xs) ys (inr h) = inr (Some-left P xs ys h)

  pub Some-right : (P : A → Type 0) (xs ys : List A) → Some P ys → Some P (xs ++ ys)
  Some-right P [] ys h = h
  Some-right P (x ∷ xs) ys h = inr (Some-right P xs ys h)

  Some-append : (P : A → Type 0) (xs ys : List A) → Some P (xs ++ ys) → Some P xs ⊎ Some P ys
  Some-append P [] ys h = inr h
  Some-append P (x ∷ xs) ys (inl h) = inl (inl h)
  Some-append P (x ∷ xs) ys (inr h) = elim (Some-append P xs ys h) [
    | inl k ↦ inl (inr k)
    | inr k ↦ inr k
  ]

  -- What covers a list has each of its elements in a piece.
  pub Covers-Some :
      (P : A → Type 0) (n : ℕ) (ps : List (List A)) (text : List A)
      → Covers n ps text
      → Some P text
      → Some (λ p. Some P p) ps
  Covers-Some P n [] text h s = absurd (subst (λ (t : List A). Some P t) h s)
  Covers-Some P n (p ∷ ps) text (a, o, b, e, f, l, h) s =
      elim (Some-append P a (o ++ b) (subst (λ (t : List A). Some P t) f s)) [
        | inl k ↦ inl (subst (λ (t : List A). Some P t) (sym e) (Some-left P a o k))
        | inr k ↦ inr (Covers-Some P n ps (o ++ b) h k)
      ]

  Some-place :
      (P : A → Type 0) (before : A → A → Bool) (x : A) (xs : List A)
      → Some P (x ∷ xs)
      → Some P (place before x xs)
  unfolding place
  Some-place P before x [] h = h
  Some-place P before x (y ∷ ys) h = go (before x y) (λ k. Some-place P before x ys k) h
    where
      go :
          (b : Bool)
          → (Some P (x ∷ ys) → Some P (place before x ys))
          → Some P (x ∷ (y ∷ ys))
          → Some P (if b then x ∷ (y ∷ ys) else y ∷ place before x ys)
      go true later k = k
      go false later (inl k) = inr (later (inl k))
      go false later (inr (inl k)) = inl k
      go false later (inr (inr k)) = inr (later (inr k))

  pub Some-sorted :
      (P : A → Type 0) (before : A → A → Bool) (xs : List A) → Some P xs → Some P (sorted before xs)
  unfolding sorted
  Some-sorted P before [] h = h
  Some-sorted P before (x ∷ xs) (inl h) = Some-place P before x (sorted before xs) (inl h)
  Some-sorted P before (x ∷ xs) (inr h) =
      Some-place P before x (sorted before xs) (inr (Some-sorted P before xs h))

  pub Some-enumerate :
      (P : A → Type 0) (n step : ℕ) (xs : List A)
      → Some P xs
      → Some (λ p. P p.1) (enumerate n step xs)
  unfolding enumerate
  Some-enumerate P n step [] h = h
  Some-enumerate P n step (x ∷ xs) (inl h) = inl h
  Some-enumerate P n step (x ∷ xs) (inr h) = inr (Some-enumerate P (n + step) step xs h)

module _ {A : Type 0} {B : Type 0} where
  pub Gets-each :
      (f : A → Outcome (List B)) (xs : List A)
      → ((x : A) → Gets (λ ys. Unit {0}) (f x))
      → Gets (λ ys. Unit {0}) (each f xs)
  unfolding each
  Gets-each f [] h = tt
  Gets-each f (x ∷ xs) h =
      Gets-bind _ _ (f x) _ (h x) λ ys k. Gets-bind _ _ (each f xs) _ (Gets-each f xs h) λ zs l. tt

  pub each-Some :
      (P : B → Type 0) (f : A → Outcome (List B)) (xs : List A)
      → ((x : A) → Gets (λ ys. Unit {0}) (f x))
      → Some (λ x. Gets (λ ys. Some P ys) (f x)) xs
      → Gets (λ ys. Some P ys) (each f xs)
  unfolding each
  each-Some P f [] h s = absurd s
  each-Some P f (x ∷ xs) h (inl s) =
      Gets-bind _ _ (f x) _ s
        λ ys k. Gets-bind _ _ (each f xs) _ (Gets-each f xs h) λ zs l. Some-left P ys zs k
  each-Some P f (x ∷ xs) h (inr s) =
      Gets-bind _ _ (f x) _ (h x)
        λ ys k. Gets-bind _ _ (each f xs) _ (each-Some P f xs h s) λ zs l. Some-right P ys zs l
