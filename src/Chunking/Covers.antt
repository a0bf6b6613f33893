-- ===== src/Chunking/Covers.antt =====
-- Pieces of a list in their order.
use mathlib.Core.Path.{subst}
use mathlib.Core.List.{append_assoc, append-nil}
use legal_rag_agent.Prelude.{
  ℕ, ◌+◌, ◌-◌, ◌≤◌, ◌<◌, ◌≡◌, refl, sym, ap, ◌∙◌, List, [], ◌∷◌, ◌++◌, length, take, drop,
  take-append-drop, take-split, length-take, arith,
}

module _ {ℓ} {A : Type ℓ} where
  -- Pieces of a list in their order, and what they leave of it: each next piece starts at most
  -- `overlap` elements before the end of the one before it.
  abbrev pub Leads : ℕ → List (List A) → List A → List A → Type ℓ
  Leads overlap [] rest text = text ≡ rest
  Leads overlap (p ∷ ps) rest text =
      (a : List A) × (o : List A) × (b : List A) × (p ≡ a ++ o)
      × (text ≡ a ++ (o ++ b))
      × (length o ≤ overlap)
      × Leads overlap ps rest (o ++ b)

  -- The pieces cover the list: together they contain each of its elements, in order.
  abbrev pub Covers : ℕ → List (List A) → List A → Type ℓ
  Covers overlap ps text = Leads overlap ps [] text

  abbrev pub concat : List (List A) → List A
  concat [] = []
  concat (s ∷ ss) = s ++ concat ss

  pub Leads-extend :
      (n : ℕ) (ps : List (List A)) (rest text more : List A)
      → Leads n ps rest text
      → Leads n ps (rest ++ more) (text ++ more)
  Leads-extend n [] rest text more h = ap (λ t. t ++ more) h
  Leads-extend n (p ∷ ps) rest text more (a, o, b, e, f, l, h) = (
    a,
    o,
    b ++ more,
    e,
    ap (λ t. t ++ more) f ∙ append_assoc a (o ++ b) more ∙ ap (λ t. a ++ t) (append_assoc o b more),
    l,
    subst (λ (t : List A). Leads n ps (rest ++ more) t) (append_assoc o b more)
        (Leads-extend n ps rest (o ++ b) more h),
  )

  pub Leads-append :
      (n : ℕ) (ps qs : List (List A)) (rest end text : List A)
      → Leads n ps rest text
      → Leads n qs end rest
      → Leads n (ps ++ qs) end text
  Leads-append n [] qs rest end text h k = subst (λ (t : List A). Leads n qs end t) (sym h) k
  Leads-append n (p ∷ ps) qs rest end text (a, o, b, e, f, l, h) k =
      (a, o, b, e, f, l, Leads-append n ps qs rest end (o ++ b) h k)

  -- One piece that overlaps with no other.
  pub Leads-piece : (n : ℕ) (p rest : List A) → Leads n (p ∷ []) rest (p ++ rest)
  Leads-piece n p rest = (p, [], rest, sym (append-nil p), refl, omega arith, refl)

  -- The first `m` elements and what follows `m - o` of them.
  pub first_piece :
      (m o : ℕ) (text : List A)
      → o < m
      → (a : List A) × (p : List A) × (b : List A) × (take m text ≡ a ++ p)
        × (text ≡ a ++ (p ++ b))
        × (length p ≤ o)
        × (drop (m - o) text ≡ p ++ b)
  first_piece m o text less =
      let rest = drop (m - o) text in
      let whole : take o rest ++ drop o rest ≡ rest = take-append-drop o rest in
      let parts : m ≡ m - o + o = omega (arith, less) in
      (
        take (m - o) text,
        take o rest,
        drop o rest,
        ap (λ n. take n text) parts ∙ take-split (m - o) o text,
        sym (ap (λ t. take (m - o) text ++ t) whole ∙ take-append-drop (m - o) text),
        length-take o rest,
        sym whole,
      )
