-- ===== src/Chunking/Windows.antt =====
-- The windows of neighbor_chunks and fixed_char_chunks.
use mathlib.Core.Path.{subst}
use legal_rag_agent.Prelude.{
  ℕ, zero, suc, ◌-◌, ◌≤◌, ◌<◌, ◌≡◌, refl, sym, ap, ◌∙◌, some, List, [], ◌∷◌, ◌++◌, length, take,
  drop, length-take, length-drop, Each, arith,
}
use legal_rag_agent.Chunking.Covers.{Covers, first_piece}
use legal_rag_agent.Chunking.Strategies.{slices}

module _ {ℓ} {A : Type ℓ} where
  -- Slices that start every `step` elements and are at least that long cover the list: they contain
  -- each of its elements, in order, each is at most `size` long, and each next one starts at most
  -- `size - step` elements before the end of the one before it. Fuel above the list's length is
  -- enough.
  pub slices-Covers :
      (fuel step size : ℕ) (xs : List A)
      → 0 < step
      → step ≤ size
      → length xs < fuel
      → (pieces : List (List A)) × (slices fuel step size xs ≡ some pieces)
        × Covers (size - step) pieces xs
        × Each (λ p. length p ≤ size) pieces
  unfolding slices
  slices-Covers zero step size xs some_step fits enough = absurd (omega (arith, enough))
  slices-Covers (suc fuel) step size [] some_step fits enough = ([], refl, refl, tt)
  slices-Covers (suc fuel) step size (x ∷ xs) some_step fits enough =
      let (a, p, b, e, f, l, d) =
        first_piece size (size - step) (x ∷ xs) (omega (arith, some_step, fits)) in
      let back : size - (size - step) ≡ step = omega (arith, fits) in
      let d' : drop step (x ∷ xs) ≡ p ++ b = ap (λ n. drop n (x ∷ xs)) (sym back) ∙ d in
      let (pieces, same, covers, small) =
        slices-Covers fuel step size (drop step (x ∷ xs)) some_step fits
          (omega (arith, length-drop step (x ∷ xs), some_step, enough)) in
      (
        take size (x ∷ xs) ∷ pieces,
        ground (arith, same),
        (a, p, b, e, f, l, subst (λ (t : List A). Covers (size - step) pieces t) d' covers),
        (length-take size (x ∷ xs), small),
      )
