-- ===== src/Runs/Refines/Selection.antt =====
-- The rows that recover_stale_runs selects and orders.
use legal_rag_agent.Prelude.{
  ℕ, zero, suc, ◌≡◌, refl, Bool, true, false, none, List, [], ◌∷◌, String, arith, take, find_by,
  inl, inr, ◌=t=◌, Bool-cases, eq_iff, Each, Distinct,
}
use legal_rag_agent.Runs.Tables.{Run, run_key}
use legal_rag_agent.Runs.Service.Recover.{sooner, place_run, stale_rows}

pub place_run_absent :
    (id : String) (r : Run) (rows : List Run)
    → (r.run_id =t= id) ≡ false
    → find_by run_key id rows ≡ none
    → find_by run_key id (place_run r rows) ≡ none
unfolding place_run find_by
place_run_absent id r [] ne free = ground arith
place_run_absent id r (q ∷ rows) ne free = ground (arith, place_run_absent id r rows)

pub place_run-Distinct :
    (r : Run) (rows : List Run)
    → find_by run_key r.run_id rows ≡ none
    → Distinct run_key rows
    → Distinct run_key (place_run r rows)
unfolding place_run find_by
place_run-Distinct r [] free d = (refl, tt)
place_run-Distinct r (q ∷ rows) free (fresh, d) = elim (Bool-cases (sooner q r)) [
  | inl t ↦ rw t (
    place_run_absent q.run_id r rows
        (ground (arith, eq_iff q.run_id r.run_id, eq_iff r.run_id q.run_id)) fresh,
    place_run-Distinct r rows (ground arith) d,
  )
  | inr t ↦ rw t (free, (fresh, d))
]

pub place_run-Each :
    (P : Run → Type 0) (r : Run) (rows : List Run) → P r → Each P rows → Each P (place_run r rows)
unfolding place_run
place_run-Each P r [] h each = (h, tt)
place_run-Each P r (q ∷ rows) h (here, each) = elim (Bool-cases (sooner q r)) [
  | inl t ↦ rw t (here, place_run-Each P r rows h each)
  | inr t ↦ rw t (h, (here, each))
]

pub stale_rows_absent :
    (id : String) (p : Run → Bool) (rows : List Run)
    → find_by run_key id rows ≡ none
    → find_by run_key id (stale_rows p rows) ≡ none
unfolding stale_rows find_by
stale_rows_absent id p [] free = refl
stale_rows_absent id p (r ∷ rows) free =
    ground (arith, stale_rows_absent id p rows, place_run_absent id r (stale_rows p rows))

pub stale_rows-Distinct :
    (p : Run → Bool) (rows : List Run)
    → Distinct run_key rows
    → Distinct run_key (stale_rows p rows)
unfolding stale_rows
stale_rows-Distinct p [] d = tt
stale_rows-Distinct p (r ∷ rows) (free, d) = elim (Bool-cases (p r)) [
  | inl t ↦ rw t (
      place_run-Distinct r (stale_rows p rows) (stale_rows_absent r.run_id p rows free)
        (stale_rows-Distinct p rows d))
  | inr t ↦ rw t (stale_rows-Distinct p rows d)
]

-- What holds of all rows holds of the selected ones, which pass.
pub stale_rows-Each :
    (P : Run → Type 0) (p : Run → Bool) (rows : List Run)
    → Each P rows
    → Each (λ r. P r × (p r ≡ true)) (stale_rows p rows)
unfolding stale_rows
stale_rows-Each P p [] each = tt
stale_rows-Each P p (r ∷ rows) (here, each) = elim (Bool-cases (p r)) [
  | inl t ↦ rw t (place_run-Each _ r (stale_rows p rows) (here, t) (stale_rows-Each P p rows each))
  | inr t ↦ rw t (stale_rows-Each P p rows each)
]

pub take_absent :
    (id : String) (n : ℕ) (rows : List Run)
    → find_by run_key id rows ≡ none
    → find_by run_key id (take n rows) ≡ none
unfolding find_by
take_absent id zero rows free = refl
take_absent id (suc n) [] free = refl
take_absent id (suc n) (r ∷ rows) free = ground (arith, take_absent id n rows)

pub take-Distinct :
    (n : ℕ) (rows : List Run) → Distinct run_key rows → Distinct run_key (take n rows)
take-Distinct zero rows d = tt
take-Distinct (suc n) [] d = tt
take-Distinct (suc n) (r ∷ rows) (free, d) =
    (take_absent r.run_id n rows free, take-Distinct n rows d)
