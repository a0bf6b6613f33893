-- ===== src/Runs/Result.antt =====
-- The exceptions of legal_rag/services/run_service.py and its database, as values. An error rolls
-- the transaction back, so an operation's result carries the new tables only if it succeeds.
use mathlib.Core.Path.{subst}
use legal_rag_agent.Prelude.{Bool, true, false, ◌≡◌, refl, String, if◌then◌else◌}

-- ServiceContractError, ResourceNotFoundError, IdempotencyConflictError, ActiveRunConflictError
-- with the run's ID, SessionInactiveError, RunConfigurationUnavailableError,
-- CheckpointCompatibilityError, InvalidRunStateError, WorkerLeaseLostError, RunServiceDataError,
-- BudgetExhausted with its stop reason, and the database's refusal of a primary key.
pub data Error : Type 0 where
  contract not_found idempotency_conflict : Error
  active_run_conflict : String → Error
  session_inactive configuration_unavailable checkpoint_incompatible : Error
  invalid_state lease_lost data_error : Error
  budget_exhausted : String → Error
  integrity : Error

pub data Result (A : Type 0) : Type 0 where
  ok : A → Result A
  err : Error → Result A

-- `if not test: raise`.
unfoldable pub require : Bool → Error → Result (Unit {0})
require false error = err error
require true error = ok tt

-- What runs next, where nothing was raised.
infixl 5 ◌>>=◌
unfoldable pub ◌>>=◌ : {B A : Type 0} → Result B → (B → Result A) → Result A
err error >>= next = err error
ok b >>= next = next b

infixl 5 ◌>>◌
abbrev pub ◌>>◌ : {A : Type 0} → Result (Unit {0}) → Result A → Result A
check >> rest = check >>= λ _. rest

-- A statement of what a chain gives, if it succeeds.
pub record Gives {A : Type 0} (P : A → Type 0) (m : Result A) : Type 0 where
  pub given : (a : A) → m ≡ ok a → P a

module _ {A : Type 0} {P : A → Type 0} where
  pub Gives-ok : (a : A) → P a → Gives P (ok a)
  Gives-ok a p = record { given = λ b e. subst P (cc) p }

  pub Gives-err : (e : Error) → Gives P (err e)
  Gives-err e = record { given = λ b h. cc }

  pub Gives-bind :
      {B : Type 0} (first : Result B) (next : B → Result A)
      → ((b : B) → first ≡ ok b → Gives P (next b))
      → Gives P (first >>= next)
  unfolding ◌>>=◌
  Gives-bind (err e) next h = Gives-err e
  Gives-bind (ok b) next h = h b refl

  pub Gives-check :
      (check : Result (Unit {0})) (rest : Result A) → Gives P rest → Gives P (check >> rest)
  unfolding ◌>>=◌
  Gives-check (err e) rest h = Gives-err e
  Gives-check (ok b) rest h = h

  pub Gives-checked :
      (check : Result (Unit {0})) (rest : Result A)
      → (check ≡ ok tt → Gives P rest)
      → Gives P (check >> rest)
  unfolding ◌>>=◌
  Gives-checked (err e) rest h = Gives-err e
  Gives-checked (ok tt) rest h = h refl

  pub Gives-require :
      (test : Bool) (error : Error) (rest : Result A)
      → (test ≡ true → Gives P rest)
      → Gives P (require test error >> rest)
  unfolding ◌>>=◌ require
  Gives-require false error rest h = Gives-err error
  Gives-require true error rest h = h refl

  pub Gives-if :
      (test : Bool) (left right : Result A)
      → (test ≡ true → Gives P left)
      → (test ≡ false → Gives P right)
      → Gives P (if test then left else right)
  Gives-if true left right h k = h refl
  Gives-if false left right h k = k refl
