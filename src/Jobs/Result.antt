-- ===== src/Jobs/Result.antt =====
-- The exceptions of legal_rag/jobs/store.py and its database, as values. An error rolls the
-- transaction back, so an operation's result carries the new database only if it succeeds.
use legal_rag_agent.Prelude.{Bool, true, false, ◌≡◌, refl}

-- `contract` is JobContractError and `conflict` its subclass JobConflictError. `value_error` is what
-- Python's `tuple.index` raises, `integrity` the database's refusal of a constraint, and `callback`
-- what the write of the catalog raises in an activation.
pub data Error : Type 0 where
  contract conflict value_error integrity callback : Error

pub data Result {ℓ} (A : Type ℓ) : Type ℓ where
  ok : A → Result A
  err : Error → Result A

-- `if not test: raise`.
abbrev pub require : Bool → Error → Result (Unit {0})
require false error = err error
require true error = ok tt

-- What runs next, where nothing was raised.
infixl 5 ◌>>=◌
abbrev pub ◌>>=◌ {κ ℓ} : {B : Type κ} {A : Type ℓ} → Result B → (B → Result A) → Result A
err error >>= next = err error
ok b >>= next = next b

-- The same after a check, whose result is no value.
infixl 5 ◌>>◌
abbrev pub ◌>>◌ {ℓ} : {A : Type ℓ} → Result (Unit {0}) → Result A → Result A
check >> rest = check >>= λ _. rest

module _ {ℓ} {A : Type ℓ} {answer : A} where
  -- What a chain that succeeded had as its first value, for proofs where the parts stay shut.
  pub >>=-eq-ok {κ} :
      {B : Type κ} (first : Result B) (next : B → Result A) (done : (first >>= next) ≡ ok answer)
      → (b : B) × (first ≡ ok b) × (next b ≡ ok answer)
  >>=-eq-ok (err error) next done = cc
  >>=-eq-ok (ok b) next done = (b, refl, done)

  pub >>-eq-ok :
      (check : Result (Unit {0})) (rest : Result A) (done : (check >> rest) ≡ ok answer)
      → (check ≡ ok tt) × (rest ≡ ok answer)
  >>-eq-ok (err error) rest done = cc
  >>-eq-ok (ok _) rest done = (refl, done)
