-- ===== src/Jobs/Invariant/Rules.antt =====
-- Rules by which a method is shown to keep the invariant, one for each part of a method's body.
use legal_rag_agent.Prelude.{
  ℕ, ◌≡◌, refl, Bool, true, false, Option, none, some, String, arith, Bool-cases, Option-cases, ◌⊎◌,
  inl, inr, if◌then◌else◌,
}
use legal_rag_agent.Jobs.Result.{
  Result, ok, err, contract, conflict, value_error, integrity, callback, require, ◌>>=◌, ◌>>◌,
}
use legal_rag_agent.Jobs.Validate.{required_string, opaque_id, hash, error_code, result_ref, count}
use legal_rag_agent.Jobs.Tables.{Job, Db, find_job, update_job}
use legal_rag_agent.Jobs.Store.{Clock, Lease, is_active, locked_active_job, under_lease}
use legal_rag_agent.Jobs.Invariant.{JobInv, IsValid, Keeps, update_job-IsValid}

-- A check passes or raises an error of the contract.
abbrev pub IsCheck : Result (Unit {0}) → Type 0
IsCheck (ok _) = Unit
IsCheck (err contract) = Unit
IsCheck (err conflict) = Unit
IsCheck (err callback) = Unit
IsCheck (err value_error) = ⊥
IsCheck (err integrity) = ⊥

pub IsCheck-cases : (m : Result (Unit {0})) → (m ≡ ok tt) ⊎ (m ≡ err contract) → IsCheck m
IsCheck-cases (ok _) h = tt
IsCheck-cases (err contract) h = tt
IsCheck-cases (err conflict) h = tt
IsCheck-cases (err callback) h = tt
IsCheck-cases (err value_error) h = ground arith
IsCheck-cases (err integrity) h = ground arith

pub require-IsCheck : (b : Bool) → IsCheck (require b contract)
require-IsCheck true = tt
require-IsCheck false = tt

pub conflict-IsCheck : (b : Bool) → IsCheck (require b conflict)
conflict-IsCheck true = tt
conflict-IsCheck false = tt

pub count-IsCheck : (value minimum maximum : ℕ) → IsCheck (count value minimum maximum)
unfolding count
count-IsCheck value minimum maximum = require-IsCheck _

pub required_string-IsCheck : (s : String) (n : ℕ) → IsCheck (required_string s n)
unfolding required_string
required_string-IsCheck s n = require-IsCheck _

pub hash-IsCheck : (s : String) → IsCheck (hash s)
unfolding hash
hash-IsCheck s = require-IsCheck _

pub error_code-IsCheck : (s : Option String) → IsCheck (error_code s)
unfolding error_code
error_code-IsCheck none = tt
error_code-IsCheck (some s) = require-IsCheck _

IsCheck-then :
    (m : Result (Unit {0})) (b : Bool)
    → IsCheck m
    → IsCheck (elim m [ ok _ ↦ require b contract | err e ↦ err e ])
IsCheck-then (ok _) b c = require-IsCheck b
IsCheck-then (err contract) b c = tt
IsCheck-then (err conflict) b c = tt
IsCheck-then (err callback) b c = tt
IsCheck-then (err value_error) b c = absurd c
IsCheck-then (err integrity) b c = absurd c

pub opaque_id-IsCheck : (s : String) → IsCheck (opaque_id s)
unfolding opaque_id
opaque_id-IsCheck s = IsCheck-then (required_string s 128) _ (required_string-IsCheck s 128)

pub result_ref-IsCheck : (s : String) → IsCheck (result_ref s)
unfolding result_ref
result_ref-IsCheck s = IsCheck-then (required_string s 255) _ (required_string-IsCheck s 255)

pub IsCheck-and : (m n : Result (Unit {0})) → IsCheck m → IsCheck n → IsCheck (m >> n)
IsCheck-and (ok _) n c d = d
IsCheck-and (err e) n c d = c

-- A check before the rest; the rest may use that it passed.
pub Keeps-check {ℓ} :
    {A : Type ℓ} (m : Result (Unit {0})) (k : Result (A × Db))
    → IsCheck m
    → (m ≡ ok tt → Keeps k)
    → Keeps (m >> k)
Keeps-check (ok tt) k c h = h refl
Keeps-check (err contract) k c h = tt
Keeps-check (err conflict) k c h = tt
Keeps-check (err callback) k c h = tt
Keeps-check (err value_error) k c h = absurd c
Keeps-check (err integrity) k c h = absurd c

-- A lease that is lost, or the row that it holds.
pub locked-cases :
    (lease : Lease) (at : ℕ) (db : Db)
    → (locked_active_job lease at db ≡ none)
      ⊎ ((j : Job) × (find_job lease.job_id db.jobs ≡ some j)
          × (is_active lease at j ≡ true)
          × (locked_active_job lease at db ≡ some j))
unfolding locked_active_job
locked-cases lease at db = elim (Option-cases (find_job lease.job_id db.jobs)) [
  | inl e ↦ inl (ground arith)
  | inr (j, e) ↦ elim (Bool-cases (is_active lease at j)) [
    | inl a ↦ inr (j, e, a, ground arith)
    | inr a ↦ inl (ground arith)
  ]
]

module _ {ℓ} {A : Type ℓ} (lease : Lease) (clock : Clock) (refusal : A)
    (body : Job → Db → Result (A × Db)) (db : Db) where
  pub under_lease_lost :
      locked_active_job lease clock.read_at db ≡ none
      → under_lease lease clock refusal body db ≡ ok (refusal, db)
  unfolding under_lease
  under_lease_lost lost = rw (lost, under_lease)

  pub under_lease_held :
      (j : Job)
      → locked_active_job lease clock.read_at db ≡ some j
      → under_lease lease clock refusal body db ≡ body j db
  unfolding under_lease
  under_lease_held j found = rw (found, under_lease)

-- A body under a lease runs only on the row that the lease holds.
pub Keeps-under_lease {ℓ} :
    {A : Type ℓ} (lease : Lease) (clock : Clock) (refusal : A) (body : Job → Db → Result (A × Db))
    (db : Db)
    → IsValid db
    → ((j : Job)
        → find_job lease.job_id db.jobs ≡ some j
        → is_active lease clock.read_at j ≡ true
        → Keeps (body j db))
    → Keeps (under_lease lease clock refusal body db)
Keeps-under_lease lease clock refusal body db v h = elim (locked-cases lease clock.read_at db) [
  | inl lost ↦ rw (under_lease_lost lease clock refusal body db lost) v
  | inr (j, e, a, found) ↦ rw (under_lease_held lease clock refusal body db j found) (h j e a)
]

-- A write of a job's row, and then an answer.
pub Keeps-update_job {ℓ} :
    {A : Type ℓ} {db : Db} (j j' : Job) (answer : Db → A)
    → IsValid db
    → find_job j'.job_id db.jobs ≡ some j
    → JobInv db.items j'
    → Keeps (update_job j' db >>= λ db'. ok (answer db', db'))
Keeps-update_job j j' answer v h new =
    let (done, after) = update_job-IsValid j j' v h new in rw done after

-- A branch, and a branch on a row that may be missing.
pub Keeps-if {ℓ} :
    {A : Type ℓ} (b : Bool) (m n : Result (A × Db))
    → (b ≡ true → Keeps m)
    → (b ≡ false → Keeps n)
    → Keeps (if b then m else n)
Keeps-if true m n hm hn = hm refl
Keeps-if false m n hm hn = hn refl

pub Keeps-found {ℓ κ} :
    {A : Type ℓ} {B : Type κ} (o : Option B) (m : Result (A × Db)) (f : B → Result (A × Db))
    → (o ≡ none → Keeps m)
    → ((b : B) → o ≡ some b → Keeps (f b))
    → Keeps (elim o [ none ↦ m | some b ↦ f b ])
Keeps-found none m f hm hf = hm refl
Keeps-found (some b) m f hm hf = hf b refl

-- A body whose answer is changed at the end.
pub Keeps-map {ℓ κ} :
    {A : Type ℓ} {B : Type κ} (m : Result (A × Db)) (g : A → B)
    → Keeps m
    → Keeps (m >>= λ r. ok (g r.0, r.1))
Keeps-map (ok (a, db)) g h = h
Keeps-map (err contract) g h = tt
Keeps-map (err conflict) g h = tt
Keeps-map (err callback) g h = tt
Keeps-map (err value_error) g h = absurd h
Keeps-map (err integrity) g h = absurd h
