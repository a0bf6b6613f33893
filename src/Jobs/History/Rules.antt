-- ===== src/Jobs/History/Rules.antt =====
-- Rules by which a method's transaction is shown to let rows grow only.
use legal_rag_agent.Prelude.{
  ◌≡◌, refl, Bool, true, false, Option, none, some, ◌∷◌, arith, Bool-cases, inl, inr, ◌⊎◌,
  if◌then◌else◌,
}
use legal_rag_agent.Jobs.Result.{Result, ok, err, integrity, ◌>>=◌, ◌>>◌}
use legal_rag_agent.Jobs.Tables.{
  Job, Item, Outbox, Db, job_ok, item_ok, find_job, set_job, find_item, set_item, update_job,
  update_item, insert_item, insert_outbox, update_outbox, set_outbox, find_outbox,
}
use legal_rag_agent.Jobs.Store.{Clock, Lease, is_active, under_lease}
use legal_rag_agent.Jobs.Invariant.Rules.{locked-cases, under_lease_lost, under_lease_held}
use legal_rag_agent.Jobs.History.{
  JobGrows, ItemGrows, Grows, Grows-refl, Grows-trans, Grows-set_job, Grows-set_item,
  Grows-insert_item, Grows-set_outbox, Grows-insert_outbox,
}

-- What a transaction that began at `db` commits has grown from there.
abbrev pub Steps : {A : Type 0} → Db → Result (A × Db) → Type 0
Steps db (ok (a, db')) = Grows db db'
Steps db (err e) = Unit

module _ {A : Type 0} (start : Db) where
  pub Steps-check :
      (m : Result (Unit {0})) (k : Result (A × Db))
      → (m ≡ ok tt → Steps start k)
      → Steps start (m >> k)
  Steps-check (ok tt) k h = h refl
  Steps-check (err e) k h = tt

  pub Steps-if :
      (b : Bool) (m n : Result (A × Db))
      → (b ≡ true → Steps start m)
      → (b ≡ false → Steps start n)
      → Steps start (if b then m else n)
  Steps-if true m n hm hn = hm refl
  Steps-if false m n hm hn = hn refl

  pub Steps-found {κ} :
      {B : Type κ} (o : Option B) (m : Result (A × Db)) (f : B → Result (A × Db))
      → (o ≡ none → Steps start m)
      → ((b : B) → o ≡ some b → Steps start (f b))
      → Steps start (elim o [ none ↦ m | some b ↦ f b ])
  Steps-found none m f hm hf = hm refl
  Steps-found (some b) m f hm hf = hf b refl

  pub Steps-update_job :
      (j j' : Job) (db : Db) (k : Db → Result (A × Db))
      → Grows start db
      → find_job j'.job_id db.jobs ≡ some j
      → JobGrows j j'
      → ((db' : Db) → Grows start db' → Steps start (k db'))
      → Steps start (update_job j' db >>= k)
  Steps-update_job j j' db k g e grows h = elim (Bool-cases (job_ok j')) [
    | inl fits ↦
        rw (update_job_passes fits) (h _ (Grows-trans start db _ g (Grows-set_job j j' db e grows)))
    | inr fails ↦ rw (update_job_fails fails) tt
  ]
    where
      update_job_passes :
          job_ok j' ≡ true → update_job j' db ≡ ok (record db { jobs = set_job j' db.jobs })
      update_job_passes fits = unfold update_job in rw fits

      update_job_fails : job_ok j' ≡ false → update_job j' db ≡ err integrity
      update_job_fails fails = unfold update_job in rw fails

  -- The last write, and then an answer.
  pub Steps-last :
      (j j' : Job) (db : Db) (answer : Db → A)
      → Grows start db
      → find_job j'.job_id db.jobs ≡ some j
      → JobGrows j j'
      → Steps start (update_job j' db >>= λ db'. ok (answer db', db'))
  Steps-last j j' db answer g e grows =
      Steps-update_job j j' db (λ db'. ok (answer db', db')) g e grows (λ db' g'. g')

  -- The jobs are as they were when the rest of the transaction writes one.
  pub Steps-update_item :
      (i i' : Item) (db : Db) (k : Db → Result (A × Db))
      → Grows start db
      → find_item i'.job_id i'.item_key db.items ≡ some i
      → ItemGrows i i'
      → ((db' : Db) → db'.jobs ≡ db.jobs → Grows start db' → Steps start (k db'))
      → Steps start (update_item i' db >>= k)
  Steps-update_item i i' db k g e grows h = elim (Bool-cases (item_ok i')) [
    | inl fits ↦
        rw (update_item_passes fits)
          (h _ refl (Grows-trans start db _ g (Grows-set_item i i' db e grows)))
    | inr fails ↦ rw (update_item_fails fails) tt
  ]
    where
      update_item_passes :
          item_ok i' ≡ true → update_item i' db ≡ ok (record db { items = set_item i' db.items })
      update_item_passes fits = unfold update_item in rw fits

      update_item_fails : item_ok i' ≡ false → update_item i' db ≡ err integrity
      update_item_fails fails = unfold update_item in rw fails

  pub Steps-insert_item :
      (i' : Item) (db : Db) (k : Db → Result (A × Db))
      → Grows start db
      → find_item i'.job_id i'.item_key db.items ≡ none
      → ((db' : Db) → db'.jobs ≡ db.jobs → Grows start db' → Steps start (k db'))
      → Steps start (insert_item i' db >>= k)
  Steps-insert_item i' db k g free h = elim (insert_item-cases) [
    | inl e ↦ rw e (h _ refl (Grows-trans start db _ g (Grows-insert_item i' db free)))
    | inr e ↦ rw e tt
  ]
    where
      insert_item-cases :
          (insert_item i' db ≡ ok (record db { items = i' ∷ db.items }))
          ⊎ (insert_item i' db ≡ err integrity)
      insert_item-cases = unfold insert_item in ground arith

  -- A write of messages leaves the other tables, and a delivered message delivered.
  pub Steps-update_outbox :
      (o o' : Outbox) (db : Db) (k : Db → Result (A × Db))
      → Grows start db
      → find_outbox o'.outbox_id db.outbox ≡ some o
      → (o.delivered ≡ true → o'.delivered ≡ true)
      → ((db' : Db) → Grows start db' → Steps start (k db'))
      → Steps start (update_outbox o' db >>= k)
  Steps-update_outbox o o' db k g found stays h = elim (update_outbox-cases) [
    | inl e ↦ rw e (h _ (Grows-trans start db _ g (Grows-set_outbox o o' db found stays)))
    | inr e ↦ rw e tt
  ]
    where
      update_outbox-cases :
          (update_outbox o' db ≡ ok (record db { outbox = set_outbox o' db.outbox }))
          ⊎ (update_outbox o' db ≡ err integrity)
      update_outbox-cases = unfold update_outbox in ground arith

  pub Steps-insert_outbox :
      (o' : Outbox) (db : Db) (k : Db → Result (A × Db))
      → Grows start db
      → ((db' : Db) → Grows start db' → Steps start (k db'))
      → Steps start (insert_outbox o' db >>= k)
  Steps-insert_outbox o' db k g h = elim (insert_outbox-cases) [
    | inl (e, free) ↦ rw e (h _ (Grows-trans start db _ g (Grows-insert_outbox o' db free)))
    | inr e ↦ rw e tt
  ]
    where
      insert_outbox-cases :
          ((insert_outbox o' db ≡ ok (record db { outbox = o' ∷ db.outbox }))
            × (find_outbox o'.outbox_id db.outbox ≡ none))
          ⊎ (insert_outbox o' db ≡ err integrity)
      insert_outbox-cases = unfold insert_outbox in ground arith

  pub Steps-under_lease :
      (lease : Lease) (clock : Clock) (refusal : A) (body : Job → Db → Result (A × Db))
      → ((j : Job)
          → find_job lease.job_id start.jobs ≡ some j
          → is_active lease clock.read_at j ≡ true
          → Steps start (body j start))
      → Steps start (under_lease lease clock refusal body start)
  Steps-under_lease lease clock refusal body h = elim (locked-cases lease clock.read_at start) [
    | inl lost ↦ rw (under_lease_lost lease clock refusal body start lost) (Grows-refl start)
    | inr (j, e, a, found) ↦ rw (under_lease_held lease clock refusal body start j found) (h j e a)
  ]

-- The answer does not matter.
pub Steps-map :
    {A B : Type 0} (start : Db) (m : Result (A × Db)) (g : A → B)
    → Steps start m
    → Steps start (m >>= λ r. ok (g r.0, r.1))
Steps-map start (ok (a, db)) g h = h
Steps-map start (err e) g h = tt

pub Steps-bind :
    {A B : Type 0} (start : Db) (m : Result (B × Db)) (k : B × Db → Result (A × Db))
    → Steps start m
    → ((b : B) (db : Db) → Grows start db → Steps start (k (b, db)))
    → Steps start (m >>= k)
Steps-bind start (ok (b, db)) k g h = h b db g
Steps-bind start (err e) k g h = tt
