-- ===== src/Runs/Invariant/Rows.antt =====
-- Runs and their sessions under the writes of the abstract machine.
use legal_rag_agent.Prelude.{
  ◌≡◌, refl, sym, ◌∙◌, Bool, true, none, some, List, [], ◌∷◌, String, arith, all, ◌=t=◌, find_by,
  put_by, count_by, count-put_by, eq_iff, Bool-cases, inl, inr, ap, put_by-Distinct,
}
use legal_rag_agent.Runs.Tables.{Session, Run, session_key, run_key, is_active, is_active_in}
use legal_rag_agent.Runs.Service.Claim.{oldest}
use legal_rag_agent.Runs.Service.Create.{is_active_of}
use legal_rag_agent.Runs.Spec.{row_ok}
use legal_rag_agent.Runs.Invariant.{is_owned, Sessions}

all-put_by :
    (p : Run → Bool) (r : Run) (runs : List Run)
    → all p runs ≡ true
    → p r ≡ true
    → all p (put_by run_key r runs) ≡ true
unfolding put_by
all-put_by p r [] h k = refl
all-put_by p r (q ∷ runs) h k = ground (arith, all-put_by p r runs)

all-found :
    (p : Run → Bool) (id : String) (r : Run) (runs : List Run)
    → all p runs ≡ true
    → find_by run_key id runs ≡ some r
    → p r ≡ true
unfolding find_by
all-found p id r [] h k = cc
all-found p id r (q ∷ runs) h k = ground (arith, all-found p id r runs)

pub row_found :
    (sessions : List Session) (runs : List Run) (id : String) (r : Run)
    → Sessions sessions runs
    → find_by run_key id runs ≡ some r
    → row_ok r ≡ true
row_found sessions runs id r v h = all-found row_ok id r runs v.rows h

module _ {sessions : List Session} {runs : List Run} (v : Sessions sessions runs) where
  pub put-Sessions :
      (r r' : Run)
      → find_by run_key r'.run_id runs ≡ some r
      → r'.session_id ≡ r.session_id
      → r'.user_id ≡ r.user_id
      → (row_ok r ≡ true → row_ok r' ≡ true)
      → (is_active r'.status ≡ true → is_active r.status ≡ true)
      → Sessions sessions (put_by run_key r' runs)
  put-Sessions r r' found session user fits active = record {
    keyed = put_by-Distinct run_key r' runs v.keyed;
    rows = all-put_by row_ok r' runs v.rows (fits (all-found row_ok _ r runs v.rows found));
    owned =
        all-put_by (is_owned sessions) r' runs v.owned
          (ground (arith, all-found (is_owned sessions) r'.run_id r runs v.owned found));
    one_active =
        λ s. ground (arith, v.one_active s, count-put_by run_key (is_active_in s) r r' runs found);
  }

  -- Nothing is active for the session's user, and so for the session.
  none_active :
      (id user : String) (s : Session) (rs : List Run)
      → all (is_owned sessions) rs ≡ true
      → find_by session_key id sessions ≡ some s
      → (s.user_id =t= user) ≡ true
      → oldest (is_active_of id user) rs ≡ none
      → count_by (is_active_in id) rs ≡ 0
  unfolding count_by oldest is_active_of
  none_active id user s [] owned there owner none_of = refl
  none_active id user s (r ∷ rs) owned there owner none_of = ground (
    arith,
    none_active id user s rs,
    eq_iff r.session_id id,
    eq_iff s.user_id r.user_id,
    eq_iff s.user_id user,
    eq_iff r.user_id user,
  )

  pub new-Sessions :
      (r : Run) (s : Session)
      → find_by run_key r.run_id runs ≡ none
      → row_ok r ≡ true
      → find_by session_key r.session_id sessions ≡ some s
      → (s.user_id =t= r.user_id) ≡ true
      → oldest (is_active_of r.session_id r.user_id) runs ≡ none
      → Sessions sessions (r ∷ runs)
  unfolding count_by
  new-Sessions r s free fits there owner idle = record {
    keyed = (free, v.keyed);
    rows = ground (arith, v.rows);
    owned = ground (arith, v.owned);
    one_active = λ k. elim (Bool-cases (r.session_id =t= k)) [
      | inl here ↦
          let same : r.session_id ≡ k = ground (arith, eq_iff r.session_id k) in
          let idle_session : count_by (is_active_in r.session_id) runs ≡ 0 =
            none_active r.session_id r.user_id s runs v.owned there owner idle in
          let others : count_by (is_active_in k) runs ≡ 0 =
            ap (λ i. count_by (is_active_in i) runs) (sym same) ∙ idle_session in
          ground arith
      | inr there ↦ ground (arith, v.one_active k)
    ];
  }

is_owned-cons :
    (s : Session) (sessions : List Session) (r : Run)
    → find_by session_key s.session_id sessions ≡ none
    → is_owned sessions r ≡ true
    → is_owned (s ∷ sessions) r ≡ true
unfolding find_by
is_owned-cons s sessions r free h = ground (arith, eq_iff s.session_id r.session_id)

all_owned-cons :
    (s : Session) (sessions : List Session) (runs : List Run)
    → find_by session_key s.session_id sessions ≡ none
    → all (is_owned sessions) runs ≡ true
    → all (is_owned (s ∷ sessions)) runs ≡ true
all_owned-cons s sessions [] free h = refl
all_owned-cons s sessions (r ∷ runs) free h =
    ground (arith, is_owned-cons s sessions r free, all_owned-cons s sessions runs free)

pub open-Sessions :
    (s : Session) (sessions : List Session) (runs : List Run)
    → find_by session_key s.session_id sessions ≡ none
    → Sessions sessions runs
    → Sessions (s ∷ sessions) runs
open-Sessions s sessions runs free v = record {
  keyed = v.keyed;
  rows = v.rows;
  owned = all_owned-cons s sessions runs free v.owned;
  one_active = v.one_active;
}
