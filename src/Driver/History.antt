-- ===== src/Driver/History.antt =====
-- Histories of calls to a driver: sound stores, and one job at two times.
use stevy.Base.{
  ◌≤◌, ◌≡◌, refl, sym, ◌∙◌, subst, inl, inr, true, false, some, List, [], ◌∷◌, All, arith,
  Bool-cases,
}
use stevy.Base.Text.{Text, text_eq}
use stevy.Driver.{Driver, Call, step, run}
use stevy.Driver.Contract.{IsDriver}
use stevy.Jobs.{find_row, has_id, is_terminal}
use stevy.Jobs.Keys.{Distinct}
use stevy.Jobs.Moves.{Edge, IsValid, RowStep, Moves, added, moved, Moves-IsValid}
use stevy.Store.{Status, Job, Store, Env}

-- What holds of a store: every job is valid, and no two have one id.
pub record IsSound (s : Store) : Type 0 where
  pub valid : All IsValid s.jobs
  pub distinct : Distinct s.jobs

-- The statuses that can come after one another.
pub data Later : Status → Status → Type 0 where
  here : {s : Status} → Later s s
  next : {s t u : Status} → Edge s t → Later t u → Later s u

-- A job at two times.
pub record Became (r r' : Job) : Type 0 where
  pub same_id : r'.id ≡ r.id
  pub same_queue : r'.queue ≡ r.queue
  pub same_kind : r'.kind ≡ r.kind
  pub same_priority : r'.priority ≡ r.priority
  pub same_max_attempts : r'.max_attempts ≡ r.max_attempts
  pub same_payload : r'.payload ≡ r.payload
  pub same_metadata : r'.metadata ≡ r.metadata
  pub later : Later r.status r'.status
  pub attempts : r.attempt ≤ r'.attempt
  pub frozen : is_terminal r.status ≡ true → r' ≡ r

abbrev pub Found : List Job → Text → Job → Type 0
Found rows id r = find_row (has_id id) rows ≡ some r

has_id-same : (id : Text) (r r' : Job) → r'.id ≡ r.id → has_id id r' ≡ has_id id r
unfolding has_id
has_id-same id r r' e = cc

module _ (id : Text) (x : Job) (rs : List Job) where
  head-Found : (r : Job) → has_id id x ≡ true → Found (x ∷ rs) id r → x ≡ r
  unfolding find_row
  head-Found r e f = let f' : some x ≡ some r = rw e at f in cc

  tail-Found : (r : Job) → has_id id x ≡ false → Found (x ∷ rs) id r → Found rs id r
  unfolding find_row
  tail-Found r e f = rw e at f

  Found-head : has_id id x ≡ true → Found (x ∷ rs) id x
  unfolding find_row
  Found-head e = rw e

  Found-tail : (r : Job) → has_id id x ≡ false → Found rs id r → Found (x ∷ rs) id r
  unfolding find_row
  Found-tail r e f = rw e f

none-Found : (id : Text) (r : Job) → ¬ (Found [] id r)
unfolding find_row
none-Found id r f = cc

-- A row that is found is found after a move, one step on.
Moves-Found :
    {rows rows' : List Job} (id : Text) (r : Job)
    → Moves rows rows'
    → Found rows id r
    → (r' : Job) × Found rows' id r' × RowStep r r'
Moves-Found id r (added v) f = absurd (none-Found id r f)
Moves-Found id r (moved {r = x} {r' = x'} {rs = rs} {rs' = rs'} st m) f =
    elim (Bool-cases (has_id id x)) [
      | inl e ↦ (
        x',
        Found-head id x' rs' (has_id-same id x x' st.same_id ∙ e),
        subst (λ y. RowStep y x') (head-Found id x rs r e f) st,
      )
      | inr e ↦
          let (r', f', st') = Moves-Found id r m (tail-Found id x rs r e f) in
          (r', Found-tail id x' rs' r' (has_id-same id x x' st.same_id ∙ e) f', st')
    ]

Later-trans : {s t u : Status} → Later s t → Later t u → Later s u
Later-trans here l = l
Later-trans (next e k) l = next e (Later-trans k l)

RowStep-Became : {r r' : Job} → RowStep r r' → Became r r'
RowStep-Became st = record {
  same_id = st.same_id;
  same_queue = st.same_queue;
  same_kind = st.same_kind;
  same_priority = st.same_priority;
  same_max_attempts = st.same_max_attempts;
  same_payload = st.same_payload;
  same_metadata = st.same_metadata;
  later = next st.edge here;
  attempts = omega arith;
  frozen = st.frozen;
}

Became-refl : (r : Job) → Became r r
Became-refl r = record {
  same_id = refl;
  same_queue = refl;
  same_kind = refl;
  same_priority = refl;
  same_max_attempts = refl;
  same_payload = refl;
  same_metadata = refl;
  later = here;
  attempts = omega arith;
  frozen = λ _. refl;
}

Became-trans : {a b c : Job} → Became a b → Became b c → Became a c
Became-trans {a} {b} {c} p q = record {
  same_id = q.same_id ∙ p.same_id;
  same_queue = q.same_queue ∙ p.same_queue;
  same_kind = q.same_kind ∙ p.same_kind;
  same_priority = q.same_priority ∙ p.same_priority;
  same_max_attempts = q.same_max_attempts ∙ p.same_max_attempts;
  same_payload = q.same_payload ∙ p.same_payload;
  same_metadata = q.same_metadata ∙ p.same_metadata;
  later = Later-trans p.later q.later;
  attempts = omega arith;
  frozen =
      λ h. q.frozen (subst (λ y. is_terminal y.status ≡ true) (sym (p.frozen h)) h) ∙ p.frozen h;
}

module _ (d : Driver) (contract : IsDriver d) where
  step-IsSound : (e : Env) (c : Call) (s : Store) → IsSound s → IsSound (step d e c s)
  step-IsSound e c s h =
      let kept = contract.keeps e c s h.distinct in
      record { valid = Moves-IsValid kept.0 h.valid; distinct = kept.1 }

  pub run-IsSound : (cs : List (Env × Call)) (s : Store) → IsSound s → IsSound (run d cs s)
  run-IsSound [] s h = h
  run-IsSound ((e, c) ∷ cs) s h = run-IsSound cs (step d e c s) (step-IsSound e c s h)

  pub run-Became :
      (cs : List (Env × Call)) (s : Store) (id : Text) (r : Job)
      → Distinct s.jobs
      → Found s.jobs id r
      → (r' : Job) × Found (run d cs s).jobs id r' × Became r r'
  run-Became [] s id r u f = (r, f, Became-refl r)
  run-Became ((e, c) ∷ cs) s id r u f =
      let kept = contract.keeps e c s u in
      let (r', f', st) = Moves-Found id r kept.0 f in
      let (r'', f'', b) = run-Became cs (step d e c s) id r' kept.1 f' in
      (r'', f'', Became-trans (RowStep-Became st) b)
