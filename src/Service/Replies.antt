-- ===== src/Service/Replies.antt =====
-- What the handlers of `CompleteJob`, `PromoteJob` and `CancelJob` reply, on every branch.
use stevy.Base.{◌≢◌, ◌≡◌, refl, ap, inl, inr, Bool, false, not, Option, none, some, [], arith, ◌==◌}
use stevy.Base.Text.{Text, text_eq}
use stevy.Driver.{Driver}
use stevy.Driver.ById.{IsById, CallById}
use stevy.Jobs.{is_running, is_pending, is_terminal, complete_row, promote_row, cancel_row}
use stevy.Jobs.ById.{Target}
use stevy.Jobs.Keys.{Distinct}
use stevy.Service.{
  Reply, reply, refuse, internal, invalid_argument, failed_precondition, coded, map_err,
  parse_job_id, call, ◌>>=◌,
}
use stevy.Service.Jobs.{Codec, complete_job, promote_job, cancel_job}
use stevy.Statements.ById.{Hits, Missed}
use stevy.Store.{Status, Job, Store, Env, Result, ok, err, M}

-- The replies to a request on the job of an id: the id is missing; the job is changed, and nothing
-- else; there is no such job in such a state; the statement fails. Nothing changes but in the second.
pub data Replies (fault : Option Text) (id : Text) (passes : Status → Bool) (change : Job → Job)
    (s : Store) (o : Reply (Unit {0}) × Store) : Type 0 where
  no_id : id ≡ [] → o ≡ (refuse invalid_argument, s) → Replies fault id passes change s o
  done :
      (r : Job) (t : Store)
      → id ≢ []
      → Target id passes s.jobs r
      → Hits id (change r) s (ok tt, t)
      → o ≡ (reply tt, t)
      → Replies fault id passes change s o
  wrong_job :
      id ≢ []
      → Missed id passes s.jobs
      → o ≡ (refuse failed_precondition, s)
      → Replies fault id passes change s o
  no_database :
      (m : Text)
      → id ≢ []
      → fault ≡ some m
      → o ≡ (refuse internal, s)
      → Replies fault id passes change s o

module _ (id : Text) (passes : Status → Bool) (change : Job → Job) (s : Store) where
  coded-Replies :
      id ≢ []
      → (fault : Option Text) (o : Result (Unit {0}) × Store) → CallById fault id passes change s o
      → Replies fault id passes change s (coded map_err o)
  unfolding map_err
  coded-Replies given (some m) o h = no_database m given refl (ap (coded map_err) h)
  coded-Replies given none (ok tt, t) (inl (r, target, hits)) = done r t given target hits refl
  coded-Replies given none (err x, t) (inl (r, target, hits)) =
      absurd (let h = hits.succeeded in ground arith)
  coded-Replies given none o (inr (missed, same)) = wrong_job given missed (ap (coded map_err) same)

  parsed-Replies :
      (fault : Option Text) (m : Text → M (Unit {0}))
      → CallById fault id passes change s (m id s)
      → Replies fault id passes change s ((parse_job_id id >>= λ i. call map_err (m i)) s)
  unfolding parse_job_id
  parsed-Replies fault m h = elim (text_eq.dec id []) [
    | yes missing ↦ no_id missing (ground arith)
    | no given ↦
        let parsed : (id == []) ≡ false = ground arith in
        rw parsed (coded-Replies given fault (m id s) h)
  ]

module _ {Struct : Type 0} (codec : Codec Struct) (d : Driver) (by_id : IsById d) (e : Env)
    (id : Text) (s : Store) (distinct : Distinct s.jobs) where
  -- Over a driver whose calls by id are as the contract says, and with distinct ids, the handler of
  -- `CompleteJob` completes a running job, that of `PromoteJob` releases a pending one and that of
  -- `CancelJob` cancels one that is not final, and they change no other job, queue or worker. Without
  -- an id they reply `InvalidArgument`, without such a job `FailedPrecondition`, and where the
  -- database fails `Internal`, and then nothing changes.
  pub handlers-Replies :
      (result : Struct)
      → Replies
          (e.fault 0)
          id
          is_running
          (complete_row e.now (codec.marshal result))
          s
          (complete_job codec d e id result s)
        × Replies (e.fault 0) id is_pending (promote_row e.now) s (promote_job codec d e id s)
        × Replies
            (e.fault 0)
            id
            (λ st. not (is_terminal st))
            (cancel_row e.now)
            s
            (cancel_job codec d e id s)
  unfolding complete_job promote_job cancel_job
  handlers-Replies result = (
    parsed-Replies id _ _ s (e.fault 0) (λ i. d.complete_job e i (codec.marshal result))
        (by_id.complete e id (codec.marshal result) s distinct),
    parsed-Replies id _ _ s (e.fault 0) (d.promote_job e) (by_id.promote e id s distinct),
    parsed-Replies id _ _ s (e.fault 0) (d.cancel_job e) (by_id.cancel e id s distinct),
  )
