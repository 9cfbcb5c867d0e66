-- ===== src/Rpc/Claims.antt =====
-- `ClaimJob` over the wire: the interceptor, the validation, the handler and `PGDriver` together.
use stevy.Base.{
  drop, length, Option-cases, ◌+◌, ◌≡◌, refl, sym, ap, ◌∙◌, inl, inr, Bool, true, Option, none,
  some, List, arith, Bool-cases, subst,
}
use stevy.Base.Text.{Text, codes, has_prefix}
use stevy.Auth.{
  Access, unauthenticated, permission_denied, as_worker, as_user, is_worker_method, check_token,
  intercept, worker_access, user_access,
}
use stevy.Auth.Sessions.{context_worker_id}
use stevy.Driver.{Driver}
use stevy.Jobs.{claim_row}
use stevy.Jobs.Keys.{Distinct}
use stevy.Keys.{key_owner, find_api_key, worker_id, find_worker, lookup_api_key, lookup_worker_key}
use stevy.Postgres.{Config, scan_job_row, lock_micros}
use stevy.Postgres.Claims.{claim_job-Takes}
use stevy.Postgres.Contract.{pg_driver}
use stevy.Rpc.{served, admitted, receive, claim_procedure, rpc, as_served, claim_rpc}
use stevy.Service.{Reply, reply, refuse, Rpc, answer, then_rpc, coded, to_internal}
use stevy.Service.Jobs.{Codec, JobMessage, row_to_proto, claim_job}
use stevy.Statements.{map_option}
use stevy.Statements.Claim.Call.{Takes}
use stevy.Store.{ApiKey, Worker, Job, JobRow, Store, Env, Result, ok, err}

-- Who may go on to a handler.
pub data IsCaller : Access → Type 0 where
  a_worker : (id : Text) → IsCaller (as_worker id)
  a_user : (id : Text) → IsCaller (as_user id)

-- A lookup that does not fail leaves all but the API keys.
abbrev KeysOnly : Store → Store → Type 0
KeysOnly s t = (ks : List ApiKey) × (t ≡ record s { api_keys = ks })

worker_access-KeysOnly :
    (o : Result Text × Store) (s : Store) → KeysOnly s o.1 → KeysOnly s (worker_access o).1
worker_access-KeysOnly (ok id, t) s h = h
worker_access-KeysOnly (err x, t) s h = h

user_access-KeysOnly :
    (o : Result (Text × Text) × Store) (s : Store) → KeysOnly s o.1 → KeysOnly s (user_access o).1
user_access-KeysOnly (ok (id, user), t) s h = h
user_access-KeysOnly (err x, t) s h = h

key_owner-KeysOnly : (k : Option ApiKey) (s t : Store) → KeysOnly s t → KeysOnly s (key_owner k t).1
key_owner-KeysOnly none s t h = h
key_owner-KeysOnly (some k) s t h = h

worker_id-KeysOnly : (w : Option Worker) (s : Store) → KeysOnly s (worker_id w s).1
worker_id-KeysOnly none s = (s.api_keys, refl)
worker_id-KeysOnly (some w) s = (s.api_keys, refl)

module _ (hash : Text → Text) (e : Env) where
  lookup_api_key-KeysOnly :
      (token : Text) (s : Store) → KeysOnly s (lookup_api_key hash e token s).1
  unfolding lookup_api_key
  lookup_api_key-KeysOnly token s = elim (Option-cases (e.fault 0)) [
    | inl f ↦ rw f (key_owner-KeysOnly (find_api_key (hash token) s.api_keys) s _ (_, refl))
    | inr (m, f) ↦ rw f (s.api_keys, refl)
  ]

  lookup_worker_key-KeysOnly :
      (token : Text) (s : Store) → KeysOnly s (lookup_worker_key hash e token s).1
  unfolding lookup_worker_key
  lookup_worker_key-KeysOnly token s = elim (Option-cases (e.fault 0)) [
    | inl f ↦ rw f (worker_id-KeysOnly (find_worker (hash token) s.workers) s)
    | inr (m, f) ↦ rw f (s.api_keys, refl)
  ]

  check_token-KeysOnly :
      (procedure token : Text) (s : Store) → KeysOnly s (check_token hash e procedure token s).1
  unfolding check_token
  check_token-KeysOnly procedure token s = elim (Bool-cases (has_prefix token (codes "stw_"))) [
    | inl w ↦ elim (Bool-cases (is_worker_method procedure)) [
      | inl m ↦ rw (w, m) (worker_access-KeysOnly _ s (lookup_worker_key-KeysOnly token s))
      | inr m ↦ rw (w, m) (s.api_keys, refl)
    ]
    | inr w ↦ elim (Bool-cases (has_prefix token (codes "stv_"))) [
      | inl v ↦ rw (w, v) (user_access-KeysOnly _ s (lookup_api_key-KeysOnly token s))
      | inr v ↦ rw (w, v) (s.api_keys, refl)
    ]
  ]

  -- The interceptor changes API keys only.
  intercept-KeysOnly :
      (procedure header : Text) (s : Store) → KeysOnly s (intercept hash e procedure header s).1
  unfolding intercept
  intercept-KeysOnly procedure header s = elim (Bool-cases (has_prefix header (codes "Bearer "))) [
    | inl b ↦ rw b (check_token-KeysOnly procedure (drop (length (codes "Bearer ")) header) s)
    | inr b ↦ rw b (s.api_keys, refl)
  ]

served_admitted :
    {Msg A : Type 0} (is_valid : Msg → Bool) (m : Option Msg) (k : Access → Msg → Rpc A)
    (o : Access × Store) (a : A) (s' : Store)
    → admitted is_valid m k o ≡ (served (reply a), s')
    → IsCaller o.0 × (receive is_valid m (k o.0) o.1 ≡ (served (reply a), s'))
served_admitted is_valid m k (unauthenticated, t) a s' h = absurd (ground arith)
served_admitted is_valid m k (permission_denied, t) a s' h = absurd (ground arith)
served_admitted is_valid m k (as_worker id, t) a s' h = (a_worker id, h)
served_admitted is_valid m k (as_user id, t) a s' h = (a_user id, h)

served_received :
    {Msg A : Type 0} (is_valid : Msg → Bool) (m : Option Msg) (k : Msg → Rpc A) (t : Store) (a : A)
    (s' : Store)
    → receive is_valid m k t ≡ (served (reply a), s')
    → (msg : Msg) × (m ≡ some msg) × (is_valid msg ≡ true) × (k msg t ≡ (reply a, s'))
unfolding receive
served_received is_valid none k t a s' h = absurd (ground arith)
served_received {A = A} is_valid (some msg) k t a s' h = elim (Bool-cases (is_valid msg)) [
  | inl v ↦ (msg, refl, v, unserved (k msg t) (rw v at h))
  | inr v ↦ absurd (ground arith)
]
  where
    unserved : (o : Reply A × Store) → as_served o ≡ (served (reply a), s') → o ≡ (reply a, s')
    unserved (reply b, u) h = ground arith
    unserved (refuse c, u) h = absurd (ground arith)

module _ {Struct : Type 0} (codec : Codec Struct) where
  served_claimed :
      (d : Driver) (o : Result (Option JobRow) × Store) (msg : JobMessage Struct) (s' : Store)
      → then_rpc (λ row. answer (map_option (row_to_proto codec d) row)) (coded to_internal o)
        ≡ (reply (some msg), s')
      → (row : JobRow) × (o ≡ (ok (some row), s')) × (msg ≡ row_to_proto codec d row)
  served_claimed d (ok none, t) msg s' h = absurd (ground arith)
  served_claimed d (ok (some row), t) msg s' h = (row, ground arith, ground arith)
  served_claimed d (err x, t) msg s' h = absurd (ground arith)

  module _ (hash : Text → Text) (e e' : Env) (header : Text) (cfg : Config) (is_valid : Text → Bool)
      (m : Option Text) (s s' : Store) (distinct : Distinct s.jobs) where
    abbrev pub caller : Access
    caller = (intercept hash e claim_procedure header s).0

    -- A call of `ClaimJob` over the wire that returns a job had a message that the rules accept, and a
    -- caller that the interceptor names, as a worker or as a user. It took the first claimable job of
    -- the message's queue, which is not paused, for the caller's worker id, empty for a user; it
    -- returns this job as it runs now, and no other job changed. The ids are distinct beforehand.
    pub claim_rpc-Takes :
        (msg : JobMessage Struct)
        → claim_rpc hash e header codec (pg_driver cfg) e' is_valid m s
          ≡ (served (reply (some msg)), s')
        → (queue : Text) × (m ≡ some queue)
          × (is_valid queue ≡ true)
          × IsCaller caller
          × (r : Job) × Takes e'.is_locked e'.now
              (e'.now + lock_micros cfg)
              (context_worker_id caller)
              queue
              s
              s'
              r
          × (msg
              ≡ row_to_proto codec (pg_driver cfg) (
                  scan_job_row
                    (claim_row e'.now (e'.now + lock_micros cfg) (context_worker_id caller) r)))
    unfolding claim_rpc rpc claim_job
    claim_rpc-Takes msg h =
        let k = λ (access : Access) (queue : Text).
          claim_job codec (pg_driver cfg) e' (context_worker_id access) queue in
        let o : Access × Store = intercept hash e claim_procedure header s in
        let (named, received) = served_admitted is_valid m k o (some msg) s' h in
        let (queue, asked, valid, handled) =
          served_received is_valid m (k o.0) o.1 (some msg) s' received in
        let worker = context_worker_id o.0 in
        let (row, claimed, shown) =
          served_claimed (pg_driver cfg) ((pg_driver cfg).claim_job e' queue worker o.1) msg s'
            handled in
        let (ks, same) = intercept-KeysOnly hash e claim_procedure header s in
        let distinct' : Distinct o.1.jobs = subst (λ t. Distinct t.jobs) (sym same) distinct in
        let (r, takes, scanned) =
          claim_job-Takes cfg e' queue worker o.1 s' distinct' row claimed in
        let at_s : Takes e'.is_locked e'.now (e'.now + lock_micros cfg) worker queue
            (record s { api_keys = ks }) s' r =
          subst (λ t. Takes e'.is_locked e'.now (e'.now + lock_micros cfg) worker queue t s' r) same
            takes in
        (
          queue,
          asked,
          valid,
          named,
          r,
          record { unpaused = at_s.unpaused; first = at_s.first; jobs = at_s.jobs },
          shown ∙ ap (row_to_proto codec (pg_driver cfg)) scanned,
        )
