-- ===== src/Rpc.antt =====
-- An RPC as `cmdServe` (cmd/stevy/main.go) puts it together: `APIKeyInterceptor` (internal/auth), then
-- `Validate` (internal/middleware/validate.go), then the handler with the caller's identity. The rules
-- of a message and what the stream delivers are parameters.
pub mod Callers
pub mod Claims
pub mod Revoked
use stevy.Base.{Bool, true, false, Option, none, some, if◌then◌else◌}
use stevy.Base.Text.{Text, codes}
use stevy.Auth.{Access, unauthenticated, permission_denied, as_worker, as_user, intercept}
use stevy.Auth.Sessions.{context_worker_id}
use stevy.Driver.{Driver}
use stevy.Service.{Reply, Rpc, reject, invalid_argument}
use stevy.Service.Jobs.{Codec, JobMessage, claim_job}
use stevy.Store.{Store, Env}

-- What a call comes to: the interceptor's refusal, a stream that fails, or the handler's reply.
pub data Outcome (A : Type 0) : Type 0 where
  denied : Access → Outcome A
  broken : Outcome A
  served : Reply A → Outcome A

abbrev pub as_served : {A : Type 0} → Reply A × Store → Outcome A × Store
as_served (r, s) = (served r, s)

-- `validatingStream.Receive`, and the handler that receives.
unfoldable pub receive :
    {Msg A : Type 0} → (Msg → Bool) → Option Msg → (Msg → Rpc A) → Store → Outcome A × Store
receive is_valid none k s = (broken, s)
receive is_valid (some m) k s =
    if is_valid m then as_served (k m s) else as_served (reject invalid_argument s)

abbrev pub admitted :
    {Msg A : Type 0}
    → (Msg → Bool)
    → Option Msg
    → (Access → Msg → Rpc A)
    → Access × Store
    → Outcome A × Store
admitted is_valid m k (unauthenticated, s) = (denied unauthenticated, s)
admitted is_valid m k (permission_denied, s) = (denied permission_denied, s)
admitted is_valid m k (as_worker id, s) = receive is_valid m (k (as_worker id)) s
admitted is_valid m k (as_user id, s) = receive is_valid m (k (as_user id)) s

abbrev pub claim_procedure : Text
claim_procedure = codes "/stevy.v1.JobService/ClaimJob"

module _ (hash : Text → Text) (e : Env) (header : Text) where
  unfoldable pub rpc :
      {Msg A : Type 0}
      → Text
      → (Msg → Bool)
      → Option Msg
      → (Access → Msg → Rpc A)
      → Store
      → Outcome A × Store
  unfolding intercept receive
  rpc procedure is_valid m k s = admitted is_valid m k (intercept hash e procedure header s)

  -- `ClaimJob` over the wire: the message is the queue's name, and the worker is the caller.
  unfoldable pub claim_rpc :
      {Struct : Type 0}
      → Codec Struct
      → Driver
      → Env
      → (Text → Bool)
      → Option Text
      → Store
      → Outcome (Option (JobMessage Struct)) × Store
  unfolding rpc context_worker_id claim_job
  claim_rpc codec d e' is_valid m =
      rpc claim_procedure is_valid m
        (λ access queue. claim_job codec d e' (context_worker_id access) queue)
