-- ===== src/Service/Overflow.antt =====
-- A job with exponential backoff whose attempts run high, on PostgreSQL.
use stevy.Base.{
  ℕ, suc, ◌*◌, ◌^◌, ◌≤◌, ◌<◌, ◌≡◌, ◌≢◌, refl, ap, ◌<◌, false, none, some, [], ◌∷◌, pos, arith,
}
use stevy.Base.Text.{Text, codes, text_eq}
use stevy.Jobs.{find_row, has_id}
use stevy.Postgres.{Config, scan_job_row}
use stevy.Postgres.Contract.{pg_driver}
use stevy.Postgres.Outcomes.{fail_job_overflow}
use stevy.Postgres.Reads.{get_job}
use stevy.Service.{reply, refuse, internal, parse_job_id, map_err}
use stevy.Service.Backoff.{base_delay, with_jitter}
use stevy.Service.Delays.{exponential_delay}
use stevy.Service.Jobs.{Codec, fail_job, compute_backoff_ms}
use stevy.Statements.Reads.{select_row}
use stevy.Store.{Job, Store, Env}

parsed : (id : Text) (s : Store) → id ≢ [] → parse_job_id id s ≡ (reply id, s)
unfolding parse_job_id
parsed [] s ne = absurd (ne refl)
parsed (c ∷ id) s ne = ground arith

module _ {Struct : Type 0} (codec : Codec Struct) (cfg : Config) (e e' : Env) (s : Store) (r : Job)
    (runs : e.fault 0 ≡ none) (found : find_row (has_id r.id) s.jobs ≡ some r) where
  computed :
      (k d : ℕ)
      → r.attempt ≡ suc k
      → (codec.decode_meta r.metadata).backoff_type ≡ codes "exponential"
      → (codec.decode_meta r.metadata).backoff_delay ≡ some (pos d)
      → (codec.decode_meta r.metadata).jitter ≡ false
      → k < 63
      → d * 2 ^ k < 2 ^ 63
      → compute_backoff_ms codec (pg_driver cfg) e r.id s ≡ (reply (pos (d * 2 ^ k)), s)
  unfolding compute_backoff_ms get_job select_row scan_job_row with_jitter
  computed k d n kind base plain low small = rw (runs) (
      rw (found, select_row)
        (rw (plain, n)
          (ground (
            arith,
            exponential_delay codec.past_int64 (codec.decode_meta r.metadata) k d kind
                (ap base_delay base) low small,
          ))))

  -- For the job of an id that is not empty, at attempt k + 1, whose metadata ask for exponential
  -- backoff with a delay of d ms and no jitter, where d * 2 ^ k is 2 ^ 31 or more and fits an int64 and
  -- k is below 63: if the query of the job does not fail, `FailJob` answers an internal error and
  -- changes nothing.
  pub fail_job-refused :
      (message : Text) (k d : ℕ)
      → r.id ≢ []
      → r.attempt ≡ suc k
      → (codec.decode_meta r.metadata).backoff_type ≡ codes "exponential"
      → (codec.decode_meta r.metadata).backoff_delay ≡ some (pos d)
      → (codec.decode_meta r.metadata).jitter ≡ false
      → k < 63
      → 2 ^ 31 ≤ d * 2 ^ k
      → d * 2 ^ k < 2 ^ 63
      → fail_job codec (pg_driver cfg) e e' r.id message s ≡ (refuse internal, s)
  unfolding fail_job map_err
  fail_job-refused message k d ne n kind base plain low big small =
      let c = computed k d n kind base plain low small in
      let over = fail_job_overflow cfg e' s r.id message (d * 2 ^ k) big in
      rw (parsed r.id s ne, fail_job) (rw c (rw over refl))
