-- ===== src/Scheduler/Calls.antt =====
-- The scheduler process as a history of calls of its driver.
use stevy.Base.{List, [], ◌∷◌, ◌≡◌, refl, pos}
use stevy.Driver.{Driver, Call, promote_scheduled, fail_expired, run}
use stevy.Scheduler.{tick, ticks}
use stevy.Store.{Store, Env}

-- The calls of a sequence of ticks, in their order.
abbrev tick_calls : List (Env × Env) → List (Env × Call)
tick_calls [] = []
tick_calls ((e, e') ∷ es) =
    (e, promote_scheduled (pos 1000)) ∷ (e', fail_expired (pos 1000)) ∷ tick_calls es

-- Any number of ticks leaves the store that the history of their calls leaves: in each tick the due
-- jobs are promoted and then the expired ones fail, also after an error of the first call.
ticks-run :
    (d : Driver) (es : List (Env × Env)) (s : Store) → ticks d es s ≡ run d (tick_calls es) s
unfolding ticks tick
ticks-run d [] s = refl
ticks-run d ((e, e') ∷ es) s = ticks-run d es (tick d e e' s).1
