-- ===== src/Http.antt =====
-- What an HTTP handler answers, as the handlers of internal/web and internal/auth do.
use stevy.Base.{ℕ}
use stevy.Base.Text.{Text}
use stevy.Store.{Store, Error, Result, ok, err, M}

-- The text of `http.Error`: fixed, or that of an error, with a text before it or not.
pub data Reason : Type 0 where
  says : Text → Reason
  carries : Error → Reason
  prefixed : Text → Error → Reason

-- Status codes stand as numbers; 204 has no body.
pub data Response (B : Type 0) : Type 0 where
  answer : ℕ → B → Response B
  problem : ℕ → Reason → Response B
  redirect : ℕ → Text → Response B
  no_content : Response B

abbrev pub Handler : Type 0 → Type 0
Handler B = Store → Response B × Store

abbrev pub respond : {B : Type 0} → Response B → Handler B
respond r s = (r, s)

-- A call whose error is answered with a code.
abbrev pub attempt : {A B : Type 0} → ℕ → (A → Handler B) → Result A × Store → Response B × Store
attempt code k (ok a, s) = k a s
attempt code k (err e, s) = (problem code (carries e), s)

abbrev pub try_call : {A B : Type 0} → ℕ → M A → (A → Handler B) → Handler B
try_call code m k s = attempt code k (m s)
