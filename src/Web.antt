-- ===== src/Web.antt =====
-- internal/web/web.go: the handlers of the pages and of the pages' scripts. A page is the data that
-- its template gets; the templates are not modelled. Each call of the database has an environment of
-- its own.
pub mod Pages
pub mod Workers
pub mod Paging
pub mod Visits
pub mod Render
pub mod SignedIn
use stevy.Base.{ℕ, Bool, true, false, Option, none, some, List, [], ◌∷◌, any, if◌then◌else◌, ◌==◌}
use stevy.Base.Text.{Text, codes, text_eq}
use stevy.Auth.{user_id}
use stevy.Http.{
  Response, says, carries, problem, redirect, answer, no_content, Handler, respond, try_call,
}
use stevy.Keys.{get_user_by_id}
use stevy.Store.{Store, User, Env, Result, ok, err}

-- `validStatus`
abbrev pub all_status_texts : List Text
all_status_texts =
    codes "pending"
    ∷ codes "scheduled"
    ∷ codes "available"
    ∷ codes "running"
    ∷ codes "retryable"
    ∷ codes "cancelled"
    ∷ codes "discarded"
    ∷ codes "completed"
    ∷ []

unfoldable pub valid_status : Text → Bool
valid_status s = any (λ v. v == s) all_status_texts

abbrev pub found_user : Result User × Store → Option User × Store
found_user (ok u, s) = (some u, s)
found_user (err e, s) = (none, s)

-- `currentUser`
unfoldable pub current_user : (Text → Text) → Env → Option Text → Store → Option User × Store
unfolding user_id get_user_by_id
current_user sign e cookie s =
    let id = user_id sign cookie in
    if id == [] then (none, s) else found_user (get_user_by_id e id s)

abbrev pub continue_as :
    {B : Type 0} → Response B → (User → Handler B) → Option User × Store → Response B × Store
continue_as r k (none, s) = (r, s)
continue_as r k (some u, s) = k u s

-- `requireUser`, and what the handler does with the user.
unfoldable pub require_user :
    {B : Type 0} → (Text → Text) → Env → Option Text → (User → Handler B) → Handler B
unfolding current_user
require_user sign e cookie k s =
    continue_as (redirect 303 (codes "/")) k (current_user sign e cookie s)
