-- ===== src/Tests/Access.antt =====
-- The laws of sessions, keys and sign-in at concrete inputs.
use stevy.Base.{◌≡◌, refl, ◌≢◌, true, Option, none, some, [], ◌∷◌, arith}
use stevy.Base.Text.{Text, codes, text_discrete}
use stevy.Auth.{is_worker_method, intercept, as_worker, as_user, user_id}
use stevy.Auth.KeyHandlers.{created_key, create_key}
use stevy.Auth.Oauth.{Signing, Provider, fetch_user_info, callback}
use stevy.Auth.SignIn.{IsSignedIn, callback-IsSignedIn}
use stevy.Http.{answer}
use stevy.Rpc.{claim_procedure}
use stevy.Rpc.Callers.{bearer, intercept-create_worker, intercept-create_key}
use stevy.Site.{queue_pause, serve}
use stevy.Site.Access.{TurnedAway, serve-anonymous}
use stevy.Store.{Store, ok}
use stevy.Tests.{no_fault, mail, site, tables}
use stevy.Web.Workers.{new_worker, create_worker}

-- A signature that is the text itself, and the cookie of the user `u`.
abbrev pub same : Text → Text
same t = t

abbrev of_u : Option Text
of_u = some (codes "u.u")

forged : user_id same (some (codes "u.v")) ≡ []
unfolding user_id text_discrete
forged = refl

serve-anonymous_example :
    ((serve site (some (codes "u.v")) (queue_pause (codes "mail")) mail).1 ≡ mail)
    × TurnedAway (serve site (some (codes "u.v")) (queue_pause (codes "mail")) mail).0
    × ((serve site (some (codes "u.v")) (queue_pause (codes "mail")) (tables [])).0
        ≡ (serve site (some (codes "u.v")) (queue_pause (codes "mail")) mail).0)
serve-anonymous_example =
    serve-anonymous site (some (codes "u.v")) mail forged (queue_pause (codes "mail")) (tables [])
      refl

abbrev with_worker : Store
with_worker = record mail {
  workers =
      record {
        id = codes "01C";
        name = codes "two";
        key_hash = codes "stw_2";
        key_prefix = codes "stw_2";
        created_by = some (codes "u");
        created_at = 1000;
        last_seen_at = none;
      }
      ∷ [];
}

worker_made :
    create_worker same no_fault of_u same (some (codes "2")) (some (codes " two ")) mail ≡ (
      answer 201
          (new_worker (record { id = codes "01C"; name = codes "two"; key = codes "stw_2" })),
      with_worker,
    )
unfolding create_worker text_discrete
worker_made = refl

claims_need_worker : is_worker_method claim_procedure ≡ true
unfolding is_worker_method text_discrete
claims_need_worker = refl

intercept-create_worker_example :
    intercept same no_fault claim_procedure (bearer (codes "stw_2")) with_worker
    ≡ (as_worker (codes "01C"), with_worker)
intercept-create_worker_example =
    intercept-create_worker same same no_fault no_fault of_u (some (codes "2"))
      (some (codes " two ")) claim_procedure mail with_worker refl
      (record { id = codes "01C"; name = codes "two"; key = codes "stw_2" }) worker_made
      claims_need_worker

abbrev pub with_key : Store
with_key = record mail {
  api_keys =
      record {
        id = codes "01C";
        user_id = codes "u";
        label = codes "ci";
        key_hash = codes "stv_2";
        key_prefix = codes "stv_2";
        created_at = 1000;
        last_used_at = none;
      }
      ∷ [];
}

key_made : create_key same no_fault of_u same (some (codes "2")) (some (codes "ci")) mail ≡ (
  answer 201 (
      created_key (record {
        id = codes "01C";
        label = codes "ci";
        key = codes "stv_2";
        key_prefix = codes "stv_2";
      })),
  with_key,
)
unfolding create_key text_discrete
key_made = refl

intercept-create_key_example :
    (intercept same no_fault claim_procedure (bearer (codes "stv_2")) with_key).0
    ≡ as_user (user_id same of_u)
intercept-create_key_example =
    intercept-create_key same same no_fault no_fault of_u (some (codes "2")) (some (codes "ci"))
      claim_procedure mail with_key refl
      (record {
        id = codes "01C";
        label = codes "ci";
        key = codes "stv_2";
        key_prefix = codes "stv_2";
      })
      key_made

abbrev pub provider : Provider
provider = record {
  auth_code_url = λ state. codes "/o?state=";
  exchange = λ code. ok code;
  get_user_info = λ token. ok token;
  decode_user_info =
      λ body. ok (record { id = codes "g"; email = codes "a@b.c"; name = codes "A" });
}

abbrev pub by_u : Signing × Store
by_u =
    callback provider (codes "b.c" ∷ []) same no_fault (some (codes "x")) (codes "x") (codes "c")
      mail

cookie_set : by_u.0.cookies ≢ []
unfolding callback fetch_user_info text_discrete
cookie_set h = ground arith

callback-IsSignedIn_example :
    (want : Text) × (some (codes "x") ≡ some want)
    × IsSignedIn provider
        (codes "b.c" ∷ [])
        same
        no_fault
        want
        (codes "x")
        (codes "c")
        mail
        by_u.1
        by_u.0.cookies
callback-IsSignedIn_example =
    callback-IsSignedIn provider (codes "b.c" ∷ []) same no_fault (some (codes "x")) (codes "x")
      (codes "c") mail by_u.1 by_u.0 refl cookie_set
