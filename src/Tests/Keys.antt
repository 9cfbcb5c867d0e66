-- ===== src/Tests/Keys.antt =====
-- Sessions and deleted keys at concrete inputs.
use stevy.Base.{◌≡◌, refl, true, ◌≤◌, some, none, [], ◌∷◌, All, count, arith, ◌==◌}
use stevy.Base.Text.{codes, text_discrete, text_eq}
use stevy.Auth.{intercept}
use stevy.Auth.Oauth.{fetch_user_info, callback}
use stevy.Auth.Sessions.{Cookie, set_session}
use stevy.Keys.{
  find_worker, find_api_key, is_users_worker, is_users_key, delete_worker, delete_api_key,
}
use stevy.Keys.Users.{DistinctUsers}
use stevy.Rpc.{claim_procedure}
use stevy.Rpc.Callers.{bearer}
use stevy.Rpc.Revoked.{IsDenied, intercept-delete_worker, intercept-delete_api_key}
use stevy.Store.{Worker, ApiKey, ok}
use stevy.Tests.{no_fault, mail}
use stevy.Tests.Access.{provider, by_u, same, with_key}
use stevy.Tests.Services.{hash, keyed}
use stevy.Web.SignedIn.{IsPlain, IsSession, callback-IsSession}

abbrev of_session : Cookie
of_session = set_session same (codes "u")

one_cookie : by_u.0.cookies ≡ of_session ∷ []
unfolding callback fetch_user_info set_session text_discrete
one_cookie = refl

users-DistinctUsers : DistinctUsers mail.users
users-DistinctUsers = (refl, tt)

users-IsPlain : All IsPlain by_u.1.users
unfolding callback fetch_user_info text_discrete
users-IsPlain = (((λ h. ground arith), refl), tt)

callback-IsSession_example : IsSession provider (codes "b.c" ∷ []) same no_fault by_u.1 of_session
callback-IsSession_example =
    callback-IsSession provider (codes "b.c" ∷ []) same no_fault no_fault (some (codes "x"))
      (codes "x") (codes "c") mail by_u.1 by_u.0 of_session users-DistinctUsers users-IsPlain refl
      refl one_cookie

abbrev w1 : Worker
w1 = record {
  id = codes "w1";
  name = codes "one";
  key_hash = codes "stw_1";
  key_prefix = codes "stw_1";
  created_by = some (codes "u");
  created_at = 0;
  last_seen_at = none;
}

has_w1 : find_worker (codes "stw_1") keyed.workers ≡ some w1
unfolding find_worker text_discrete
has_w1 = refl

owns_w1 : is_users_worker (codes "w1") (codes "u") w1 ≡ true
unfolding text_discrete
owns_w1 = refl

one_w1 : count (λ x. x.key_hash == codes "stw_1") keyed.workers ≤ 1
one_w1 = ground arith

w1_deleted : delete_worker no_fault (codes "u") (codes "w1") keyed ≡ (ok tt, mail)
unfolding delete_worker text_discrete
w1_deleted = refl

intercept-delete_worker_example :
    IsDenied (intercept hash no_fault claim_procedure (bearer (codes "stw_1")) mail).0
intercept-delete_worker_example =
    intercept-delete_worker hash no_fault no_fault (codes "u") (codes "w1") claim_procedure
      (codes "1") keyed mail w1 has_w1 owns_w1 one_w1 w1_deleted

abbrev k1 : ApiKey
k1 = record {
  id = codes "01C";
  user_id = codes "u";
  label = codes "ci";
  key_hash = codes "stv_2";
  key_prefix = codes "stv_2";
  created_at = 1000;
  last_used_at = none;
}

has_k1 : find_api_key (codes "stv_2") with_key.api_keys ≡ some k1
unfolding find_api_key text_discrete
has_k1 = refl

owns_k1 : is_users_key (codes "01C") (codes "u") k1 ≡ true
unfolding text_discrete
owns_k1 = refl

one_k1 : count (λ x. x.key_hash == codes "stv_2") with_key.api_keys ≤ 1
one_k1 = ground arith

k1_deleted : delete_api_key no_fault (codes "u") (codes "01C") with_key ≡ (ok tt, mail)
unfolding delete_api_key text_discrete
k1_deleted = refl

intercept-delete_api_key_example :
    IsDenied (intercept same no_fault claim_procedure (bearer (codes "stv_2")) mail).0
intercept-delete_api_key_example =
    intercept-delete_api_key same no_fault no_fault (codes "u") (codes "01C") claim_procedure
      (codes "2") with_key mail k1 has_k1 owns_k1 one_k1 k1_deleted
