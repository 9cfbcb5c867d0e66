-- ===== src/Auth/Config.antt =====
-- What internal/auth/oauth.go makes of its configuration (`NewOAuthHandler`).
pub mod Admits
use stevy.Base.{Bool, List, [], ◌∷◌, ◌++◌, any, if◌then◌else◌, ◌==◌}
use stevy.Base.Text.{Text, codes, text_eq}

-- `OAuthConfig`
pub record OauthConfig : Type 0 where
  pub client_id : Text
  pub client_secret : Text
  pub redirect_url : Text
  pub allowed_domains : List Text

-- `OAuthHandler`, without the database and the sessions; the endpoint is Google's. The domains are the
-- keys of the map.
pub record OauthHandler : Type 0 where
  pub client_id : Text
  pub client_secret : Text
  pub redirect_url : Text
  pub scopes : List Text
  pub allowed_domains : List Text

-- `domains[d] = true`
abbrev pub set_key : Text → List Text → List Text
set_key d keys = if any (λ k. k == d) keys then keys else keys ++ (d ∷ [])

abbrev pub set_keys : List Text → List Text → List Text
set_keys keys [] = keys
set_keys keys (d ∷ ds) = set_keys (set_key d keys) ds

unfoldable pub new_oauth_handler : OauthConfig → OauthHandler
new_oauth_handler cfg = record {
  client_id = cfg.client_id;
  client_secret = cfg.client_secret;
  redirect_url = cfg.redirect_url;
  scopes = codes "openid" ∷ codes "email" ∷ codes "profile" ∷ [];
  allowed_domains = set_keys [] cfg.allowed_domains;
}
