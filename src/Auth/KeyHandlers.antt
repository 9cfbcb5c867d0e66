-- ===== src/Auth/KeyHandlers.antt =====
-- internal/auth/apikey.go: the HTTP handlers of API keys. What `json` makes of a request's body is an
-- argument, none where it is no JSON.
use stevy.Base.{Option, none, some, List, [], if◌then◌else◌, ◌==◌}
use stevy.Base.Text.{Text, codes, text_eq}
use stevy.Base.Trim.{trim_space}
use stevy.Auth.{user_id}
use stevy.Http.{says, answer, problem, no_content, Handler, respond, try_call}
use stevy.Keys.{create_api_key, list_api_keys, delete_api_key}
use stevy.Store.{ApiKey, Env}

pub record CreateKeyResponse : Type 0 where
  pub id : Text
  pub label : Text
  pub key : Text
  pub key_prefix : Text

-- A body that the handlers write.
pub data KeyBody : Type 0 where
  created_key : CreateKeyResponse → KeyBody
  key_list : List ApiKey → KeyBody

-- What follows if the cookie names a user.
abbrev pub with_user_id : {B : Type 0} → Text → (Text → Handler B) → Handler B
with_user_id user k =
    if user == [] then respond (problem 401 (says (codes "unauthorized"))) else k user

-- What follows if the body is JSON with a text that is not blank.
abbrev pub with_text : {B : Type 0} → Text → Option Text → (Text → Handler B) → Handler B
with_text missing none k = respond (problem 400 (says (codes "invalid body")))
with_text missing (some t) k =
    let trimmed = trim_space t in
    if trimmed == [] then respond (problem 400 (says missing)) else k trimmed

abbrev pub key_body : Text × ApiKey → KeyBody
key_body (plaintext, k) =
    created_key (record { id = k.id; label = k.label; key = plaintext; key_prefix = k.key_prefix })

module _ (sign : Text → Text) (e : Env) (cookie : Option Text) where
  unfoldable pub create_key : (Text → Text) → Option Text → Option Text → Handler KeyBody
  unfolding user_id create_api_key trim_space
  create_key hash random body = with_user_id (user_id sign cookie) λ user.
      with_text (codes "label required") body λ label.
        try_call 500 (create_api_key hash e random user label)
          λ made. respond (answer 201 (key_body made))

  unfoldable pub list_keys : Handler KeyBody
  unfolding user_id list_api_keys
  list_keys =
      with_user_id (user_id sign cookie)
        λ user. try_call 500 (list_api_keys e user) λ keys. respond (answer 200 (key_list keys))

  unfoldable pub delete_key : Text → Handler KeyBody
  unfolding user_id delete_api_key
  delete_key id = with_user_id (user_id sign cookie) λ user.
      if id == []
      then respond (problem 400 (says (codes "invalid id")))
      else try_call 404 (delete_api_key e user id) λ _. respond no_content
