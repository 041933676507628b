-- ===== src/Web/Auth.antt =====
-- src/kiroku/web/auth.py and src/kiroku/web/routes/auth.py: the user of a session, the guards, and
-- the ends of the logins. A session is a dict of texts. The exchange with the identity provider and
-- the check of its token are a parameter, as are the JSON values of the claims.
pub mod Roles
use Prim.Native.String.{◌++◌ as ◌<>◌}
use bmu.Prelude.{◌>>=◌}
use bmu.Prelude.{ℕ, String, Bool, true, false, ◌&&◌, ◌||◌, not, Option, none, some}
use bmu.Prelude.{List, [], ◌∷◌, Result, ok, err, contains, keep, if◌then◌else◌, ◌==◌, string_eq}
use bmu.Text.{is_empty, nonempty}
use bmu.Runtime.{row_get, row_set}
use bmu.Web.Import.{split_on}

abbrev pub Session : Type 0
Session = List (String × String)

-- The settings that the login reads.
pub record AuthSettings : Type 0 where
  pub auth_provider : String
  pub oidc_role_claim : String
  pub oidc_admin_role : String
  pub oidc_operator_role : String

pub record User : Type 0 where
  pub sub : String
  pub username : String
  pub email : String
  pub role : String

unfoldable pub is_admin : User → Bool
is_admin u = u.role == "admin"

-- `session.get(key, default)`
unfoldable pub session_get : String → String → Session → String
unfolding row_get
session_get key default session = elim (row_get key session) [ none ↦ default | some v ↦ v ]

-- A role that is neither of the two is that of an operator.
unfoldable pub known_role : String → String
known_role role = if role == "admin" then role else if role == "operator" then role else "operator"

-- `KirokuAuthMiddleware.authenticate_request`
unfoldable pub authenticate_request : Session → Option User
unfolding session_get known_role
authenticate_request session = elim (nonempty (session_get "user_sub" "" session)) [
  | none ↦ none
  | some sub ↦ some (record {
    sub = sub;
    username = session_get "user_name" "" session;
    email = session_get "user_email" "" session;
    role = known_role (session_get "user_role" "operator" session);
  })
]

abbrev pub not_authorized : String
not_authorized = "NotAuthorizedException"

-- `require_authenticated` and `require_admin`: `true`, or the exception.
unfoldable pub require_authenticated : AuthSettings → Option User → Result Bool
require_authenticated s user =
    if s.auth_provider == "none"
    then ok true
    else elim user [ none ↦ err not_authorized | some u ↦ ok true ]

unfoldable pub require_admin : AuthSettings → Option User → Result Bool
unfolding is_admin
require_admin s user = if s.auth_provider == "none" then ok true else elim user [
  | none ↦ err not_authorized
  | some u ↦ if is_admin u then ok true else err not_authorized
]

-- A claim: a dict, a list of texts, or another value.
mutual
  pub data Claim : Type 0 where
    object : Fields → Claim
    array : List String → Claim
    scalar : String → Claim

  pub data Fields : Type 0 where
    empty : Fields
    field : String → Claim → Fields → Fields

-- `node.get(key, {})`
unfoldable pub get_claim : String → Fields → Claim
get_claim key empty = object empty
get_claim key (field k v rest) = if k == key then v else get_claim key rest

unfoldable pub walk : List String → Claim → List String
unfolding get_claim
walk [] (object f) = []
walk [] (array roles) = roles
walk [] (scalar s) = []
walk (key ∷ keys) (object f) = walk keys (get_claim key f)
walk (key ∷ keys) (array roles) = []
walk (key ∷ keys) (scalar s) = []

-- `_extract_roles`
unfoldable pub extract_roles : Fields → String → List String
unfolding walk split_on
extract_roles claims claim_path = walk (split_on b'.' claim_path) (object claims)

-- The text of a claim, or the default.
unfoldable pub text_claim : String → String → Fields → String
text_claim key default empty = default
text_claim key default (field k (scalar s) rest) =
    if k == key then s else text_claim key default rest
text_claim key default (field k v rest) = text_claim key default rest

-- What a handler answers, and the session then.
pub data Answer : Type 0 where
  redirect : String → Answer
  error_page : String → Answer

-- `session.pop(key, None)`
unfoldable pub pop : String → Session → Session
pop key [] = []
pop key ((k, v) ∷ rest) = let later = pop key rest in if k == key then later else (k, v) ∷ later

-- The role that the roles of the token give.
unfoldable pub role_of : AuthSettings → List String → Option String
role_of s roles =
    if contains s.oidc_admin_role roles
    then some "admin"
    else if contains s.oidc_operator_role roles
    then some "operator"
    else none

abbrev pub no_role : String
no_role = "Your account has no Kiroku role assigned. Contact your administrator."

abbrev no_token : String
no_token = "No id_token in token response."

abbrev pub bad_state : String
bad_state = "Invalid state parameter — possible CSRF."

-- The session of a user who has logged in.
unfoldable pub logged_in : Fields → String → Session → Session
unfolding text_claim pop row_set
logged_in claims role session =
    let name = text_claim "name" "" claims in
    let user_name = if is_empty name then text_claim "preferred_username" "" claims else name in
    pop "oidc_jwks_uri" (
      pop "oidc_token_endpoint" (
        pop "oidc_state" (
          row_set "user_role" role (
            row_set "user_email" (text_claim "email" "" claims) (
              row_set "user_name" user_name
                (row_set "user_sub" (text_claim "sub" "" claims) session))))))

-- What httpx, oauthlib and joserfc do for the callback.
pub record Provider : Type 1 where
  pub Jwks : Type 0
  -- The answer of the token endpoint to a code, as the `id_token` of its body, if it has one.
  pub post_code : String → String → Result (Option String)
  pub get_jwks : String → Result Jwks
  -- `jose_jwt.decode(id_token, KeySet.import_key_set(jwks))`, which checks the signature.
  pub decode : String → Jwks → Result Fields
  -- `JWTClaimsRegistry().validate(claims)`: the exception, if it raises.
  pub validate : Fields → Option String

module _ (s : AuthSettings) (provider : Provider) where
  -- The `id_token` and the keys: the first `try` of the callback.
  unfoldable pub fetch_token : String → Session → Result (Option String × provider.Jwks)
  unfolding session_get
  fetch_token code session = do
    id_token ← provider.post_code (session_get "oidc_token_endpoint" "" session) code
    jwks ← provider.get_jwks (session_get "oidc_jwks_uri" "" session)
    ok (id_token, jwks)

  -- The claims of a token that decodes and is valid: the second `try`.
  unfoldable pub valid_claims : String → provider.Jwks → Result Fields
  valid_claims id_token jwks = do
    claims ← provider.decode id_token jwks
    elim (provider.validate claims) [ none ↦ ok claims | some e ↦ err e ]

  -- The claims, or the text of the page that says why there are none.
  unfoldable pub exchange : String → Session → Result Fields
  unfolding fetch_token valid_claims
  exchange code session = elim (fetch_token code session) [
    | err e ↦ err ("Token exchange failed: " <> e)
    | ok (none, jwks) ↦ err no_token
    | ok (some id_token, jwks) ↦
        if is_empty id_token then err no_token else elim (valid_claims id_token jwks) [
          | err e ↦ err ("JWT validation failed: " <> e)
          | ok claims ↦ ok claims
        ]
  ]

  unfoldable pub callback : String → String → String → Session → Answer × Session
  unfolding extract_roles role_of logged_in row_get exchange
  callback code error oauth_state session =
      if not (is_empty error)
      then (error_page ("Keycloak error: " <> error), session)
      else if is_empty oauth_state
      then (error_page bad_state, session)
      else elim (row_get "oidc_state" session) [
        | none ↦ (error_page bad_state, session)
        | some expected ↦
            if not (oauth_state == expected)
            then (error_page bad_state, session)
            else elim (exchange code session) [
              | err e ↦ (error_page e, session)
              | ok claims ↦ elim (role_of s (extract_roles claims s.oidc_role_claim)) [
                | none ↦ (error_page no_role, session)
                | some role ↦ (redirect "/", logged_in claims role session)
              ]
            ]
      ]

  -- `logout`
  unfoldable pub logout : Session → Answer × Session
  logout session = (redirect "/auth/login", [])

  -- `dev_login_submit`; `capitalize` is Python's.
  unfoldable pub dev_login_submit :
      (String → String) → List (String × String) → Session → Answer × Session
  unfolding session_get known_role row_set
  dev_login_submit capitalize form session =
      if not (s.auth_provider == "dev")
      then (redirect "/", session)
      else let role = known_role (session_get "role" "operator" form) in
        (
          redirect "/",
          row_set "user_role" role (
              row_set "user_email" (role <> "@dev.local") (
                row_set "user_name" ("Dev " <> capitalize role)
                  (row_set "user_sub" ("dev-" <> role) session))),
        )
