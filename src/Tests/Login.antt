-- ===== src/Tests/Login.antt =====
-- The theorem on the login, at a concrete input.
use bmu.Prelude.{
  ◌≡◌, refl, ◌↔◌, ◌⊎◌, String, true, false, none, some, [], ◌∷◌, ok, err, contains, if◌then◌else◌,
  ◌==◌, string_eq,
}
use bmu.Text.{is_empty}
use bmu.Runtime.{row_get}
use bmu.Web.Auth.{
  Session, AuthSettings, Provider, exchange, fetch_token, valid_claims, session_get,
  authenticate_request, require_admin, array, scalar, object, Fields, empty, field, extract_roles,
  text_claim, redirect, callback,
}
use bmu.Web.Auth.Roles.{AreValid, callback-require_admin}

abbrev oidc : AuthSettings
oidc = record {
  auth_provider = "oidc";
  oidc_role_claim = "realm_access.roles";
  oidc_admin_role = "kiroku-admin";
  oidc_operator_role = "kiroku-operator";
}

-- The token of an operator.
abbrev claims : Fields
claims =
    field "sub" (scalar "u1")
      (field "realm_access" (object (field "roles" (array ("kiroku-operator" ∷ [])) empty)) empty)

abbrev provider : Provider
provider = record {
  Jwks = String;
  post_code = λ endpoint code. if code == "c0de" then ok (some "t0ken") else err "400";
  get_jwks = λ uri. ok "keys";
  decode = λ id_token jwks. if id_token == "t0ken" then ok claims else err "bad signature";
  validate = λ found. none;
}

abbrev asked : Session
asked = ("oidc_state", "xyz") ∷ ("oidc_jwks_uri", "https://sso/jwks") ∷ []

let_in : (callback oidc provider "c0de" "" "xyz" asked).0 ≡ redirect "/"
unfolding callback exchange fetch_token valid_claims session_get
let_in = refl

callback-require_admin_example :
    (found : Fields) × AreValid provider "c0de" asked found
    × (row_get "oidc_state" asked ≡ some "xyz")
    × (row_get "oidc_state" (callback oidc provider "c0de" "" "xyz" asked).1 ≡ none)
    × ((require_admin oidc (authenticate_request (callback oidc provider "c0de" "" "xyz" asked).1)
          ≡ ok true)
        ↔ (((oidc.auth_provider == "none") ≡ true)
            ⊎ ((is_empty (text_claim "sub" "" found) ≡ false)
                × (contains oidc.oidc_admin_role (extract_roles found oidc.oidc_role_claim)
                    ≡ true))))
callback-require_admin_example =
    callback-require_admin oidc provider "c0de" "" "xyz" "/" asked let_in
