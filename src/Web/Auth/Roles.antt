-- ===== src/Web/Auth/Roles.antt =====
-- Who a login of src/kiroku/web/routes/auth.py lets in, and as what: with the guards of
-- src/kiroku/web/auth.py.
use bmu.Prelude.{◌⊎◌}
use bmu.Prelude.{
  ◌≡◌, refl, sym, ap, ◌∙◌, subst, ◌↔◌, String, true, false, none, some, List, [], ◌∷◌, ok, contains,
  arith, inl, inr, Bool-cases, Option-cases, Result-cases, if◌then◌else◌, ◌==◌, string_eq,
}
use bmu.Text.{is_empty, nonempty}
use bmu.Runtime.{row_get, row_set}
use bmu.Web.Auth.{
  Session, AuthSettings, Provider, exchange, fetch_token, valid_claims, is_admin, session_get,
  known_role, authenticate_request, require_admin, Fields, extract_roles, text_claim, redirect, pop,
  role_of, logged_in, callback,
}

row_get-row_set :
    (j k v : String) (d : Session)
    → row_get j (row_set k v d) ≡ (if j == k then some v else row_get j d)
unfolding row_get row_set
row_get-row_set j k v [] = ground (arith, string_eq.same_iff j k, string_eq.same_iff k j)
row_get-row_set j k v ((i, w) ∷ d) = ground (
  arith,
  row_get-row_set j k v d,
  string_eq.same_iff j k,
  string_eq.same_iff k j,
  string_eq.same_iff i k,
  string_eq.same_iff i j,
)

row_get-pop :
    (j k : String) (d : Session) → row_get j (pop k d) ≡ (if j == k then none else row_get j d)
unfolding row_get pop
row_get-pop j k [] = ground arith
row_get-pop j k ((i, w) ∷ d) = ground (
  arith,
  row_get-pop j k d,
  string_eq.same_iff j k,
  string_eq.same_iff i k,
  string_eq.same_iff i j,
)

-- The entries of a session that a login writes.
logged_in-row_get :
    (claims : Fields) (role : String) (d : Session)
    → (row_get "user_role" (logged_in claims role d) ≡ some role)
      × (row_get "user_sub" (logged_in claims role d) ≡ some (text_claim "sub" "" claims))
      × (row_get "oidc_state" (logged_in claims role d) ≡ none)
unfolding logged_in
logged_in-row_get claims role d = (
  rw (row_get-pop, row_get-pop, row_get-pop, row_get-row_set) refl,
  rw
      (
        row_get-pop, row_get-pop, row_get-pop, row_get-row_set, row_get-row_set, row_get-row_set,
        row_get-row_set,
      )
      refl,
  rw (row_get-pop, row_get-pop, row_get-pop) refl,
)

role_of_cases :
    (s : AuthSettings) (roles : List String) (role : String)
    → role_of s roles ≡ some role
    → (role == "admin") ≡ contains s.oidc_admin_role roles
unfolding role_of
role_of_cases s roles role h = elim (Bool-cases (contains s.oidc_admin_role roles)) [
  | inl admin ↦ let same : "admin" ≡ role = ground (arith, admin, h) in rw (admin, ← same) refl
  | inr other ↦ elim (Bool-cases (contains s.oidc_operator_role roles)) [
    | inl operator ↦
        let same : "operator" ≡ role = ground (arith, other, operator, h) in rw (other, ← same) refl
    | inr neither ↦ absurd (ground (arith, other, neither, h))
  ]
]

nonempty-is_empty :
    (t : String)
    → (nonempty t ≡ none × (is_empty t ≡ true)) ⊎ (nonempty t ≡ some t × (is_empty t ≡ false))
nonempty-is_empty String.[] = inl (refl, refl)
nonempty-is_empty (String.◌∷◌ c t) = inr (refl, refl)

known_role-admin : (role : String) → (known_role role == "admin") ≡ (role == "admin")
unfolding known_role
known_role-admin role = elim (Bool-cases (role == "admin")) [
  | inl admin ↦ ground (arith, admin)
  | inr other ↦ elim (Bool-cases (role == "operator")) [
    | inl operator ↦ ground (arith, other, operator)
    | inr neither ↦ rw (other, neither) refl
  ]
]

-- The guard on the session of a user who has logged in.
require_admin-logged_in :
    (s : AuthSettings) (claims : Fields) (role : String) (roles : List String) (d : Session)
    → role_of s roles ≡ some role
    → (require_admin s (authenticate_request (logged_in claims role d)) ≡ ok true) ↔ (
        ((s.auth_provider == "none") ≡ true)
        ⊎ ((is_empty (text_claim "sub" "" claims) ≡ false)
            × (contains s.oidc_admin_role roles ≡ true)))
unfolding require_admin authenticate_request session_get is_admin
require_admin-logged_in s claims role roles d h =
    let (has_role, has_sub, gone) = logged_in-row_get claims role d in
    let known = known_role-admin role ∙ role_of_cases s roles role h in
    elim (nonempty-is_empty (text_claim "sub" "" claims)) [
      | inl (blank, is_blank) ↦ ground (arith, has_role, has_sub, blank, is_blank)
      | inr (full, is_full) ↦ ground (arith, has_role, has_sub, full, is_full, known)
    ]

-- Claims that the provider's token for the code decodes to, by the keys of the provider, and that
-- pass the validation.
abbrev pub AreValid : (provider : Provider) → String → Session → Fields → Type 0
AreValid provider code d claims =
    (id_token : String) × (jwks : provider.Jwks) × (provider.post_code
        (session_get "oidc_token_endpoint" "" d) code
      ≡ ok (some id_token))
    × (provider.get_jwks (session_get "oidc_jwks_uri" "" d) ≡ ok jwks)
    × (provider.decode id_token jwks ≡ ok claims)
    × (provider.validate claims ≡ none)

exchange-AreValid :
    (s : AuthSettings) (provider : Provider) (code : String) (d : Session) (claims : Fields)
    → exchange s provider code d ≡ ok claims
    → AreValid provider code d claims
unfolding exchange fetch_token valid_claims
exchange-AreValid s provider code d claims h =
    elim (Result-cases (provider.post_code (session_get "oidc_token_endpoint" "" d) code)) [
      | inr (e, bad) ↦ absurd (ground (arith, bad, h))
      | inl (answer, posted) ↦
          elim (Result-cases (provider.get_jwks (session_get "oidc_jwks_uri" "" d))) [
            | inr (e, bad) ↦ absurd (ground (arith, posted, bad, h))
            | inl (jwks, fetched) ↦ elim (Option-cases answer) [
              | inl absent ↦ absurd (ground (arith, posted, fetched, absent, h))
              | inr (id_token, there) ↦ elim (Bool-cases (is_empty id_token)) [
                | inl blank ↦ absurd (ground (arith, posted, fetched, there, blank, h))
                | inr full ↦ elim (Result-cases (provider.decode id_token jwks)) [
                  | inr (e, bad) ↦ absurd (ground (arith, posted, fetched, there, full, bad, h))
                  | inl (found, decoded) ↦ elim (Option-cases (provider.validate found)) [
                    | inr (e, bad) ↦
                        absurd (ground (arith, posted, fetched, there, full, decoded, bad, h))
                    | inl valid ↦
                        let same : found ≡ claims =
                          ground (arith, posted, fetched, there, full, decoded, valid, h) in
                        (
                          id_token,
                          jwks,
                          posted ∙ ap (λ o. ok o) there,
                          fetched,
                          decoded ∙ ap (λ c. ok c) same,
                          ap provider.validate (sym same) ∙ valid,
                        )
                  ]
                ]
              ]
            ]
          ]
    ]

-- A callback that lets a user in was asked with the state of the session, which the new session no
-- longer has, and got claims: the token endpoint gave a token for the code, which the provider's
-- keys decode to the claims, and the validation passes them. The guard for administrators then lets
-- the user through exactly if no login is in force, or if the claims name the user and have the
-- role of the administrators.
pub callback-require_admin :
    (s : AuthSettings) (provider : Provider) (code error state url : String) (d : Session)
    → (callback s provider code error state d).0 ≡ redirect url
    → (claims : Fields) × AreValid provider code d claims
      × (row_get "oidc_state" d ≡ some state)
      × (row_get "oidc_state" (callback s provider code error state d).1 ≡ none)
      × ((require_admin s (authenticate_request (callback s provider code error state d).1)
            ≡ ok true)
          ↔ (((s.auth_provider == "none") ≡ true)
              ⊎ ((is_empty (text_claim "sub" "" claims) ≡ false)
                  × (contains s.oidc_admin_role (extract_roles claims s.oidc_role_claim) ≡ true))))
unfolding callback
callback-require_admin s provider code error state url d h = elim (Bool-cases (is_empty error)) [
  | inr bad ↦ absurd (ground (arith, bad, h))
  | inl calm ↦ elim (Bool-cases (is_empty state)) [
    | inl no_state ↦ absurd (ground (arith, calm, no_state, h))
    | inr has_state ↦ elim (Option-cases (row_get "oidc_state" d)) [
      | inl none_kept ↦ absurd (ground (arith, calm, has_state, none_kept, h))
      | inr (expected, kept) ↦ elim (Bool-cases (state == expected)) [
        | inr forged ↦ absurd (ground (arith, calm, has_state, kept, forged, h))
        | inl same ↦ elim (Result-cases (exchange s provider code d)) [
          | inr (e, failed) ↦ absurd (ground (arith, calm, has_state, kept, same, failed, h))
          | inl (claims, got) ↦
              let roles = extract_roles claims s.oidc_role_claim in
              elim (Option-cases (role_of s roles)) [
                | inl unknown ↦
                    absurd (ground (arith, calm, has_state, kept, same, got, unknown, h))
                | inr (role, granted) ↦
                    let new : (callback s provider code error state d).1 ≡ logged_in claims role d =
                      ground (arith, calm, has_state, kept, same, got, granted) in
                    (
                      claims,
                      exchange-AreValid s provider code d claims got,
                      kept ∙ ap (λ t. some t) (sym ((string_eq.same_iff state expected).0 same)),
                      ap (row_get "oidc_state") new ∙ (logged_in-row_get claims role d).2,
                      subst
                          (λ d'. (require_admin s (authenticate_request d') ≡ ok true) ↔ (
                            ((s.auth_provider == "none") ≡ true)
                            ⊎ ((is_empty (text_claim "sub" "" claims) ≡ false)
                                × (contains s.oidc_admin_role roles ≡ true))))
                          (sym new) (require_admin-logged_in s claims role roles d granted),
                    )
              ]
        ]
      ]
    ]
  ]
]
