-- ===== src/Auth/Session.antt =====
-- A session over a reload of the page (frontend/src/hooks/useAuth.ts,
-- frontend/src/hooks/useAuthBootstrap.ts).
use Prim.Native.String.{String}
use it_automation_workspace.Common.{
  true, Option, none, some, ◌≡◌, refl, arith, ◌⊎◌, inl, inr, Option-cases, ◌∙◌, subst,
}
use it_automation_workspace.Auth.{AuthState, signed_out, set_auth, logout, partialize, Storage}
use it_automation_workspace.Auth.Jwt.{AccessTokenClaims}
use it_automation_workspace.Auth.Bootstrap.{
  first_render, mount, settle, user_of, restored, page_loader, routes, auth_bootstrap_gate,
}

-- A reload: the store is made anew from what was persisted of it.
abbrev pub reload : Storage → AuthState → AuthState
reload storage s = storage.merge (partialize s) signed_out

-- The claims of a new token.
abbrev pub claims_of :
    (String → Option AccessTokenClaims) → Option String → Option AccessTokenClaims
claims_of decode none = none
claims_of decode (some token) = decode token

-- The outcome of restoring a session: the user of the claims, with the new token, or signed out
-- because there was no new token or its claims could not be read.
abbrev pub IsRestored : (String → Option AccessTokenClaims) → Option String → AuthState → Type 0
IsRestored decode answer s =
    ((token : String) × (claims : AccessTokenClaims) × (answer ≡ some token)
      × (decode token ≡ some claims)
      × (s ≡ record { is_authenticated = true; user = some (user_of claims token) }))
    ⊎ ((s ≡ signed_out) × (claims_of decode answer ≡ none))

module _ (decode : String → Option AccessTokenClaims) where
  restored-IsRestored :
      (answer : Option String) (s : AuthState) → IsRestored decode answer (restored decode answer s)
  unfolding set_auth logout
  restored-IsRestored none s = inr (refl, refl)
  restored-IsRestored (some token) s = elim (Option-cases (decode token)) [
    | inl e ↦ inr (ground arith, e)
    | inr (claims, e) ↦ inl (token, claims, refl, e, ground arith)
  ]

  settle-IsRestored :
      (answer : Option String) (s : AuthState)
      → s.is_authenticated ≡ true
      → s.user ≡ none
      → let b = mount (first_render s) in
        let b' = settle decode answer b in
        (auth_bootstrap_gate b ≡ page_loader)
        × (auth_bootstrap_gate b' ≡ routes)
        × IsRestored decode answer b'.store
  unfolding mount first_render settle auth_bootstrap_gate
  settle-IsRestored answer s e f = (
    ground arith,
    ground arith,
    subst (IsRestored decode answer)
        (let same : restored decode answer s
              ≡ (settle decode answer (mount (first_render s))).store =
            ground arith in
          same)
        (restored-IsRestored answer s),
  )

  -- A reload of the page while signed in: no route is rendered while the session is being restored.
  -- Once the answer to `POST /auth/refresh` is there, the routes are rendered, and the store holds
  -- the user of the claims with the new token, or, if there is no new token or its claims cannot be
  -- read, the store is signed out.
  pub reload-IsRestored :
      (storage : Storage) (s : AuthState) (answer : Option String)
      → s.is_authenticated ≡ true
      → let b = mount (first_render (reload storage s)) in
        let b' = settle decode answer b in
        (auth_bootstrap_gate b ≡ page_loader)
        × (auth_bootstrap_gate b' ≡ routes)
        × IsRestored decode answer b'.store
  unfolding partialize
  reload-IsRestored storage s answer e =
      settle-IsRestored answer (reload storage s) (storage.merge-is_authenticated _ _ ∙ e)
        (storage.merge-user _ _)
