-- ===== src/Auth/Bootstrap.antt =====
-- Restoring a session after a reload, frontend/src/hooks/useAuthBootstrap.ts and
-- frontend/src/components/navigation/AuthBootstrapGate.tsx.
use Prim.Native.String.{String}
use it_automation_workspace.Common.{
  Bool, true, false, ◌&&◌, ◌||◌, not, Option, none, some, if◌then◌else◌,
}
use it_automation_workspace.Auth.{AuthUser, AuthState, set_auth, logout}
use it_automation_workspace.Auth.Jwt.{AccessTokenClaims}

abbrev pub is_none {ℓ} : {A : Type ℓ} → Option A → Bool
is_none none = true
is_none (some a) = false

-- The store, and the state of the hook: `isHydrating`, and `cancelled` of its effect.
pub record Boot : Type 0 where
  pub store : AuthState
  pub is_hydrating : Bool
  pub is_cancelled : Bool

-- The first rendering.
unfoldable pub first_render : AuthState → Boot
first_render s = record {
  store = s;
  is_hydrating = s.is_authenticated && is_none s.user;
  is_cancelled = false;
}

-- Whether the effect asks for a new token.
abbrev pub asks_refresh : AuthState → Bool
asks_refresh s = not (not s.is_authenticated || not (is_none s.user))

-- The synchronous part of the effect.
unfoldable pub mount : Boot → Boot
mount b = if asks_refresh b.store then b else record b { is_hydrating = false }

-- The effect's clean-up.
unfoldable pub unmount : Boot → Boot
unmount b = record b { is_cancelled = true }

abbrev pub user_of : AccessTokenClaims → String → AuthUser
user_of claims token = record {
  id = claims.sub;
  email = claims.email;
  role = claims.role;
  access_token = token;
}

module _ (decode : String → Option AccessTokenClaims) where
  -- The `try` block once `POST /auth/refresh` has settled; `none` is a rejected request, and ends in
  -- the `catch` block, as an exception of `decodeAccessToken` does. `finally` comes last.
  abbrev pub restored : Option String → AuthState → AuthState
  restored none s = logout s
  restored (some token) s = elim (decode token) [
    | none ↦ logout s
    | some claims ↦ set_auth (user_of claims token) s
  ]

  unfoldable pub settle : Option String → Boot → Boot
  unfolding set_auth logout
  settle answer b =
      if b.is_cancelled
      then b
      else record b { store = restored answer b.store; is_hydrating = false }

-- `AuthBootstrapGate`: the loader, or the routes.
pub data Gate : Type 0 where
  page_loader routes : Gate

unfoldable pub auth_bootstrap_gate : Boot → Gate
auth_bootstrap_gate b = if b.is_hydrating then page_loader else routes
