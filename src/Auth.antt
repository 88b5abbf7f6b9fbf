-- ===== src/Auth.antt =====
-- The authentication store, frontend/src/hooks/useAuth.ts, the route guard of
-- frontend/src/components/navigation/ProtectedRoute.tsx, and below it the restoring of a session.
pub mod Jwt
pub mod Bootstrap
pub mod Session
pub mod Login
use Prim.Native.String.{String}
use it_automation_workspace.Common.{Bool, true, false, Option, none, some, ◌≡◌}

-- `AuthUser`
pub record AuthUser : Type 0 where
  pub id : String
  pub email : String
  pub role : String
  pub access_token : String

-- `AuthState`, without its two functions
pub record AuthState : Type 0 where
  pub is_authenticated : Bool
  pub user : Option AuthUser

abbrev pub signed_out : AuthState
signed_out = record { is_authenticated = false; user = none }

unfoldable pub set_auth : AuthUser → AuthState → AuthState
set_auth user s = record s { is_authenticated = true; user = some user }

unfoldable pub logout : AuthState → AuthState
logout s = record s { is_authenticated = false; user = none }

-- What `partialize` writes to the local storage.
pub record Persisted : Type 0 where
  pub is_authenticated : Bool

unfoldable pub partialize : AuthState → Persisted
partialize s = record { is_authenticated = s.is_authenticated }

-- The default `merge` of zustand's `persist`: the stored fields replace those of the initial state.
pub record Storage : Type 0 where
  pub merge : Persisted → AuthState → AuthState
  pub merge-is_authenticated :
      (p : Persisted) (s : AuthState) → (merge p s).is_authenticated ≡ p.is_authenticated
  pub merge-user : (p : Persisted) (s : AuthState) → (merge p s).user ≡ s.user

-- `ProtectedRoute`: what it renders at a location.
pub data Rendered : Type 0 where
  children : Rendered
  navigate : (to from : String) → Rendered

unfoldable pub protected_route : AuthState → String → Rendered
protected_route s location = elim s.is_authenticated [
  | true ↦ children
  | false ↦ navigate "/login" location
]
