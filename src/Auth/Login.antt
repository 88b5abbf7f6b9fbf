-- ===== src/Auth/Login.antt =====
-- The login page, frontend/src/pages/Login.tsx: what its submit handler does with an answer.
use Prim.Native.String.{String}
use text.Mathlib.Text.{◌==◌ as str_eq}
use text.Mathlib.TextEquality.{eq_iff}
use it_automation_workspace.Common.{
  ℕ, Bool, true, false, Option, none, some, ◌==◌, if◌then◌else◌, ◌≡◌, ◌≢◌, inl, inr, arith,
  Option-cases, Bool-cases, refl, ap,
}
use it_automation_workspace.Auth.{
  AuthUser, AuthState, set_auth, children, navigate, protected_route,
}
use it_automation_workspace.Auth.Jwt.{AccessTokenClaims}

-- The messages, by what they say.
pub data LoginError : Type 0 where
  wrong_credentials too_many_attempts unexpected : LoginError

-- The state of the page, with the store; `destination` is where it has navigated to.
pub record Login : Type 0 where
  pub store : AuthState
  pub is_loading : Bool
  pub server_error : Option LoginError
  pub destination : Option String

-- How `POST /auth/login` settles: with a token, or with an error and its status, if it has one.
pub data LoginAnswer : Type 0 where
  accepted : (access_token : String) → LoginAnswer
  refused : (status : Option ℕ) → LoginAnswer

-- `onSubmit` up to its `await`.
unfoldable pub submit : Login → Login
submit l = record l { is_loading = true; server_error = none }

-- `location.state?.from?.pathname || "/dashboard"`
abbrev pub target_of : Option String → String
target_of none = "/dashboard"
target_of (some from) = if str_eq from "" then "/dashboard" else from

abbrev pub login_error : Option ℕ → LoginError
login_error none = unexpected
login_error (some status) =
    if status == 401
    then wrong_credentials
    else if status == 429
    then too_many_attempts
    else unexpected

abbrev pub login_failed : LoginError → Login → Login
login_failed e l = record l { server_error = some e; is_loading = false }

-- When a message is the right one, by the status of the error.
abbrev pub Fits : LoginError → Option ℕ → Type 0
Fits wrong_credentials status = status ≡ some 401
Fits too_many_attempts status = status ≡ some 429
Fits unexpected status = (status ≢ some 401) × (status ≢ some 429)

abbrev pub status_of : LoginAnswer → Option ℕ
status_of (accepted access_token) = none
status_of (refused status) = status

none-some : (n : ℕ) → none ≢ some n
none-some n e = cc

login_error-Fits : (status : Option ℕ) → Fits (login_error status) status
login_error-Fits none = (none-some 401, none-some 429)
login_error-Fits (some status) = elim (Bool-cases (status == 401)) [
  | inl e ↦ rw e (ground arith)
  | inr e ↦ rw e (elim (Bool-cases (status == 429)) [
    | inl k ↦ rw k (ground arith)
    | inr k ↦ rw k (ground arith)
  ])
]

target_of-some : (location : String) → location ≢ "" → target_of (some location) ≡ location
target_of-some location n = ground (arith, eq_iff location "")

-- What the page has done with an answer, by the user whom the answer signs in.
abbrev pub HasAnswered :
    (location : String) → LoginAnswer → Login → Login → Option AuthUser → Type 0
HasAnswered location answer l l' (some user) =
    (l'.destination ≡ some location)
    × (l'.store.user ≡ some user)
    × (protected_route l'.store location ≡ children)
    × (l'.server_error ≡ none)
HasAnswered location answer l l' none =
    (m : LoginError) × (l'.server_error ≡ some m)
    × Fits m (status_of answer)
    × (l'.destination ≡ l.destination)
    × (l'.store ≡ l.store)

abbrev pub user_of : (email access_token : String) → Option AccessTokenClaims → Option AuthUser
user_of email access_token none = none
user_of email access_token (some claims) =
    some
      (record { id = claims.sub; email = email; role = claims.role; access_token = access_token })

-- The rest of `onSubmit`, for the address that was typed and the location that the guard has kept.
-- An exception of `decodeAccessToken` is no axios error.
module _ (decode : String → Option AccessTokenClaims) where
  unfoldable pub login_settled :
      (email : String) → (from : Option String) → LoginAnswer → Login → Login
  unfolding set_auth
  login_settled email from (refused status) l = login_failed (login_error status) l
  login_settled email from (accepted access_token) l = elim (decode access_token) [
    | none ↦ login_failed unexpected l
    | some claims ↦ record l {
      store =
          set_auth
            (record {
              id = claims.sub;
              email = email;
              role = claims.role;
              access_token = access_token;
            })
            l.store;
      destination = some (target_of from);
      is_loading = false;
    }
  ]

  -- Whom an answer signs in: nobody, or the owner of a token that can be read.
  abbrev pub signs_in : (email : String) → LoginAnswer → Option AuthUser
  signs_in email (refused status) = none
  signs_in email (accepted access_token) = user_of email access_token (decode access_token)

  -- Whoever was sent from a location to the login page, and whose token the server sends and the page
  -- can read, is signed in with the claims of the token and the address that was typed, is sent back
  -- to that location, and the guard renders it. After any other answer there is the message that fits
  -- its status, the store stays as it was, and the page does not navigate. In both cases the page is
  -- not loading any more.
  pub login_settled-submit :
      (email location : String) (answer : LoginAnswer) (l : Login)
      → protected_route l.store location ≡ navigate "/login" location
      → location ≢ ""
      → let l' = login_settled email (some location) answer (submit l) in
        (l'.is_loading ≡ false) × HasAnswered location answer l l' (signs_in email answer)
  unfolding login_settled submit protected_route
  login_settled-submit email location (refused status) l h n =
      (refl, (login_error status, refl, login_error-Fits status, refl, refl))
  login_settled-submit email location (accepted token) l h n = elim (Option-cases (decode token)) [
    | inl e ↦
        rw (login_settled, e) (refl, (unexpected, refl, (none-some 401, none-some 429), refl, refl))
    | inr (claims, e) ↦
        rw (login_settled, e) (refl, (ap some (target_of-some location n), refl, refl, refl))
  ]
