-- ===== src/Api.antt =====
-- The HTTP client, frontend/src/lib/api.ts: its request interceptor, and its response interceptor
-- with the refresh of the access token that concurrent requests share.
pub mod Accounts
pub mod Burst
use Prim.Native.String
use Prim.Native.String.{String}
use text.Mathlib.Text.{◌==◌ as str_eq}
use it_automation_workspace.Common.{
  ℕ, zero, suc, ◌+◌, ltb, Bool, true, false, not, ◌&&◌, Option, none, some, List, [], ◌∷◌, ◌++◌,
  ◌==◌, if◌then◌else◌,
}
use it_automation_workspace.Auth.{AuthUser, AuthState, set_auth, logout}

-- A request's configuration: its address, the flag `_retry`, and the header `Authorization`.
pub record Request : Type 0 where
  pub url : String
  pub is_retry : Bool
  pub authorization : Option String

abbrev pub bearer : String → String
bearer token = String.◌++◌ "Bearer " token

-- The request interceptor: the current access token, if there is one.
unfoldable pub attach : AuthState → Request → Request
attach store r = elim store.user [
  | none ↦ r
  | some u ↦
      if str_eq u.access_token ""
      then r
      else record r { authorization = some (bearer u.access_token) }
]

-- The store and the module's variables between two events. `waiting` are the requests whose
-- response interceptor awaits `refreshPromise`, in order; `is_refreshing` tells whether that is set.
-- The rest is what an observer of the network and of the callers sees: the requests on their way,
-- and how many have been issued by callers, sent, resolved and rejected, and how often
-- `/auth/refresh` has been called.
pub record Client : Type 0 where
  pub store : AuthState
  pub is_refreshing : Bool
  pub waiting : List Request
  pub in_flight : List Request
  pub issued : ℕ
  pub sent : ℕ
  pub resolved : ℕ
  pub rejected : ℕ
  pub refresh_calls : ℕ

unfoldable pub new_client : AuthState → Client
new_client store = record {
  store = store;
  is_refreshing = false;
  waiting = [];
  in_flight = [];
  issued = 0;
  sent = 0;
  resolved = 0;
  rejected = 0;
  refresh_calls = 0;
}

-- A call of the axios instance, by a caller or by the response interceptor.
unfoldable pub send : Request → Client → Client
unfolding attach
send r c = record c { in_flight = c.in_flight ++ attach c.store r ∷ []; sent = c.sent + 1 }

-- `refreshAccessToken`, awaited by one more request.
unfoldable pub refresh_access_token : Request → Client → Client
refresh_access_token r c = record c {
  is_refreshing = true;
  refresh_calls = if c.is_refreshing then c.refresh_calls else c.refresh_calls + 1;
  waiting = c.waiting ++ r ∷ [];
}

-- The response interceptor's error handler, up to its `await`, for a response's status.
unfoldable pub on_error : Request → ℕ → Client → Client
unfolding refresh_access_token
on_error r status c =
    if status == 401 && not r.is_retry
    then refresh_access_token (record r { is_retry = true }) c
    else record c { rejected = c.rejected + 1 }

-- The new token replaces that of the current user, if there is one.
unfoldable pub renew : String → AuthState → AuthState
unfolding set_auth
renew token store = elim store.user [
  | none ↦ store
  | some u ↦ set_auth (record u { access_token = token }) store
]

-- The request as the handler sends it again, before the request interceptor.
abbrev pub with_token : String → Request → Request
with_token token r = record r { authorization = some (bearer token) }

-- The handler after its `await`, once the new token is there.
unfoldable pub retry : String → Request → Client → Client
unfolding send
retry token r c = send (with_token token r) (record c { store = renew token c.store })

-- The handler's `catch`.
unfoldable pub give_up : Request → Client → Client
unfolding logout
give_up r c = record c { store = logout c.store; rejected = c.rejected + 1 }

unfoldable pub for_each : (Request → Client → Client) → List Request → Client → Client
for_each f [] c = c
for_each f (r ∷ rs) c = for_each f rs (f r c)

abbrev pub clear_promise : Client → Client
clear_promise c = record c { is_refreshing = false; waiting = [] }

-- What happens to the client, one task of the event loop at a time: a caller issues a request; the
-- request at a position gets its response; the refresh settles, `finally` clears `refreshPromise`,
-- and the handlers that wait go on in order; a component signs in or out.
pub data Event : Type 0 where
  issue : String → Event
  answer : (position status : ℕ) → Event
  refreshed : String → Event
  refresh_failed : Event
  sign_in : AuthUser → Event
  sign_out : Event

-- A request that was on its way, and the others.
abbrev pub pick : ℕ → List Request → Option (Request × List Request)
pick i [] = none
pick zero (r ∷ rs) = some (r, rs)
pick (suc i) (r ∷ rs) = elim (pick i rs) [ none ↦ none | some (q, qs) ↦ some (q, r ∷ qs) ]

-- A status below 400 resolves the caller's promise.
abbrev pub is_success : ℕ → Bool
is_success status = ltb status 400

unfoldable pub answered : Request → ℕ → Client → Client
unfolding on_error
answered r status c =
    if is_success status then record c { resolved = c.resolved + 1 } else on_error r status c

unfoldable pub step : Event → Client → Client
unfolding send answered for_each retry renew give_up set_auth logout
step (issue url) c =
    send (record { url = url; is_retry = false; authorization = none })
      (record c { issued = c.issued + 1 })
step (answer i status) c = elim (pick i c.in_flight) [
  | none ↦ c
  | some (r, rest) ↦ answered r status (record c { in_flight = rest })
]
step (refreshed token) c =
    if c.is_refreshing then for_each (retry token) c.waiting (clear_promise c) else c
step refresh_failed c = if c.is_refreshing then for_each give_up c.waiting (clear_promise c) else c
step (sign_in u) c = record c { store = set_auth u c.store }
step sign_out c = record c { store = logout c.store }

unfoldable pub run : List Event → Client → Client
unfolding step
run [] c = c
run (e ∷ es) c = run es (step e c)
