-- ===== src/Tests/Clients.antt =====
-- Requests of a client whose token has expired, and a session over a reload.
use Prim.Native.String.{String}
use it_automation_workspace.Common.{
  ◌+◌, true, false, Option, none, some, List, [], ◌∷◌, Text, codes, text_eq, if◌then◌else◌, length,
  ◌≡◌, refl,
}
use it_automation_workspace.Auth.{AuthUser, AuthState, signed_out, protected_route, Storage}
use it_automation_workspace.Auth.Jwt.{AccessTokenClaims, decode_access_token}
use it_automation_workspace.Auth.Bootstrap.{
  mount, first_render, settle, auth_bootstrap_gate, page_loader, routes,
}
use it_automation_workspace.Auth.Session.{reload, IsRestored, reload-IsRestored}
use it_automation_workspace.Auth.Login.{
  Login, accepted, submit, HasAnswered, signs_in, login_settled, login_settled-submit,
}
use it_automation_workspace.Api.{
  Request, Client, new_client, Event, issue, answer, refreshed, refresh_failed, step, run,
}
use it_automation_workspace.Api.Accounts.{Accounts, run-Accounts}
use it_automation_workspace.Api.Burst.{
  unauthorized, settled, unauthorized-refreshed, unauthorized-refresh_failed,
}

abbrev user : AuthUser
user = record { id = "1"; email = "a@b.de"; role = "admin"; access_token = "old" }

abbrev signed_in : AuthState
signed_in = record { is_authenticated = true; user = some user }

abbrev request : String → Request
request url = record { url = url; is_retry = false; authorization = some "Bearer old" }

-- Two requests on their way.
abbrev busy_client : Client
busy_client = record {
  store = signed_in;
  is_refreshing = false;
  waiting = [];
  in_flight = request "/assets" ∷ request "/audit-logs" ∷ [];
  issued = 2;
  sent = 2;
  resolved = 0;
  rejected = 0;
  refresh_calls = 0;
}

unauthorized-refreshed_example :
    step
      (refreshed "new")
      (run (unauthorized (request "/assets" ∷ request "/audit-logs" ∷ [])) busy_client)
    ≡ settled "new" user (request "/assets" ∷ request "/audit-logs" ∷ []) busy_client
unauthorized-refreshed_example =
    unauthorized-refreshed "new" user (request "/assets") (request "/audit-logs" ∷ []) busy_client
      (refl, (refl, tt)) refl refl refl refl refl

unauthorized-refresh_failed_example :
    step refresh_failed
      (run (unauthorized (request "/assets" ∷ request "/audit-logs" ∷ [])) busy_client)
    ≡ record busy_client {
      store = signed_out;
      in_flight = [];
      rejected = busy_client.rejected + length (request "/assets" ∷ request "/audit-logs" ∷ []);
      refresh_calls = busy_client.refresh_calls + 1;
    }
unauthorized-refresh_failed_example =
    unauthorized-refresh_failed (request "/assets") (request "/audit-logs" ∷ []) busy_client
      (refl, (refl, tt)) refl refl refl

-- One request that is refreshed, sent again and answered.
abbrev one_retry : List Event
one_retry = issue "/assets" ∷ answer 0 401 ∷ refreshed "new" ∷ answer 0 200 ∷ []

run-Accounts_example : Accounts (run one_retry (new_client signed_in))
run-Accounts_example = run-Accounts signed_in one_retry

-- A request is not retried a second time.
run_test :
    (run
      (issue "/" ∷ answer 0 401 ∷ refreshed "new" ∷ answer 0 401 ∷ [])
      (new_client signed_in)).rejected
    ≡ 1
unfolding run new_client
run_test = refl

-- The stored flag with the user of the initial state.
abbrev storage : Storage
storage = record {
  merge = λ p s. record { is_authenticated = p.is_authenticated; user = s.user };
  merge-is_authenticated = λ p s. refl;
  merge-user = λ p s. refl;
}

abbrev claims : AccessTokenClaims
claims = record { sub = "1"; role = "admin"; email = "a@b.de"; exp = 0 }

abbrev decode : String → Option AccessTokenClaims
decode token = some claims

reload-IsRestored_example :
    let b = mount (first_render (reload storage signed_in)) in
    let b' = settle decode (some "new") b in
    (auth_bootstrap_gate b ≡ page_loader)
    × (auth_bootstrap_gate b' ≡ routes)
    × IsRestored decode (some "new") b'.store
reload-IsRestored_example = reload-IsRestored decode storage signed_in (some "new") refl

abbrev claims_of_payload : Text → Option AccessTokenClaims
claims_of_payload json = if text_eq json (codes "a+/b") then some claims else none

-- The payload of a token, with its letters of base64url replaced.
decode_access_token_test :
    decode_access_token some claims_of_payload (codes "h.a-_b.s") ≡ some claims
unfolding decode_access_token
decode_access_token_test = refl

abbrev signed_out_page : Login
signed_out_page = record {
  store = signed_out;
  is_loading = false;
  server_error = none;
  destination = none;
}

login_settled-submit_example :
    let l' =
      login_settled decode "a@b.de" (some "/reports") (accepted "new") (submit signed_out_page) in
    (l'.is_loading ≡ false)
    × HasAnswered "/reports"
        (accepted "new")
        signed_out_page
        l'
        (signs_in decode "a@b.de" (accepted "new"))
unfolding protected_route
login_settled-submit_example =
    login_settled-submit decode "a@b.de" "/reports" (accepted "new") signed_out_page refl (λ e. cc)
