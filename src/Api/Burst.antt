-- ===== src/Api/Burst.antt =====
-- Requests that fail together because the access token has expired (frontend/src/lib/api.ts).
use Prim.Native.String.{String}
use text.Mathlib.Text.{◌==◌ as str_eq}
use it_automation_workspace.Common.{
  ℕ, suc, ◌+◌, true, false, some, List, [], ◌∷◌, ◌++◌, map, All, if◌then◌else◌, ◌≡◌, refl, arith,
  length, length-map, append-nil, append_assoc, ap, ◌∙◌,
}
use it_automation_workspace.Auth.{AuthUser, AuthState, signed_out, set_auth, logout}
use it_automation_workspace.Api.{
  Request, attach, Client, renew, with_token, send, retry, give_up, for_each, clear_promise, Event,
  answer, refreshed, refresh_failed, step, run,
}

abbrev pub marked : Request → Request
marked r = record r { is_retry = true }

abbrev pub AllFresh : List Request → Type 0
AllFresh = All (λ r. r.is_retry ≡ false)

-- Each request on its way is answered by 401, one after the other.
abbrev pub unauthorized : List Request → List Event
unauthorized = map (λ _. answer 0 401)

abbrev pub joined : List Request → ℕ → Client → Client
joined rs calls c = record c {
  in_flight = [];
  waiting = c.waiting ++ map marked rs;
  is_refreshing = true;
  refresh_calls = calls;
}

unauthorized_step :
    (r : Request) (rest : List Request) (c : Client)
    → r.is_retry ≡ false
    → c.in_flight ≡ r ∷ rest
    → step (answer 0 401) c
      ≡ record (joined
          (r ∷ [])
          (if c.is_refreshing then c.refresh_calls else c.refresh_calls + 1)
          c) { in_flight = rest }
unfolding step
unauthorized_step r rest c h f = ground arith

joined-joined :
    (r : Request) (rest rs : List Request) (n : ℕ) (c : Client)
    → joined rs n (record (joined (r ∷ []) n c) { in_flight = rest }) ≡ joined (r ∷ rs) n c
joined-joined r rest rs n c =
    ap (λ ws. record (joined (r ∷ rs) n c) { waiting = ws })
      (append_assoc c.waiting (marked r ∷ []) (map marked rs))

-- While a refresh is pending, requests that get a 401 for the first time join it.
unauthorized_while_refreshing :
    (rs : List Request) (c : Client)
    → AllFresh rs
    → c.is_refreshing ≡ true
    → c.in_flight ≡ rs
    → run (unauthorized rs) c ≡ joined rs c.refresh_calls c
unfolding run
unauthorized_while_refreshing [] c h e f = ground (arith, append-nil c.waiting)
unauthorized_while_refreshing (r ∷ rs) c h e f =
    let c' : Client = record (joined (r ∷ []) c.refresh_calls c) { in_flight = rs } in
    let first : step (answer 0 401) c ≡ c' =
      unauthorized_step r rs c h.0 f
      ∙ ap (λ b. record c' { refresh_calls = if b then c.refresh_calls else c.refresh_calls + 1 })
          e in
    ap (run (unauthorized rs)) first
    ∙ unauthorized_while_refreshing rs c' h.1 refl refl
    ∙ joined-joined r rs rs c.refresh_calls c

-- Requests that get a 401 together call `/auth/refresh` once.
unauthorized_lem :
    (r : Request) (rs : List Request) (c : Client)
    → AllFresh (r ∷ rs)
    → c.is_refreshing ≡ false
    → c.in_flight ≡ r ∷ rs
    → run (unauthorized (r ∷ rs)) c ≡ joined (r ∷ rs) (c.refresh_calls + 1) c
unfolding run
unauthorized_lem r rs c h e f =
    let c' : Client = record (joined (r ∷ []) (c.refresh_calls + 1) c) { in_flight = rs } in
    let first : step (answer 0 401) c ≡ c' =
      unauthorized_step r rs c h.0 f
      ∙ ap (λ b. record c' { refresh_calls = if b then c.refresh_calls else c.refresh_calls + 1 })
          e in
    ap (run (unauthorized rs)) first
    ∙ unauthorized_while_refreshing rs c' h.1 refl refl
    ∙ joined-joined r rs rs (c.refresh_calls + 1) c

abbrev pub renewed : String → AuthUser → AuthState
renewed token u = record {
  is_authenticated = true;
  user = some (record u { access_token = token });
}

renew-renew : (token : String) (u : AuthUser) → renew token (renewed token u) ≡ renewed token u
unfolding renew set_auth
renew-renew token u = refl

attach-renewed :
    (token : String) (u : AuthUser) (r : Request)
    → str_eq token "" ≡ false
    → attach (renewed token u) r ≡ with_token token r
unfolding attach
attach-renewed token u r e = ground arith

abbrev pub resent : String → AuthUser → List Request → Client → Client
resent token u rs c = record c {
  store = renewed token u;
  in_flight = c.in_flight ++ map (with_token token) rs;
  sent = c.sent + length rs;
}

retry_once :
    (token : String) (u : AuthUser) (r : Request) (c : Client)
    → str_eq token "" ≡ false
    → renew token c.store ≡ renewed token u
    → retry token r c ≡ resent token u (r ∷ []) c
unfolding retry
retry_once token u r c e f =
    ap (λ s. send (with_token token r) (record c { store = s })) f
    ∙ ap (λ q. record (resent token u (r ∷ []) c) { in_flight = c.in_flight ++ q ∷ [] })
        (attach-renewed token u (with_token token r) e)

-- The requests that waited are sent again, in order and with the new token.
retry_all :
    (token : String) (u : AuthUser) (rs : List Request) (c : Client)
    → str_eq token "" ≡ false
    → c.store ≡ renewed token u
    → for_each (retry token) rs c ≡ resent token u rs c
unfolding for_each
retry_all token u [] c e f = ground (arith, append-nil c.in_flight)
retry_all token u (r ∷ rs) c e f =
    ap (for_each (retry token) rs)
      (retry_once token u r c e (ap (renew token) f ∙ renew-renew token u))
    ∙ retry_all token u rs (resent token u (r ∷ []) c) e refl
    ∙ ground (arith, append_assoc c.in_flight (with_token token r ∷ []) (map (with_token token) rs))

abbrev pub settled : String → AuthUser → List Request → Client → Client
settled token u rs c = record c {
  store = renewed token u;
  in_flight = map (with_token token) (map marked rs);
  sent = c.sent + length rs;
  refresh_calls = c.refresh_calls + 1;
}

renew_user :
    (token : String) (u : AuthUser) (s : AuthState)
    → s.user ≡ some u
    → renew token s ≡ renewed token u
unfolding renew set_auth
renew_user token u s e = ground arith

-- All requests on their way, sent with an access token that has expired, get a 401, and then the
-- one refresh that they share yields a token: `/auth/refresh` has been called once, the user of the
-- store has the new token, each request has been sent once more, in order and with the new token,
-- and nothing else has changed. The conditions: none of them has been retried before, no refresh
-- was pending, someone is signed in, and the new token is not empty.
pub unauthorized-refreshed :
    (token : String) (u : AuthUser) (r : Request) (rs : List Request) (c : Client)
    → AllFresh (r ∷ rs)
    → c.is_refreshing ≡ false
    → c.waiting ≡ []
    → c.in_flight ≡ r ∷ rs
    → c.store.user ≡ some u
    → str_eq token "" ≡ false
    → step (refreshed token) (run (unauthorized (r ∷ rs)) c) ≡ settled token u (r ∷ rs) c
unfolding step for_each
unauthorized-refreshed token u r rs c h e w f user t =
    let base = clear_promise (joined (r ∷ rs) (c.refresh_calls + 1) c) in
    ap (step (refreshed token)) (unauthorized_lem r rs c h e f)
    ∙ ap (λ ws. for_each (retry token) (ws ++ map marked (r ∷ rs)) base) w
    ∙ ap (for_each (retry token) (map marked rs))
        (retry_once token u (marked r) base t (renew_user token u c.store user))
    ∙ retry_all token u (map marked rs) (resent token u (marked r ∷ []) base) t refl
    ∙ ground (arith, length-map {0, 0} marked rs)

give_up_all :
    (r : Request) (rs : List Request) (c : Client)
    → for_each give_up (r ∷ rs) c
      ≡ record c { store = signed_out; rejected = c.rejected + suc (length rs) }
unfolding for_each give_up logout
give_up_all r [] c = refl
give_up_all r (q ∷ rs) c = give_up_all q rs (give_up r c) ∙ ground arith

-- The same with a refresh that fails: `/auth/refresh` has been called once, the store is signed out,
-- all of the requests are rejected, and none is sent again. No one needs to be signed in for it.
pub unauthorized-refresh_failed :
    (r : Request) (rs : List Request) (c : Client)
    → AllFresh (r ∷ rs)
    → c.is_refreshing ≡ false
    → c.waiting ≡ []
    → c.in_flight ≡ r ∷ rs
    → step refresh_failed (run (unauthorized (r ∷ rs)) c) ≡ record c {
      store = signed_out;
      in_flight = [];
      rejected = c.rejected + length (r ∷ rs);
      refresh_calls = c.refresh_calls + 1;
    }
unfolding step
unauthorized-refresh_failed r rs c h e w f =
    let base = clear_promise (joined (r ∷ rs) (c.refresh_calls + 1) c) in
    ap (step refresh_failed) (unauthorized_lem r rs c h e f)
    ∙ ap (λ ws. for_each give_up (ws ++ map marked (r ∷ rs)) base) w
    ∙ give_up_all (marked r) (map marked rs) base
    ∙ ground (arith, length-map {0, 0} marked rs)
