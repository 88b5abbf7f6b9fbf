-- ===== src/Api/Accounts.antt =====
-- The accounts of the client's requests over any events (frontend/src/lib/api.ts): how many have been
-- issued, sent and settled.
use Prim.Native.String.{String}
use it_automation_workspace.Common.{
  ℕ, zero, suc, ◌+◌, ◌*◌, ◌≤◌, true, false, none, some, List, [], ◌∷◌, ◌++◌, if◌then◌else◌, ◌≡◌,
  refl, arith, length, length-append, All, Option-cases, inl, inr,
}
use it_automation_workspace.Auth.{AuthState}
use it_automation_workspace.Api.{
  Request, attach, Client, new_client, renew, with_token, retry, give_up, for_each, clear_promise,
  Event, issue, answer, refreshed, refresh_failed, sign_in, sign_out, pick, answered, step, run,
}

-- The requests that have not been retried yet.
abbrev pub fresh : List Request → ℕ
fresh [] = 0
fresh (r ∷ rs) = if r.is_retry then fresh rs else suc (fresh rs)

abbrev pub AllRetried : List Request → Type 0
AllRetried = All (λ r. r.is_retry ≡ true)

pub record Accounts (c : Client) : Type 0 where
  -- Each request issued is on its way, waits for the new token, or has been settled.
  pub conserved : c.issued ≡ length c.in_flight + length c.waiting + c.resolved + c.rejected
  pub sent_bounded : c.sent + length c.waiting + fresh c.in_flight ≤ 2 * c.issued
  pub refresh_bounded : c.refresh_calls + fresh c.in_flight ≤ c.issued
  pub retried : AllRetried c.waiting
  pub idle : c.is_refreshing ≡ false → c.waiting ≡ []

fresh-append : (rs qs : List Request) → fresh (rs ++ qs) ≡ fresh rs + fresh qs
fresh-append [] qs = omega arith
fresh-append (r ∷ rs) qs = ground (arith, fresh-append rs qs)

attach_retry : (s : AuthState) (r : Request) → (attach s r).is_retry ≡ r.is_retry
unfolding attach
attach_retry s r = ground arith

pick-length :
    (i : ℕ) (rs : List Request) {r : Request} {qs : List Request}
    → pick i rs ≡ some (r, qs)
    → (length rs ≡ suc (length qs)) × (fresh rs ≡ fresh (r ∷ qs))
pick-length i [] h = cc
pick-length zero (q ∷ rs) h = ground arith
pick-length (suc i) (q ∷ rs) {r} {qs} h = elim (Option-cases (pick i rs)) [
  | inl e ↦ ground arith
  | inr ((p, ps), e) ↦ ground (arith, pick-length i rs {r = p} {qs = ps} e)
]

AllRetried-append :
    (rs : List Request) (r : Request)
    → AllRetried rs
    → r.is_retry ≡ true
    → AllRetried (rs ++ r ∷ [])
AllRetried-append [] r h e = (e, tt)
AllRetried-append (q ∷ rs) r h e = (h.0, AllRetried-append rs r h.1 e)

-- How the requests that waited change the accounts when they are sent again, or given up.
record Moved (sends rejects : ℕ) (c c' : Client) : Type 0 where
  in_flight : length c'.in_flight ≡ length c.in_flight + sends
  sent : c'.sent ≡ c.sent + sends
  rejected : c'.rejected ≡ c.rejected + rejects
  fresh_same : fresh c'.in_flight ≡ fresh c.in_flight
  issued : c'.issued ≡ c.issued
  resolved : c'.resolved ≡ c.resolved
  refresh_calls : c'.refresh_calls ≡ c.refresh_calls
  waiting : c'.waiting ≡ c.waiting
  is_refreshing : c'.is_refreshing ≡ c.is_refreshing

retry-Moved :
    (token : String) (r : Request) (c : Client) → r.is_retry ≡ true → Moved 1 0 c (retry token r c)
unfolding retry
retry-Moved token r c e =
    let q = attach (renew token c.store) (with_token token r) in
    ground (
      arith,
      fresh-append c.in_flight (q ∷ []),
      length-append c.in_flight (q ∷ []),
      attach_retry (renew token c.store) (with_token token r),
    )

give_up-Moved : (r : Request) (c : Client) → Moved 0 1 c (give_up r c)
unfolding give_up
give_up-Moved r c = ground arith

for_each-retry-Moved :
    (token : String) (rs : List Request) (c : Client)
    → AllRetried rs
    → Moved (length rs) 0 c (for_each (retry token) rs c)
unfolding for_each
for_each-retry-Moved token [] c h = ground arith
for_each-retry-Moved token (r ∷ rs) c h =
    let first = retry-Moved token r c h.0 in
    let later = for_each-retry-Moved token rs (retry token r c) h.1 in ground arith

for_each-give_up-Moved :
    (rs : List Request) (c : Client) → Moved 0 (length rs) c (for_each give_up rs c)
unfolding for_each
for_each-give_up-Moved [] c = ground arith
for_each-give_up-Moved (r ∷ rs) c =
    let first = give_up-Moved r c in
    let later = for_each-give_up-Moved rs (give_up r c) in ground arith

-- What a request with a response does, `c` without it among those on their way.
answered-Accounts :
    (i status : ℕ) (c : Client) (r : Request) (rest : List Request)
    → pick i c.in_flight ≡ some (r, rest)
    → Accounts c
    → Accounts (answered r status (record c { in_flight = rest }))
unfolding answered
answered-Accounts i status c r rest e a =
    let q : Request = record r { is_retry = true } in
    ground (
      arith,
      pick-length i c.in_flight {r = r} {qs = rest} e,
      length-append c.waiting (q ∷ []),
      AllRetried-append c.waiting q a.retried refl,
    )

step-Accounts : (e : Event) (c : Client) → Accounts c → Accounts (step e c)
unfolding step
step-Accounts (issue url) c a =
    let r : Request = record { url = url; is_retry = false; authorization = none } in
    ground (
      arith,
      fresh-append c.in_flight (attach c.store r ∷ []),
      length-append c.in_flight (attach c.store r ∷ []),
      attach_retry c.store r,
    )
step-Accounts (answer i status) c a = elim (Option-cases (pick i c.in_flight)) [
  | inl e ↦ rw (e, step) a
  | inr ((r, rest), e) ↦ rw (e, step) (answered-Accounts i status c r rest e a)
]
step-Accounts (refreshed token) c a =
    ground (arith, for_each-retry-Moved token c.waiting (clear_promise c) a.retried)
step-Accounts refresh_failed c a =
    ground (arith, for_each-give_up-Moved c.waiting (clear_promise c))
step-Accounts (sign_in u) c a = ground arith
step-Accounts sign_out c a = ground arith

run_from-Accounts : (es : List Event) (c : Client) → Accounts c → Accounts (run es c)
unfolding run
run_from-Accounts [] c a = a
run_from-Accounts (e ∷ es) c a = run_from-Accounts es (step e c) (step-Accounts e c a)

-- Whatever happens to a new client, in any order: each request issued is on its way, waits for the
-- new token, or has been settled; there are at most two sends for each request issued, so none is
-- retried more than once; and `/auth/refresh` is called at most once for each request issued.
pub run-Accounts : (store : AuthState) (es : List Event) → Accounts (run es (new_client store))
unfolding new_client
run-Accounts store es = run_from-Accounts es (new_client store) (ground arith)

-- Once no request is on its way and no refresh is pending, every request issued has been settled.
pub run-settled :
    (store : AuthState) (es : List Event)
    → (run es (new_client store)).in_flight ≡ []
    → (run es (new_client store)).is_refreshing ≡ false
    → let c = run es (new_client store) in c.issued ≡ c.resolved + c.rejected
run-settled store es e f = let a = run-Accounts store es in ground (arith, a.conserved, a.idle f)
