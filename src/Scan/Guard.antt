-- ===== src/Scan/Guard.antt =====
-- Starting scans (frontend/src/hooks/useScanStream.ts): the guard against a second scan, and the
-- states that a start can lead to.
use it_automation_workspace.Common.{
  ℕ, ◌+◌, ◌*◌, Bool, true, false, Option, none, some, List, [], ◌∷◌, Text, ◌≡◌, ◌⊎◌, ◌≢◌, ◌==◌,
  if◌then◌else◌, inl, inr, refl, sym, subst, arith, Bool-cases, Option-cases, not, or_else,
}
use it_automation_workspace.Json.{Json}
use it_automation_workspace.Sse.{SseFrame, Outcome, returned, threw}
use it_automation_workspace.Scan.{
  Status, ErrorMessage, ScanState, ScanStartResponse, idle, starting, scanning, complete, error,
  too_many_scans, admin_required, not_started, close_stream, idle_state, Hook, new_hook, is_busy,
  start_scan, Posted, accepted, refused, scan_start_response, start_failed, start_settled, on_error,
  dismiss_result, on_frame, on_progress, on_complete, on_error_event,
}
use it_automation_workspace.Scan.Effects.{
  Effect, progressed, completed, failed, thrown, ignored, on_frame-Effect,
}
use it_automation_workspace.Scan.Percent.{Rounding}

-- While a scan starts or runs, a call of `startScan` changes nothing; otherwise it aborts the old
-- stream, and the state is that of a scan that starts, with nothing of the last one in it.
pub start_scan_lem :
    (h : Hook)
    → ((is_busy h.state.status ≡ true) × (start_scan h ≡ h))
      ⊎ ((is_busy h.state.status ≡ false)
          × ((start_scan h).state ≡ record idle_state { status = starting })
          × ((start_scan h).is_aborted ≡ true))
unfolding start_scan
start_scan_lem h = ground arith

-- Until when a new scan is refused, by the answer to `POST /scan`: after a 429, for the seconds
-- that the server asks for, or 15.
abbrev pub cooldown_of : Posted → Option ℕ
cooldown_of (accepted body) = none
cooldown_of (refused none retry_after now) = none
cooldown_of (refused (some status) none now) = if status == 429 then some (now + 15000) else none
cooldown_of (refused (some status) (some seconds) now) =
    if status == 429 then some (now + seconds * 1000) else none

abbrev pub is_some {ℓ} : {A : Type ℓ} → Option A → Bool
is_some none = false
is_some (some a) = true

-- The server has accepted the scan, with a body that the schema reads.
abbrev pub is_started : (Text → Bool) → Posted → Bool
is_started is_uuid (refused status retry_after now) = false
is_started is_uuid (accepted body) = is_some (scan_start_response is_uuid body)

-- What the user is told after any other answer.
abbrev pub refusal : Posted → ErrorMessage
refusal (accepted body) = not_started
refusal (refused none retry_after now) = not_started
refusal (refused (some status) retry_after now) =
    if status == 429
    then too_many_scans (or_else retry_after 15)
    else if status == 403
    then admin_required
    else not_started

-- The state of a scan that has just been answered: nothing has been counted, and no host is scanned.
abbrev pub fresh : Status → Option ErrorMessage → Option ℕ → ScanState
fresh status error_message cooldown_until = record {
  is_scanning = false;
  progress = 0;
  hosts_scanned = 0;
  total_hosts = 0;
  hosts_found = none;
  current_host = [];
  status = status;
  error_message = error_message;
  cooldown_until = cooldown_until;
}

-- A scan that is started while none runs, once the answer to `POST /scan` is there. Nothing of the
-- last scan is left in the state. If the answer is a body that the schema reads, the hook scans, with
-- a stream that is not aborted; otherwise it shows an error, which names the reason, and has no
-- stream. A new scan is refused for some time exactly after a 429, for the seconds that the server
-- asks for, or 15. The queries are not invalidated.
pub start_settled-start_scan :
    (is_uuid : Text → Bool) (p : Posted) (h : Hook)
    → is_busy h.state.status ≡ false
    → start_settled is_uuid p (start_scan h) ≡ record {
      state =
          if is_started is_uuid p
          then fresh scanning none none
          else fresh error (some (refusal p)) (cooldown_of p);
      is_aborted = not (is_started is_uuid p);
      assets_invalidated = h.assets_invalidated;
      stats_invalidated = h.stats_invalidated;
    }
unfolding start_settled start_scan start_failed
start_settled-start_scan is_uuid (refused none retry_after now) h e = ground arith
start_settled-start_scan is_uuid (refused (some status) none now) h e = ground arith
start_settled-start_scan is_uuid (refused (some status) (some seconds) now) h e = ground arith
start_settled-start_scan is_uuid (accepted body) h e =
    elim (Option-cases (scan_start_response is_uuid body)) [
      | inl o ↦ ground arith
      | inr (r, o) ↦ ground arith
    ]

-- Everything that changes the hook's state.
pub data Action : Type 0 where
  start : Action
  settle : Posted → Action
  frame : SseFrame → Action
  connection_error : Action
  dismiss : Action

abbrev pub state_of : Outcome Hook → Hook
state_of (returned h) = h
state_of (threw h) = h

-- What holds of the hook between two actions, by its status.
abbrev pub StatusInv : Hook → Type 0
StatusInv h = elim h.state.status [
  | idle ↦ h.state ≡ idle_state
  | complete ↦ (h.state.hosts_found ≢ none) × (h.state.progress ≡ 100) × (h.is_aborted ≡ true)
  | error ↦ h.state.error_message ≢ none
  | _ ↦ Unit
]

abbrev pub Inv : Hook → Type 0
Inv h = (h.state.is_scanning ≡ false) × StatusInv h

some-none {ℓ} : {A : Type ℓ} (a : A) → some a ≢ none
some-none a e = cc

start_scan-Inv : (h : Hook) → Inv h → Inv (start_scan h)
unfolding start_scan
start_scan-Inv h i = elim (Bool-cases (is_busy h.state.status)) [
  | inl b ↦ subst Inv (let same : h ≡ start_scan h = ground arith in same) i
  | inr b ↦
      subst Inv
        (let same : record (close_stream h) { state = record idle_state { status = starting } }
              ≡ start_scan h =
            ground arith in
          same)
        (refl, tt)
]

start_failed-Inv :
    (status retry_after : Option ℕ) (now : ℕ) (h : Hook)
    → Inv (start_failed status retry_after now h)
unfolding start_failed
start_failed-Inv none retry_after now h = (refl, some-none _)
start_failed-Inv (some status) retry_after now h = both (status == 429)
  where
    both :
        (b : Bool)
        → Inv (
            if b
            then record h {
              state = record idle_state {
                status = error;
                error_message = some (too_many_scans (or_else retry_after 15));
                cooldown_until = some (now + or_else retry_after 15 * 1000);
              };
            }
            else record h {
              state = record idle_state {
                status = error;
                error_message = some (if status == 403 then admin_required else not_started);
              };
            })
    both true = (refl, some-none _)
    both false = (refl, some-none _)

after_post-Inv :
    (o : Option ScanStartResponse) (h : Hook)
    → Inv h
    → Inv (elim o [
      | none ↦ start_failed none none 0 h
      | some parsed ↦ record h { state = record h.state { status = scanning }; is_aborted = false }
    ])
after_post-Inv none h i = start_failed-Inv none none 0 h
after_post-Inv (some parsed) h i = (i.0, tt)

start_settled-Inv :
    (is_uuid : Text → Bool) (p : Posted) (h : Hook) → Inv h → Inv (start_settled is_uuid p h)
unfolding start_settled scan_start_response
start_settled-Inv is_uuid (refused status retry_after now) h i =
    start_failed-Inv status retry_after now h
start_settled-Inv is_uuid (accepted body) h i =
    after_post-Inv (scan_start_response is_uuid body) h i

module _ (rounding : Rounding) (parse_json : Text → Option Json) (is_uuid : Text → Bool) where
  abbrev pub act : Action → Hook → Hook
  act start h = start_scan h
  act (settle p) h = start_settled is_uuid p h
  act (frame f) h = state_of (on_frame rounding parse_json f h)
  act connection_error h = on_error h
  act dismiss h = dismiss_result h

  abbrev pub act_all : List Action → Hook → Hook
  act_all [] h = h
  act_all (a ∷ rest) h = act_all rest (act a h)

  frame-Inv :
      (f : SseFrame) (h : Hook) (o : Outcome Hook)
      → Inv h
      → Effect rounding parse_json f h o
      → Inv (state_of o)
  unfolding on_progress on_complete on_error_event
  frame-Inv f h o i (progressed d _ _ e) = subst (λ r. Inv (state_of r)) (sym e) (i.0, tt)
  frame-Inv f h o i (completed d _ _ e) =
      subst (λ r. Inv (state_of r)) (sym e) (i.0, (some-none _, refl, refl))
  frame-Inv f h o i (failed d _ _ e) = subst (λ r. Inv (state_of r)) (sym e) (i.0, some-none _)
  frame-Inv f h o i (thrown e) = subst (λ r. Inv (state_of r)) (sym e) i
  frame-Inv f h o i (ignored e) = subst (λ r. Inv (state_of r)) (sym e) i

  act-Inv : (a : Action) (h : Hook) → Inv h → Inv (act a h)
  unfolding on_error dismiss_result
  act-Inv start h i = start_scan-Inv h i
  act-Inv (settle p) h i = start_settled-Inv is_uuid p h i
  act-Inv (frame f) h i = frame-Inv f h _ i (on_frame-Effect rounding parse_json f h)
  act-Inv connection_error h i = (i.0, some-none _)
  act-Inv dismiss h i = (refl, refl)

  act_from-Inv : (rest : List Action) (h : Hook) → Inv h → Inv (act_all rest h)
  act_from-Inv [] h i = i
  act_from-Inv (a ∷ rest) h i = act_from-Inv rest (act a h) (act-Inv a h i)

  -- Whatever is done with a new hook, in any order: a state "complete" has the number of hosts
  -- found, a progress of 100 and an aborted stream; a state "error" has a message; the state "idle"
  -- is the initial one; and `isScanning` is false, also while the status is "scanning".
  pub act_all-Inv : (rest : List Action) → Inv (act_all rest new_hook)
  act_all-Inv rest = act_from-Inv rest new_hook (refl, refl)
