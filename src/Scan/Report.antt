-- ===== src/Scan/Report.antt =====
-- What a user has to be told of a scan (frontend/src/hooks/useScanStream.ts): the latest news of the
-- server and of the connection, followed without the state of the hook.
use it_automation_workspace.Common.{
  Bool, true, false, Option, none, some, List, [], ◌∷◌, Text, codes, text_eq, ℕ, ◌+◌, ◌*◌, ◌==◌,
  or_else, if◌then◌else◌, ◌≡◌, refl, arith,
}
use it_automation_workspace.Json.{Json}
use it_automation_workspace.Sse.{SseFrame, Outcome}
use it_automation_workspace.Scan.{
  ScanStartResponse, idle_state, scanning, handle, not_started, admin_required, too_many_scans,
  ErrorMessage, interrupted, from_server, idle, complete, error, Hook, new_hook, is_busy,
  start_scan, start_settled, start_failed, scan_start_response, Posted, accepted, refused, on_error,
  dismiss_result, on_frame, on_progress, on_complete, on_error_event, scan_progress_data,
  scan_complete_data, scan_error_data, ◌>>=◌,
}
use it_automation_workspace.Scan.Percent.{Rounding}
use it_automation_workspace.Scan.Guard.{
  Action, start, settle, frame, connection_error, dismiss, act, act_all, state_of, is_some,
  is_started, refusal,
}

-- No scan, a scan that runs, the number of hosts that the server counted, or why a scan has failed.
pub data Report : Type 0 where
  nothing running : Report
  counted : ℕ → Report
  told : ErrorMessage → Report

abbrev pub is_running : Report → Bool
is_running running = true
is_running _ = false

-- Whether the hook's state says the same.
abbrev pub Agrees : Report → Hook → Type 0
Agrees nothing h = h.state.status ≡ idle
Agrees running h = is_busy h.state.status ≡ true
Agrees (counted n) h =
    (h.state.status ≡ complete) × (h.state.hosts_found ≡ some n) × (h.state.progress ≡ 100)
Agrees (told m) h = (h.state.status ≡ error) × (h.state.error_message ≡ some m)

-- What is said by data, or nothing new if they cannot be read.
abbrev pub said : {A : Type 0} → Option A → (A → Report) → Report → Report
said none f r = r
said (some d) f r = f d

handle-Agrees :
    {A : Type 0} (rounding : Rounding) (parse_json : Text → Option Json)
    → (o : Option A) (f : A → Hook → Hook) (n : A → Report) (r : Report) (h : Hook) → Agrees r h
    → ((d : A) → Agrees (n d) (f d h))
    → Agrees (said o n r) (state_of (handle rounding parse_json o f h))
handle-Agrees rounding parse_json none f n r h g k = g
handle-Agrees rounding parse_json (some d) f n r h g k = k d

if-Agrees :
    (b : Bool) (r s : Report) (o p : Outcome Hook)
    → Agrees r (state_of o)
    → Agrees s (state_of p)
    → Agrees (if b then r else s) (state_of (if b then o else p))
if-Agrees true r s o p g k = g
if-Agrees false r s o p g k = k

accepted-Agrees :
    (o : Option ScanStartResponse) (h : Hook)
    → Agrees (if is_some o then running else told not_started) (elim o [
      | none ↦ start_failed none none 0 h
      | some parsed ↦ record h { state = record h.state { status = scanning }; is_aborted = false }
    ])
unfolding start_failed
accepted-Agrees none h = (refl, refl)
accepted-Agrees (some d) h = refl

refused-Agrees :
    (b c : Bool) (r f n : ErrorMessage) (h : Hook) (until : Option ℕ)
    → Agrees (told (if b then r else if c then f else n)) (
        if b
        then record h {
          state = record idle_state {
            status = error;
            error_message = some r;
            cooldown_until = until;
          };
        }
        else record h {
          state = record idle_state { status = error; error_message = some (if c then f else n) };
        })
refused-Agrees true c r f n h until = (refl, refl)
refused-Agrees false c r f n h until = (refl, refl)

module _ (rounding : Rounding) (parse_json : Text → Option Json) (is_uuid : Text → Bool) where
  -- Of the events of the stream, a progress that can be read says that the scan runs, a completion
  -- how many hosts are online, and an error what has gone wrong. Others say nothing new.
  abbrev pub news : SseFrame → Report → Report
  news f r =
      if text_eq f.event (codes "progress")
      then said (parse_json f.content >>= scan_progress_data) (λ d. running) r
      else if text_eq f.event (codes "complete")
      then said (parse_json f.content >>= scan_complete_data) (λ d. counted d.online) r
      else if text_eq f.event (codes "error")
      then said (parse_json f.content >>= scan_error_data) (λ d. told (from_server d.message)) r
      else r

  abbrev pub report : Action → Report → Report
  report start r = if is_running r then r else running
  report (settle p) r = if is_started is_uuid p then running else told (refusal p)
  report (frame f) r = news f r
  report connection_error r = told interrupted
  report dismiss r = nothing

  abbrev pub report_all : List Action → Report → Report
  report_all [] r = r
  report_all (a ∷ rest) r = report_all rest (report a r)

  start-Agrees : (r : Report) (h : Hook) → Agrees r h → Agrees (report start r) (start_scan h)
  unfolding start_scan
  start-Agrees nothing h g = ground arith
  start-Agrees running h g = ground arith
  start-Agrees (counted n) h g = ground arith
  start-Agrees (told m) h g = ground arith

  settle-Agrees :
      (p : Posted) (r : Report) (h : Hook)
      → Agrees (report (settle p) r) (start_settled is_uuid p h)
  unfolding start_settled start_failed scan_start_response
  settle-Agrees (refused none retry_after now) r h = (refl, refl)
  settle-Agrees (refused (some status) retry_after now) r h =
      refused-Agrees (status == 429) (status == 403) (too_many_scans (or_else retry_after 15))
        admin_required not_started h (some (now + or_else retry_after 15 * 1000))
  settle-Agrees (accepted body) r h = accepted-Agrees (scan_start_response is_uuid body) h

  frame-Agrees :
      (f : SseFrame) (r : Report) (h : Hook)
      → Agrees r h
      → Agrees (news f r) (state_of (on_frame rounding parse_json f h))
  unfolding on_frame on_progress on_complete on_error_event
  frame-Agrees f r h g =
      if-Agrees (text_eq f.event (codes "progress")) _ _ _ _
        (handle-Agrees rounding parse_json (parse_json f.content >>= scan_progress_data)
          (on_progress rounding parse_json) (λ d. running) r h g (λ d. refl))
        (if-Agrees (text_eq f.event (codes "complete")) _ _ _ _
          (handle-Agrees rounding parse_json (parse_json f.content >>= scan_complete_data)
            (on_complete rounding parse_json) (λ d. counted d.online) r h g
            (λ d. (refl, refl, refl)))
          (if-Agrees (text_eq f.event (codes "error")) _ _ _ _
            (handle-Agrees rounding parse_json (parse_json f.content >>= scan_error_data)
              (on_error_event rounding parse_json) (λ d. told (from_server d.message)) r h g
              (λ d. (refl, refl)))
            g))

  act-Agrees :
      (a : Action) (r : Report) (h : Hook)
      → Agrees r h
      → Agrees (report a r) (act rounding parse_json is_uuid a h)
  unfolding on_error dismiss_result
  act-Agrees start r h g = start-Agrees r h g
  act-Agrees (settle p) r h g = settle-Agrees p r h
  act-Agrees (frame f) r h g = frame-Agrees f r h g
  act-Agrees connection_error r h g = (refl, refl)
  act-Agrees dismiss r h g = refl

  act_from-Agrees :
      (actions : List Action) (r : Report) (h : Hook)
      → Agrees r h
      → Agrees (report_all actions r) (act_all rounding parse_json is_uuid actions h)
  act_from-Agrees [] r h g = g
  act_from-Agrees (a ∷ rest) r h g =
      act_from-Agrees rest (report a r) (act rounding parse_json is_uuid a h) (act-Agrees a r h g)

  -- Whatever is done with a new hook, its state says what the latest news say.
  pub act_all-Agrees :
      (actions : List Action)
      → Agrees (report_all actions nothing) (act_all rounding parse_json is_uuid actions new_hook)
  act_all-Agrees actions = act_from-Agrees actions nothing new_hook refl
