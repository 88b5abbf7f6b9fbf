-- ===== src/Tests/Scans.antt =====
-- A scan of the network, with numbers of a fixed point, and a parser of two texts.
use native.Mathlib.Nat.{le-div_iff_mul-le, div-mul-le_self, div-zero, mul-div_cancel_left}
use it_automation_workspace.Common.{
  ℕ, zero, suc, ◌+◌, ◌*◌, ◌/◌, ◌≤◌, Bool, true, false, Option, none, some, List, [], ◌∷◌, ◌++◌,
  Text, codes, lf, text_eq, if◌then◌else◌, ◌≡◌, refl, sym, ◌∙◌, arith, inr, not,
}
use it_automation_workspace.Json.{Json, num, str, null, obj, field, end}
use it_automation_workspace.Sse.{response, open_event_stream, done, ended, SseFrame}
use it_automation_workspace.Sse.Frames.{Message, IsMessage}
use it_automation_workspace.Scan.{
  ScanProgressData, ScanCompleteData, scan_progress_data, scan_complete_data, Hook, new_hook,
  start_scan, accepted, start_settled, handlers, scanning, error, interrupted, idle_state,
}
use it_automation_workspace.Scan.Percent.{Rounding}
use it_automation_workspace.Scan.Guard.{
  is_started, refusal, fresh, cooldown_of, start_settled-start_scan, Action, start, settle, frame,
  act_all, Inv, act_all-Inv,
}
use it_automation_workspace.Scan.Report.{nothing, report_all}
use it_automation_workspace.Scan.Dialog.{Tells, IsBar, scan_dialog, act_all-Tells}
use it_automation_workspace.Scan.Stream.{chunks, IsDone, open_event_stream-scan}
use it_automation_workspace.Simulation
use it_automation_workspace.Simulation.{new_simulation, tick_all}
use it_automation_workspace.Simulation.Completion.{count_found, IsComplete, tick_all-IsComplete}

divide_mono : (a b n : ℕ) → a ≤ b → a * 1000 / n ≤ b * 1000 / n
divide_mono a b zero h = omega (arith, div-zero (a * 1000), div-zero (b * 1000))
divide_mono a b (suc n) h =
    (le-div_iff_mul-le (omega arith)).1 (omega (arith, div-mul-le_self (a * 1000) (suc n)))

-- Thousandths.
abbrev thousandths : Rounding
thousandths = record {
  Float = ℕ;
  LessEq = λ x y. x ≤ y;
  divide = λ a b. a * 1000 / b;
  times_hundred = λ x. x * 100;
  round = λ x. (x + 500) / 1000;
  divide_mono = divide_mono;
  times_hundred_mono = λ x y h. omega arith;
  round_mono = λ x y h. omega arith;
  divide_self = λ a b h k. mul-div_cancel_left 1000 h ∙ sym (mul-div_cancel_left 1000 k);
  round_hundred = refl;
}

abbrev progress_json : Json
progress_json = obj (
    field (codes "hosts_found") (num 4)
      (field (codes "hosts_scanned") (num 3) (field (codes "current_host") null end)))

abbrev complete_json : Json
complete_json = obj (
    field (codes "total_hosts") (num 4)
      (field (codes "online") (num 1) (field (codes "offline") (num 3) end)))

abbrev parse_json : Text → Option Json
parse_json t =
    if text_eq t (codes "p")
    then some progress_json
    else if text_eq t (codes "c")
    then some complete_json
    else none

abbrev is_uuid : Text → Bool
is_uuid t = true

abbrev started_json : Json
started_json =
    obj (field (codes "job_id") (str (codes "1")) (field (codes "status") (str (codes "ok")) end))

-- A scan that has failed after some progress.
abbrev failed_hook : Hook
failed_hook = record new_hook {
  state = record idle_state {
    status = error;
    error_message = some interrupted;
    hosts_scanned = 3;
    total_hosts = 4;
    current_host = codes "10.0.0.3";
  };
}

start_settled-start_scan_example :
    start_settled is_uuid (accepted started_json) (start_scan failed_hook) ≡ record {
      state =
          if is_started is_uuid (accepted started_json)
          then fresh scanning none none
          else fresh error
              (some (refusal (accepted started_json)))
              (cooldown_of (accepted started_json));
      is_aborted = not (is_started is_uuid (accepted started_json));
      assets_invalidated = 0;
      stats_invalidated = 0;
    }
start_settled-start_scan_example =
    start_settled-start_scan is_uuid (accepted started_json) failed_hook refl

abbrev progress_frame : SseFrame
progress_frame = record { event = codes "progress"; content = codes "p" }

abbrev actions : List Action
actions = start ∷ settle (accepted started_json) ∷ frame progress_frame ∷ []

act_all-Inv_example : Inv (act_all thousandths parse_json is_uuid actions new_hook)
act_all-Inv_example = act_all-Inv thousandths parse_json is_uuid actions

progress_data-counted :
    (d : ScanProgressData)
    → scan_progress_data progress_json ≡ some d
    → d.hosts_scanned ≤ d.hosts_found
unfolding scan_progress_data
progress_data-counted d h = ground arith

abbrev progress_message : Message
progress_message = record { event = codes "progress"; content = codes "p" ∷ [] }

abbrev complete_message : Message
complete_message = record { event = codes "complete"; content = codes "c" ∷ [] }

abbrev scanning_hook : Hook
scanning_hook = record new_hook { is_aborted = false }

abbrev complete_data : ScanCompleteData
complete_data = record { total_hosts = 4; online = 1; offline = 3 }

abbrev progress_data : ScanProgressData
progress_data = record { hosts_found = 4; hosts_scanned = 3; current_host = none }

progress_message-IsMessage : IsMessage progress_message
progress_message-IsMessage = ground arith

complete_message-IsMessage : IsMessage complete_message
complete_message-IsMessage = ground arith

progress_data-parsed : scan_progress_data progress_json ≡ some progress_data
unfolding scan_progress_data
progress_data-parsed = refl

complete_data-parsed : scan_complete_data complete_json ≡ some complete_data
unfolding scan_complete_data
complete_data-parsed = refl

open_event_stream-scan_example :
    (h' : Hook) × (open_event_stream
        (handlers thousandths parse_json)
        (response true true)
        scanning_hook
        (chunks thousandths parse_json (lf ∷ []) (progress_message ∷ [] ++ complete_message ∷ [])
          ++ done ∷ [])
      ≡ ended h')
    × IsDone thousandths parse_json complete_data scanning_hook h'
open_event_stream-scan_example =
    open_event_stream-scan thousandths parse_json (lf ∷ []) (progress_message ∷ []) complete_message
      complete_data scanning_hook done [] (inr refl)
      ((progress_message-IsMessage, refl, (progress_data, progress_data-parsed)), tt)
      (complete_message-IsMessage, refl, complete_data-parsed) refl

-- Fifty hosts, none of which is found.
abbrev silent : ℕ → List (Text × Bool)
silent zero = []
silent (suc n) = (codes "192.168.1.1", false) ∷ silent n

tick_all-IsComplete_example :
    IsComplete 50
      (count_found (silent 50))
      new_simulation
      (tick_all thousandths (silent 50 ++ silent 1) (Simulation.start_scan 0 new_simulation))
tick_all-IsComplete_example =
    tick_all-IsComplete thousandths 0 (silent 50) (silent 1) new_simulation refl

act_all-Tells_example :
    let s = (act_all thousandths parse_json is_uuid actions new_hook).state in
    Tells (report_all thousandths parse_json is_uuid actions nothing) s (scan_dialog s)
    × IsBar (scan_dialog s).body
act_all-Tells_example =
    act_all-Tells thousandths parse_json is_uuid actions (tt, (tt, (progress_data-counted, tt)))
