-- ===== src/Scan.antt =====
-- Scanning the network: the data of the stream's events (frontend/src/types/scan.ts), and the hook
-- of frontend/src/hooks/useScanStream.ts.
pub mod Schemas
pub mod Percent
pub mod Effects
pub mod Guard
pub mod Report
pub mod Progress
pub mod Stream
pub mod Cidr
pub mod Toolbar
pub mod Dialog
pub use Schemas.{◌>>=◌, ScanStartResponse, ScanProgressData, ScanCompleteData, ScanErrorData}
unfoldable pub use Schemas.{
  scan_start_response, scan_progress_data, scan_complete_data, scan_error_data,
}
use it_automation_workspace.Common.{
  ℕ, ◌+◌, ◌*◌, Bool, true, false, ◌||◌, Option, none, some, List, [], ◌∷◌, Text, codes, text_eq,
  ltb, or_else, if◌then◌else◌, ◌==◌,
}
use it_automation_workspace.Json.{Json, get, number, string, nullable_string}
use it_automation_workspace.Sse.{SseFrame, Outcome, returned, threw, Handlers}
use it_automation_workspace.Scan.Percent.{Rounding, round_percent}

pub data Status : Type 0 where
  idle starting scanning complete error : Status

-- The texts that the hook sets as `errorMessage`; those with no value in them by name.
pub data ErrorMessage : Type 0 where
  interrupted admin_required not_started : ErrorMessage
  too_many_scans : (seconds : ℕ) → ErrorMessage
  from_server : Text → ErrorMessage

-- `ScanState`
pub record ScanState : Type 0 where
  pub is_scanning : Bool
  pub progress : ℕ
  pub hosts_scanned : ℕ
  pub total_hosts : ℕ
  pub hosts_found : Option ℕ
  pub current_host : Text
  pub status : Status
  pub error_message : Option ErrorMessage
  pub cooldown_until : Option ℕ

-- `IDLE_STATE`
abbrev pub idle_state : ScanState
idle_state = record {
  is_scanning = false;
  progress = 0;
  hosts_scanned = 0;
  total_hosts = 0;
  hosts_found = none;
  current_host = [];
  status = idle;
  error_message = none;
  cooldown_until = none;
}

-- The hook: its state, whether the controller of its stream is aborted, and how often it has
-- invalidated the queries of the assets and of their statistics.
pub record Hook : Type 0 where
  pub state : ScanState
  pub is_aborted : Bool
  pub assets_invalidated : ℕ
  pub stats_invalidated : ℕ

abbrev pub new_hook : Hook
new_hook = record {
  state = idle_state;
  is_aborted = false;
  assets_invalidated = 0;
  stats_invalidated = 0;
}

-- `closeStream`, while the stream's controller is in `streamControllerRef`
unfoldable pub close_stream : Hook → Hook
close_stream h = record h { is_aborted = true }

abbrev pub is_busy : Status → Bool
is_busy starting = true
is_busy scanning = true
is_busy status = false

-- `startScan` up to its first `await`.
unfoldable pub start_scan : Hook → Hook
unfolding close_stream
start_scan h =
    if is_busy h.state.status
    then h
    else record (close_stream h) { state = record idle_state { status = starting } }

-- How `POST /scan` settles: with a body, or with an error, which has a status and the number of the
-- header `retry-after` if the server has sent these. `now` is `Date.now()`.
pub data Posted : Type 0 where
  accepted : Json → Posted
  refused : (status retry_after : Option ℕ) (now : ℕ) → Posted

abbrev has_status : ℕ → Option ℕ → Bool
has_status code none = false
has_status code (some status) = status == code

-- The body of `catch`.
unfoldable pub start_failed : Option ℕ → Option ℕ → ℕ → Hook → Hook
start_failed status retry_after now h =
    if has_status 429 status
    then record h {
      state = record idle_state {
        status = error;
        error_message = some (too_many_scans (or_else retry_after 15));
        cooldown_until = some (now + or_else retry_after 15 * 1000);
      };
    }
    else record h {
      state = record idle_state {
        status = error;
        error_message = some (if has_status 403 status then admin_required else not_started);
      };
    }

-- `startScan` from there on; a new stream has a new controller.
unfoldable pub start_settled : (Text → Bool) → Posted → Hook → Hook
unfolding scan_start_response start_failed
start_settled is_uuid (refused status retry_after now) h = start_failed status retry_after now h
start_settled is_uuid (accepted body) h = elim (scan_start_response is_uuid body) [
  | none ↦ start_failed none none 0 h
  | some parsed ↦ record h { state = record h.state { status = scanning }; is_aborted = false }
]

unfoldable pub on_error : Hook → Hook
on_error h = record h {
  state = record h.state { status = error; error_message = some interrupted };
}

-- `dismissResult`
unfoldable pub dismiss_result : Hook → Hook
dismiss_result h = record h { state = idle_state }

module _ (rounding : Rounding) (parse_json : Text → Option Json) where
  abbrev percent : ℕ → ℕ → ℕ
  percent = round_percent rounding

  unfoldable pub on_progress : ScanProgressData → Hook → Hook
  on_progress d h = record h {
    state = record h.state {
      status = scanning;
      hosts_scanned = d.hosts_scanned;
      total_hosts = d.hosts_found;
      current_host = or_else d.current_host [];
      progress = if ltb 0 d.hosts_found then percent d.hosts_scanned d.hosts_found else 0;
    };
  }

  unfoldable pub on_complete : ScanCompleteData → Hook → Hook
  unfolding close_stream
  on_complete d h = close_stream (record h {
    state = record h.state {
      status = complete;
      progress = 100;
      hosts_found = some d.online;
      total_hosts = d.total_hosts;
    };
    assets_invalidated = h.assets_invalidated + 1;
    stats_invalidated = h.stats_invalidated + 1;
  })

  unfoldable pub on_error_event : ScanErrorData → Hook → Hook
  unfolding close_stream
  on_error_event d h = close_stream (record h {
    state = record h.state { status = error; error_message = some (from_server d.message) };
  })

  -- An event's data, and what it does; an exception of `JSON.parse` or of the schema is thrown.
  abbrev pub handle : {A : Type 0} → Option A → (A → Hook → Hook) → Hook → Outcome Hook
  handle none f h = threw h
  handle (some d) f h = returned (f d h)

  -- `onFrame`
  unfoldable pub on_frame : SseFrame → Hook → Outcome Hook
  unfolding on_progress on_complete on_error_event scan_progress_data scan_complete_data
      scan_error_data
  on_frame f h =
      if text_eq f.event (codes "progress")
      then handle (parse_json f.content >>= scan_progress_data) on_progress h
      else if text_eq f.event (codes "complete")
      then handle (parse_json f.content >>= scan_complete_data) on_complete h
      else if text_eq f.event (codes "error")
      then handle (parse_json f.content >>= scan_error_data) on_error_event h
      else returned h

  -- The handlers that `startScan` gives to `openEventStream`.
  abbrev pub handlers : Handlers Hook
  handlers = record {
    on_frame = on_frame;
    on_heartbeat = λ h. h;
    on_error = on_error;
    on_close = λ h. h;
    is_aborted = λ h. h.is_aborted;
  }
