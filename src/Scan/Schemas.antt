-- ===== src/Scan/Schemas.antt =====
-- The schemas of frontend/src/types/scan.ts, on the values of `JSON.parse`.
use it_automation_workspace.Common.{ℕ, Bool, Option, none, some, Text, codes, if◌then◌else◌}
use it_automation_workspace.Json.{Json, get, number, string, nullable_string}

infixl 5 ◌>>=◌
abbrev pub ◌>>=◌ {ℓ κ} : {A : Type ℓ} {B : Type κ} → Option A → (A → Option B) → Option B
none >>= k = none
some a >>= k = k a

pub record ScanStartResponse : Type 0 where
  pub job_id : Text
  pub status : Text

pub record ScanProgressData : Type 0 where
  pub hosts_found : ℕ
  pub hosts_scanned : ℕ
  pub current_host : Option Text

pub record ScanCompleteData : Type 0 where
  pub total_hosts : ℕ
  pub online : ℕ
  pub offline : ℕ

pub record ScanErrorData : Type 0 where
  pub message : Text

-- `scanStartResponseSchema.parse` and the others; `none` is an exception. zod's test for a UUID is
-- a parameter.
unfoldable pub scan_start_response : (Text → Bool) → Json → Option ScanStartResponse
scan_start_response is_uuid v = do
  job_id ← string (get (codes "job_id") v)
  status ← string (get (codes "status") v)
  if is_uuid job_id then some (record { job_id = job_id; status = status }) else none

unfoldable pub scan_progress_data : Json → Option ScanProgressData
scan_progress_data v = do
  hosts_found ← number (get (codes "hosts_found") v)
  hosts_scanned ← number (get (codes "hosts_scanned") v)
  current_host ← nullable_string (get (codes "current_host") v)
  some (record {
    hosts_found = hosts_found;
    hosts_scanned = hosts_scanned;
    current_host = current_host;
  })

unfoldable pub scan_complete_data : Json → Option ScanCompleteData
scan_complete_data v = do
  total_hosts ← number (get (codes "total_hosts") v)
  online ← number (get (codes "online") v)
  offline ← number (get (codes "offline") v)
  some (record { total_hosts = total_hosts; online = online; offline = offline })

unfoldable pub scan_error_data : Json → Option ScanErrorData
scan_error_data v = do
  message ← string (get (codes "message") v)
  some (record { message = message })
