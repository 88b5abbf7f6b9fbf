-- ===== src/Scan/Toolbar.antt =====
-- The scan controls of frontend/src/components/data-display/AssetToolbar.tsx.
pub mod Cooldown
pub mod Clicks
pub mod Filters
pub mod Controls
use it_automation_workspace.Common.{
  ℕ, ◌+◌, ◌-◌, ◌*◌, ◌/◌, Bool, true, false, ◌&&◌, ◌||◌, not, Option, none, some, List, [], ◌∷◌,
  ◌++◌, Text, codes, map, text_eq, ltb, leb, filter, length, or_else, if◌then◌else◌,
}
use it_automation_workspace.Scan.{
  Status, idle, starting, scanning, complete, error, Hook, new_hook, is_busy, start_scan,
  dismiss_result,
}
use it_automation_workspace.Assets.{AssetFilters}
use it_automation_workspace.Scan.Cidr.{
  Checked, missing_subnet, malformed_subnet, parsed, scan_request,
}

-- `toLowerCase` on the letters from A to Z. The other characters that it changes do not become
-- letters of the word it is compared with.
abbrev pub lower : ℕ → ℕ
lower c = if leb 65 c && leb c 90 then c + 32 else c

abbrev pub is_admin : Option Text → Bool
is_admin none = false
is_admin (some role) = text_eq (map lower role) (codes "admin")

-- The notifications that the toolbar shows.
pub data Toast : Type 0 where
  invalid_subnet : Checked → Toast
  scan_complete : (found : ℕ) → Toast
  scan_complete_none : Toast

abbrev is_some {ℓ} : {A : Type ℓ} → Option A → Bool
is_some none = false
is_some (some a) = true

unfoldable pub active_filter_count : AssetFilters → ℕ
active_filter_count f =
    length (
      filter (λ b. b) (is_some f.status ∷ not (text_eq f.os (codes "all")) ∷ is_some f.health ∷ []))

-- The state of the toolbar, with that of the scan hook and the subnets it has posted.
pub record Toolbar : Type 0 where
  pub scan_open : Bool
  pub subnet_input : Text
  pub now : ℕ
  pub hook : Hook
  pub posted : List Text
  pub toasts : List Toast
  pub completions : List ℕ

-- `cooldownSecondsRemaining`; `Math.ceil` of a number of milliseconds over 1000.
unfoldable pub cooldown_seconds_remaining : Option ℕ → (now : ℕ) → ℕ
cooldown_seconds_remaining none now = 0
cooldown_seconds_remaining (some until) now =
    if ltb now until then (until - now + 999) / 1000 else 0

unfoldable pub scan_disabled : Option Text → Toolbar → Bool
unfolding cooldown_seconds_remaining
scan_disabled role t =
    not (is_admin role) || ltb 0 (cooldown_seconds_remaining t.hook.state.cooldown_until t.now)

-- `void startScan(subnet)` up to the request.
unfoldable pub submit : Text → Toolbar → Toolbar
unfolding start_scan
submit subnet t = record t {
  hook = start_scan t.hook;
  posted = if is_busy t.hook.state.status then t.posted else t.posted ++ subnet ∷ [];
}

-- The answer of the schema, in `handleScanButtonClick` and in `handleRetry`.
unfoldable pub click_checked : Checked → Toolbar → Toolbar
unfolding submit
click_checked missing_subnet t = record t {
  toasts = t.toasts ++ invalid_subnet missing_subnet ∷ [];
}
click_checked malformed_subnet t = record t {
  toasts = t.toasts ++ invalid_subnet malformed_subnet ∷ [];
}
click_checked (parsed subnet) t = submit subnet (record t { scan_open = true })

unfoldable pub retry_checked : Checked → Toolbar → Toolbar
unfolding submit
retry_checked missing_subnet t = t
retry_checked malformed_subnet t = t
retry_checked (parsed subnet) t = submit subnet t

unfoldable pub handle_scan_button_click : Toolbar → Toolbar
unfolding scan_request click_checked
handle_scan_button_click t =
    if is_busy t.hook.state.status
    then record t { scan_open = true }
    else click_checked (scan_request t.subnet_input) t

unfoldable pub handle_retry : Toolbar → Toolbar
unfolding scan_request retry_checked
handle_retry t = retry_checked (scan_request t.subnet_input) t

unfoldable pub handle_minimize : Toolbar → Toolbar
handle_minimize t = record t { scan_open = false }

abbrev pub is_over : Status → Bool
is_over complete = true
is_over error = true
is_over _ = false

unfoldable pub handle_dialog_open_change : Bool → Toolbar → Toolbar
unfolding dismiss_result
handle_dialog_open_change is_open t =
    let hook =
      if not is_open && is_over t.hook.state.status then dismiss_result t.hook else t.hook in
    record t { scan_open = is_open; hook = hook }

-- The effect on the status `complete`, when its timer fires.
unfoldable pub complete_timer : Toolbar → Toolbar
complete_timer t =
    let found = or_else t.hook.state.hosts_found 0 in
    record t {
      scan_open = false;
      toasts = t.toasts ++ (if ltb 0 found then scan_complete found else scan_complete_none) ∷ [];
      completions = t.completions ++ found ∷ [];
    }

-- The effect of the interval that runs during a cooldown.
unfoldable pub tick : (date_now : ℕ) → Toolbar → Toolbar
tick date_now t = record t { now = date_now }
