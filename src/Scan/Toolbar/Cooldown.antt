-- ===== src/Scan/Toolbar/Cooldown.antt =====
-- The cooldown of the scan button (frontend/src/components/data-display/AssetToolbar.tsx).
use it_automation_workspace.Common.{
  ℕ, ◌+◌, ◌-◌, ◌*◌, ◌≤◌, ◌<◌, true, false, not, Option, some, Text, ltb, or_else, ◌≡◌, arith,
}
use it_automation_workspace.Scan.{start_failed, dismiss_result}
use it_automation_workspace.Scan.Toolbar.{
  is_admin, Toolbar, cooldown_seconds_remaining, scan_disabled, handle_dialog_open_change, tick,
}

-- The seconds shown are the milliseconds that are left, rounded up, and nothing once the time is over.
pub cooldown_seconds_remaining-bounds :
    (until now : ℕ)
    → let n = cooldown_seconds_remaining (some until) now in
      (until - now ≤ n * 1000) × (n * 1000 < until - now + 1000)
unfolding cooldown_seconds_remaining
cooldown_seconds_remaining-bounds until now = (ground arith, ground arith)

-- After an answer 429 at the time `t`, which names a number of seconds or not, the button stays
-- disabled for that time, or for 15 seconds, and not longer for an administrator.
pub start_failed-scan_disabled :
    (role : Option Text) (b : Toolbar) (retry_after : Option ℕ) (t d : ℕ)
    → is_admin role ≡ true
    → scan_disabled role
        (tick (t + d) (record b { hook = start_failed (some 429) retry_after t b.hook }))
      ≡ ltb d (or_else retry_after 15 * 1000)
unfolding start_failed scan_disabled cooldown_seconds_remaining tick
start_failed-scan_disabled role b retry_after t d admin = ground arith

-- Closing the dialog after the answer 429 lets an administrator start the next scan at once.
pub handle_dialog_open_change-scan_disabled :
    (role : Option Text) (b : Toolbar) (retry_after : Option ℕ) (t : ℕ)
    → let refused = record b { hook = start_failed (some 429) retry_after t b.hook } in
      scan_disabled role (handle_dialog_open_change false refused) ≡ not (is_admin role)
unfolding start_failed scan_disabled cooldown_seconds_remaining handle_dialog_open_change
    dismiss_result
handle_dialog_open_change-scan_disabled role b retry_after t = ground arith
