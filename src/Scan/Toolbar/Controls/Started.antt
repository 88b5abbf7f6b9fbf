-- ===== src/Scan/Toolbar/Controls/Started.antt =====
-- When a press of the scan button posts a subnet
-- (frontend/src/components/data-display/AssetToolbar.tsx).
use it_automation_workspace.Common.{
  ltb, Bool, true, false, Option, none, some, List, [], ◌∷◌, ◌++◌, Text, append-nil, Bool-cases,
  inl, inr, if◌then◌else◌, ◌≡◌, refl, sym,
}
use it_automation_workspace.Scan.{is_busy, start_scan}
use it_automation_workspace.Scan.Cidr.{
  Checked, missing_subnet, malformed_subnet, parsed, scan_request,
}
use it_automation_workspace.Scan.Toolbar.{
  Toolbar, is_admin, cooldown_seconds_remaining, scan_disabled, submit, click_checked,
  handle_scan_button_click,
}
use it_automation_workspace.Scan.Toolbar.Controls.{
  ScanControls, scan, scan_running, scan_waiting, scan_label, scan_controls, press_scan,
}

-- The button is shown and says that it starts a scan.
abbrev pub offers_scan : Option ScanControls → Bool
offers_scan none = false
offers_scan (some c) = elim c.label [ scan ↦ true | scan_running ↦ false | scan_waiting n ↦ false ]

abbrev pub subnets : Checked → List Text
subnets missing_subnet = []
subnets malformed_subnet = []
subnets (parsed subnet) = subnet ∷ []

click_checked-posted :
    (checked : Checked) (t : Toolbar)
    → is_busy t.hook.state.status ≡ false
    → (click_checked checked t).posted ≡ t.posted ++ subnets checked
unfolding click_checked submit start_scan
click_checked-posted missing_subnet t e = sym (append-nil t.posted)
click_checked-posted malformed_subnet t e = sym (append-nil t.posted)
click_checked-posted (parsed subnet) t e = rw e refl

-- A press of the scan button posts the subnet of the input, if this is a valid one, exactly when the
-- button is there and says that it starts a scan; while a scan runs, or a cooldown, or for a user who
-- is no administrator, nothing is posted.
pub press_scan-posted :
    (role : Option Text) (t : Toolbar)
    → (press_scan role t).posted ≡ (
        if offers_scan (scan_controls role t)
        then t.posted ++ subnets (scan_request t.subnet_input)
        else t.posted)
unfolding press_scan scan_controls scan_label scan_disabled handle_scan_button_click
press_scan-posted role t =
    let wait = ltb 0 (cooldown_seconds_remaining t.hook.state.cooldown_until t.now) in
    elim (Bool-cases (is_busy t.hook.state.status)) [
      | inl busy ↦ elim (Bool-cases (is_admin role)) [
        | inl admin ↦ elim (Bool-cases wait) [
          | inl w ↦ rw (busy, admin, w) refl
          | inr w ↦ rw (busy, admin, w) refl
        ]
        | inr other ↦ rw other refl
      ]
      | inr free ↦ elim (Bool-cases (is_admin role)) [
        | inl admin ↦ elim (Bool-cases wait) [
          | inl w ↦ rw (free, admin, w) refl
          | inr w ↦ rw (free, admin, w) (click_checked-posted (scan_request t.subnet_input) t free)
        ]
        | inr other ↦ rw other refl
      ]
    ]
