-- ===== src/Scan/Dialog.antt =====
-- The dialog of a scan, frontend/src/components/feedback/ScanDialog.tsx, on the states of the hook.
use it_automation_workspace.Common.{
  ℕ, ◌≤◌, Bool, true, false, ◌||◌, not, Option, none, some, List, [], ◌∷◌, Text, or_else, All,
  if◌then◌else◌, ◌≡◌, refl, ap, sym, subst, arith,
}
use it_automation_workspace.Json.{Json}
use it_automation_workspace.Scan.{
  Status, idle, starting, scanning, complete, error, ErrorMessage, ScanState, Hook, new_hook,
  is_busy,
}
use it_automation_workspace.Scan.Percent.{Rounding}
use it_automation_workspace.Scan.Guard.{Action, act_all}
use it_automation_workspace.Scan.Report.{
  Report, nothing, running, counted, told, Agrees, report_all, act_all-Agrees,
}
use it_automation_workspace.Scan.Progress.{IsCounted, act_all-progress-le}

-- The texts read out and shown, by what they say. A message that is missing is shown as "undefined"
-- in the live region, and not at all in the description.
pub data Said : Type 0 where
  scanned : (current_host : Text) (hosts_scanned total_hosts : ℕ) → Said
  found : ℕ → Said
  failed : Option ErrorMessage → Said
  please_wait : Said

pub data Title : Type 0 where
  scan_complete scan_failed scan_running : Title

-- What stands below the header while there is no error: the progress, the three numbers, with `none`
-- for a dash, and the host that is scanned.
pub record Body : Type 0 where
  pub progress : ℕ
  pub hosts_scanned : ℕ
  pub hosts_found : Option ℕ
  pub total_hosts : ℕ
  pub current_host : Option Text

pub record ScanDialog : Type 0 where
  pub live : List Said
  pub titles : List Title
  pub descriptions : List Said
  pub body : Option Body
  pub failure : Option (Option ErrorMessage)
  pub can_minimize : Bool
  pub can_retry : Bool
  pub can_close : Bool

-- `{condition && item}`
abbrev pub only_if {ℓ} : {A : Type ℓ} → Bool → A → List A → List A
only_if true a rest = a ∷ rest
only_if false a rest = rest

abbrev pub is_scanning : Status → Bool
is_scanning scanning = true
is_scanning starting = true
is_scanning _ = false

abbrev pub is_complete : Status → Bool
is_complete complete = true
is_complete _ = false

abbrev pub is_error : Status → Bool
is_error error = true
is_error _ = false

-- `isScanning && currentHost`
abbrev pub host_shown : Bool → Text → Option Text
host_shown false host = none
host_shown true [] = none
host_shown true (c ∷ cs) = some (c ∷ cs)

-- `ScanDialog`, which the toolbar gives `onRetry`; the status decides what is shown.
dialog_at : Status → ScanState → ScanDialog
dialog_at status s =
    let running = is_scanning status in
    let done = is_complete status in
    let broken = is_error status in
    record {
      live = only_if running (scanned s.current_host s.hosts_scanned s.total_hosts) (
          only_if done (found (or_else s.hosts_found 0))
            (only_if broken (failed s.error_message) []));
      titles =
          only_if done scan_complete (only_if broken scan_failed (only_if running scan_running []));
      descriptions =
          only_if done (found (or_else s.hosts_found 0))
            (only_if broken (failed s.error_message) (only_if running please_wait []));
      body =
          if not broken
          then some (record {
            progress = s.progress;
            hosts_scanned = s.hosts_scanned;
            hosts_found = s.hosts_found;
            total_hosts = s.total_hosts;
            current_host = host_shown running s.current_host;
          })
          else none;
      failure = if broken then some s.error_message else none;
      can_minimize = running;
      can_retry = broken;
      can_close = done || broken;
    }

unfoldable pub scan_dialog : ScanState → ScanDialog
unfolding dialog_at
scan_dialog s = dialog_at s.status s

-- Which of the three buttons there are.
abbrev pub HasButtons : (minimize retry close : Bool) → ScanDialog → Type 0
HasButtons minimize retry close d =
    (d.can_minimize ≡ minimize) × (d.can_retry ≡ retry) × (d.can_close ≡ close)

-- The progress and the number of hosts found that a body shows.
abbrev pub bar_of : Option Body → Option ℕ
bar_of none = none
bar_of (some b) = some b.progress

abbrev pub found_of : Option Body → Option ℕ
found_of none = none
found_of (some b) = b.hosts_found

-- What a user sees of a scan, by what there is to tell of it.
abbrev pub Tells : Report → ScanState → ScanDialog → Type 0
Tells nothing s d =
    (d.titles ≡ []) × (d.descriptions ≡ []) × (d.live ≡ []) × HasButtons false false false d
Tells running s d =
    (d.titles ≡ scan_running ∷ [])
    × (d.descriptions ≡ please_wait ∷ [])
    × (d.live ≡ scanned s.current_host s.hosts_scanned s.total_hosts ∷ [])
    × (bar_of d.body ≡ some s.progress)
    × HasButtons true false false d
Tells (counted n) s d =
    (d.titles ≡ scan_complete ∷ [])
    × (d.descriptions ≡ found n ∷ [])
    × (d.live ≡ found n ∷ [])
    × (bar_of d.body ≡ some 100)
    × (found_of d.body ≡ some n)
    × HasButtons false false true d
Tells (told m) s d =
    (d.titles ≡ scan_failed ∷ [])
    × (d.descriptions ≡ failed (some m) ∷ [])
    × (d.live ≡ failed (some m) ∷ [])
    × (d.failure ≡ some (some m))
    × (d.body ≡ none)
    × HasButtons false true true d

-- The progress bar, if there is one, has a value up to 100.
abbrev pub IsBar : Option Body → Type 0
IsBar none = Unit
IsBar (some b) = b.progress ≤ 100

dialog_at-running :
    (status : Status) (s : ScanState) → is_busy status ≡ true → Tells running s (dialog_at status s)
unfolding dialog_at
dialog_at-running idle s e = ground arith
dialog_at-running starting s e = (refl, refl, refl, refl, (refl, refl, refl))
dialog_at-running scanning s e = (refl, refl, refl, refl, (refl, refl, refl))
dialog_at-running complete s e = ground arith
dialog_at-running error s e = ground arith

dialog_at-complete :
    (n : ℕ) (s : ScanState)
    → s.hosts_found ≡ some n
    → s.progress ≡ 100
    → Tells (counted n) s (dialog_at complete s)
unfolding dialog_at
dialog_at-complete n s f p =
    let told = ap (λ o. found (or_else o 0) ∷ []) f in
    (refl, told, told, ap some p, f, (refl, refl, refl))

dialog_at-error :
    (m : ErrorMessage) (s : ScanState)
    → s.error_message ≡ some m
    → Tells (told m) s (dialog_at error s)
unfolding dialog_at
dialog_at-error m s e =
    let said = ap (λ o. failed o ∷ []) e in (refl, said, said, ap some e, refl, (refl, refl, refl))

dialog_at-idle : (s : ScanState) → Tells nothing s (dialog_at idle s)
unfolding dialog_at
dialog_at-idle s = (refl, refl, refl, (refl, refl, refl))

scan_dialog-Tells : (r : Report) (h : Hook) → Agrees r h → Tells r h.state (scan_dialog h.state)
unfolding scan_dialog
scan_dialog-Tells nothing h g =
    subst (λ status. Tells nothing h.state (dialog_at status h.state)) (sym g)
      (dialog_at-idle h.state)
scan_dialog-Tells running h g = dialog_at-running h.state.status h.state g
scan_dialog-Tells (counted n) h g =
    subst (λ status. Tells (counted n) h.state (dialog_at status h.state)) (sym g.0)
      (dialog_at-complete n h.state g.1 g.2)
scan_dialog-Tells (told m) h g =
    subst (λ status. Tells (told m) h.state (dialog_at status h.state)) (sym g.0)
      (dialog_at-error m h.state g.1)

dialog_at-IsBar :
    (status : Status) (s : ScanState) → s.progress ≤ 100 → IsBar (dialog_at status s).body
unfolding dialog_at
dialog_at-IsBar idle s h = h
dialog_at-IsBar starting s h = h
dialog_at-IsBar scanning s h = h
dialog_at-IsBar complete s h = h
dialog_at-IsBar error s h = tt

module _ (rounding : Rounding) (parse_json : Text → Option Json) (is_uuid : Text → Bool) where
  -- Whatever is done with a new hook, the dialog tells the latest news of the server and of the
  -- connection. There is no title without a scan; while one runs, the dialog can be sent to the
  -- background only and reads out the host and the numbers of the hook; a scan that is complete has
  -- the number of hosts that are online in the server's last count, and a full bar; one that has
  -- failed has the reason that the server or the connection gave, and can be retried. Both of these
  -- can be closed. The progress bar stays within 0 and 100, if the server never counts more hosts
  -- scanned than hosts in all.
  pub act_all-Tells :
      (actions : List Action)
      → All (IsCounted rounding parse_json is_uuid) actions
      → let s = (act_all rounding parse_json is_uuid actions new_hook).state in
        Tells (report_all rounding parse_json is_uuid actions nothing) s (scan_dialog s)
        × IsBar (scan_dialog s).body
  unfolding scan_dialog
  act_all-Tells actions c =
      let h = act_all rounding parse_json is_uuid actions new_hook in
      (
        scan_dialog-Tells (report_all rounding parse_json is_uuid actions nothing) h
            (act_all-Agrees rounding parse_json is_uuid actions),
        dialog_at-IsBar h.state.status h.state
            (act_all-progress-le rounding parse_json is_uuid actions c),
      )
