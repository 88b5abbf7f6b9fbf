-- ===== src/Scan/Toolbar/Clicks.antt =====
-- What the scan controls send (frontend/src/components/data-display/AssetToolbar.tsx).
use it_automation_workspace.Common.{
  ℕ, Bool, true, false, List, [], ◌∷◌, ◌++◌, Text, All, trim, if◌then◌else◌, ◌≡◌, refl, ◌⊎◌, inl,
  inr, Bool-cases,
}
use it_automation_workspace.Scan.{Hook, starting, is_busy, start_scan, close_stream}
use it_automation_workspace.Scan.Cidr.{
  Checked, missing_subnet, malformed_subnet, parsed, scan_request, IsCidr, scan_request-parsed,
}
use it_automation_workspace.Scan.Toolbar.{
  Toolbar, submit, click_checked, retry_checked, handle_scan_button_click, handle_retry,
  handle_minimize, handle_dialog_open_change, complete_timer, tick,
}

-- What happens to the toolbar: its own handlers, typing, and any change of the hook's state.
pub data Action : Type 0 where
  click retry minimize timer : Action
  open_change : Bool → Action
  date : ℕ → Action
  typed : Text → Action
  hook_changed : (Hook → Hook) → Action

abbrev pub act : Action → Toolbar → Toolbar
act click t = handle_scan_button_click t
act retry t = handle_retry t
act minimize t = handle_minimize t
act timer t = complete_timer t
act (open_change b) t = handle_dialog_open_change b t
act (date n) t = tick n t
act (typed s) t = record t { subnet_input = s }
act (hook_changed f) t = record t { hook = f t.hook }

abbrev pub act_all : List Action → Toolbar → Toolbar
act_all [] t = t
act_all (a ∷ as_after) t = act_all as_after (act a t)

-- A toolbar that has sent nothing, or one subnet in CIDR notation, at a time when no scan was under
-- way; its hook is then starting a scan.
abbrev pub IsPost : Toolbar → Toolbar → Type 0
IsPost t u =
    (u.posted ≡ t.posted)
    ⊎ ((subnet : Text) × (u.posted ≡ t.posted ++ subnet ∷ [])
        × (subnet ≡ trim t.subnet_input)
        × IsCidr subnet
        × (is_busy t.hook.state.status ≡ false)
        × (u.hook.state.status ≡ starting))

submit-IsPost :
    (t : Toolbar) (is_open : Bool) (subnet : Text)
    → scan_request t.subnet_input ≡ parsed subnet
    → IsPost t (submit subnet (record t { scan_open = is_open }))
unfolding submit start_scan close_stream
submit-IsPost t is_open subnet e = elim (Bool-cases (is_busy t.hook.state.status)) [
  | inl busy ↦ inl (rw busy refl)
  | inr free ↦
      let (trimmed, cidr) = (scan_request-parsed t.subnet_input subnet).0 e in
      inr (subnet, rw free refl, trimmed, cidr, free, rw free refl)
]

click_checked-IsPost :
    (t : Toolbar) (c : Checked) → scan_request t.subnet_input ≡ c → IsPost t (click_checked c t)
unfolding click_checked
click_checked-IsPost t missing_subnet e = inl refl
click_checked-IsPost t malformed_subnet e = inl refl
click_checked-IsPost t (parsed s) e = submit-IsPost t true s e

retry_checked-IsPost :
    (t : Toolbar) (c : Checked) → scan_request t.subnet_input ≡ c → IsPost t (retry_checked c t)
unfolding retry_checked
retry_checked-IsPost t missing_subnet e = inl refl
retry_checked-IsPost t malformed_subnet e = inl refl
retry_checked-IsPost t (parsed s) e = submit-IsPost t t.scan_open s e

if-IsPost : (t u v : Toolbar) (b : Bool) → IsPost t u → IsPost t v → IsPost t (if b then u else v)
if-IsPost t u v true p q = p
if-IsPost t u v false p q = q

handle_retry-IsPost : (t : Toolbar) → IsPost t (handle_retry t)
unfolding handle_retry
handle_retry-IsPost t = retry_checked-IsPost t (scan_request t.subnet_input) refl

handle_scan_button_click-IsPost : (t : Toolbar) → IsPost t (handle_scan_button_click t)
unfolding handle_scan_button_click
handle_scan_button_click-IsPost t =
    if-IsPost t (record t { scan_open = true }) (click_checked (scan_request t.subnet_input) t)
      (is_busy t.hook.state.status) (inl refl)
      (click_checked-IsPost t (scan_request t.subnet_input) refl)

-- A click on the button, and one on the retry of the dialog, send nothing or the trimmed input, and
-- that only in CIDR notation and while no scan is under way; the hook is then starting one.
pub clicks-IsPost :
    (t : Toolbar) → IsPost t (handle_scan_button_click t) × IsPost t (handle_retry t)
clicks-IsPost t = (handle_scan_button_click-IsPost t, handle_retry-IsPost t)

All-snoc : (xs : List Text) (x : Text) → All IsCidr xs → IsCidr x → All IsCidr (xs ++ x ∷ [])
All-snoc [] x h k = (k, tt)
All-snoc (y ∷ xs) x h k = (h.0, All-snoc xs x h.1 k)

IsPost-All : (t u : Toolbar) → IsPost t u → All IsCidr t.posted → All IsCidr u.posted
IsPost-All t u (inl e) h = rw e h
IsPost-All t u (inr (s, e, trimmed, cidr, free, starts)) h = rw e (All-snoc t.posted s h cidr)

act-All : (a : Action) (t : Toolbar) → All IsCidr t.posted → All IsCidr (act a t).posted
unfolding handle_minimize handle_dialog_open_change complete_timer tick
act-All click t h = IsPost-All t (handle_scan_button_click t) (handle_scan_button_click-IsPost t) h
act-All retry t h = IsPost-All t (handle_retry t) (handle_retry-IsPost t) h
act-All minimize t h = h
act-All timer t h = h
act-All (open_change b) t h = h
act-All (date n) t h = h
act-All (typed s) t h = h
act-All (hook_changed f) t h = h

-- Whatever the user does and types, and however the state of the scan changes meanwhile, each subnet
-- that the toolbar sends is in CIDR notation.
pub act_all-All :
    (as_done : List Action) (t : Toolbar)
    → All IsCidr t.posted
    → All IsCidr (act_all as_done t).posted
act_all-All [] t h = h
act_all-All (a ∷ rest) t h = act_all-All rest (act a t) (act-All a t h)
