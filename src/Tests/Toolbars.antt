-- ===== src/Tests/Toolbars.antt =====
-- The scan controls, with a few clicks, and the sidebar.
use it_automation_workspace.Common.{
  true, false, ◌≤◌, length, some, List, [], ◌∷◌, Text, codes, All, trim, ◌++◌, if◌then◌else◌, ◌≡◌,
  ◌↔◌, refl,
}
use it_automation_workspace.Navigation.{nav_items, Layout, light, follow, sidebar, overflow}
use it_automation_workspace.Navigation.Links.{marked, follow-marked}
use it_automation_workspace.Scan.{new_hook}
use it_automation_workspace.Scan.Cidr.{
  parsed, scan_request, matches_cidr, IsCidr, scan_request-parsed,
}
use it_automation_workspace.Scan.Toolbar.{Toolbar, handle_scan_button_click}
use it_automation_workspace.Scan.Toolbar.Controls.{scan_controls, press_scan}
use it_automation_workspace.Scan.Toolbar.Controls.Started.{offers_scan, subnets, press_scan-posted}
use it_automation_workspace.Scan.Toolbar.Clicks.{Action, click, typed, retry, act_all, act_all-All}

abbrev default_subnet : Text
default_subnet = codes " 192.168.179.0/24"

abbrev toolbar : Toolbar
toolbar = record {
  scan_open = false;
  subnet_input = default_subnet;
  now = 0;
  hook = new_hook;
  posted = [];
  toasts = [];
  completions = [];
}

-- The regular expression by example.
matches_cidr_test : matches_cidr (codes "192.168.179.0/24") ≡ true
unfolding matches_cidr
matches_cidr_test = refl

matches_cidr_reject_test : matches_cidr (codes "192.168.1790/24") ≡ false
unfolding matches_cidr
matches_cidr_reject_test = refl

scan_request-parsed_example :
    (scan_request default_subnet ≡ parsed (codes "192.168.179.0/24"))
    ↔ ((codes "192.168.179.0/24" ≡ trim default_subnet) × IsCidr (codes "192.168.179.0/24"))
scan_request-parsed_example = scan_request-parsed default_subnet (codes "192.168.179.0/24")

abbrev clicks : List Action
clicks = typed (codes "10.0.0.0/99") ∷ click ∷ typed (codes "10") ∷ retry ∷ []

act_all-All_example : All IsCidr (act_all clicks toolbar).posted
act_all-All_example = act_all-All clicks toolbar tt

-- The first click of these sends its subnet, and the second, for a scan is starting, nothing.
act_all_test :
    (act_all (typed (codes "10.0.0.0/99") ∷ click ∷ click ∷ []) toolbar).posted
    ≡ codes "10.0.0.0/99" ∷ []
unfolding handle_scan_button_click matches_cidr
act_all_test = refl

press_scan-posted_example : (press_scan (some (codes "Admin")) toolbar).posted ≡ (
    if offers_scan (scan_controls (some (codes "Admin")) toolbar)
    then [] ++ subnets (scan_request default_subnet)
    else [])
press_scan-posted_example = press_scan-posted (some (codes "Admin")) toolbar

-- The page of one device, with the drawer open.
abbrev at_device : Layout
at_device = record {
  pathname = codes "/assets/7";
  is_sidebar_open = true;
  theme = light;
  mounted = true;
}

follow-marked_example :
    (length (marked at_device) ≤ 1)
    × All
        (λ i.
          (marked (follow i at_device) ≡ i ∷ [])
          × ((sidebar (follow i at_device)).has_backdrop ≡ false)
          × (overflow (follow i at_device) ≡ []))
        nav_items
follow-marked_example = follow-marked at_device
