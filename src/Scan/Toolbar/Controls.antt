-- ===== src/Scan/Toolbar/Controls.antt =====
-- The other controls of frontend/src/components/data-display/AssetToolbar.tsx: the filters, the menus
-- of the columns and of the export, and what the toolbar shows.
pub mod Started
pub mod Chosen
use Prim.Native.String.{String}
use it_automation_workspace.Common.{
  ℕ, Bool, true, false, ◌&&◌, not, Option, none, some, List, [], ◌∷◌, Text, codes, map, filter,
  text_eq, ltb, if◌then◌else◌, or_else,
}
use it_automation_workspace.Common.Sorting.{includes}
use it_automation_workspace.Assets.{
  DeviceStatus, online, offline, unknown, AssetHealth, healthy, warning, critical, undetermined,
  AssetFilters,
}
use it_automation_workspace.Scan.{is_busy}
use it_automation_workspace.Scan.Toolbar.{
  Toolbar, is_admin, cooldown_seconds_remaining, scan_disabled, active_filter_count,
  handle_scan_button_click,
}

-- `STATUS_OPTIONS`, `OS_OPTIONS` and `HEALTH_OPTIONS`, with `none` for "all" as in the filters
pub record FilterOption (A : Type 0) : Type 0 where
  pub value : A
  pub label : String

abbrev pub choice : {A : Type 0} → A → String → FilterOption A
choice value label = record { value = value; label = label }

abbrev pub status_options : List (FilterOption (Option DeviceStatus))
status_options =
    choice none "Alle Status"
    ∷ choice (some online) "Online"
    ∷ choice (some offline) "Offline"
    ∷ choice (some unknown) "Unbekannt"
    ∷ []

abbrev pub os_options : List (FilterOption Text)
os_options =
    choice (codes "all") "Alle OS"
    ∷ choice (codes "Windows") "Windows"
    ∷ choice (codes "Linux") "Linux"
    ∷ choice (codes "Mac") "macOS"
    ∷ choice (codes "iOS") "iOS"
    ∷ choice (codes "Android") "Android"
    ∷ []

abbrev pub health_options : List (FilterOption (Option AssetHealth))
health_options =
    choice none "Alle Health"
    ∷ choice (some healthy) "Gesund"
    ∷ choice (some warning) "Langsam"
    ∷ choice (some critical) "Kritisch"
    ∷ choice (some undetermined) "Unbekannt"
    ∷ []

-- The calls of `updateFilter`. The select of the systems passes `null` on as "all".
pub data FilterChange : Type 0 where
  type_search : Text → FilterChange
  clear_search : FilterChange
  choose_status : Option DeviceStatus → FilterChange
  choose_os : Option Text → FilterChange
  choose_health : Option AssetHealth → FilterChange

unfoldable pub update_filter : FilterChange → AssetFilters → AssetFilters
update_filter (type_search text) f = record f { search = text }
update_filter clear_search f = record f { search = [] }
update_filter (choose_status value) f = record f { status = value }
update_filter (choose_os value) f = record f { os = or_else value (codes "all") }
update_filter (choose_health value) f = record f { health = value }

-- A column of the table.
pub record Column : Type 0 where
  pub id : Text
  pub header : Option Text
  pub can_hide : Bool
  pub is_visible : Bool

-- `NON_HIDEABLE_COLUMN_IDS`
abbrev pub non_hideable_column_ids : List Text
non_hideable_column_ids = codes "select" ∷ codes "actions" ∷ []

abbrev pub is_hideable : Column → Bool
is_hideable c = c.can_hide && not (includes c.id non_hideable_column_ids)

unfoldable pub hideable_columns : List Column → List Column
hideable_columns = filter is_hideable

-- An item of the menu: the header, if it is a text, or else the id, and the check mark.
pub record MenuItem : Type 0 where
  pub key : Text
  pub label : Text
  pub checked : Bool

abbrev pub menu_item : Column → MenuItem
menu_item c = record { key = c.id; label = or_else c.header c.id; checked = c.is_visible }

-- Checking or unchecking the item of a column: `column.toggleVisibility(value)`.
abbrev pub with_visible : Text → Bool → Column → Column
with_visible id value c =
    if is_hideable c && text_eq c.id id then record c { is_visible = value } else c

unfoldable pub check_column : Text → Bool → List Column → List Column
check_column id value = map (with_visible id value)

pub data Format : Type 0 where
  csv xlsx pdf : Format

-- `handleExport` only shows the notification that the export is being prepared.
pub data Notice : Type 0 where
  export_prepared : Format → Notice

unfoldable pub handle_export : Format → List Notice → List Notice
handle_export format notices = export_prepared format ∷ notices

-- What the scan button says.
pub data ScanLabel : Type 0 where
  scan_running scan : ScanLabel
  scan_waiting : (seconds : ℕ) → ScanLabel

pub record ScanControls : Type 0 where
  pub subnet : Text
  pub subnet_disabled : Bool
  pub label : ScanLabel
  pub is_disabled : Bool

module _ (role : Option Text) (t : Toolbar) where
  unfoldable pub scan_label : ScanLabel
  unfolding cooldown_seconds_remaining
  scan_label =
      let seconds = cooldown_seconds_remaining t.hook.state.cooldown_until t.now in
      if is_busy t.hook.state.status
      then scan_running
      else if ltb 0 seconds
      then scan_waiting seconds
      else scan

  -- Only an administrator sees them.
  unfoldable pub scan_controls : Option ScanControls
  unfolding scan_label scan_disabled
  scan_controls =
      if is_admin role
      then some (record {
        subnet = t.subnet_input;
        subnet_disabled = is_busy t.hook.state.status;
        label = scan_label;
        is_disabled = scan_disabled role t && not (is_busy t.hook.state.status);
      })
      else none

abbrev pub enabled : Option ScanControls → Bool
enabled none = false
enabled (some c) = not c.is_disabled

-- A press of the scan button, where it is shown and not disabled.
unfoldable pub press_scan : Option Text → Toolbar → Toolbar
unfolding scan_controls handle_scan_button_click
press_scan role t = if enabled (scan_controls role t) then handle_scan_button_click t else t

pub record ToolbarView : Type 0 where
  pub search : Text
  pub clear_shown : Bool
  pub filters_expanded : Bool
  pub badge : Option ℕ
  pub delete_count : Option ℕ
  pub columns : List MenuItem
  pub exports : List Format
  pub scan : Option ScanControls

abbrev pub if_positive : ℕ → Option ℕ
if_positive n = if ltb 0 n then some n else none

abbrev pub is_truthy : Text → Bool
is_truthy [] = false
is_truthy (c ∷ cs) = true

-- `AssetToolbar`, without the dialog of the scan. The selects of the filters are always in the page.
unfoldable pub asset_toolbar :
    (role : Option Text)
    → AssetFilters
    → (selected_count : ℕ) → (show_filters : Bool) → List Column
    → Toolbar
    → ToolbarView
unfolding active_filter_count hideable_columns scan_controls
asset_toolbar role f selected_count show_filters columns t = record {
  search = f.search;
  clear_shown = is_truthy f.search;
  filters_expanded = show_filters;
  badge = if_positive (active_filter_count f);
  delete_count = if_positive selected_count;
  columns = map menu_item (hideable_columns columns);
  exports = csv ∷ xlsx ∷ pdf ∷ [];
  scan = scan_controls role t;
}
