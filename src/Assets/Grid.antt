-- ===== src/Assets/Grid.antt =====
-- The table of devices and the numbers above it: AssetTable.tsx, AssetStats.tsx and the badges of
-- AssetColumns.tsx in frontend/src/components/data-display.
pub mod Hidden
use Prim.Native.String.{String}
use it_automation_workspace.Common.{
  ℕ, ◌+◌, Bool, true, false, ◌||◌, Option, none, some, List, [], ◌∷◌, Text, codes, map, filter,
  length, text_eq, ltb, if◌then◌else◌, ◌==◌,
}
use it_automation_workspace.Assets.{
  Asset, AssetHealth, healthy, warning, critical, undetermined, DeviceStatus, online, offline,
  unknown, PaginationMeta, PaginatedAssetList,
}

abbrev pub health_label : AssetHealth → String
health_label healthy = "Gesund"
health_label warning = "Langsam"
health_label critical = "Kritisch"
health_label undetermined = "Unbekannt"

abbrev pub status_label : DeviceStatus → String
status_label online = "Online"
status_label offline = "Offline"
status_label unknown = "Unbekannt"

-- `AssetStats` of frontend/src/types/asset.ts, the answer of the query
pub record Stats : Type 0 where
  pub total : ℕ
  pub online : ℕ
  pub offline : ℕ
  pub health_alerts : ℕ

-- A card and its number, or that it is loading.
pub record StatCard : Type 0 where
  pub title : String
  pub value : Option ℕ

abbrev pub stat_card : Bool → String → ℕ → StatCard
stat_card is_loading title value = record {
  title = title;
  value = if is_loading then none else some value;
}

abbrev pub or_zero : (Stats → ℕ) → Option Stats → ℕ
or_zero field none = 0
or_zero field (some s) = field s

unfoldable pub asset_stats : (is_loading : Bool) → Option Stats → List StatCard
asset_stats is_loading s =
    stat_card is_loading "Gesamt Assets" (or_zero (λ s. s.total) s)
    ∷ stat_card is_loading "Online" (or_zero (λ s. s.online) s)
    ∷ stat_card is_loading "Offline" (or_zero (λ s. s.offline) s)
    ∷ stat_card is_loading "Health Alerts" (or_zero (λ s. s.health_alerts) s)
    ∷ []

-- A visible column of the table, and its track in the grid.
pub record GridColumn : Type 0 where
  pub id : Text
  pub size : ℕ

pub data Track : Type 0 where
  fixed at_least : (pixels : ℕ) → Track

abbrev pub table_min_width : List GridColumn → ℕ
table_min_width [] = 0
table_min_width (c ∷ cs) = c.size + table_min_width cs

abbrev pub track : GridColumn → Track
track c =
    if text_eq c.id (codes "select") || text_eq c.id (codes "actions")
    then fixed c.size
    else at_least c.size

abbrev pub grid_template_columns : List GridColumn → List Track
grid_template_columns = map track

abbrev pub is_virtualized : Option PaginatedAssetList → Bool
is_virtualized none = false
is_virtualized (some answer) = ltb 100 answer.meta.total_items

-- The banner of the selection: the number, and whether the word after it is in the singular.
abbrev pub selection_banner : ℕ → Option (ℕ × Bool)
selection_banner n = if ltb 0 n then some (n, n == 1) else none

-- What the table shows. A virtual body draws the rows near the visible ones, of those given here.
pub record Grid : Type 0 where
  pub banner : Option (ℕ × Bool)
  pub limits_height : Bool
  pub min_width : ℕ
  pub tracks : List Track
  pub rows : List Asset
  pub pagination : PaginationMeta

pub data TableView : Type 0 where
  skeleton : (rows columns : ℕ) → TableView
  empty_state : TableView
  grid : Grid → TableView

abbrev pub loaded_table :
    List GridColumn → (is_selected : Asset → Bool) → Option PaginatedAssetList → TableView
loaded_table columns is_selected none = empty_state
loaded_table columns is_selected (some answer) = elim answer.assets [
  | [] ↦ empty_state
  | a ∷ rest ↦ grid (record {
    banner = selection_banner (length (filter is_selected (a ∷ rest)));
    limits_height = is_virtualized (some answer);
    min_width = table_min_width columns;
    tracks = grid_template_columns columns;
    rows = a ∷ rest;
    pagination = answer.meta;
  })
]

-- `AssetTable`, for the page's size, the visible columns and the answer of the query.
unfoldable pub asset_table :
    (is_loading : Bool)
    → (page_size : ℕ) → List GridColumn
    → (is_selected : Asset → Bool) → Option PaginatedAssetList
    → TableView
asset_table true page_size columns is_selected answer = skeleton page_size (length columns)
asset_table false page_size columns is_selected answer = loaded_table columns is_selected answer
