-- ===== src/Assets.antt =====
-- Devices: the types of frontend/src/types/asset.ts, their health (frontend/src/lib/assetHealth.ts),
-- and the query of frontend/src/hooks/useAssets.ts.
pub mod Health
pub mod Debounce
pub mod Page
pub mod Deletion
pub mod Grid
use it_automation_workspace.Common.{
  ℕ, ◌+◌, ◌*◌, Bool, true, false, ◌&&◌, ◌||◌, not, Option, none, some, List, [], ◌∷◌, Text, codes,
  text_eq, filter, ltb, if◌then◌else◌,
}

pub data DeviceStatus : Type 0 where
  online offline unknown : DeviceStatus

pub data AssetHealth : Type 0 where
  healthy warning critical undetermined : AssetHealth

-- `Device`, without the fields that nothing here reads. Percentages are whole numbers.
pub record Asset : Type 0 where
  pub id : Text
  pub status : DeviceStatus
  pub cpu_percent : Option ℕ
  pub memory_percent : Option ℕ
  pub last_seen : Option Text

-- `AssetFilters`, with `none` for "all"
pub record AssetFilters : Type 0 where
  pub search : Text
  pub status : Option DeviceStatus
  pub os : Text
  pub health : Option AssetHealth

abbrev pub local_resource_warning_threshold : ℕ
local_resource_warning_threshold = 90

abbrev pub stale_threshold_ms : ℕ
stale_threshold_ms = 24 * 60 * 60 * 1000

-- A reading that is not `null` and above the threshold.
abbrev pub is_hot : Option ℕ → Bool
is_hot none = false
is_hot (some percent) = ltb local_resource_warning_threshold percent

unfoldable pub derive_asset_health : Asset → AssetHealth
derive_asset_health a = elim a.status [
  | offline ↦ critical
  | unknown ↦ undetermined
  | online ↦ if is_hot a.cpu_percent || is_hot a.memory_percent then warning else healthy
]

-- `isDeviceStale`, over `new Date(text).getTime()`; `none` is NaN, which no comparison holds of.
unfoldable pub is_device_stale : (Text → Option ℕ) → Asset → (now : ℕ) → Bool
is_device_stale get_time a now = elim a.last_seen [
  | none ↦ false
  | some [] ↦ false
  | some (c ∷ cs) ↦ elim (get_time (c ∷ cs)) [
    | none ↦ false
    | some t ↦ ltb (t + stale_threshold_ms) now
  ]
]

-- The parameters of `GET /devices/`; `none` is `undefined`, which is not sent.
pub record DeviceParams : Type 0 where
  pub status : Option DeviceStatus
  pub search : Option Text
  pub os : Option Text
  pub page : ℕ
  pub page_size : ℕ

-- `text || undefined`
abbrev pub non_empty : Text → Option Text
non_empty [] = none
non_empty (c ∷ cs) = some (c ∷ cs)

unfoldable pub device_params : AssetFilters → (page page_size : ℕ) → DeviceParams
device_params f page page_size = record {
  status = f.status;
  search = non_empty f.search;
  os = if text_eq f.os (codes "all") then none else non_empty f.os;
  page = page;
  page_size = page_size;
}

pub record PaginationMeta : Type 0 where
  pub page : ℕ
  pub page_size : ℕ
  pub total_pages : ℕ
  pub total_items : ℕ

pub record PaginatedAssetList : Type 0 where
  pub assets : List Asset
  pub meta : PaginationMeta

abbrev pub same_health : AssetHealth → AssetHealth → Bool
same_health healthy healthy = true
same_health warning warning = true
same_health critical critical = true
same_health undetermined undetermined = true
same_health _ _ = false

abbrev pub has_health : AssetHealth → Asset → Bool
has_health h a = same_health (derive_asset_health a) h

-- `queryFn`, once the answer is there.
unfoldable pub filter_by_health : Option AssetHealth → PaginatedAssetList → PaginatedAssetList
filter_by_health none answer = answer
filter_by_health (some h) answer = record answer { assets = filter (has_health h) answer.assets }
