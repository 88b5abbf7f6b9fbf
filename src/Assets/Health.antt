-- ===== src/Assets/Health.antt =====
-- The health of devices (frontend/src/lib/assetHealth.ts) and its filter
-- (frontend/src/hooks/useAssets.ts).
use mathlib.Core.List.{Perm}
use it_automation_workspace.Common.Partition.{only_one, classes-perm}
use it_automation_workspace.Common.{
  Bool, true, ◌||◌, Option, none, some, List, [], ◌∷◌, All, concat, ◌≡◌, ◌↔◌, refl, arith,
}
use it_automation_workspace.Assets.{
  Asset, AssetHealth, healthy, warning, critical, undetermined, online, offline, unknown,
  derive_asset_health, is_hot, has_health, PaginatedAssetList, filter_by_health,
}

abbrev tests : List (Asset → Bool)
tests = has_health healthy ∷ has_health warning ∷ has_health critical ∷ has_health undetermined ∷ []

one_health : (a : Asset) → only_one tests a ≡ true
unfolding derive_asset_health
one_health a = ground arith

All-one_health : (as_list : List Asset) → All (λ a. only_one tests a ≡ true) as_list
All-one_health [] = tt
All-one_health (a ∷ rest) = (one_health a, All-one_health rest)

-- What the page shows under a filter.
abbrev pub under : Option AssetHealth → PaginatedAssetList → List Asset
under h answer = (filter_by_health h answer).assets

-- The four health filters split a page: each device of the page is shown under exactly one of them,
-- and under "all" all are; the numbers of pages and of devices are those of the whole page.
pub filter_by_health-perm :
    (answer : PaginatedAssetList) (h : Option AssetHealth)
    → Perm
        (concat (
          under (some healthy) answer
          ∷ under (some warning) answer
          ∷ under (some critical) answer
          ∷ under (some undetermined) answer
          ∷ []))
        (under none answer)
      × ((filter_by_health h answer).meta ≡ answer.meta)
unfolding filter_by_health
filter_by_health-perm answer none =
    (classes-perm tests answer.assets (All-one_health answer.assets), refl)
filter_by_health-perm answer (some h) =
    (classes-perm tests answer.assets (All-one_health answer.assets), refl)

-- Only a device that is online and has a reading above 90 percent is slow; without readings, which
-- only the host of the scan has, the status alone decides.
pub derive_asset_health_lem :
    (a : Asset)
    → ((derive_asset_health a ≡ critical) ↔ (a.status ≡ offline))
      × ((derive_asset_health a ≡ undetermined) ↔ (a.status ≡ unknown))
      × ((derive_asset_health a ≡ warning)
          ↔ ((a.status ≡ online) × ((is_hot a.cpu_percent || is_hot a.memory_percent) ≡ true)))
unfolding derive_asset_health
derive_asset_health_lem a = ground arith
