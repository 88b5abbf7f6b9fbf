-- ===== src/Assets/Grid/Hidden.antt =====
-- The pagination under a filter by health: frontend/src/hooks/useAssets.ts filters one page of the
-- server, frontend/src/components/data-display/AssetTable.tsx shows the rest of it.
use it_automation_workspace.Common.{
  ℕ, Bool, false, Option, none, some, List, [], ◌∷◌, any, filter, Bool-cases, inl, inr,
  if◌then◌else◌, ◌≡◌, refl,
}
use it_automation_workspace.Assets.{
  Asset, AssetHealth, has_health, PaginationMeta, PaginatedAssetList, filter_by_health,
}
use it_automation_workspace.Assets.Grid.{GridColumn, TableView, grid, loaded_table, asset_table}

abbrev pub pagination_of : TableView → Option PaginationMeta
pagination_of (grid g) = some g.pagination
pagination_of _ = none

paged :
    (columns : List GridColumn) (is_selected : Asset → Bool) (p : Asset → Bool)
    → (rs : List Asset) (m : PaginationMeta)
    → pagination_of
        (loaded_table columns is_selected (some (record { assets = filter p rs; meta = m })))
      ≡ (if any p rs then some m else none)
paged columns is_selected p [] m = refl
paged columns is_selected p (r ∷ rs) m = elim (Bool-cases (p r)) [
  | inl e ↦ rw e refl
  | inr e ↦ rw e (paged columns is_selected p rs m)
]

-- Under a filter by health, the pagination is shown exactly if a device of the page that the server
-- sent has this health, whatever devices the other pages hold; its numbers are those of the server,
-- which do not know of the filter.
pub asset_table-pagination_of :
    (page_size : ℕ) (columns : List GridColumn) (is_selected : Asset → Bool)
    → (h : AssetHealth) (answer : PaginatedAssetList)
    → pagination_of
        (asset_table false page_size columns is_selected (some (filter_by_health (some h) answer)))
      ≡ (if any (has_health h) answer.assets then some answer.meta else none)
unfolding asset_table filter_by_health
asset_table-pagination_of page_size columns is_selected h answer =
    paged columns is_selected (has_health h) answer.assets answer.meta
