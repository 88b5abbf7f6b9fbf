-- ===== src/Assets/Page.antt =====
-- The state of the page of assets (frontend/src/pages/Assets/Index.tsx), with its pagination
-- (frontend/src/components/data-display/AssetPagination.tsx).
use it_automation_workspace.Common.{
  ℕ, ◌+◌, ◌-◌, ◌≤◌, ltb, leb, Bool, true, ◌&&◌, none, List, [], ◌∷◌, ◌++◌, Text, codes, length, All,
  if◌then◌else◌, ◌≡◌, arith,
}
use it_automation_workspace.Assets.{AssetFilters}

pub data Toast : Type 0 where
  deleted : (count : ℕ) → Toast
  delete_failed : Toast
  scan_found : (count : ℕ) → Toast

-- The page, with the ids of the selected rows, the requests to delete, and how often the list of
-- assets has been invalidated.
pub record AssetIndex : Type 0 where
  pub filters : AssetFilters
  pub page : ℕ
  pub page_size : ℕ
  pub selected : List Text
  pub deletions : List Text
  pub invalidated : ℕ
  pub toasts : List Toast

abbrev pub default_filters : AssetFilters
default_filters = record { search = []; status = none; os = codes "all"; health = none }

unfoldable pub handle_filters_change : AssetFilters → AssetIndex → AssetIndex
handle_filters_change f s = record s { filters = f; page = 1 }

unfoldable pub handle_reset : AssetIndex → AssetIndex
handle_reset s = record s { filters = default_filters; page = 1 }

unfoldable pub handle_page_change : ℕ → AssetIndex → AssetIndex
handle_page_change page s = record s { page = page }

unfoldable pub handle_page_size_change : ℕ → AssetIndex → AssetIndex
handle_page_size_change size s = record s { page_size = size; page = 1 }

-- `handleBulkDelete` up to its promise.
unfoldable pub handle_bulk_delete : AssetIndex → AssetIndex
handle_bulk_delete s = record s { deletions = s.deletions ++ s.selected }

abbrev pub all_deleted : List Bool → Bool
all_deleted [] = true
all_deleted (b ∷ bs) = b && all_deleted bs

-- Its `then` and `catch`, for a number of requests that has been sent and how each has ended.
unfoldable pub bulk_delete_settled : List Bool → AssetIndex → AssetIndex
bulk_delete_settled [] s = s
bulk_delete_settled (b ∷ bs) s =
    if all_deleted (b ∷ bs)
    then record s { selected = []; toasts = s.toasts ++ deleted (length (b ∷ bs)) ∷ [] }
    else record s { toasts = s.toasts ++ delete_failed ∷ [] }

unfoldable pub handle_scan_complete : ℕ → AssetIndex → AssetIndex
handle_scan_complete found s = record s {
  invalidated = s.invalidated + 1;
  toasts = if ltb 0 found then s.toasts ++ scan_found found ∷ [] else s.toasts;
}

-- A button of the pagination: the page it asks for, and whether it is disabled.
pub record Button : Type 0 where
  pub target : ℕ
  pub is_disabled : Bool

-- First, previous, next and last.
unfoldable pub asset_pagination : (page total_pages : ℕ) → List Button
asset_pagination page total_pages =
    record { target = 1; is_disabled = leb page 1 }
    ∷ record { target = page - 1; is_disabled = leb page 1 }
    ∷ record { target = page + 1; is_disabled = leb total_pages page }
    ∷ record { target = total_pages; is_disabled = leb total_pages page }
    ∷ []

unfoldable pub press : Button → AssetIndex → AssetIndex
unfolding handle_page_change
press b s = if b.is_disabled then s else handle_page_change b.target s

abbrev pub IsWithin : ℕ → AssetIndex → Type 0
IsWithin total_pages s = (1 ≤ s.page) × (s.page ≤ total_pages)

-- Every button of the pagination leads from a page of the list to a page of the list, and keeps the
-- filters and the size of the pages; a change of these leads to the first page.
pub press-IsWithin :
    (total_pages : ℕ) (s : AssetIndex) (f : AssetFilters) (size : ℕ)
    → IsWithin total_pages s
    → All
        (λ b.
          IsWithin total_pages (press b s)
          × ((press b s).filters ≡ s.filters)
          × ((press b s).page_size ≡ s.page_size))
        (asset_pagination s.page total_pages)
      × ((handle_filters_change f s).page ≡ 1)
      × ((handle_page_size_change size s).page ≡ 1)
      × ((handle_reset s).page ≡ 1)
unfolding asset_pagination press handle_filters_change handle_page_size_change handle_reset
press-IsWithin total_pages s f size h = ground arith
