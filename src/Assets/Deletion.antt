-- ===== src/Assets/Deletion.antt =====
-- Selecting and deleting devices: the table of frontend/src/hooks/useAssetTable.ts, `useDeleteAsset`
-- (frontend/src/hooks/useAssets.ts), `handleBulkDelete` of frontend/src/pages/Assets/Index.tsx, and
-- the menu of a row, frontend/src/components/data-display/AssetRowActions.tsx.
pub mod Bulk
pub mod Selection
use it_automation_workspace.Common.{
  ℕ, suc, ◌+◌, Bool, true, false, ◌&&◌, ◌||◌, not, Option, none, some, List, [], ◌∷◌, ◌++◌, Text,
  text_eq, text_eq_iff, map, filter, length, or_else, Bool-cases, inl, inr, if◌then◌else◌, ◌≡◌,
  refl, sym, ap, ◌∙◌, arith,
}
use it_automation_workspace.Common.Sorting.{includes, text_eq_sym}
use it_automation_workspace.Assets.{Asset}

pub data Toast : Type 0 where
  delete_failed bulk_failed row_deleted : Toast
  bulk_deleted : ℕ → Toast

-- The rows of the table, the ids that are selected, also of rows on other pages, the ids of the
-- devices on the server, whether the dialog of a row is open, the notifications, latest first, and
-- how often the queries of the devices and of their statistics were invalidated.
pub record Table : Type 0 where
  pub rows : List Asset
  pub row_selection : List Text
  pub devices : List Text
  pub show_delete_dialog : Bool
  pub toasts : List Toast
  pub invalidations : ℕ

-- `row.getIsSelected()`: the selection is kept by `getRowId`.
abbrev pub is_selected : Table → Asset → Bool
is_selected t a = includes a.id t.row_selection

-- `table.getSelectedRowModel().rows`
unfoldable pub selected_rows : Table → List Asset
selected_rows t = filter (is_selected t) t.rows

-- `row.toggleSelected(value)`
abbrev pub with_selected : Bool → Text → List Text → List Text
with_selected true id ids = if includes id ids then ids else id ∷ ids
with_selected false id ids = filter (λ i. not (text_eq id i)) ids

unfoldable pub toggle_selected : Bool → Asset → Table → Table
toggle_selected value a t = record t { row_selection = with_selected value a.id t.row_selection }

-- `table.toggleAllPageRowsSelected(value)`
abbrev pub all_selected : Bool → List Asset → List Text → List Text
all_selected value [] ids = ids
all_selected value (a ∷ rest) ids = all_selected value rest (with_selected value a.id ids)

unfoldable pub toggle_all_page_rows_selected : Bool → Table → Table
toggle_all_page_rows_selected value t = record t {
  row_selection = all_selected value t.rows t.row_selection;
}

abbrev pub ids_of : List Asset → List Text
ids_of = map (λ a. a.id)

module _ (deletes : Text → Bool) where
  -- `useDeleteAsset`, once the server has answered `DELETE /devices/{id}`: `deletes` tells whether it
  -- has deleted the device or answered with an error.
  unfoldable pub delete_asset : Text → Table → Table
  delete_asset id t =
      if deletes id
      then record t {
        devices = filter (λ d. not (text_eq id d)) t.devices;
        invalidations = t.invalidations + 2;
      }
      else record t { toasts = delete_failed ∷ t.toasts }

  -- The mutations of `Promise.all`. They are all sent, whatever the answers to the others are.
  unfoldable pub delete_each : List Text → Table → Table
  unfolding delete_asset
  delete_each [] t = t
  delete_each (id ∷ ids) t = delete_each ids (delete_asset id t)

  abbrev pub all_deleted : List Text → Bool
  all_deleted [] = true
  all_deleted (id ∷ ids) = deletes id && all_deleted ids

  -- What follows `Promise.all`; `catch` runs with the first error already.
  unfoldable pub settle : List Text → Table → Table
  settle ids t =
      if all_deleted ids
      then record t { row_selection = []; toasts = bulk_deleted (length ids) ∷ t.toasts }
      else record t { toasts = bulk_failed ∷ t.toasts }

  abbrev pub delete_ids : List Text → Table → Table
  delete_ids [] t = t
  delete_ids (id ∷ ids) t = settle (id ∷ ids) (delete_each (id ∷ ids) t)

  unfoldable pub handle_bulk_delete : Table → Table
  unfolding selected_rows delete_each settle
  handle_bulk_delete t = delete_ids (ids_of (selected_rows t)) t

  -- `handleDelete` of a row: the notification is shown before the server has answered.
  unfoldable pub handle_delete : Asset → Table → Table
  unfolding delete_asset
  handle_delete a t =
      delete_asset a.id (record t { show_delete_dialog = false; toasts = row_deleted ∷ t.toasts })

  abbrev pub failures : List Text → List Toast → List Toast
  failures [] before = before
  failures (id ∷ ids) before = failures ids (if deletes id then before else delete_failed ∷ before)

  -- The devices that are left.
  abbrev pub left : List Text → List Text → List Text
  left ids = filter (λ d. not (includes d ids && deletes d))

  abbrev pub toasts_of : List Text → List Toast → List Toast
  toasts_of [] before = before
  toasts_of (id ∷ ids) before =
      if all_deleted (id ∷ ids)
      then bulk_deleted (length (id ∷ ids)) ∷ failures (id ∷ ids) before
      else bulk_failed ∷ failures (id ∷ ids) before

  abbrev pub selection_of : List Text → List Text → List Text
  selection_of [] before = before
  selection_of (id ∷ ids) before = if all_deleted (id ∷ ids) then [] else before
