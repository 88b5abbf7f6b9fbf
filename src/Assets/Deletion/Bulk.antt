-- ===== src/Assets/Deletion/Bulk.antt =====
-- Deleting devices, one and several (`useDeleteAsset`, `handleBulkDelete`, `handleDelete`).
use it_automation_workspace.Common.{
  Bool, true, false, ◌&&◌, not, List, [], ◌∷◌, Text, text_eq, text_eq_iff, filter, length,
  Bool-cases, inl, inr, if◌then◌else◌, ◌≡◌, refl, sym, ap, ◌∙◌, arith,
}
use it_automation_workspace.Common.Sorting.{includes, text_eq_sym}
use it_automation_workspace.Assets.{Asset}
use it_automation_workspace.Assets.Deletion.{
  delete_failed, bulk_failed, row_deleted, bulk_deleted, Table, selected_rows, ids_of, delete_asset,
  delete_each, all_deleted, settle, delete_ids, handle_bulk_delete, handle_delete, failures, left,
  toasts_of, selection_of,
}

module _ (deletes : Text → Bool) where
  filter_twice :
      (p q r : Text → Bool) (ds : List Text)
      → ((d : Text) → r d ≡ p d && q d)
      → filter p (filter q ds) ≡ filter r ds
  filter_twice p q r [] h = refl
  filter_twice p q r (d ∷ ds) h = ground (arith, h d, filter_twice p q r ds h)

  filter-true : (r : Text → Bool) (ds : List Text) → ((d : Text) → r d ≡ true) → filter r ds ≡ ds
  filter-true r [] h = refl
  filter-true r (d ∷ ds) h = ground (arith, h d, filter-true r ds h)

  filter_same :
      (p r : Text → Bool) (ds : List Text) → ((d : Text) → p d ≡ r d) → filter p ds ≡ filter r ds
  filter_same p r [] h = refl
  filter_same p r (d ∷ ds) h = ground (arith, h d, filter_same p r ds h)

  deletes_same : (id d : Text) → text_eq id d ≡ true → deletes d ≡ deletes id
  deletes_same id d e = sym (ap deletes ((text_eq_iff id d).0 e))

  -- Whether a device is left, with one more id.
  left_deleted :
      (id : Text) (ids : List Text) (d : Text)
      → deletes id ≡ true
      → not (includes d (id ∷ ids) && deletes d)
        ≡ not (includes d ids && deletes d) && not (text_eq id d)
  left_deleted id ids d e = ground (arith, deletes_same id d, text_eq_sym id d)

  left_kept :
      (id : Text) (ids : List Text) (d : Text)
      → deletes id ≡ false
      → not (includes d ids && deletes d) ≡ not (includes d (id ∷ ids) && deletes d)
  left_kept id ids d e = ground (arith, deletes_same id d, text_eq_sym id d)

  left_cons :
      (id : Text) (ids ds : List Text)
      → left deletes ids (if deletes id then filter (λ d. not (text_eq id d)) ds else ds)
        ≡ left deletes (id ∷ ids) ds
  left_cons id ids ds = elim (Bool-cases (deletes id)) [
    | inl e ↦ rw e (filter_twice _ _ _ ds (λ d. left_deleted id ids d e))
    | inr e ↦ rw e (filter_same _ _ ds (λ d. left_kept id ids d e))
  ]

  delete_asset_lem :
      (id : Text) (t : Table)
      → ((delete_asset deletes id t).devices
          ≡ (if deletes id then filter (λ d. not (text_eq id d)) t.devices else t.devices))
        × ((delete_asset deletes id t).row_selection ≡ t.row_selection)
        × ((delete_asset deletes id t).toasts
            ≡ (if deletes id then t.toasts else delete_failed ∷ t.toasts))
  unfolding delete_asset
  delete_asset_lem id t = ground arith

  delete_each_lem :
      (ids : List Text) (t : Table)
      → ((delete_each deletes ids t).devices ≡ left deletes ids t.devices)
        × ((delete_each deletes ids t).row_selection ≡ t.row_selection)
        × ((delete_each deletes ids t).toasts ≡ failures deletes ids t.toasts)
  unfolding delete_each
  delete_each_lem [] t = (sym (filter-true _ t.devices (λ d. refl)), refl, refl)
  delete_each_lem (id ∷ ids) t =
      let (ds, sel, toasts) = delete_each_lem ids (delete_asset deletes id t) in
      let (ds', sel', toasts') = delete_asset_lem id t in
      (
        ds ∙ ap (left deletes ids) ds' ∙ left_cons id ids t.devices,
        sel ∙ sel',
        toasts ∙ ap (failures deletes ids) toasts',
      )

  settle_lem :
      (ids : List Text) (t : Table)
      → ((settle deletes ids t).devices ≡ t.devices)
        × ((settle deletes ids t).row_selection
            ≡ (if all_deleted deletes ids then [] else t.row_selection))
        × ((settle deletes ids t).toasts ≡ (
            if all_deleted deletes ids
            then bulk_deleted (length ids) ∷ t.toasts
            else bulk_failed ∷ t.toasts))
  unfolding settle
  settle_lem ids t = ground arith

  delete_ids_lem :
      (ids : List Text) (t : Table)
      → ((delete_ids deletes ids t).devices ≡ left deletes ids t.devices)
        × ((delete_ids deletes ids t).row_selection ≡ selection_of deletes ids t.row_selection)
        × ((delete_ids deletes ids t).toasts ≡ toasts_of deletes ids t.toasts)
  delete_ids_lem [] t = (sym (filter-true _ t.devices (λ d. refl)), refl, refl)
  delete_ids_lem (id ∷ ids) t =
      let (ds, sel, toasts) = delete_each_lem (id ∷ ids) t in
      let (ds', sel', toasts') = settle_lem (id ∷ ids) (delete_each deletes (id ∷ ids) t) in
      (
        ds' ∙ ds,
        sel' ∙ ap (λ l. if all_deleted deletes (id ∷ ids) then [] else l) sel,
        toasts'
            ∙ ap
                (λ l.
                  if all_deleted deletes (id ∷ ids)
                  then bulk_deleted (length (id ∷ ids)) ∷ l
                  else bulk_failed ∷ l)
                toasts,
      )

  -- Deleting in bulk removes from the server exactly the devices of the selected rows of this page
  -- whose deletion it accepts, also after an error. If all are accepted the selection is empty and
  -- their number is announced; otherwise the selection stays, and there is a notification for each
  -- error and one for all. Without a selected row nothing happens.
  pub handle_bulk_delete_lem :
      (t : Table)
      → let ids = ids_of (selected_rows t) in
        ((handle_bulk_delete deletes t).devices ≡ left deletes ids t.devices)
        × ((handle_bulk_delete deletes t).row_selection ≡ selection_of deletes ids t.row_selection)
        × ((handle_bulk_delete deletes t).toasts ≡ toasts_of deletes ids t.toasts)
  unfolding handle_bulk_delete
  handle_bulk_delete_lem t = delete_ids_lem (ids_of (selected_rows t)) t

  -- Deleting a device by its row's menu removes it exactly if the server accepts that, but announces
  -- the deletion in either case, also before the notification of an error.
  pub handle_delete_lem :
      (a : Asset) (t : Table)
      → ((handle_delete deletes a t).devices
          ≡ (if deletes a.id then filter (λ d. not (text_eq a.id d)) t.devices else t.devices))
        × ((handle_delete deletes a t).toasts ≡ (
            if deletes a.id
            then row_deleted ∷ t.toasts
            else delete_failed ∷ row_deleted ∷ t.toasts))
  unfolding handle_delete
  handle_delete_lem a t = ground arith
