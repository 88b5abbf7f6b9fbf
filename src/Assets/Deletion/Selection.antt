-- ===== src/Assets/Deletion/Selection.antt =====
-- Selecting rows of the table of devices (frontend/src/hooks/useAssetTable.ts).
use it_automation_workspace.Common.{
  true, ◌||◌, List, [], ◌∷◌, Text, text_eq, text_eq_iff, filter, Bool-cases, inl, inr, ◌≡◌, refl,
  ap, ◌∙◌, arith,
}
use it_automation_workspace.Common.Sorting.{includes}
use it_automation_workspace.Assets.{Asset}
use it_automation_workspace.Assets.Deletion.{
  Table, selected_rows, with_selected, all_selected, toggle_all_page_rows_selected, ids_of,
}

-- Selecting a row keeps the others selected, and selects it.
includes-with_selected :
    (i id : Text) (ids : List Text)
    → includes i (with_selected true id ids) ≡ (text_eq i id || includes i ids)
includes-with_selected i id ids = elim (Bool-cases (text_eq i id)) [
  | inl e ↦ ground (arith, text_eq_iff i id)
  | inr e ↦ ground arith
]

includes-all_selected :
    (i : Text) (rest : List Asset) (ids : List Text)
    → includes i (all_selected true rest ids) ≡ (includes i (ids_of rest) || includes i ids)
includes-all_selected i [] ids = refl
includes-all_selected i (b ∷ rest) ids =
    includes-all_selected i rest (with_selected true b.id ids)
    ∙ ground (arith, includes-with_selected i b.id ids)

filter-of_includes :
    (rows : List Asset) (ids : List Text)
    → ((i : Text) → includes i (ids_of rows) ≡ true → includes i ids ≡ true)
    → filter (λ a. includes a.id ids) rows ≡ rows
filter-of_includes [] ids h = refl
filter-of_includes (a ∷ rows) ids h =
    let same : text_eq a.id a.id ≡ true = (text_eq_iff a.id a.id).1 refl in
    let here : includes a.id ids ≡ true = h a.id (rw same refl) in
    rw here (ap (λ r. a ∷ r) (filter-of_includes rows ids (λ i e. h i (ground arith))))

-- The box in the table's header selects every row of the page, and keeps what is selected on other
-- pages.
pub toggle_all_page_rows_selected_lem :
    (t : Table)
    → (selected_rows (toggle_all_page_rows_selected true t) ≡ t.rows)
      × ((i : Text)
          → includes i (toggle_all_page_rows_selected true t).row_selection
            ≡ (includes i (ids_of t.rows) || includes i t.row_selection))
unfolding selected_rows toggle_all_page_rows_selected
toggle_all_page_rows_selected_lem t = (
  filter-of_includes t.rows _ (λ i e. rw (includes-all_selected i t.rows t.row_selection, e) refl),
  λ i. includes-all_selected i t.rows t.row_selection,
)
