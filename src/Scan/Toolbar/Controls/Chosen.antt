-- ===== src/Scan/Toolbar/Controls/Chosen.antt =====
-- What is left of a series of changes of the filters and of the columns
-- (frontend/src/components/data-display/AssetToolbar.tsx).
use it_automation_workspace.Common.{
  Bool, Option, List, [], ◌∷◌, Text, codes, map, text_eq, or_else, Bool-cases, inl, inr,
  if◌then◌else◌, ◌≡◌, refl, sym, ap, ap₂, ◌∙◌,
}
use it_automation_workspace.Assets.{DeviceStatus, AssetHealth, AssetFilters}
use it_automation_workspace.Scan.Toolbar.Controls.{
  FilterChange, type_search, clear_search, choose_status, choose_os, choose_health, update_filter,
  Column, is_hideable, with_visible, check_column,
}

abbrev pub check_all : List (Text × Bool) → List Column → List Column
check_all [] cs = cs
check_all ((id, value) ∷ rest) cs = check_all rest (check_column id value cs)

-- The last value of the checks of an id, or `b`.
abbrev pub last_check : Text → Bool → List (Text × Bool) → Bool
last_check id b [] = b
last_check id b ((i, value) ∷ rest) = last_check id (if text_eq id i then value else b) rest

abbrev pub final : List (Text × Bool) → Column → Column
final checks c =
    if is_hideable c then record c { is_visible = last_check c.id c.is_visible checks } else c

map-map : (f g : Column → Column) (cs : List Column) → map f (map g cs) ≡ map (λ c. f (g c)) cs
map-map f g [] = refl
map-map f g (c ∷ cs) = ap (λ r. f (g c) ∷ r) (map-map f g cs)

map-same :
    (f g : Column → Column) → ((c : Column) → f c ≡ g c) → (cs : List Column) → map f cs ≡ map g cs
map-same f g h [] = refl
map-same f g h (c ∷ cs) = ap₂ (λ x r. x ∷ r) (h c) (map-same f g h cs)

map-kept : (f : Column → Column) → ((c : Column) → f c ≡ c) → (cs : List Column) → map f cs ≡ cs
map-kept f h [] = refl
map-kept f h (c ∷ cs) = ap₂ (λ x r. x ∷ r) (h c) (map-kept f h cs)

final-nil : (c : Column) → final [] c ≡ c
final-nil c = elim (Bool-cases (is_hideable c)) [ inl e ↦ rw e refl | inr e ↦ rw e refl ]

final-with_visible :
    (id : Text) (value : Bool) (rest : List (Text × Bool)) (c : Column)
    → final rest (with_visible id value c) ≡ final ((id, value) ∷ rest) c
final-with_visible id value rest c = elim (Bool-cases (is_hideable c)) [
  | inl e ↦ elim (Bool-cases (text_eq c.id id)) [
    | inl k ↦ rw (e, k) (rw e refl)
    | inr k ↦ rw (e, k) (rw e refl)
  ]
  | inr e ↦ rw e (rw e refl)
]

-- After any presses of the items in the menu of the columns, the table has the columns that it had,
-- in order; each that can be hidden is shown or not as it was last chosen, and those of the selection
-- and of the actions are left as they were.
pub check_all-final :
    (checks : List (Text × Bool)) (cs : List Column) → check_all checks cs ≡ map (final checks) cs
unfolding check_column
check_all-final [] cs = sym (map-kept (final []) final-nil cs)
check_all-final ((id, value) ∷ rest) cs =
    check_all-final rest (map (with_visible id value) cs)
    ∙ map-map (final rest) (with_visible id value) cs
    ∙ map-same (λ c. final rest (with_visible id value c)) (final ((id, value) ∷ rest))
        (final-with_visible id value rest) cs

abbrev pub update_all : List FilterChange → AssetFilters → AssetFilters
update_all [] f = f
update_all (u ∷ us) f = update_all us (update_filter u f)

-- What each control was last set to, or what it was.
abbrev pub last_search : Text → List FilterChange → Text
last_search text [] = text
last_search text (type_search new ∷ us) = last_search new us
last_search text (clear_search ∷ us) = last_search [] us
last_search text (_ ∷ us) = last_search text us

abbrev pub last_status : Option DeviceStatus → List FilterChange → Option DeviceStatus
last_status value [] = value
last_status value (choose_status new ∷ us) = last_status new us
last_status value (_ ∷ us) = last_status value us

abbrev pub last_os : Text → List FilterChange → Text
last_os value [] = value
last_os value (choose_os new ∷ us) = last_os (or_else new (codes "all")) us
last_os value (_ ∷ us) = last_os value us

abbrev pub last_health : Option AssetHealth → List FilterChange → Option AssetHealth
last_health value [] = value
last_health value (choose_health new ∷ us) = last_health new us
last_health value (_ ∷ us) = last_health value us

-- After any changes of the filters, each filter is what its own control was last set to.
pub update_all_lem :
    (us : List FilterChange) (f : AssetFilters)
    → update_all us f ≡ record {
      search = last_search f.search us;
      status = last_status f.status us;
      os = last_os f.os us;
      health = last_health f.health us;
    }
unfolding update_filter
update_all_lem [] f = refl
update_all_lem (type_search text ∷ us) f = update_all_lem us (record f { search = text })
update_all_lem (clear_search ∷ us) f = update_all_lem us (record f { search = [] })
update_all_lem (choose_status value ∷ us) f = update_all_lem us (record f { status = value })
update_all_lem (choose_os value ∷ us) f =
    update_all_lem us (record f { os = or_else value (codes "all") })
update_all_lem (choose_health value ∷ us) f = update_all_lem us (record f { health = value })
