-- ===== src/AuditLogs/Table.antt =====
-- The table of the audit logs, frontend/src/components/data-display/AuditLogTable.tsx, and the
-- details of an entry, frontend/src/components/data-display/AuditLogDiff.tsx.
pub mod Presses
use it_automation_workspace.Common.{
  ℕ, zero, suc, ◌+◌, Bool, true, false, ◌&&◌, ◌||◌, not, Option, none, some, List, [], ◌∷◌, ◌++◌,
  Text, codes, text_eq, starts_with, filter, any, ◌==◌, if◌then◌else◌, ◌≡◌, refl, ap, arith,
}
use mathlib.Core.List.{reverse}
use it_automation_workspace.Json.{
  Json, null, bool, num, str, arr, obj, Items, nil, cons, Fields, end, field, lookup,
}
use it_automation_workspace.AuditLogs.{AuditLog}
use it_automation_workspace.AuditLogs.Values.{json_text}
use it_automation_workspace.AuditLogs.Options.{label_in}

-- `s.endsWith(suffix)`, with the suffix first
abbrev pub ends_with : Text → Text → Bool
ends_with suffix s = starts_with (reverse suffix) (reverse s)

pub data Color : Type 0 where
  success destructive warning info : Color

unfoldable pub get_action_color : Text → Color
get_action_color action =
    if ends_with (codes ".created") action || ends_with (codes ".login") action
    then success
    else if ends_with (codes ".deleted") action || ends_with (codes ".logout") action
    then destructive
    else if ends_with (codes ".updated") action || ends_with (codes ".retried") action
    then warning
    else info

unfoldable pub get_action_label : Text → Text
get_action_label = label_in (
    (codes "asset.created", codes "Asset erstellt")
    ∷ (codes "asset.updated", codes "Asset aktualisiert")
    ∷ (codes "asset.deleted", codes "Asset gelöscht")
    ∷ (codes "asset.scanned", codes "Netzwerk-Scan")
    ∷ (codes "onboarding.created", codes "Onboarding erstellt")
    ∷ (codes "onboarding.updated", codes "Onboarding aktualisiert")
    ∷ (codes "onboarding.retried", codes "Onboarding wiederholt")
    ∷ (codes "user.login", codes "Anmeldung")
    ∷ (codes "user.logout", codes "Abmeldung")
    ∷ (codes "user.permission_changed", codes "Berechtigung geändert")
    ∷ (codes "report.generated", codes "Bericht erstellt")
    ∷ (codes "report.deleted", codes "Bericht gelöscht")
    ∷ [])

unfoldable pub get_resource_type_label : Option Text → Text
get_resource_type_label none = codes "—"
get_resource_type_label (some []) = codes "—"
get_resource_type_label (some (c ∷ cs)) =
    label_in
      ((codes "asset", codes "Asset")
        ∷ (codes "onboarding", codes "Onboarding")
        ∷ (codes "user", codes "Benutzer")
        ∷ (codes "report", codes "Bericht")
        ∷ [])
      (c ∷ cs)

-- `DiffEntry`
pub record DiffEntry : Type 0 where
  pub old : Json
  pub new : Json

-- The value as an entry, where `isDiffEntry` holds; an array has no field "old".
abbrev pub both : Option Json → Option Json → Option DiffEntry
both (some o) (some n) = some (record { old = o; new = n })
both a b = none

abbrev pub diff_entry : Json → Option DiffEntry
diff_entry (obj fs) = both (lookup (codes "old") fs) (lookup (codes "new") fs)
diff_entry v = none

-- A row of the list of changes: `field`, `String(change.old)` and `String(change.new)`.
pub record Change : Type 0 where
  pub name : Text
  pub old : Text
  pub new : Text

abbrev pub change : Text → DiffEntry → Change
change name e = record { name = name; old = json_text e.old; new = json_text e.new }

abbrev pub with_first : Option DiffEntry → Text → Option (List Change) → Option (List Change)
with_first (some e) name (some rest) = some (change name e ∷ rest)
with_first e name rest = none

-- `Object.entries` of an object, whose fields are listed in the order of its own keys, and of an
-- array; `none` if `isDiffShape` fails at a value.
abbrev pub field_changes : Fields → Option (List Change)
field_changes end = some []
field_changes (field k v fs) = with_first (diff_entry v) k (field_changes fs)

abbrev pub item_changes : ℕ → Items → Option (List Change)
item_changes i nil = some []
item_changes i (cons v vs) = with_first (diff_entry v) (json_text (num i)) (item_changes (suc i) vs)

-- What `AuditLogDiff` shows: a list of changes, or the payload as it is.
pub data DiffView : Type 0 where
  changes : List Change → DiffView
  raw : Json → DiffView

abbrev pub changes_or : Option (List Change) → Json → DiffView
changes_or none v = raw v
changes_or (some cs) v = changes cs

unfoldable pub audit_log_diff : Json → DiffView
audit_log_diff (arr vs) = changes_or (item_changes 0 vs) (arr vs)
audit_log_diff (obj fs) = changes_or (field_changes fs) (obj fs)
audit_log_diff v = raw v

-- `row.original.payload ?`
abbrev pub truthy : Json → Bool
truthy null = false
truthy (bool b) = b
truthy (num n) = not (n == 0)
truthy (str []) = false
truthy (str (c ∷ cs)) = true
truthy (arr vs) = true
truthy (obj fs) = true

abbrev pub is_null : Json → Bool
is_null null = true
is_null v = false

-- `expanded`: the rows that are open, by their `id`.
abbrev pub Expanded : Type 0
Expanded = List Text

abbrev pub is_expanded : Expanded → AuditLog → Bool
is_expanded ids row = any (λ t. text_eq row.id t) ids

-- `row.toggleExpanded()`
unfoldable pub toggle_expanded : AuditLog → Expanded → Expanded
toggle_expanded row ids =
    if is_expanded ids row then filter (λ t. not (text_eq row.id t)) ids else row.id ∷ ids

-- A press on the button of the column "expander", which is there if the payload is truthy.
unfoldable pub press : AuditLog → Expanded → Expanded
unfolding toggle_expanded
press row ids = if truthy row.payload then toggle_expanded row ids else ids

-- The row below an entry, with its details.
unfoldable pub details : Expanded → AuditLog → Option DiffView
unfolding audit_log_diff
details ids row =
    if is_expanded ids row && not (is_null row.payload)
    then some (audit_log_diff row.payload)
    else none

-- What a backend records of a change, as JSON.
abbrev pub recorded : List (Text × Json × Json) → Fields
recorded [] = end
recorded ((name, o, n) ∷ cs) =
    field name (obj (field (codes "old") o (field (codes "new") n end))) (recorded cs)

abbrev pub rows : List (Text × Json × Json) → List Change
rows [] = []
rows ((name, o, n) ∷ cs) = record { name = name; old = json_text o; new = json_text n } ∷ rows cs

field_changes-recorded :
    (cs : List (Text × Json × Json)) → field_changes (recorded cs) ≡ some (rows cs)
field_changes-recorded [] = refl
field_changes-recorded ((name, o, n) ∷ cs) = rw (field_changes-recorded cs) refl

-- The details show each change that was recorded, in order, with the texts of both values.
pub audit_log_diff-recorded :
    (cs : List (Text × Json × Json)) → audit_log_diff (obj (recorded cs)) ≡ changes (rows cs)
unfolding audit_log_diff
audit_log_diff-recorded cs = rw (field_changes-recorded cs) refl
