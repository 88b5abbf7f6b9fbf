-- ===== src/AuditLogs/Table/Presses.antt =====
-- Opening and closing the details of an entry (AuditLogTable.tsx).
use it_automation_workspace.Common.{
  Bool, true, false, ◌&&◌, not, none, some, List, [], ◌∷◌, Text, text_eq, text_eq_iff, All,
  if◌then◌else◌, Bool-cases, inl, inr, ◌≡◌, refl, sym, ap, ◌∙◌, arith,
}
use it_automation_workspace.Common.Sorting.{includes, includes-filter, text_eq_sym}
use it_automation_workspace.Json.{Json, null, bool, num, str, arr, obj}
use it_automation_workspace.AuditLogs.{AuditLog}
use it_automation_workspace.AuditLogs.Table.{
  Expanded, is_expanded, is_null, truthy, toggle_expanded, press, details, audit_log_diff,
}

abbrev pub press_all : List AuditLog → Expanded → Expanded
press_all [] ids = ids
press_all (r ∷ rs) ids = press_all rs (press r ids)

-- Whether a row has been pressed an odd number of times, after a start with `b`.
abbrev pub odd_from : Bool → AuditLog → List AuditLog → Bool
odd_from b row [] = b
odd_from b row (r ∷ rs) = odd_from (if text_eq r.id row.id then not b else b) row rs

same_includes :
    (a b : Text) (ids : List Text) → text_eq a b ≡ true → includes a ids ≡ includes b ids
same_includes a b ids e = ap (λ t. includes t ids) ((text_eq_iff a b).0 e)

toggle_expanded-is_expanded :
    (r row : AuditLog) (ids : Expanded)
    → is_expanded (toggle_expanded r ids) row
      ≡ (if text_eq r.id row.id then not (is_expanded ids row) else is_expanded ids row)
unfolding toggle_expanded
toggle_expanded-is_expanded r row ids = elim (Bool-cases (includes r.id ids)) [
  | inl opened ↦
      rw (opened, includes-filter row.id (λ t. not (text_eq r.id t)) ids)
        (elim (Bool-cases (text_eq r.id row.id)) [
          | inl e ↦
              let now : includes row.id ids ≡ true =
                sym (same_includes r.id row.id ids e) ∙ opened in
              rw (e, now) refl
          | inr e ↦ rw e (ground arith)
        ])
  | inr shut ↦
      rw (shut, text_eq_sym row.id r.id)
        (elim (Bool-cases (text_eq r.id row.id)) [
          | inl e ↦
              let now : includes row.id ids ≡ false =
                sym (same_includes r.id row.id ids e) ∙ shut in
              rw (e, now) refl
          | inr e ↦ rw e refl
        ])
]

-- The rows with the id of `row` are this row, which a payload, if there is one, tells.
abbrev pub IsRow : AuditLog → AuditLog → Type 0
IsRow row r = text_eq r.id row.id ≡ true → truthy r.payload ≡ truthy row.payload

press-is_expanded :
    (r row : AuditLog) (ids : Expanded)
    → IsRow row r
    → is_expanded (press r ids) row ≡ (
        if text_eq r.id row.id && truthy row.payload
        then not (is_expanded ids row)
        else is_expanded ids row)
unfolding press
press-is_expanded r row ids h = ground (arith, toggle_expanded-is_expanded r row ids)

press_all-is_expanded :
    (row : AuditLog) (rs : List AuditLog) (ids : Expanded)
    → All (IsRow row) rs
    → is_expanded (press_all rs ids) row
      ≡ (if truthy row.payload then odd_from (is_expanded ids row) row rs else is_expanded ids row)
press_all-is_expanded row [] ids h = ground arith
press_all-is_expanded row (r ∷ rs) ids h =
    press_all-is_expanded row rs (press r ids) h.1 ∙ elim (Bool-cases (truthy row.payload)) [
      | inl t ↦ rw (press-is_expanded r row ids h.0, t) (ground arith)
      | inr t ↦ rw (press-is_expanded r row ids h.0, t) (ground arith)
    ]

null_not_truthy : (v : Json) → truthy v ≡ true → is_null v ≡ false
null_not_truthy null e = cc
null_not_truthy (bool b) e = refl
null_not_truthy (num n) e = refl
null_not_truthy (str s) e = refl
null_not_truthy (arr vs) e = refl
null_not_truthy (obj fs) e = refl

-- Whichever rows of the table are pressed, the details of an entry are shown exactly if it has a
-- payload that is neither `null`, `false`, 0 nor empty, and its row was pressed an odd number of
-- times. The rows have ids of their own.
pub details-press_all :
    (row : AuditLog) (rs : List AuditLog)
    → All (IsRow row) rs
    → details (press_all rs []) row ≡ (
        if odd_from false row rs && truthy row.payload
        then some (audit_log_diff row.payload)
        else none)
unfolding details
details-press_all row rs h =
    rw (press_all-is_expanded row rs [] h) (ground (arith, null_not_truthy row.payload))
