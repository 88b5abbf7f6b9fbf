-- ===== src/AuditLogs.antt =====
-- Audit logs: frontend/src/types/audit-log.ts, the query of frontend/src/hooks/useAuditLogs.ts, and
-- the page frontend/src/pages/AuditLogs.tsx with its pagination.
pub mod Values
pub mod Paging
pub mod Moves
pub mod Csv
pub mod Options
pub mod Table
use it_automation_workspace.Common.{
  ℕ, ◌+◌, ◌-◌, Bool, true, false, ◌&&◌, not, Option, none, some, List, [], ◌∷◌, ◌++◌, Text, codes,
  map, length, ltb, ◌==◌, or_else, if◌then◌else◌,
}
use it_automation_workspace.Json.{Json, null, num, get}
use it_automation_workspace.AuditLogs.Values.{json_text}

-- `AuditLog`
pub record AuditLog : Type 0 where
  pub id : Text
  pub timestamp : Text
  pub actor : Text
  pub action : Text
  pub target_type : Option Text
  pub target_id : Option Text
  pub payload : Json

-- `AuditLogFilters`
pub record AuditLogFilters : Type 0 where
  pub start_date : Option Text
  pub end_date : Option Text
  pub actor : Option Text
  pub action : Option Text
  pub resource_type : Option Text

abbrev pub limit : ℕ
limit = 25

-- A field that is neither missing nor `null`.
abbrev pub present : Option Json → Option Json
present none = none
present (some null) = none
present (some v) = some v

-- `String(value ?? "")`
abbrev pub text_or_empty : Option Json → Text
text_or_empty none = []
text_or_empty (some v) = json_text v

abbrev pub text_or_null : Option Json → Option Text
text_or_null none = none
text_or_null (some v) = some (json_text v)

-- `mapBackendItem`, of a value that is not `null`
unfoldable pub map_backend_item : Json → AuditLog
map_backend_item r = record {
  id = text_or_empty (present (get (codes "id") r));
  timestamp = text_or_empty (present (get (codes "timestamp") r));
  actor = text_or_empty (present (get (codes "actor") r));
  action = text_or_empty (present (get (codes "action") r));
  target_type = text_or_null (present (get (codes "target_type") r));
  target_id = text_or_null (present (get (codes "target_id") r));
  payload = or_else (present (get (codes "payload") r)) null;
}

-- A parameter that is sent if its filter is set, with a text after it.
abbrev pub param : Text → Option Text → Text → List (Text × Text)
param name none suffix = []
param name (some []) suffix = []
param name (some (c ∷ cs)) suffix = (name, (c ∷ cs) ++ suffix) ∷ []

-- The parameters of `GET /audit-logs/`, in order, before they are encoded.
unfoldable pub audit_log_params : AuditLogFilters → (offset : ℕ) → List (Text × Text)
audit_log_params f offset =
    (codes "limit", json_text (num limit))
      ∷ (codes "offset", json_text (num offset))
      ∷ param (codes "actor") f.actor []
    ++ param (codes "action") f.action []
    ++ param (codes "target_type") f.resource_type []
    ++ param (codes "date_from") f.start_date (codes "T00:00:00")
    ++ param (codes "date_to") f.end_date (codes "T23:59:59")

-- `PaginatedAuditLogList`, with the fields of its `meta`
pub record PaginatedAuditLogList : Type 0 where
  pub logs : List AuditLog
  pub offset : ℕ
  pub limit : ℕ
  pub has_more : Bool

-- The end of `queryFn`.
unfoldable pub paginated : ℕ → List Json → PaginatedAuditLogList
unfolding map_backend_item
paginated offset items =
    let logs = map map_backend_item items in
    record { logs = logs; offset = offset; limit = limit; has_more = length logs == limit }

-- The state of the page.
pub record AuditLogs : Type 0 where
  pub filters : AuditLogFilters
  pub offset : ℕ

abbrev pub default_filters : AuditLogFilters
default_filters = record {
  start_date = none;
  end_date = none;
  actor = none;
  action = none;
  resource_type = none;
}

unfoldable pub handle_filters_change : AuditLogFilters → AuditLogs → AuditLogs
handle_filters_change f s = record { filters = f; offset = 0 }

unfoldable pub handle_reset : AuditLogs → AuditLogs
handle_reset s = record { filters = default_filters; offset = 0 }

unfoldable pub handle_next : AuditLogs → AuditLogs
handle_next s = record s { offset = s.offset + limit }

-- `Math.max(0, prev - LIMIT)` is the difference of natural numbers.
unfoldable pub handle_previous : AuditLogs → AuditLogs
handle_previous s = record s { offset = s.offset - limit }

-- `AuditLogPagination`: the range of the entries shown, and whether its buttons can be pressed.
pub record AuditLogPagination : Type 0 where
  pub start : ℕ
  pub last : ℕ
  pub can_go_back : Bool
  pub can_go_on : Bool

-- The pagination, where the page shows it: not without entries.
unfoldable pub pagination : PaginatedAuditLogList → Option AuditLogPagination
pagination p = elim p.logs [
  | [] ↦ none
  | log ∷ logs ↦ some (record {
    start = p.offset + 1;
    last = p.offset + length (log ∷ logs);
    can_go_back = ltb 0 p.offset;
    can_go_on = p.has_more;
  })
]
