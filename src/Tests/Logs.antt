-- ===== src/Tests/Logs.antt =====
-- Devices, audit logs, reports and a login.
use it_automation_workspace.Common.{
  ℕ, ◌+◌, leb, none, some, List, [], ◌∷◌, Text, codes, text_eq, map, All, if◌then◌else◌, ◌≡◌, refl,
  arith,
}
use it_automation_workspace.Json.{Json, str, num, obj, field, end}
use it_automation_workspace.Assets.{Asset, online, offline, PaginatedAssetList}
use it_automation_workspace.Assets.Debounce.{
  Debounced, render, advance, type_all, last_time, last_value, advance-type_all,
}
use it_automation_workspace.Assets.Page.{
  AssetIndex, default_filters, asset_pagination, press, handle_filters_change,
  handle_page_size_change, handle_reset, IsWithin, press-IsWithin,
}
use it_automation_workspace.AuditLogs.{
  AuditLog, AuditLogs, AuditLogFilters, map_backend_item, audit_log_params, handle_next, pagination,
}
use it_automation_workspace.AuditLogs as Logs
use it_automation_workspace.AuditLogs.Paging.{all_pages, all_pages-rows}
use it_automation_workspace.AuditLogs.Moves.{move_all, next, back, IsPage, move_all-IsPage}

abbrev host : Asset
host = record {
  id = codes "1";
  status = online;
  cpu_percent = some 95;
  memory_percent = some 20;
  last_seen = none;
}

abbrev printer : Asset
printer = record {
  id = codes "2";
  status = offline;
  cpu_percent = none;
  memory_percent = none;
  last_seen = none;
}

abbrev answer : PaginatedAssetList
answer = record {
  assets = host ∷ printer ∷ [];
  meta = record { page = 1; page_size = 25; total_pages = 1; total_items = 2 };
}

-- Three letters, at 0, 100 and 250 milliseconds.
abbrev typed : List (ℕ × Text)
typed = (100, codes "ab") ∷ (250, codes "abc") ∷ []

abbrev search : Debounced text_eq 300
search = record { value = []; debounced_value = []; timer = none }

advance-type_all_example :
    let d = type_all text_eq 300 typed (render text_eq 300 0 (codes "a") search) in
    (d.debounced_value ≡ [])
    × ((advance text_eq 300 550 d).debounced_value ≡ (
        if leb (last_time text_eq 300 0 typed + 300) 550
        then last_value text_eq 300 (codes "a") typed
        else []))
advance-type_all_example =
    advance-type_all text_eq 300 (codes "a") 0 550 typed search refl
      (omega arith, refl, (omega arith, refl, tt))

abbrev index : AssetIndex
index = record {
  filters = default_filters;
  page = 2;
  page_size = 25;
  selected = [];
  deletions = [];
  invalidated = 0;
  toasts = [];
}

press-IsWithin_example :
    All
      (λ b.
        IsWithin 3 (press b index)
        × ((press b index).filters ≡ index.filters)
        × ((press b index).page_size ≡ index.page_size))
      (asset_pagination index.page 3)
    × ((handle_filters_change default_filters index).page ≡ 1)
    × ((handle_page_size_change 50 index).page ≡ 1)
    × ((handle_reset index).page ≡ 1)
press-IsWithin_example = press-IsWithin 3 index default_filters 50 (omega arith, omega arith)

-- A server with twenty-five equal rows for every filter.
abbrev row : Json
row = obj (field (codes "id") (num 12) (field (codes "actor") (str (codes "ada")) end))

abbrev copies : ℕ → List Json
copies Prim.Native.Nat.zero = []
copies (Prim.Native.Nat.suc n) = row ∷ copies n

abbrev rows : AuditLogFilters → List Json
rows f = copies 25

abbrev start : AuditLogs
start = record { filters = Logs.default_filters; offset = 0 }

all_pages-rows_example :
    all_pages rows 26 (Logs.handle_filters_change Logs.default_filters start)
    ≡ map map_backend_item (copies 25)
all_pages-rows_example = all_pages-rows rows Logs.default_filters start

move_all-IsPage_example : IsPage rows (move_all rows (next ∷ back ∷ []) start)
move_all-IsPage_example = move_all-IsPage rows (next ∷ back ∷ []) start ((0, refl), omega arith)

map_backend_item_test : (map_backend_item row).id ≡ codes "12"
unfolding map_backend_item
map_backend_item_test = refl

abbrev log : AuditLog
log = record {
  id = codes "1";
  timestamp = codes "2026";
  actor = codes "ada";
  action = codes "user.login";
  target_type = none;
  target_id = some (codes "7");
  payload = num 0;
}
