-- ===== src/Tests/Tables.antt =====
-- The tables of devices and of audit logs, the dashboard's feed, the search field and the queries.
use mathlib.Core.List.{Perm}
use it_automation_workspace.Common.{
  any, ℕ, Bool, true, false, ◌&&◌, none, some, List, [], ◌∷◌, Text, codes, text_eq, map, filter,
  ◌==◌, if◌then◌else◌, ◌≡◌, refl,
}
use it_automation_workspace.Json.{Json, str, num, null, obj, field, end}
use it_automation_workspace.Assets.{
  Asset, online, critical, PaginatedAssetList, filter_by_health, has_health,
}
use it_automation_workspace.Assets.Grid.{asset_table}
use it_automation_workspace.Assets.Grid.Hidden.{pagination_of, asset_table-pagination_of}
use it_automation_workspace.Assets.Deletion as Deletion
use it_automation_workspace.Assets.Deletion.Bulk.{handle_bulk_delete_lem}
use it_automation_workspace.AuditLogs.{AuditLog, map_backend_item}
use it_automation_workspace.AuditLogs.Options.{
  filter_options, not_null, IsChoiceOf, filter_options-IsChoiceOf,
}
use it_automation_workspace.AuditLogs.Table.{
  audit_log_diff, truthy, details, recorded, get_action_color, success, destructive, warning,
}
use it_automation_workspace.AuditLogs.Table.Presses.{press_all, odd_from, details-press_all}
use it_automation_workspace.Dashboard.Feed as Feed
use it_automation_workspace.Dashboard.Feed.{audit_activity_feed-Shows}
use it_automation_workspace.Search
use it_automation_workspace.Search.{handle_clear-advance}

abbrev log_json : Json
log_json = obj (field (codes "id") (num 12) (field (codes "actor") (str (codes "ada")) end))

filter_options-IsChoiceOf_example :
    let logs = map map_backend_item (log_json ∷ log_json ∷ []) in
    let o = filter_options (log_json ∷ log_json ∷ []) in
    IsChoiceOf (map (λ l. l.actor) logs) o.actors
    × IsChoiceOf (map (λ l. l.action) logs) o.actions
    × IsChoiceOf (not_null (map (λ l. l.target_type) logs)) o.target_types
filter_options-IsChoiceOf_example = filter_options-IsChoiceOf (log_json ∷ log_json ∷ [])

filter_options_test : (filter_options (log_json ∷ log_json ∷ [])).actors ≡ codes "ada" ∷ []
unfolding filter_options map_backend_item
filter_options_test = refl

abbrev entry : AuditLog
entry = record {
  id = codes "1";
  timestamp = codes "2026";
  actor = codes "ada";
  action = codes "asset.updated";
  target_type = none;
  target_id = none;
  payload = obj (recorded ((codes "status", str (codes "online"), null) ∷ []));
}

details-press_all_example : details (press_all (entry ∷ []) []) entry ≡ (
    if odd_from false entry (entry ∷ []) && truthy entry.payload
    then some (audit_log_diff entry.payload)
    else none)
details-press_all_example = details-press_all entry (entry ∷ []) ((λ e. refl), tt)

get_action_color_test :
    map get_action_color (codes "asset.created" ∷ codes "user.logout" ∷ codes "asset.updated" ∷ [])
    ≡ success ∷ destructive ∷ warning ∷ []
unfolding get_action_color
get_action_color_test = refl

-- An item of one hour ago, and one of now.
abbrev older : Feed.AuditActivityItem
older = record {
  id = codes "1";
  type = Feed.update;
  actor = codes "ada";
  target = codes "pc";
  description = [];
  time = 1000;
}

abbrev newer : Feed.AuditActivityItem
newer = record older { time = 3601000 }

audit_activity_feed-Shows_example :
    (sorted : List Feed.AuditActivityItem) × Perm sorted (older ∷ newer ∷ [])
    × Feed.IsNewestFirst sorted
    × ((t : ℕ) → filter (λ i. i.time == t) sorted ≡ filter (λ i. i.time == t) (older ∷ newer ∷ []))
    × Feed.Shows 3601000 sorted (Feed.audit_activity_feed 3601000 (older ∷ newer ∷ []))
audit_activity_feed-Shows_example = audit_activity_feed-Shows 3601000 (older ∷ newer ∷ [])

format_relative_time_test : Feed.format_relative_time 3601000 older.time ≡ Feed.hours 1
unfolding Feed.format_relative_time
format_relative_time_test = refl

abbrev search_field : Search.SearchInput
search_field = record { value = []; local_value = []; timeout = none; calls = [] }

abbrev host : Asset
host = record {
  id = codes "1";
  status = online;
  cpu_percent = none;
  memory_percent = none;
  last_seen = none;
}

-- Two devices, of which the server deletes the first only.
abbrev table : Deletion.Table
table = record {
  rows = host ∷ record host { id = codes "2" } ∷ [];
  row_selection = codes "1" ∷ codes "2" ∷ [];
  devices = codes "1" ∷ codes "2" ∷ codes "3" ∷ [];
  show_delete_dialog = true;
  toasts = [];
  invalidations = 0;
}

abbrev deletes : Text → Bool
deletes = text_eq (codes "1")

handle_bulk_delete_lem_example :
    let ids = Deletion.ids_of (Deletion.selected_rows table) in
    let t = Deletion.handle_bulk_delete deletes table in
    (t.devices ≡ Deletion.left deletes ids table.devices)
    × (t.row_selection ≡ Deletion.selection_of deletes ids table.row_selection)
    × (t.toasts ≡ Deletion.toasts_of deletes ids table.toasts)
handle_bulk_delete_lem_example = handle_bulk_delete_lem deletes table

handle_bulk_delete_test :
    (Deletion.handle_bulk_delete deletes table).devices ≡ codes "2" ∷ codes "3" ∷ []
unfolding Deletion.handle_bulk_delete
handle_bulk_delete_test = refl

-- The first of two pages, with one device, which is online.
abbrev first_page : PaginatedAssetList
first_page = record {
  assets =
      record {
        id = codes "7";
        status = online;
        cpu_percent = none;
        memory_percent = none;
        last_seen = none;
      }
      ∷ [];
  meta = record { page = 1; page_size = 1; total_pages = 2; total_items = 2 };
}

asset_table-pagination_of_example :
    pagination_of
      (asset_table false 1 [] (λ a. false) (some (filter_by_health (some critical) first_page)))
    ≡ (if any (has_health critical) first_page.assets then some first_page.meta else none)
asset_table-pagination_of_example = asset_table-pagination_of 1 [] (λ a. false) critical first_page
