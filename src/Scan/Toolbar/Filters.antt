-- ===== src/Scan/Toolbar/Filters.antt =====
-- The number on the filter button (frontend/src/components/data-display/AssetToolbar.tsx) and the
-- query (frontend/src/hooks/useAssets.ts).
use it_automation_workspace.Common.{ℕ, none, [], ◌≡◌, ◌≢◌, ◌↔◌, arith}
use it_automation_workspace.Assets.{AssetFilters, device_params}
use it_automation_workspace.Scan.Toolbar.{active_filter_count}

-- The filter button shows no number exactly if nothing but the search restricts the list: no status
-- and no system is sent to the server, and devices of every health are shown. The toolbar offers no
-- empty name of a system.
pub active_filter_count-device_params :
    (f : AssetFilters) (page page_size : ℕ)
    → f.os ≢ []
    → (active_filter_count f ≡ 0) ↔ (
        ((device_params f page page_size).status ≡ none)
        × ((device_params f page page_size).os ≡ none)
        × (f.health ≡ none))
unfolding active_filter_count device_params
active_filter_count-device_params f page page_size h = ground arith
