-- ===== src/AuditLogs/Paging.antt =====
-- Walking through the audit logs (frontend/src/pages/AuditLogs.tsx) of a server that answers a
-- request with the rows from the offset on, as many as the limit.
use it_automation_workspace.Common.{
  ℕ, zero, suc, ◌+◌, ◌≤◌, ◌<◌, true, false, List, [], ◌++◌, map, take, drop, length, leb,
  length-map, length-drop, length-take, take-drop, drop-drop, take_of_length, ◌==◌, if◌then◌else◌,
  ◌≡◌, refl, sym, ap, ◌∙◌, arith, Bool-cases, append-nil, inl, inr,
}
use mathlib.Core.List.{map-append}
use it_automation_workspace.Json.{Json}
use it_automation_workspace.AuditLogs.{
  AuditLog, AuditLogFilters, AuditLogs, limit, map_backend_item, PaginatedAuditLogList, paginated,
  handle_next, handle_filters_change,
}

module _ (rows : AuditLogFilters → List Json) where
  -- What the page shows.
  abbrev pub page : AuditLogs → PaginatedAuditLogList
  page s = paginated s.offset (take limit (drop s.offset (rows s.filters)))

  -- The logs of all pages from one on, until there are no more.
  abbrev pub all_pages : (fuel : ℕ) → AuditLogs → List AuditLog
  all_pages zero s = []
  all_pages (suc fuel) s =
      let rest = all_pages fuel (handle_next s) in
      (page s).logs ++ (if (page s).has_more then rest else [])

  pub page_full :
      (s : AuditLogs) → limit ≤ length (drop s.offset (rows s.filters)) → (page s).has_more ≡ true
  unfolding paginated
  page_full s h =
      let full : length (map map_backend_item (take limit (drop s.offset (rows s.filters))))
          ≡ limit =
        length-map map_backend_item (take limit (drop s.offset (rows s.filters)))
        ∙ length-take limit (drop s.offset (rows s.filters)) h in
      rw full refl

  pub entries :
      (s : AuditLogs) → limit ≤ length (drop s.offset (rows s.filters)) → 0 < length (page s).logs
  unfolding paginated
  entries s h =
      let left = drop s.offset (rows s.filters) in
      omega
        (arith, length-map {0, 0} map_backend_item (take limit left), length-take {0} limit left h)

  pub page_short :
      (s : AuditLogs)
      → length (drop s.offset (rows s.filters)) < limit
      → ((page s).has_more ≡ false)
        × ((page s).logs ≡ map map_backend_item (drop s.offset (rows s.filters)))
  unfolding paginated
  page_short s h = rw (take_of_length limit (drop s.offset (rows s.filters)) (omega (arith, h))) (
    short (map map_backend_item (drop s.offset (rows s.filters)))
        (omega (arith, h, length-map {0, 0} map_backend_item (drop s.offset (rows s.filters)))),
    refl,
  )
    where
      short : (logs : List AuditLog) → length logs < limit → (length logs == limit) ≡ false
      short logs k = ground arith

  all_pages_lem :
      (fuel : ℕ) (s : AuditLogs)
      → length (drop s.offset (rows s.filters)) < fuel
      → all_pages fuel s ≡ map map_backend_item (drop s.offset (rows s.filters))
  unfolding handle_next paginated
  all_pages_lem zero s h = absurd (omega (arith, h))
  all_pages_lem (suc fuel) s h =
      let all = rows s.filters in
      let left = drop s.offset all in
      elim (Bool-cases (leb limit (length left))) [
        | inl full ↦
            let room : limit ≤ length left = ground (arith, full) in
            let later : drop limit left ≡ drop (s.offset + limit) all =
              drop-drop s.offset limit (s.offset + limit) all refl in
            let less : length (drop (s.offset + limit) all) < fuel = omega (
              arith,
              h,
              room,
              length-drop {0} (s.offset + limit) all,
              length-drop {0} s.offset all,
            ) in
            ap (λ b. (page s).logs ++ (if b then all_pages fuel (handle_next s) else []))
              (page_full s room)
            ∙ ap (λ r. (page s).logs ++ r) (all_pages_lem fuel (handle_next s) less)
            ∙ ap (λ r. map map_backend_item (take limit left) ++ map map_backend_item r) (sym later)
            ∙ sym (map-append map_backend_item (take limit left) (drop limit left))
            ∙ ap (map map_backend_item) (take-drop limit left)
        | inr short ↦
            let (no_more, logs) = page_short s (ground (arith, short)) in
            ap (λ b. (page s).logs ++ (if b then all_pages fuel (handle_next s) else [])) no_more
            ∙ append-nil (page s).logs
            ∙ logs
      ]

  -- Whoever changes the filters and goes on from page to page, while the button for it can be
  -- pressed, sees every row that the server has for them, once and in the server's order.
  pub all_pages-rows :
      (f : AuditLogFilters) (s : AuditLogs)
      → all_pages (suc (length (rows f))) (handle_filters_change f s)
        ≡ map map_backend_item (rows f)
  unfolding handle_filters_change
  all_pages-rows f s =
      all_pages_lem (suc (length (rows f))) (record { filters = f; offset = 0 }) (omega arith)
