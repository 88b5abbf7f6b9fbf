-- ===== src/AuditLogs/Moves.antt =====
-- Moving through the audit logs with the buttons of the pagination
-- (frontend/src/pages/AuditLogs.tsx, frontend/src/components/data-display/AuditLogPagination.tsx).
use it_automation_workspace.Common.{
  ℕ, zero, suc, ◌+◌, ◌-◌, ◌*◌, ◌≤◌, ◌<◌, true, false, Option, none, some, List, [], ◌∷◌, drop,
  length, leb, length-drop, drop_of_length, ltb, if◌then◌else◌, ◌≡◌, ◌≢◌, refl, sym, ap, ◌∙◌, subst,
  arith, Bool-cases, inl, inr,
}
use it_automation_workspace.Json.{Json}
use it_automation_workspace.AuditLogs.{
  AuditLog, AuditLogFilters, AuditLogs, limit, PaginatedAuditLogList, paginated, handle_next,
  handle_previous, handle_filters_change, handle_reset, AuditLogPagination, pagination,
}
use it_automation_workspace.AuditLogs.Paging.{page, page_full, page_short, entries}

-- The pagination of a page with entries.
pagination_of_cons :
    (p : PaginatedAuditLogList)
    → 0 < length p.logs
    → (q : AuditLogPagination) × (pagination p ≡ some q) × (q.can_go_on ≡ p.has_more)
unfolding pagination
pagination_of_cons p h = shown p.logs p refl h
  where
    shown :
        (logs : List AuditLog) (p : PaginatedAuditLogList)
        → p.logs ≡ logs
        → 0 < length p.logs
        → (q : AuditLogPagination) × (pagination p ≡ some q) × (q.can_go_on ≡ p.has_more)
    shown [] p e k = ground arith
    shown (log ∷ logs) p e k = (
      record {
        start = p.offset + 1;
        last = p.offset + length (log ∷ logs);
        can_go_back = ltb 0 p.offset;
        can_go_on = p.has_more;
      },
      rw e refl,
      refl,
    )

pagination-can_go_on :
    (p : PaginatedAuditLogList) (q : AuditLogPagination)
    → pagination p ≡ some q
    → q.can_go_on ≡ p.has_more
unfolding pagination
pagination-can_go_on p q e = ground arith

-- What the user does; a button that is not shown, or disabled, does nothing.
pub data Move : Type 0 where
  next back reset : Move
  filters_changed : AuditLogFilters → Move

abbrev pub go_on : Option AuditLogPagination → AuditLogs → AuditLogs
go_on none s = s
go_on (some p) s = if p.can_go_on then handle_next s else s

abbrev pub go_back : Option AuditLogPagination → AuditLogs → AuditLogs
go_back none s = s
go_back (some p) s = if p.can_go_back then handle_previous s else s

module _ (rows : AuditLogFilters → List Json) where
  abbrev pub move : Move → AuditLogs → AuditLogs
  move next s = go_on (pagination (page rows s)) s
  move back s = go_back (pagination (page rows s)) s
  move reset s = handle_reset s
  move (filters_changed f) s = handle_filters_change f s

  abbrev pub move_all : List Move → AuditLogs → AuditLogs
  move_all [] s = s
  move_all (m ∷ ms) s = move_all ms (move m s)

  -- The offset is that of a page, and not beyond the rows of the filters.
  abbrev pub IsPage : AuditLogs → Type 0
  IsPage s = ((k : ℕ) × (s.offset ≡ k * limit)) × (s.offset ≤ length (rows s.filters))

  limit-le : (n : ℕ) → leb limit n ≡ true → limit ≤ n
  limit-le n h = ground arith

  le-limit : (n : ℕ) → leb limit n ≡ false → n < limit
  le-limit n h = ground arith

  ne : false ≢ true
  ne e = cc

  full-le :
      (s : AuditLogs) → (page rows s).has_more ≡ true → s.offset + limit ≤ length (rows s.filters)
  full-le s e = elim (Bool-cases (leb limit (length (drop s.offset (rows s.filters))))) [
    | inl full ↦ omega (
      arith,
      limit-le (length (drop s.offset (rows s.filters))) full,
      length-drop {0} s.offset (rows s.filters),
    )
    | inr short ↦ absurd (
        ne (
          sym (page_short rows s (le-limit (length (drop s.offset (rows s.filters))) short)).0 ∙ e))
  ]

  go_on-IsPage :
      (s : AuditLogs) (p : Option AuditLogPagination)
      → pagination (page rows s) ≡ p
      → IsPage s
      → IsPage (go_on p s)
  unfolding handle_next pagination
  go_on-IsPage s none e h = h
  go_on-IsPage s (some p) e h = elim (Bool-cases p.can_go_on) [
    | inl b ↦
        let more : (page rows s).has_more ≡ true =
          sym (pagination-can_go_on (page rows s) p e) ∙ b in
        subst (λ c. IsPage (if c then handle_next s else s)) (sym b)
          ((suc h.0.0, omega (arith, h.0.1)), full-le s more)
    | inr b ↦ subst (λ c. IsPage (if c then handle_next s else s)) (sym b) h
  ]

  go_back-IsPage : (s : AuditLogs) (p : Option AuditLogPagination) → IsPage s → IsPage (go_back p s)
  unfolding handle_previous
  go_back-IsPage s none h = h
  go_back-IsPage s (some p) h = elim (Bool-cases p.can_go_back) [
    | inl b ↦
        subst (λ c. IsPage (if c then handle_previous s else s)) (sym b)
          (one_less h.0.0 h.0.1, omega (arith, h.1))
    | inr b ↦ subst (λ c. IsPage (if c then handle_previous s else s)) (sym b) h
  ]
    where
      one_less : (k : ℕ) → s.offset ≡ k * limit → (j : ℕ) × (s.offset - limit ≡ j * limit)
      one_less zero e = (0, omega (arith, e))
      one_less (suc k) e = (k, omega (arith, e))

  move-IsPage : (m : Move) (s : AuditLogs) → IsPage s → IsPage (move m s)
  unfolding handle_reset handle_filters_change
  move-IsPage next s h = go_on-IsPage s (pagination (page rows s)) refl h
  move-IsPage back s h = go_back-IsPage s (pagination (page rows s)) h
  move-IsPage reset s h = ((0, refl), omega arith)
  move-IsPage (filters_changed f) s h = ((0, refl), omega arith)

  -- However the user moves, each offset asked for is a multiple of the limit and not beyond the rows
  -- that the server has for the filters.
  pub move_all-IsPage : (ms : List Move) (s : AuditLogs) → IsPage s → IsPage (move_all ms s)
  move_all-IsPage [] s h = h
  move_all-IsPage (m ∷ ms) s h = move_all-IsPage ms (move m s) (move-IsPage m s h)

  no_pagination :
      (s : AuditLogs) → drop s.offset (rows s.filters) ≡ [] → pagination (page rows s) ≡ none
  unfolding pagination paginated
  no_pagination s e = rw e refl

  full-next :
      (s : AuditLogs)
      → limit ≤ length (drop s.offset (rows s.filters))
      → move next s ≡ handle_next s
  full-next s h =
      let (q, shown, same) = pagination_of_cons (page rows s) (entries rows s h) in
      ap (λ p. go_on p s) shown
      ∙ ap (λ b. if b then handle_next s else s) (same ∙ page_full rows s h)

  -- If the last page is full, the button to go on leads to a page without entries, where the
  -- pagination is not shown: there is no button to go back.
  pub handle_next-pagination :
      (s : AuditLogs)
      → s.offset + limit ≡ length (rows s.filters)
      → (move next s ≡ handle_next s)
        × (pagination (page rows (handle_next s)) ≡ none)
        × (move back (move next s) ≡ handle_next s)
  unfolding handle_next
  handle_next-pagination s e =
      let onward : move next s ≡ handle_next s =
        full-next s (omega (arith, e, length-drop {0} s.offset (rows s.filters))) in
      let hidden : pagination (page rows (handle_next s)) ≡ none =
        no_pagination (handle_next s)
          (drop_of_length (s.offset + limit) (rows s.filters) (omega (arith, e))) in
      (onward, hidden, ap (move back) onward ∙ ap (λ p. go_back p (handle_next s)) hidden)
