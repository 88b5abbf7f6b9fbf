-- ===== src/Navigation/Links.antt =====
-- Which link of the sidebar is marked (frontend/src/components/navigation/Sidebar.tsx).
use it_automation_workspace.Common.{
  Bool-cases, inl, inr, ℕ, ◌+◌, ◌*◌, ◌≤◌, Bool, true, false, List, [], ◌∷◌, Text, codes, filter,
  map, length, All, ◌==◌, if◌then◌else◌, ◌≡◌, refl, arith,
}
use it_automation_workspace.Navigation.{
  NavItem, nav_item, nav_items, is_active, Layout, follow, LinkView, sidebar, overflow,
}

abbrev pub marked : Layout → List NavItem
marked l = map (λ (v : LinkView). v.item) (filter (λ (v : LinkView). v.is_marked) (sidebar l).links)

-- The second and the third code of a path, as one number.
abbrev letters : Text → ℕ
letters (a ∷ b ∷ c ∷ rest) = b * 1000000 + c
letters _ = 0

abbrev number : Bool → ℕ
number b = if b then 1 else 0

-- The first letters of the path of a marked link.
abbrev HasLetters : NavItem → Type 0
HasLetters i = (p : Text) → is_active p i ≡ true → letters p ≡ letters i.to

dashboard_letters : HasLetters (nav_item (codes "/dashboard") "Dashboard")
unfolding is_active
dashboard_letters [] e = ground arith
dashboard_letters (a ∷ []) e = ground arith
dashboard_letters (a ∷ b ∷ []) e = ground arith
dashboard_letters (a ∷ b ∷ c ∷ rest) e = ground arith

assets_letters : HasLetters (nav_item (codes "/assets") "Assets")
unfolding is_active
assets_letters [] e = ground arith
assets_letters (a ∷ []) e = ground arith
assets_letters (a ∷ b ∷ []) e = ground arith
assets_letters (a ∷ b ∷ c ∷ rest) e = ground arith

onboarding_letters : HasLetters (nav_item (codes "/onboarding") "Onboarding")
unfolding is_active
onboarding_letters [] e = ground arith
onboarding_letters (a ∷ []) e = ground arith
onboarding_letters (a ∷ b ∷ []) e = ground arith
onboarding_letters (a ∷ b ∷ c ∷ rest) e = ground arith

audit_logs_letters : HasLetters (nav_item (codes "/audit-logs") "Audit Logs")
unfolding is_active
audit_logs_letters [] e = ground arith
audit_logs_letters (a ∷ []) e = ground arith
audit_logs_letters (a ∷ b ∷ []) e = ground arith
audit_logs_letters (a ∷ b ∷ c ∷ rest) e = ground arith

reports_letters : HasLetters (nav_item (codes "/reports") "Reports")
unfolding is_active
reports_letters [] e = ground arith
reports_letters (a ∷ []) e = ground arith
reports_letters (a ∷ b ∷ []) e = ground arith
reports_letters (a ∷ b ∷ c ∷ rest) e = ground arith

item_letters : All HasLetters nav_items
item_letters = (
  dashboard_letters,
  (assets_letters, (onboarding_letters, (audit_logs_letters, (reports_letters, tt)))),
)

abbrev total : (NavItem → Bool) → List NavItem → ℕ
total f [] = 0
total f (i ∷ is) = number (f i) + total f is

abbrev views : (NavItem → Bool) → List NavItem → List LinkView
views f = map (λ i. record { item = i; is_marked = f i })

length-views :
    (f : NavItem → Bool) (is : List NavItem)
    → length (map (λ (v : LinkView). v.item) (filter (λ (v : LinkView). v.is_marked) (views f is)))
      ≡ total f is
length-views f [] = refl
length-views f (i ∷ is) = elim (Bool-cases (f i)) [
  | inl e ↦ rw e (ground (arith, length-views f is))
  | inr e ↦ rw e (ground (arith, length-views f is))
]

total_cons :
    (b : Bool) (n m x y : ℕ) → (b ≡ true → n ≡ m) → x ≤ y → number b + x ≤ number (n == m) + y
total_cons true n m x y h le = rw (h refl) (ground arith)
total_cons false n m x y h le = ground arith

total_mono :
    (l : Layout) (is : List NavItem)
    → All HasLetters is
    → total (is_active l.pathname) is ≤ total (λ i. letters l.pathname == letters i.to) is
total_mono l [] h = ground arith
total_mono l (i ∷ is) h =
    total_cons (is_active l.pathname i) (letters l.pathname) (letters i.to) _ _ (h.0 l.pathname)
      (total_mono l is h.1)

total_le : (n : ℕ) → total (λ i. n == letters i.to) nav_items ≤ 1
total_le n = ground arith

marked_le : (l : Layout) → length (marked l) ≤ 1
unfolding sidebar
marked_le l = ground (
  arith,
  length-views (is_active l.pathname) nav_items,
  total_mono l nav_items item_letters,
  total_le (letters l.pathname),
)

-- At any location, at most one link of the sidebar is marked. Following a link closes the drawer,
-- lets the page scroll again, and marks this link and no other.
pub follow-marked :
    (l : Layout)
    → (length (marked l) ≤ 1)
      × All
          (λ i.
            (marked (follow i l) ≡ i ∷ [])
            × ((sidebar (follow i l)).has_backdrop ≡ false)
            × (overflow (follow i l) ≡ []))
          nav_items
unfolding sidebar follow
follow-marked l = (
  marked_le l,
  (
    (refl, refl, refl),
    ((refl, refl, refl), ((refl, refl, refl), ((refl, refl, refl), ((refl, refl, refl), tt)))),
  ),
)
