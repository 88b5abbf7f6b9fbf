-- ===== src/Navigation.antt =====
-- The frame of the pages: frontend/src/components/layout/DashboardLayout.tsx, with the links of
-- components/navigation/Sidebar.tsx and the buttons of components/navigation/Header.tsx.
pub mod Links
use Prim.Native.String.{String}
use it_automation_workspace.Common.{
  Bool, true, false, not, ◌||◌, Option, none, some, List, [], ◌∷◌, ◌++◌, Text, codes, map, filter,
  text_eq, starts_with, if◌then◌else◌, or_else, ◌==◌,
}

-- `navItems`, without the icons
pub record NavItem : Type 0 where
  pub to : Text
  pub label : String

abbrev pub nav_item : Text → String → NavItem
nav_item to label = record { to = to; label = label }

abbrev pub nav_items : List NavItem
nav_items =
    nav_item (codes "/dashboard") "Dashboard"
    ∷ nav_item (codes "/assets") "Assets"
    ∷ nav_item (codes "/onboarding") "Onboarding"
    ∷ nav_item (codes "/audit-logs") "Audit Logs"
    ∷ nav_item (codes "/reports") "Reports"
    ∷ []

-- `isActive`
unfoldable pub is_active : (current_path : Text) → NavItem → Bool
is_active current_path item =
    text_eq current_path item.to || starts_with (item.to ++ codes "/") current_path

-- `resolvedTheme`; one that is not known yet is treated like the light one.
pub data Theme : Type 0 where
  light dark : Theme

-- The location, whether the drawer is open, the theme, and whether the header has been mounted.
pub record Layout : Type 0 where
  pub pathname : Text
  pub is_sidebar_open : Bool
  pub theme : Theme
  pub mounted : Bool

unfoldable pub on_menu_click : Layout → Layout
on_menu_click l = record l { is_sidebar_open = true }

unfoldable pub on_close : Layout → Layout
on_close l = record l { is_sidebar_open = false }

-- A link: its handler closes the drawer, and the router goes to its path.
unfoldable pub follow : NavItem → Layout → Layout
unfolding on_close
follow item l = record (on_close l) { pathname = item.to }

abbrev pub other_theme : Theme → Theme
other_theme dark = light
other_theme light = dark

unfoldable pub toggle_theme : Layout → Layout
toggle_theme l = record l { theme = other_theme l.theme }

-- `document.body.style.overflow` after the effect.
abbrev pub overflow : Layout → Text
overflow l = if l.is_sidebar_open then codes "hidden" else []

-- A link of the sidebar and whether it is marked, and the sidebar.
pub record LinkView : Type 0 where
  pub item : NavItem
  pub is_marked : Bool

pub record SidebarView : Type 0 where
  pub has_backdrop : Bool
  pub links : List LinkView

unfoldable pub sidebar : Layout → SidebarView
unfolding is_active
sidebar l = record {
  has_backdrop = l.is_sidebar_open;
  links = map (λ i. record { item = i; is_marked = is_active l.pathname i }) nav_items;
}

-- The part before the first "@".
abbrev pub before_at : Text → Text
before_at [] = []
before_at (c ∷ cs) = let rest = before_at cs in if c == 64 then [] else c ∷ rest

pub data ThemeIcon : Type 0 where
  sun moon : ThemeIcon

pub record HeaderView : Type 0 where
  pub display_name : Text
  pub role : Text
  pub theme_icon : ThemeIcon

abbrev pub icon_of : Theme → ThemeIcon
icon_of dark = sun
icon_of light = moon

-- `Header`, with the e-mail address and the role of the user of the store, if there is one.
unfoldable pub header : (email role : Option Text) → Layout → HeaderView
header email role l = record {
  display_name = elim email [ none ↦ codes "User" | some address ↦ before_at address ];
  role = or_else role (codes "admin");
  theme_icon = if l.mounted then icon_of l.theme else sun;
}
