-- ===== src/Onboarding/Page/View.antt =====
-- What the pipeline page shows, and its two sections that open and close: `PipelineStat`,
-- `ColumnHeader`, `OffboardedCard` and `OnboardingPage` of frontend/src/pages/Onboarding.tsx.
pub mod Numbers
pub mod Sections
use Prim.Native.String
use Prim.Native.String.{String}
use text.Mathlib.Text.{◌==◌ as str_eq}
use it_automation_workspace.Common.{
  ℕ, Bool, true, false, not, Option, none, some, List, [], ◌∷◌, map, filter, length, or_else, ltb,
  ◌==◌, if◌then◌else◌,
}
use it_automation_workspace.Onboarding.{
  OnboardingWorkflowStatus, pending, ad_creating, email_sending, jira_creating, partially_complete,
  completed, failed, unlisted, OnboardedUserListItem,
}
use it_automation_workspace.Onboarding.Page.{
  ColumnConfig, column_config, column_records, completed_records, offboarded_records, Stats, stats,
  has_status, toggle_column,
}

pub data Color : Type 0 where
  primary success warning danger muted : Color

-- `PipelineStatProps`, without the icon
pub record PipelineStat : Type 0 where
  pub label : String
  pub value : ℕ
  pub color : Color
  pub trend : Option String

abbrev pub stat : String → ℕ → Color → PipelineStat
stat label value color = record { label = label; value = value; color = color; trend = none }

unfoldable pub pipeline_stats : Stats → List PipelineStat
pipeline_stats s =
    stat "Aktive Vorgänge" s.active primary
    ∷ stat "In Bearbeitung" s.in_progress warning
    ∷ stat "Teilweise abgeschlossen" s.partially_complete
        (if ltb 0 s.partially_complete then warning else muted)
    ∷ record {
      label = "Abgeschlossen";
      value = s.completed;
      color = success;
      trend = some "diese Woche";
    }
    ∷ stat "Fehlgeschlagen" s.failed (if ltb 0 s.failed then danger else muted)
    ∷ stat "Offboarded" s.offboarded muted
    ∷ []

-- The texts of `COLUMN_CONFIG`. There is no column for another status.
abbrev pub label : OnboardingWorkflowStatus → String
label pending = "Ausstehend"
label ad_creating = "AD Erstellung"
label email_sending = "E-Mail Versand"
label jira_creating = "Jira Erstellung"
label partially_complete = "Teilweise abgeschlossen"
label completed = "Abgeschlossen"
label failed = "Fehlgeschlagen"
label (unlisted _) = ""

abbrev pub description : OnboardingWorkflowStatus → String
description pending = "Wartet auf Start"
description ad_creating = "Active Directory"
description email_sending = "Willkommens-E-Mail"
description jira_creating = "Ticket wird erstellt"
description partially_complete = "Konto erstellt, Benachrichtigung unbestätigt"
description completed = "Erfolgreich onboarded"
description failed = "Erfordert Eingriff"
description (unlisted _) = ""

-- `ColumnHeader`: the texts, the number and whether it is highlighted. The page never lets a column
-- of the pipeline collapse.
pub record ColumnHeader : Type 0 where
  pub label : String
  pub description : String
  pub count : ℕ
  pub is_highlighted : Bool

unfoldable pub column_header : OnboardingWorkflowStatus → ℕ → ColumnHeader
column_header id n = record {
  label = label id;
  description = description id;
  count = n;
  is_highlighted = ltb 0 n;
}

-- A column shows its full cards, or that it is empty.
pub data ColumnBody : Type 0 where
  empty_column : ColumnBody
  cards : List OnboardedUserListItem → ColumnBody

abbrev pub column_body : List OnboardedUserListItem → ColumnBody
column_body [] = empty_column
column_body (r ∷ rs) = cards (r ∷ rs)

pub record Column : Type 0 where
  pub header : ColumnHeader
  pub body : ColumnBody

unfoldable pub column_view : Option (List OnboardedUserListItem) → ColumnConfig → Column
unfolding column_header column_records
column_view records c =
    let rs = column_records records c.id in
    record { header = column_header c.id (length rs); body = column_body rs }

-- `OffboardedCard`: the two lines, and the day, which `to_day` makes of the date.
pub record OffboardedCard : Type 0 where
  pub name : String
  pub job : String
  pub day : String

abbrev pub joined : String → String → String → String
joined a between b = String.◌++◌ a (String.◌++◌ between b)

unfoldable pub offboarded_card : (String → String) → OnboardedUserListItem → OffboardedCard
offboarded_card to_day r = record {
  name = joined r.first_name " " r.last_name;
  job = joined r.department " • " r.job_title;
  day = if str_eq (or_else r.offboarded_at "") "" then "–" else to_day (or_else r.offboarded_at "");
}

-- A section that opens and closes: its number, its text, and what is in it.
pub record Section (A : Type 0) : Type 0 where
  pub count : ℕ
  pub text : String
  pub is_open : Bool
  pub items : List A

-- The state of the page: the collapsed columns, and whether the last section is open.
pub record PageState : Type 0 where
  pub collapsed_columns : List OnboardingWorkflowStatus
  pub show_offboarded : Bool

abbrev pub new_page : PageState
new_page = record { collapsed_columns = completed ∷ []; show_offboarded = false }

abbrev pub completed_section_of :
    PageState → List OnboardedUserListItem → Option (Section OnboardedUserListItem)
completed_section_of s [] = none
completed_section_of s (r ∷ rs) = some (record {
  count = length (r ∷ rs);
  text = description completed;
  is_open = not (has_status completed s.collapsed_columns);
  items = r ∷ rs;
})

unfoldable pub completed_section :
    PageState → Option (List OnboardedUserListItem) → Option (Section OnboardedUserListItem)
unfolding completed_records
completed_section s records = completed_section_of s (completed_records records)

abbrev pub revoked : ℕ → String
revoked n = if n == 1 then "Zugriff widerrufen" else "Zugriffe widerrufen"

abbrev pub offboarded_section_of :
    (String → String) → PageState → List OnboardedUserListItem → Option (Section OffboardedCard)
offboarded_section_of to_day s [] = none
offboarded_section_of to_day s (r ∷ rs) = some (record {
  count = length (r ∷ rs);
  text = revoked (length (r ∷ rs));
  is_open = s.show_offboarded;
  items = map (offboarded_card to_day) (r ∷ rs);
})

unfoldable pub offboarded_section :
    (String → String)
    → PageState
    → Option (List OnboardedUserListItem)
    → Option (Section OffboardedCard)
unfolding offboarded_records offboarded_card
offboarded_section to_day s records = offboarded_section_of to_day s (offboarded_records records)

pub record Pipeline : Type 0 where
  pub numbers : List PipelineStat
  pub columns : List Column
  pub completed : Option (Section OnboardedUserListItem)
  pub offboarded : Option (Section OffboardedCard)

pub data Page : Type 0 where
  loading load_failed : Page
  pipeline : Pipeline → Page

-- `OnboardingPage`, with what the query of the list returns.
unfoldable pub onboarding_page :
    (String → String)
    → (is_loading is_error : Bool) → Option (List OnboardedUserListItem)
    → PageState
    → Page
unfolding pipeline_stats stats column_view completed_section offboarded_section
onboarding_page to_day true is_error records s = loading
onboarding_page to_day false true records s = load_failed
onboarding_page to_day false false records s = pipeline (record {
  numbers = pipeline_stats (stats records);
  columns = map (column_view records) (filter (λ (c : ColumnConfig). c.is_active) column_config);
  completed = completed_section s records;
  offboarded = offboarded_section to_day s records;
})

-- The buttons of the two sections.
pub data Press : Type 0 where
  press_completed press_offboarded : Press

unfoldable pub press : Press → PageState → PageState
unfolding toggle_column
press press_completed s = record s {
  collapsed_columns = toggle_column completed s.collapsed_columns;
}
press press_offboarded s = record s { show_offboarded = not s.show_offboarded }
