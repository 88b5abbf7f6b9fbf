-- ===== src/Onboarding/Card/View.antt =====
-- What the cards show: `statusConfig`, `MetadataItem`, `SimulationLogPanel`, `CompactCard` and the
-- markup of `FullCard` in frontend/src/components/onboarding/OnboardingCard.tsx.
pub mod Shown
use Prim.Native.String
use Prim.Native.String.{String}
use text.Mathlib.Text.{◌==◌ as str_eq}
use it_automation_workspace.Common.{
  Text, Bool, true, false, ◌&&◌, ◌||◌, not, Option, none, some, List, [], ◌∷◌, or_else,
  if◌then◌else◌,
}
use it_automation_workspace.Onboarding.{
  OnboardingWorkflowStatus, pending, ad_creating, email_sending, jira_creating, partially_complete,
  completed, failed, unlisted, OnboardedUserListItem, ProvisioningSource, local, ldap, entra_id,
}
use it_automation_workspace.Onboarding.Page.{is_offboarded}
use it_automation_workspace.Onboarding.Card.{
  Mark, is_failed, is_partial, can_offboard, can_retry, can_rollback, timeline, compact_timeline,
  LogEntry, simulation_log,
}
use it_automation_workspace.Onboarding.Card.Full.{
  FullCard, retry, rollback, offboard, rollback_shown, offboard_shown,
}

pub data Icon : Type 0 where
  circle loader alert_triangle check_circle x_circle send rotate_ccw trash user_minus : Icon

-- `statusConfig`, without the class names
pub record StatusConfig : Type 0 where
  pub icon : Icon
  pub label : String

abbrev pub config_of : Icon → String → Option StatusConfig
config_of icon label = some (record { icon = icon; label = label })

-- It has no entry for a status outside the union, where the card throws an error (`none`).
unfoldable pub status_config : OnboardingWorkflowStatus → Option StatusConfig
status_config pending = config_of circle "Ausstehend"
status_config ad_creating = config_of loader "AD Erstellung"
status_config email_sending = config_of loader "E-Mail Versand"
status_config jira_creating = config_of loader "Jira Erstellung"
status_config partially_complete = config_of alert_triangle "Teilweise abgeschlossen"
status_config completed = config_of check_circle "Abgeschlossen"
status_config failed = config_of x_circle "Fehlgeschlagen"
status_config (unlisted _) = none

abbrev pub full_name : OnboardedUserListItem → String
full_name r = String.◌++◌ r.first_name (String.◌++◌ " " r.last_name)

-- `SimulationLogPanel`
abbrev pub log_panel : Bool → OnboardedUserListItem → Option (List LogEntry)
log_panel show_logs r = if show_logs then some (simulation_log r) else none

-- `MetadataItem`
pub record MetadataItem : Type 0 where
  pub label : String
  pub value : String

abbrev pub meta : String → String → MetadataItem
meta label value = record { label = label; value = value }

abbrev pub source_text : ProvisioningSource → String
source_text local = "local"
source_text ldap = "ldap"
source_text entra_id = "entra_id"

unfoldable pub metadata : (String → String) → OnboardedUserListItem → List MetadataItem
metadata to_date r =
    meta "Erstellt am" (to_date r.created_at)
    ∷ meta "Quelle" (source_text r.provisioning_source)
    ∷ meta "Angefordert von" (or_else r.requested_by "–")
    ∷ meta "Status" (if is_offboarded r then "Offboarded" else "Aktiv")
    ∷ []

-- The state of a compact card and what it shows. Its details are always in the page, but have no
-- height unless it is expanded.
pub record CompactCard : Type 0 where
  pub is_expanded : Bool
  pub show_logs : Bool

unfoldable pub toggle_expanded : CompactCard → CompactCard
toggle_expanded c = record c { is_expanded = not c.is_expanded }

unfoldable pub toggle_logs : CompactCard → CompactCard
toggle_logs c = record c { show_logs = not c.show_logs }

pub record CompactView : Type 0 where
  pub name : String
  pub department : String
  pub icon : Icon
  pub offboarded_note : Bool
  pub is_expanded : Bool
  pub steps : List (OnboardingWorkflowStatus × Mark)
  pub items : List MetadataItem
  pub log : Option (List LogEntry)

unfoldable pub compact_view :
    (String → String) → OnboardedUserListItem → CompactCard → Option CompactView
unfolding status_config metadata compact_timeline simulation_log
compact_view to_date r c = elim (status_config r.workflow_status) [
  | none ↦ none
  | some config ↦ some (record {
    name = full_name r;
    department = r.department;
    icon = config.icon;
    offboarded_note = is_offboarded r;
    is_expanded = c.is_expanded;
    steps = compact_timeline r;
    items = metadata to_date r;
    log = log_panel c.show_logs r;
  })
]

pub record Button : Type 0 where
  pub icon : Icon
  pub label : String
  pub is_disabled : Bool

-- The checkbox of a new password and the button of the retry.
pub record RetryView : Type 0 where
  pub checkbox : Option Bool
  pub button : Button

-- The buttons of a dialog that is open.
pub record DialogView : Type 0 where
  pub cancel_disabled : Bool
  pub confirm : Button

pub data Edge : Type 0 where
  danger_edge amber_edge status_edge : Edge

abbrev pub non_empty : Option Text → Option Text
non_empty none = none
non_empty (some []) = none
non_empty (some (t ∷ ts)) = some (t ∷ ts)

module _ (c : FullCard) where
  unfoldable pub retry_view : Option RetryView
  unfolding can_retry
  retry_view =
      if can_retry c.item
      then some (record {
        checkbox = if is_partial c.item then some c.rotate_password else none;
        button = record {
          icon =
              if c.is_pending retry then loader else if is_partial c.item then send else rotate_ccw;
          label =
              if is_partial c.item
              then "Benachrichtigungen erneut senden"
              else "Vorgang wiederholen";
          is_disabled = c.is_pending retry || str_eq (or_else c.item.job_id "") "";
        };
      })
      else none

  abbrev pub dialog_view : (is_pending : Bool) → Icon → String → DialogView
  dialog_view is_pending icon label = record {
    cancel_disabled = is_pending;
    confirm = record {
      icon = if is_pending then loader else icon;
      label = label;
      is_disabled = is_pending;
    };
  }

  unfoldable pub rollback_view : Option DialogView
  unfolding rollback_shown
  rollback_view =
      if rollback_shown c
      then some (dialog_view (c.is_pending rollback) trash "Ja, endgültig löschen")
      else none

  unfoldable pub offboard_view : Option DialogView
  unfolding offboard_shown
  offboard_view =
      if offboard_shown c
      then some (dialog_view (c.is_pending offboard) user_minus "Ja, offboarden")
      else none

-- `FullCard`, whose log panel has a state of its own.
pub record FullView : Type 0 where
  pub edge : Edge
  pub name : String
  pub job : String
  pub email : String
  pub offboarded_badge : Bool
  pub badge : StatusConfig
  pub steps : List (OnboardingWorkflowStatus × Mark)
  pub message : Option Text
  pub log : Option (List LogEntry)
  pub retry_part : Option RetryView
  pub rollback_dialog : Option DialogView
  pub offboard_dialog : Option DialogView

abbrev pub full_view_of : (show_logs : Bool) → FullCard → StatusConfig → FullView
full_view_of show_logs c config = record {
  edge =
      if is_failed c.item
      then danger_edge
      else if is_partial c.item
      then amber_edge
      else status_edge;
  name = full_name c.item;
  job = String.◌++◌ c.item.job_title (String.◌++◌ " • " c.item.department);
  email = c.item.email;
  offboarded_badge = is_offboarded c.item;
  badge = config;
  steps = timeline c.item;
  message = if is_failed c.item || is_partial c.item then non_empty c.item.error_message else none;
  log = log_panel show_logs c.item;
  retry_part = retry_view c;
  rollback_dialog = rollback_view c;
  offboard_dialog = offboard_view c;
}

unfoldable pub full_view : (show_logs : Bool) → FullCard → Option FullView
unfolding status_config timeline simulation_log retry_view rollback_view offboard_view
full_view show_logs c = elim (status_config c.item.workflow_status) [
  | none ↦ none
  | some config ↦ some (full_view_of show_logs c config)
]
