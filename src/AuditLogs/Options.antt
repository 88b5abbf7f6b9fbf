-- ===== src/AuditLogs/Options.antt =====
-- The filters of the audit logs: the values to choose from, of
-- frontend/src/hooks/useAuditLogFilterOption.ts, and the controls of
-- frontend/src/components/data-display/AuditLogToolbar.tsx.
use it_automation_workspace.Common.{
  ℕ, Option, none, some, List, [], ◌∷◌, ◌++◌, Text, codes, text_eq, map, text_eq_iff, if◌then◌else◌,
  ◌≡◌, ◌≢◌, refl, sym, ap, ◌∙◌, arith,
}
use it_automation_workspace.Common.Sorting.{
  sort, text_leb, distinct, IsSorted, NoRepeats, includes, sort-distinct,
}
use it_automation_workspace.Json.{Json}
use it_automation_workspace.AuditLogs.{AuditLogFilters, map_backend_item, audit_log_params, param}

-- `AuditLogFilterOptions`
pub record AuditLogFilterOptions : Type 0 where
  pub actors : List Text
  pub actions : List Text
  pub target_types : List Text

-- `.filter((t) => t !== null)`
abbrev pub not_null : List (Option Text) → List Text
not_null [] = []
not_null (none ∷ ts) = not_null ts
not_null (some t ∷ ts) = t ∷ not_null ts

-- `queryFn`, on the answer of the server
unfoldable pub filter_options : List Json → AuditLogFilterOptions
filter_options items =
    let logs = map map_backend_item items in
    record {
      actors = sort text_leb (distinct (map (λ l. l.actor) logs));
      actions = sort text_leb (distinct (map (λ l. l.action) logs));
      target_types = sort text_leb (distinct (not_null (map (λ l. l.target_type) logs)));
    }

-- In order, without repetition, and of `all` each and no other.
abbrev pub IsChoiceOf : List Text → List Text → Type 0
IsChoiceOf all choice =
    IsSorted text_leb choice × NoRepeats choice × ((s : Text) → includes s choice ≡ includes s all)

-- Each list of values to choose from is in order and without repetition, and has exactly the actors,
-- the actions and the target types, `null` left aside, of the logs.
pub filter_options-IsChoiceOf :
    (items : List Json)
    → let logs = map map_backend_item items in
      IsChoiceOf (map (λ l. l.actor) logs) (filter_options items).actors
      × IsChoiceOf (map (λ l. l.action) logs) (filter_options items).actions
      × IsChoiceOf (not_null (map (λ l. l.target_type) logs)) (filter_options items).target_types
unfolding filter_options
filter_options-IsChoiceOf items = (sort-distinct _, sort-distinct _, sort-distinct _)

-- A label by its key, or the key. The names that every JavaScript object inherits are left aside.
abbrev pub label_in : List (Text × Text) → Text → Text
label_in [] key = key
label_in ((k, label) ∷ rest) key = if text_eq k key then label else label_in rest key

-- `ACTION_LABELS` and `RESOURCE_LABELS`
abbrev pub action_labels : List (Text × Text)
action_labels =
    (codes "asset.created", codes "Asset erstellt")
    ∷ (codes "asset.updated", codes "Asset aktualisiert")
    ∷ (codes "asset.deleted", codes "Asset gelöscht")
    ∷ (codes "asset.scanned", codes "Netzwerk-Scan")
    ∷ (codes "onboarding.created", codes "Onboarding erstellt")
    ∷ (codes "onboarding.updated", codes "Onboarding aktualisiert")
    ∷ (codes "onboarding.retried", codes "Onboarding wiederholt")
    ∷ (codes "user.login", codes "Anmeldung")
    ∷ (codes "user.logout", codes "Abmeldung")
    ∷ (codes "user.permission_changed", codes "Berechtigung geändert")
    ∷ (codes "report.generated", codes "Bericht erstellt")
    ∷ (codes "report.deleted", codes "Bericht gelöscht")
    ∷ []

abbrev pub resource_labels : List (Text × Text)
resource_labels =
    (codes "asset", codes "Asset")
    ∷ (codes "onboarding", codes "Onboarding")
    ∷ (codes "user", codes "Benutzer")
    ∷ (codes "report", codes "Bericht")
    ∷ []

pub record SelectOption : Type 0 where
  pub value : Text
  pub label : Text

-- `actorOptions`, `actionOptions` and `resourceOptions`; none before the query has answered.
unfoldable pub actor_options : Option AuditLogFilterOptions → List SelectOption
actor_options none = []
actor_options (some o) = map (λ a. record { value = a; label = a }) o.actors

unfoldable pub action_options : Option AuditLogFilterOptions → List SelectOption
action_options none = []
action_options (some o) =
    map (λ a. record { value = a; label = label_in action_labels a }) o.actions

unfoldable pub resource_options : Option AuditLogFilterOptions → List SelectOption
resource_options none = []
resource_options (some o) =
    map (λ t. record { value = t; label = label_in resource_labels t }) o.target_types

-- The keys of `AuditLogFilters`.
pub data Control : Type 0 where
  start_date end_date actor action resource_type : Control

-- `e.target.value || undefined`
abbrev pub chosen : Text → Option Text
chosen [] = none
chosen (c ∷ cs) = some (c ∷ cs)

-- `update(key, value)`
unfoldable pub update : Control → Option Text → AuditLogFilters → AuditLogFilters
update start_date v f = record f { start_date = v }
update end_date v f = record f { end_date = v }
update actor v f = record f { actor = v }
update action v f = record f { action = v }
update resource_type v f = record f { resource_type = v }

-- The parameter that a control sets, and what is put after its value.
abbrev pub name : Control → Text
name start_date = codes "date_from"
name end_date = codes "date_to"
name actor = codes "actor"
name action = codes "action"
name resource_type = codes "target_type"

abbrev pub suffix : Control → Text
suffix start_date = codes "T00:00:00"
suffix end_date = codes "T23:59:59"
suffix _ = []

-- `params.get(name)`
abbrev pub param_of : Text → List (Text × Text) → Option Text
param_of key [] = none
param_of key ((k, v) ∷ ps) = if text_eq k key then some v else param_of key ps

abbrev pub shown_of : Control → AuditLogFilters → Option Text
shown_of start_date f = f.start_date
shown_of end_date f = f.end_date
shown_of actor f = f.actor
shown_of action f = f.action
shown_of resource_type f = f.resource_type

abbrev pub sent : Control → Option Text → Option Text
sent k none = none
sent k (some []) = none
sent k (some (c ∷ cs)) = some ((c ∷ cs) ++ suffix k)

first_of : Option Text → Option Text → Option Text
first_of none b = b
first_of (some a) b = some a

first_of-none : (a : Option Text) → first_of a none ≡ a
unfolding first_of
first_of-none none = refl
first_of-none (some a) = refl

none-first_of : (a : Option Text) → first_of none a ≡ a
unfolding first_of
none-first_of a = refl

param_of-append :
    (key : Text) (ps qs : List (Text × Text))
    → param_of key (ps ++ qs) ≡ first_of (param_of key ps) (param_of key qs)
unfolding first_of
param_of-append key [] qs = refl
param_of-append key ((k, v) ∷ ps) qs = ground (arith, param_of-append key ps qs)

param_of-param :
    (key k : Text) (o : Option Text) (after : Text)
    → param_of key (param k o after)
      ≡ (if text_eq k key then param_of k (param k o after) else none)
param_of-param key k none after = ground arith
param_of-param key k (some []) after = ground arith
param_of-param key k (some (c ∷ cs)) after = rw ((text_eq_iff k k).1 refl) refl

ruleset params = (param_of-append, param_of-param, first_of-none, none-first_of)

param_of-own :
    (k : Control) (o : Option Text) → param_of (name k) (param (name k) o (suffix k)) ≡ sent k o
param_of-own k none = refl
param_of-own k (some []) = refl
param_of-own k (some (c ∷ cs)) = rw ((text_eq_iff (name k) (name k)).1 refl) refl

-- What is sent for a control.
param_of-sent :
    (k : Control) (f : AuditLogFilters) (offset : ℕ)
    → param_of (name k) (audit_log_params f offset) ≡ sent k (shown_of k f)
unfolding audit_log_params
param_of-sent start_date f offset = simp params (param_of-own start_date f.start_date)
param_of-sent end_date f offset = simp params (param_of-own end_date f.end_date)
param_of-sent actor f offset = simp params (param_of-own actor f.actor)
param_of-sent action f offset = simp params (param_of-own action f.action)
param_of-sent resource_type f offset = simp params (param_of-own resource_type f.resource_type)

shown_of-update_self :
    (k : Control) (v : Option Text) (f : AuditLogFilters) → shown_of k (update k v f) ≡ v
unfolding update
shown_of-update_self start_date v f = refl
shown_of-update_self _ v f = refl

shown_of-update_ne :
    (j k : Control) (v : Option Text) (f : AuditLogFilters)
    → j ≢ k
    → shown_of j (update k v f) ≡ shown_of j f
unfolding update
shown_of-update_ne start_date start_date v f h = absurd (h refl)
shown_of-update_ne end_date end_date v f h = absurd (h refl)
shown_of-update_ne actor actor v f h = absurd (h refl)
shown_of-update_ne action action v f h = absurd (h refl)
shown_of-update_ne resource_type resource_type v f h = absurd (h refl)
shown_of-update_ne _ _ v f h = refl

-- A value chosen in a control is sent as this control's parameter, with the time of day after a
-- date, and the empty one, which stands for all, is not sent; the parameter of every other
-- control stays as it was.
pub update-params :
    (k j : Control) (v : Text) (f : AuditLogFilters) (offset : ℕ)
    → j ≢ k
    → let params = audit_log_params (update k (chosen v) f) offset in
      (param_of (name k) params ≡ (if text_eq v [] then none else some (v ++ suffix k)))
      × (param_of (name j) params ≡ param_of (name j) (audit_log_params f offset))
update-params k j v f offset h = (
  param_of-sent k (update k (chosen v) f) offset
      ∙ ap (sent k) (shown_of-update_self k (chosen v) f)
      ∙ sent-chosen v,
  param_of-sent j (update k (chosen v) f) offset
      ∙ ap (sent j) (shown_of-update_ne j k (chosen v) f h)
      ∙ sym (param_of-sent j f offset),
)
  where
    sent-chosen :
        (v : Text) → sent k (chosen v) ≡ (if text_eq v [] then none else some (v ++ suffix k))
    sent-chosen [] = refl
    sent-chosen (c ∷ cs) = refl
