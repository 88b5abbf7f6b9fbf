-- ===== src/Dashboard/Feed.antt =====
-- The recent activity, frontend/src/components/data-display/AuditActivityFeed.tsx.
use it_automation_workspace.Common.{
  ℕ, ◌+◌, ◌-◌, ◌*◌, ◌/◌, ◌≤◌, ◌<◌, Bool, true, false, List, [], ◌∷◌, Text, codes, length, All, ltb,
  leb, ◌==◌, filter, if◌then◌else◌, ◌≡◌, refl, arith,
}
use mathlib.Core.List.{Perm}
use it_automation_workspace.Common.Sorting.{sort, sort-perm, sort-IsSorted, filter-sort, IsSorted}

-- `AuditActivityType`
pub data AuditActivityType : Type 0 where
  update create delete alert report : AuditActivityType

-- `AuditActivityItem`, with its timestamp as milliseconds
pub record AuditActivityItem : Type 0 where
  pub id : Text
  pub type : AuditActivityType
  pub actor : Text
  pub target : Text
  pub description : Text
  pub time : ℕ

-- `formatRelativeTime`, by what it says.
pub data RelativeTime : Type 0 where
  just_now date : RelativeTime
  minutes hours days : ℕ → RelativeTime

-- The difference is 0 where the source's is negative: both are below every limit.
unfoldable pub format_relative_time : (now time : ℕ) → RelativeTime
format_relative_time now time =
    let diff = now - time in
    let diff_mins = diff / 60000 in
    let diff_hours = diff / 3600000 in
    let diff_days = diff / 86400000 in
    if ltb diff_mins 1
    then just_now
    else if ltb diff_mins 60
    then minutes diff_mins
    else if ltb diff_hours 24
    then hours diff_hours
    else if ltb diff_days 7
    then days diff_days
    else date

-- What a text promises of the age: `n` units have passed, and not one more.
abbrev pub Lasted : (now time unit n : ℕ) → Type 0
Lasted now time unit n = (time + unit * n ≤ now) × (now < time + unit * (n + 1))

abbrev pub Tells : (now time : ℕ) → RelativeTime → Type 0
Tells now time just_now = now < time + 60000
Tells now time (minutes n) = (1 ≤ n) × (n < 60) × Lasted now time 60000 n
Tells now time (hours n) = (1 ≤ n) × (n < 24) × Lasted now time 3600000 n
Tells now time (days n) = (1 ≤ n) × (n < 7) × Lasted now time 86400000 n
Tells now time date = time + 604800000 ≤ now

-- The text tells the age: in whole minutes from one minute on, in hours from one hour on, in days
-- from one day on, and as a date from seven days on.
format_relative_time-Tells : (now time : ℕ) → Tells now time (format_relative_time now time)
unfolding format_relative_time
format_relative_time-Tells now time = ground arith

-- `sortedItems`: the comparator is not positive if the first item is not older.
abbrev pub not_older : AuditActivityItem → AuditActivityItem → Bool
not_older a b = leb b.time a.time

unfoldable pub sorted_items : List AuditActivityItem → List AuditActivityItem
sorted_items = sort not_older

-- No item stands above a newer one.
abbrev pub IsNewestFirst : List AuditActivityItem → Type 0
IsNewestFirst [] = Unit
IsNewestFirst (i ∷ items) = All (λ j. j.time ≤ i.time) items × IsNewestFirst items

All-not_older :
    (i : AuditActivityItem) (items : List AuditActivityItem)
    → All (λ j. not_older i j ≡ true) items
    → All (λ j. j.time ≤ i.time) items
All-not_older i [] h = tt
All-not_older i (j ∷ items) h = (ground arith, All-not_older i items h.1)

IsSorted-IsNewestFirst :
    (items : List AuditActivityItem) → IsSorted not_older items → IsNewestFirst items
IsSorted-IsNewestFirst [] h = tt
IsSorted-IsNewestFirst (i ∷ items) h = (All-not_older i items h.0, IsSorted-IsNewestFirst items h.1)

sorted_items_lem :
    (items : List AuditActivityItem)
    → Perm (sorted_items items) items
      × IsNewestFirst (sorted_items items)
      × ((t : ℕ) → filter (λ i. i.time == t) (sorted_items items) ≡ filter (λ i. i.time == t) items)
unfolding sorted_items
sorted_items_lem items = (
  sort-perm not_older items,
  IsSorted-IsNewestFirst _
      (sort-IsSorted not_older (λ a b h. ground arith) (λ a b c h k. ground arith) items),
  λ t. filter-sort not_older (λ i. i.time == t) items (λ x y h k. ground arith),
)

-- A part of an entry's text: plain, or set off by its color.
pub data Part : Type 0 where
  plain primary foreground : Text → Part

unfoldable pub message : AuditActivityItem → List Part
message i = elim i.type [
  | update ↦
      plain (codes "Asset ")
      ∷ primary i.target
      ∷ plain (codes " updated by ")
      ∷ foreground i.actor
      ∷ []
  | create ↦ plain (codes "Onboarding completed for ") ∷ foreground i.target ∷ []
  | delete ↦
      plain (codes "Asset ")
      ∷ primary i.target
      ∷ plain (codes " deleted by ")
      ∷ foreground i.actor
      ∷ []
  | alert ↦ plain (codes "Health alert on ") ∷ primary i.target ∷ []
  | report ↦ plain (codes "Report ") ∷ foreground i.target ∷ plain (codes " generated") ∷ []
]

-- An entry of the list; a line joins it to the next, if there is one.
pub record Row : Type 0 where
  pub connector : Bool
  pub text : List Part
  pub description : Text
  pub age : RelativeTime

abbrev pub row : (now : ℕ) → Bool → AuditActivityItem → Row
row now connector i = record {
  connector = connector;
  text = message i;
  description = i.description;
  age = format_relative_time now i.time;
}

abbrev pub rows_of : (now : ℕ) → List AuditActivityItem → List Row
rows_of now [] = []
rows_of now (i ∷ []) = row now false i ∷ []
rows_of now (i ∷ j ∷ rest) = row now true i ∷ rows_of now (j ∷ rest)

-- `AuditActivityFeed`
unfoldable pub audit_activity_feed : (now : ℕ) → List AuditActivityItem → List Row
unfolding sorted_items
audit_activity_feed now items = rows_of now (sorted_items items)

-- A row of the feed, and the item that it shows.
abbrev pub Shows : (now : ℕ) → List AuditActivityItem → List Row → Type 0
Shows now [] [] = Unit
Shows now (i ∷ items) (r ∷ rows) =
    (r.text ≡ message i)
    × (r.description ≡ i.description)
    × Tells now i.time r.age
    × (r.connector ≡ ltb 0 (length items))
    × Shows now items rows
Shows now _ _ = ⊥

rows_of-Shows : (now : ℕ) (items : List AuditActivityItem) → Shows now items (rows_of now items)
rows_of-Shows now [] = tt
rows_of-Shows now (i ∷ []) = (refl, refl, format_relative_time-Tells now i.time, refl, tt)
rows_of-Shows now (i ∷ j ∷ rest) =
    (refl, refl, format_relative_time-Tells now i.time, ground arith, rows_of-Shows now (j ∷ rest))

-- The feed shows every item once, none above a newer one, and items of the same time in the order
-- given. Each row has its item's text and description, and its age: "just now" below one minute and
-- for an item of the future, in whole minutes below one hour, in hours below one day, in days below
-- seven days, and then as a date. A line leads from each row but the last to the next.
pub audit_activity_feed-Shows :
    (now : ℕ) (items : List AuditActivityItem)
    → (sorted : List AuditActivityItem) × Perm sorted items
      × IsNewestFirst sorted
      × ((t : ℕ) → filter (λ i. i.time == t) sorted ≡ filter (λ i. i.time == t) items)
      × Shows now sorted (audit_activity_feed now items)
unfolding audit_activity_feed
audit_activity_feed-Shows now items =
    let (same, ordered, stable) = sorted_items_lem items in
    (sorted_items items, same, ordered, stable, rows_of-Shows now (sorted_items items))
