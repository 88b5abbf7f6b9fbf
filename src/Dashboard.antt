-- ===== src/Dashboard.antt =====
-- The dashboard: frontend/src/pages/Dashboard.tsx with the query of frontend/src/hooks/useDashboard.ts,
-- and the sums of frontend/src/components/data-display/OnboardingVolumeChart.tsx.
pub mod Feed
use it_automation_workspace.Common.{
  ℕ, zero, suc, ◌+◌, Bool, true, false, ◌&&◌, not, Option, none, some, List, [], ◌∷◌, Text, map,
  if◌then◌else◌, ◌≡◌, refl, arith,
}

-- `OnboardingVolumeDataPoint`
pub record OnboardingVolumeDataPoint : Type 0 where
  pub week : Text
  pub completed : ℕ
  pub in_progress : ℕ
  pub failed : ℕ

-- `OSDistributionItem`, without its share and its color
pub record OsDistributionItem : Type 0 where
  pub name : Text
  pub count : ℕ

-- `data.reduce(f, start)`
abbrev pub reduce {ℓ κ} : {A : Type ℓ} {B : Type κ} → (B → A → B) → List A → B → B
reduce f [] acc = acc
reduce f (x ∷ xs) acc = reduce f xs (f acc x)

-- `total` of `OSDistributionSection`
unfoldable pub os_total : List OsDistributionItem → ℕ
os_total items = reduce (λ sum item. sum + item.count) items 0

-- `summary`
pub record VolumeSummary : Type 0 where
  pub completed : ℕ
  pub in_progress : ℕ
  pub failed : ℕ

abbrev pub add_week : VolumeSummary → OnboardingVolumeDataPoint → VolumeSummary
add_week acc week = record {
  completed = acc.completed + week.completed;
  in_progress = acc.in_progress + week.in_progress;
  failed = acc.failed + week.failed;
}

unfoldable pub volume_summary : List OnboardingVolumeDataPoint → VolumeSummary
volume_summary weeks = reduce add_week weeks (record { completed = 0; in_progress = 0; failed = 0 })

-- `total` of the tooltip of a week
unfoldable pub week_total : OnboardingVolumeDataPoint → ℕ
week_total week = week.completed + week.in_progress + week.failed

abbrev pub sum_of {ℓ} : {A : Type ℓ} → (A → ℕ) → List A → ℕ
sum_of f [] = 0
sum_of f (x ∷ xs) = f x + sum_of f xs

reduce-add_week :
    (weeks : List OnboardingVolumeDataPoint) (acc : VolumeSummary)
    → let s = reduce add_week weeks acc in
      (s.completed ≡ acc.completed + sum_of (λ w. w.completed) weeks)
      × (s.in_progress ≡ acc.in_progress + sum_of (λ w. w.in_progress) weeks)
      × (s.failed ≡ acc.failed + sum_of (λ w. w.failed) weeks)
reduce-add_week [] acc = omega arith
reduce-add_week (w ∷ ws) acc = omega (arith, reduce-add_week ws (add_week acc w))

sum_of-week_total :
    (weeks : List OnboardingVolumeDataPoint)
    → sum_of week_total weeks
      ≡ sum_of (λ w. w.completed) weeks
        + sum_of (λ w. w.in_progress) weeks
        + sum_of (λ w. w.failed) weeks
unfolding week_total
sum_of-week_total [] = omega arith
sum_of-week_total (w ∷ ws) = omega (arith, sum_of-week_total ws)

-- Each number below the chart is the sum over the weeks, and together they are the sum of the totals
-- that the tooltips show.
pub volume_summary_lem :
    (weeks : List OnboardingVolumeDataPoint)
    → let s = volume_summary weeks in
      (s.completed ≡ sum_of (λ w. w.completed) weeks)
      × (s.in_progress ≡ sum_of (λ w. w.in_progress) weeks)
      × (s.failed ≡ sum_of (λ w. w.failed) weeks)
      × (s.completed + s.in_progress + s.failed ≡ sum_of week_total weeks)
unfolding volume_summary
volume_summary_lem weeks = omega (
  arith,
  reduce-add_week weeks (record { completed = 0; in_progress = 0; failed = 0 }),
  sum_of-week_total weeks,
)

-- What the page shows below its header.
pub record Page (A : Type 0) : Type 0 where
  pub loading : Bool
  pub error : Bool
  pub content : Option A

unfoldable pub dashboard :
    {A : Type 0} → (is_loading is_error : Bool) → (snapshot : Option A) → Page A
dashboard is_loading is_error snapshot = record {
  loading = is_loading;
  error = is_error && not is_loading;
  content = snapshot;
}
