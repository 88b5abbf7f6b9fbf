-- ===== src/Reports/History.antt =====
-- The history of reports: the badge of a status and the numbers of frontend/src/pages/Reports.tsx.
use it_automation_workspace.Common.{
  ℕ, suc, ◌+◌, ◌≤◌, Bool, true, false, Option, some, List, [], ◌∷◌, Text, codes, text_eq,
  text_eq_iff, map, filter, length, trim, or_else, All, if◌then◌else◌, ◌≡◌, refl, sym, subst, arith,
  Bool-cases, inl, inr,
}
use it_automation_workspace.Scan.Toolbar.{lower}
use it_automation_workspace.Reports.{one_of}

-- The labels of the badge: "Fertig", "In Arbeit", "Wartend", "Fehlgeschlagen", and the status itself.
pub data Badge : Type 0 where
  ready in_progress waiting failed : Badge
  other : Text → Badge

-- `statusMap`. No status is named like a member of every JavaScript object.
abbrev pub status_map : List (Text × Badge)
status_map =
    (codes "completed", ready)
    ∷ (codes "success", ready)
    ∷ (codes "done", ready)
    ∷ (codes "ready", ready)
    ∷ (codes "processing", in_progress)
    ∷ (codes "running", in_progress)
    ∷ (codes "queued", waiting)
    ∷ (codes "pending", waiting)
    ∷ (codes "failed", failed)
    ∷ (codes "error", failed)
    ∷ []

abbrev pub badge_in : List (Text × Badge) → Text → Badge
badge_in [] s = other s
badge_in ((key, b) ∷ rest) s = let later = badge_in rest s in if text_eq s key then b else later

-- `String(status ?? "").toLowerCase()`
abbrev pub lower_text : Option Text → Text
lower_text status = map lower (or_else status [])

-- `StatusBadge`
unfoldable pub status_badge : Option Text → Badge
status_badge status = badge_in status_map (trim (lower_text status))

-- The tests of the numbers.
abbrev pub is_completed : Text → Bool
is_completed s = one_of s (codes "completed" ∷ codes "success" ∷ codes "done" ∷ codes "ready" ∷ [])

abbrev pub is_processing : Text → Bool
is_processing s =
    one_of s (codes "processing" ∷ codes "running" ∷ codes "queued" ∷ codes "pending" ∷ [])

abbrev pub is_failed : Text → Bool
is_failed s = one_of s (codes "failed" ∷ codes "error" ∷ [])

pub record ReportStats : Type 0 where
  pub total : ℕ
  pub completed : ℕ
  pub processing : ℕ
  pub failed : ℕ

abbrev count : (Text → Bool) → List (Option Text) → ℕ
count p statuses = length (filter (λ s. p (lower_text s)) statuses)

-- The numbers, from the statuses of the history, if that has been loaded.
unfoldable pub report_stats : Option (List (Option Text)) → ReportStats
report_stats history =
    let statuses = or_else history [] in
    record {
      total = length statuses;
      completed = count is_completed statuses;
      processing = count is_processing statuses;
      failed = count is_failed statuses;
    }

abbrev pub is_ready : Badge → Bool
is_ready ready = true
is_ready _ = false

abbrev pub is_open : Badge → Bool
is_open in_progress = true
is_open waiting = true
is_open _ = false

abbrev pub is_broken : Badge → Bool
is_broken failed = true
is_broken _ = false

-- A text that has a property if each of some words has it, and each text that is none of them.
by_words :
    (P : Text → Type 0) (words : List Text) (s : Text)
    → All P words
    → (one_of s words ≡ false → P s)
    → P s
by_words P [] s h k = k refl
by_words P (w ∷ words) s h k = elim (Bool-cases (text_eq s w)) [
  | inl e ↦ subst P (sym ((text_eq_iff s w).0 e)) h.0
  | inr e ↦ by_words P words s h.1 (λ f. k (ground (arith, e, f)))
]

none_of :
    (s : Text) (words : List Text) → one_of s words ≡ false → All (λ w. text_eq s w ≡ false) words
none_of s [] h = tt
none_of s (w ∷ words) h = (ground arith, none_of s words (ground arith))

-- How the badge and the three tests see one status.
abbrev Agree : Text → Type 0
Agree s =
    (is_ready (badge_in status_map s) ≡ is_completed s)
    × (is_open (badge_in status_map s) ≡ is_processing s)
    × (is_broken (badge_in status_map s) ≡ is_failed s)

Agree_lem : (s : Text) → Agree s
Agree_lem s =
    by_words Agree (map (λ e. e.0) status_map) s
      (
        (refl, refl, refl),
        (
          (refl, refl, refl),
          (
            (refl, refl, refl),
            (
              (refl, refl, refl),
              (
                (refl, refl, refl),
                (
                  (refl, refl, refl),
                  (
                    (refl, refl, refl),
                    ((refl, refl, refl), ((refl, refl, refl), ((refl, refl, refl), tt))),
                  ),
                ),
              ),
            ),
          ),
        ),
      )
      (λ h.
        let n = none_of s (map (λ e. e.0) status_map) h in
        rw
          (
            n.0, n.1.0, n.1.1.0, n.1.1.1.0, n.1.1.1.1.0, n.1.1.1.1.1.0, n.1.1.1.1.1.1.0,
            n.1.1.1.1.1.1.1.0, n.1.1.1.1.1.1.1.1.0, n.1.1.1.1.1.1.1.1.1.0,
          )
          (refl, refl, refl))

-- A status without white space at its ends is counted as completed, in process or failed exactly if
-- its badge says so.
pub status_badge-report_stats :
    (status : Option Text)
    → trim (lower_text status) ≡ lower_text status
    → (is_ready (status_badge status) ≡ is_completed (lower_text status))
      × (is_open (status_badge status) ≡ is_processing (lower_text status))
      × (is_broken (status_badge status) ≡ is_failed (lower_text status))
unfolding status_badge
status_badge-report_stats status h = rw h (Agree_lem (lower_text status))

exclusive :
    (b : Badge) (x y z : Bool)
    → is_ready b ≡ x
    → is_open b ≡ y
    → is_broken b ≡ z
    → (if x then 1 else 0) + (if y then 1 else 0) + (if z then 1 else 0) ≤ 1
exclusive b x y z e f g = ground arith

report_stats_cons :
    (x y z : Bool) (a b c t : ℕ)
    → (if x then 1 else 0) + (if y then 1 else 0) + (if z then 1 else 0) ≤ 1
    → a + b + c ≤ t
    → (if x then suc a else a) + (if y then suc b else b) + (if z then suc c else c) ≤ suc t
report_stats_cons x y z a b c t h k = ground arith

length_if {ℓ} :
    {A : Type ℓ} (b : Bool) (x : A) (xs : List A)
    → length (if b then x ∷ xs else xs) ≡ (if b then suc (length xs) else length xs)
length_if true x xs = refl
length_if false x xs = refl

-- The completed, the open and the failed reports are at most all of them.
pub report_stats-le :
    (history : List (Option Text))
    → let s = report_stats (some history) in s.completed + s.processing + s.failed ≤ s.total
unfolding report_stats
report_stats-le [] = omega arith
report_stats-le (status ∷ rest) =
    let s = lower_text status in
    let agree = Agree_lem s in
    rw
      (
        length_if (is_completed s) status (filter (λ r. is_completed (lower_text r)) rest),
        length_if (is_processing s) status (filter (λ r. is_processing (lower_text r)) rest),
        length_if (is_failed s) status (filter (λ r. is_failed (lower_text r)) rest),
      )
      (report_stats_cons (is_completed s) (is_processing s) (is_failed s) _ _ _ (length rest)
        (exclusive (badge_in status_map s) (is_completed s) (is_processing s) (is_failed s) agree.0
          agree.1 agree.2)
        (report_stats-le rest))
