-- ===== src/Onboarding/Page/View/Sections.antt =====
-- The sections of the pipeline page that open and close (frontend/src/pages/Onboarding.tsx).
use Prim.Native.String.{String}
use it_automation_workspace.Common.{
  Bool, true, false, not, Option, none, some, List, [], ◌∷◌, if◌then◌else◌, ◌≡◌, refl, ap, ◌∙◌,
}
use it_automation_workspace.Onboarding.{OnboardedUserListItem, completed}
use it_automation_workspace.Onboarding.Page.{completed_records, offboarded_records, toggle_column}
use it_automation_workspace.Onboarding.Page.View.{
  Section, PageState, new_page, completed_section_of, completed_section, offboarded_section_of,
  offboarded_section, Press, press_completed, press_offboarded, press,
}

abbrev pub press_all : List Press → PageState → PageState
press_all [] s = s
press_all (p ∷ ps) s = press_all ps (press p s)

abbrev pub same_press : Press → Press → Bool
same_press press_completed press_completed = true
same_press press_offboarded press_offboarded = true
same_press _ _ = false

-- Whether a button was pressed an odd number of times, after a start with `b`.
abbrev pub odd_from : Bool → Press → List Press → Bool
odd_from b p [] = b
odd_from b p (q ∷ qs) = odd_from (if same_press q p then not b else b) p qs

abbrev state_of : (completed_open show_offboarded : Bool) → PageState
state_of completed_open show_offboarded = record {
  collapsed_columns = if completed_open then [] else completed ∷ [];
  show_offboarded = show_offboarded;
}

press-state_of :
    (p : Press) (c o : Bool)
    → press p (state_of c o)
      ≡ state_of
          (if same_press p press_completed then not c else c)
          (if same_press p press_offboarded then not o else o)
unfolding press toggle_column
press-state_of press_completed true o = refl
press-state_of press_completed false o = refl
press-state_of press_offboarded c o = refl

press_all-state_of :
    (ps : List Press) (c o : Bool)
    → press_all ps (state_of c o)
      ≡ state_of (odd_from c press_completed ps) (odd_from o press_offboarded ps)
press_all-state_of [] c o = refl
press_all-state_of (p ∷ ps) c o =
    ap (press_all ps) (press-state_of p c o)
    ∙ press_all-state_of ps (if same_press p press_completed then not c else c)
        (if same_press p press_offboarded then not o else o)

-- Whether a section that is shown is open.
abbrev pub opened : {A : Type 0} → Option (Section A) → Option Bool
opened none = none
opened (some s) = some s.is_open

-- A section is shown exactly if it has records.
abbrev pub if_any : {A : Type 0} → List A → Bool → Option Bool
if_any [] b = none
if_any (x ∷ xs) b = some b

completed_section-opened :
    (c o : Bool) (rs : List OnboardedUserListItem)
    → opened (completed_section_of (state_of c o) rs) ≡ if_any rs c
completed_section-opened c o [] = refl
completed_section-opened true o (r ∷ rs) = refl
completed_section-opened false o (r ∷ rs) = refl

offboarded_section-opened :
    (to_day : String → String) (c o : Bool) (rs : List OnboardedUserListItem)
    → opened (offboarded_section_of to_day (state_of c o) rs) ≡ if_any rs o
offboarded_section-opened to_day c o [] = refl
offboarded_section-opened to_day c o (r ∷ rs) = refl

-- However the buttons of the page are pressed, the section of the completed onboardings is shown
-- exactly if there are any, and open exactly if its button was pressed an odd number of times; the
-- same holds of the section of employees who have left.
pub press_all-opened :
    (to_day : String → String) (records : Option (List OnboardedUserListItem)) (ps : List Press)
    → let s = press_all ps new_page in
      (opened (completed_section s records)
        ≡ if_any (completed_records records) (odd_from false press_completed ps))
      × (opened (offboarded_section to_day s records)
          ≡ if_any (offboarded_records records) (odd_from false press_offboarded ps))
unfolding completed_section offboarded_section
press_all-opened to_day records ps =
    let c = odd_from false press_completed ps in
    let o = odd_from false press_offboarded ps in
    let state : press_all ps new_page ≡ state_of c o = press_all-state_of ps false false in
    (
      ap (λ s. opened (completed_section_of s (completed_records records))) state
          ∙ completed_section-opened c o (completed_records records),
      ap (λ s. opened (offboarded_section_of to_day s (offboarded_records records))) state
          ∙ offboarded_section-opened to_day c o (offboarded_records records),
    )
