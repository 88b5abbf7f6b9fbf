-- ===== src/Onboarding/Form.antt =====
-- The form for a new employee: its schema, frontend/src/lib/validators.ts, and the dialog
-- frontend/src/components/onboarding/OnboardingFormDialog.tsx, over `useCreateOnboarding`.
use Prim.Native.String.{String}
use text.Mathlib.Text.{◌==◌ as str_eq}
use it_automation_workspace.Common.{
  Bool, true, false, not, ◌&&◌, Option, none, some, List, [], ◌∷◌, ◌++◌, All, or_else, Bool-cases,
  inl, inr, if◌then◌else◌, ◌≡◌, refl, sym, subst, arith,
}
use it_automation_workspace.Onboarding.{
  OnboardRequest, OnboardedUserListItem, Cache, optimistic_record, create_mutate, create_error,
  create_success,
}

-- The fields of `onboardingFormSchema`.
pub data Field : Type 0 where
  first_name last_name email department job_title : Field

-- A field's message, if its test fails.
abbrev pub issue : Bool → Field → List Field → List Field
issue true f rest = rest
issue false f rest = f ∷ rest

-- `.min(1)`
abbrev pub has_min_one : String → Bool
has_min_one s = not (str_eq s "")

-- The issues of `onboardingFormSchema.safeParse`. zod's test of an e-mail address is a parameter.
unfoldable pub form_issues : (String → Bool) → OnboardRequest → List Field
form_issues is_email v = issue (has_min_one v.first_name) first_name (
    issue (has_min_one v.last_name) last_name (
      issue (is_email v.email) email (
        issue (has_min_one v.department) department
          (issue (has_min_one v.job_title) job_title []))))

abbrev pub empty_form : OnboardRequest
empty_form = record { first_name = ""; last_name = ""; email = ""; department = ""; job_title = "" }

-- The dialog's state, the form's values and messages, the context of the creation that is pending,
-- the cache, and the requests posted, latest first.
pub record FormDialog : Type 0 where
  pub opened : Bool
  pub values : OnboardRequest
  pub issues : List Field
  pub pending : Option (List OnboardedUserListItem)
  pub cache : Cache
  pub posted : List OnboardRequest

abbrev pub is_pending : FormDialog → Bool
is_pending d = elim d.pending [ none ↦ false | some previous ↦ true ]

-- `onSubmit`
unfoldable pub on_submit : (now iso : String) → FormDialog → FormDialog
unfolding create_mutate optimistic_record
on_submit now iso d =
    let (cache, previous) = create_mutate (optimistic_record d.values now iso) d.cache in
    record d { issues = []; pending = some previous; cache = cache; posted = d.values ∷ d.posted }

abbrev pub submit_checked : List Field → (now iso : String) → FormDialog → FormDialog
submit_checked [] now iso d = on_submit now iso d
submit_checked (f ∷ fs) now iso d = record d { issues = f ∷ fs }

-- The button of the form, which is disabled while a creation is pending: `handleSubmit`.
unfoldable pub submit : (String → Bool) → (now iso : String) → FormDialog → FormDialog
unfolding form_issues on_submit
submit is_email now iso d =
    if d.opened && not (is_pending d)
    then submit_checked (form_issues is_email d.values) now iso d
    else d

-- The answer to the creation, with its `job_id`, or an error: first the mutation's own callbacks,
-- then the one of `onSubmit`.
unfoldable pub settle : Option String → FormDialog → FormDialog
unfolding create_success create_error
settle answer d = elim d.pending [
  | none ↦ d
  | some previous ↦ elim answer [
    | none ↦ record d { pending = none; cache = create_error previous d.cache }
    | some job_id ↦ record d {
      opened = false;
      values = empty_form;
      issues = [];
      pending = none;
      cache = create_success job_id d.cache;
    }
  ]
]

pub data Action : Type 0 where
  open_changed : Bool → Action
  edited : OnboardRequest → Action
  submitted : (now iso : String) → Action
  answered : Option String → Action

module _ (is_email : String → Bool) where
  unfoldable pub act : Action → FormDialog → FormDialog
  unfolding submit settle
  act (open_changed b) d = record d { opened = b }
  act (edited v) d = if d.opened then record d { values = v } else d
  act (submitted now iso) d = submit is_email now iso d
  act (answered a) d = settle a d

  unfoldable pub act_all : List Action → FormDialog → FormDialog
  unfolding act
  act_all [] d = d
  act_all (a ∷ rest) d = act_all rest (act a d)

  -- What the schema asks of a form.
  pub record IsComplete (v : OnboardRequest) : Type 0 where
    pub has_first_name : has_min_one v.first_name ≡ true
    pub has_last_name : has_min_one v.last_name ≡ true
    pub has_email : is_email v.email ≡ true
    pub has_department : has_min_one v.department ≡ true
    pub has_job_title : has_min_one v.job_title ≡ true

  no_issues : (v : OnboardRequest) → form_issues is_email v ≡ [] → IsComplete v
  unfolding form_issues
  no_issues v e = ground arith

  submit_checked-All :
      (fs : List Field) (now iso : String) (d : FormDialog)
      → fs ≡ form_issues is_email d.values
      → All IsComplete d.posted
      → All IsComplete (submit_checked fs now iso d).posted
  unfolding on_submit
  submit_checked-All [] now iso d e h = (no_issues d.values (sym e), h)
  submit_checked-All (f ∷ fs) now iso d e h = h

  settle-posted : (a : Option String) (d : FormDialog) → (settle a d).posted ≡ d.posted
  unfolding settle
  settle-posted a d = ground arith

  act-All :
      (a : Action) (d : FormDialog) → All IsComplete d.posted → All IsComplete (act a d).posted
  unfolding act submit
  act-All (open_changed b) d h = h
  act-All (edited v) d h = elim (Bool-cases d.opened) [ inl e ↦ rw e h | inr e ↦ rw e h ]
  act-All (submitted now iso) d h = elim (Bool-cases (d.opened && not (is_pending d))) [
    | inl e ↦ rw e (submit_checked-All _ now iso d refl h)
    | inr e ↦ rw e h
  ]
  act-All (answered a) d h = rw (settle-posted a d) h

  -- Whatever is typed and pressed, every request posted has the four texts and an address that
  -- passes the test for e-mail addresses.
  pub act_all-All :
      (actions : List Action) (d : FormDialog)
      → All IsComplete d.posted
      → All IsComplete (act_all actions d).posted
  unfolding act_all
  act_all-All [] d h = h
  act_all-All (a ∷ rest) d h = act_all-All rest (act a d) (act-All a d h)

  submit_lem :
      (now iso : String) (d : FormDialog)
      → d.opened ≡ true
      → d.pending ≡ none
      → form_issues is_email d.values ≡ []
      → submit is_email now iso d ≡ on_submit now iso d
  unfolding submit
  submit_lem now iso d o p e =
      let free : (d.opened && not (is_pending d)) ≡ true = ground arith in
      rw free (subst (λ fs. submit_checked fs now iso d ≡ on_submit now iso d) (sym e) refl)

  -- A form that passes is posted as it stands, and the list shows the new record at once. If the
  -- creation succeeds the dialog closes with an empty form and the record stays in the list; if it
  -- fails the dialog stays open with what was typed, and the list is as it was before. In both cases
  -- another form can then be posted.
  pub settle-submit :
      (now iso job_id : String) (d : FormDialog)
      → d.opened ≡ true
      → d.pending ≡ none
      → form_issues is_email d.values ≡ []
      → let sent = submit is_email now iso d in
        let before = or_else d.cache.list [] in
        let after = before ++ optimistic_record d.values now iso ∷ [] in
        let done = settle (some job_id) sent in
        let failed = settle none sent in
        (sent.posted ≡ d.values ∷ d.posted)
        × (sent.cache.list ≡ some after)
        × ((done.opened ≡ false)
            × (done.values ≡ empty_form)
            × (done.cache.list ≡ some after)
            × (done.pending ≡ none))
        × ((failed.opened ≡ true)
            × (failed.values ≡ d.values)
            × (failed.cache.list ≡ some before)
            × (failed.pending ≡ none))
  unfolding on_submit settle create_mutate create_error create_success
  settle-submit now iso job_id d o p e =
      rw (submit_lem now iso d o p e) (refl, refl, (refl, refl, refl, refl), (o, refl, refl, refl))
