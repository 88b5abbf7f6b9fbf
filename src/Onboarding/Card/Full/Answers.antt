-- ===== src/Onboarding/Card/Full/Answers.antt =====
-- What follows a confirmed deletion or offboarding
-- (frontend/src/components/onboarding/OnboardingCard.tsx, frontend/src/hooks/useOnboarding.ts).
use it_automation_workspace.Common.{
  ◌+◌, true, ◌&&◌, not, [], ◌∷◌, ◌++◌, if◌then◌else◌, ◌≡◌, refl, ◌∙◌, arith,
}
use it_automation_workspace.Onboarding.{
  Cache, Toast, show, invalidate_list, rolled_back, rollback_refused, user_not_found,
  rollback_failed, has_status, rollback_success, rollback_error,
}
use it_automation_workspace.Onboarding.Card.Full.{
  rollback, post_rollback, FullCard, mutate, rollback_shown, Answer, success, error, is_success,
  cache_answered, answered, rollback_confirming, answering, act, act_all,
}

-- The notification of an answer.
abbrev pub said : (done refused gone otherwise : Toast) → Answer → Toast
said done refused gone otherwise (success _) = done
said done refused gone otherwise (error status) =
    if has_status 409 status then refused else if has_status 404 status then gone else otherwise

-- The cache with a notification, whose list is fetched again if the request succeeded.
abbrev pub told : Toast → Answer → Cache → Cache
told toast a c = record c {
  toasts = c.toasts ++ toast ∷ [];
  invalidated = if is_success a then c.invalidated + 1 else c.invalidated;
}

rollback_told :
    (a : Answer) (c : Cache)
    → cache_answered rollback a c
      ≡ told (said rolled_back rollback_refused user_not_found rollback_failed a) a c
unfolding cache_answered rollback_success rollback_error show invalidate_list
rollback_told (success job_id) c = refl
rollback_told (error status) c = refl

-- The dialog of a deletion after its answer.
answered-rollback_shown :
    (c : FullCard) (a : Answer)
    → rollback_shown c ≡ true
    → rollback_shown (answered rollback a (mutate (post_rollback c.item.user_id) c))
        && not ((answered rollback a (mutate (post_rollback c.item.user_id) c)).is_pending rollback)
      ≡ not (is_success a)
unfolding answered mutate rollback_shown
answered-rollback_shown c (success job_id) e = ground arith
answered-rollback_shown c (error status) e = ground arith

answered-mutate :
    (c : FullCard) (a : Answer)
    → let d = answered rollback a (mutate (post_rollback c.item.user_id) c) in
      (d.requests ≡ post_rollback c.item.user_id ∷ c.requests)
      × (d.cache ≡ cache_answered rollback a c.cache)
unfolding answered mutate
answered-mutate c (success job_id) = (refl, refl)
answered-mutate c (error status) = (refl, refl)

confirmed_lem :
    (c : FullCard) (a : Answer)
    → rollback_shown c && not (c.is_pending rollback) ≡ true
    → act_all (rollback_confirming ∷ answering rollback a ∷ []) c
      ≡ answered rollback a (mutate (post_rollback c.item.user_id) c)
unfolding act mutate
confirmed_lem c a e = rw e refl

-- A confirmed deletion is sent for the record of the card. Once it is answered, one notification says
-- how it went, by the status of the error; a success closes the dialog and lets the list be fetched
-- again, and an error leaves the dialog as it was, so that it can be confirmed again.
pub act_all-rollback_confirming :
    (c : FullCard) (a : Answer)
    → rollback_shown c && not (c.is_pending rollback) ≡ true
    → let d = act_all (rollback_confirming ∷ answering rollback a ∷ []) c in
      (d.requests ≡ post_rollback c.item.user_id ∷ c.requests)
      × (d.cache
          ≡ told (said rolled_back rollback_refused user_not_found rollback_failed a) a c.cache)
      × (rollback_shown d && not (d.is_pending rollback) ≡ not (is_success a))
act_all-rollback_confirming c a e = rw (confirmed_lem c a e) (
  (answered-mutate c a).0,
  (answered-mutate c a).1 ∙ rollback_told a c.cache,
  answered-rollback_shown c a (ground arith),
)
