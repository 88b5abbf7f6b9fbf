-- ===== src/Onboarding/Mutations.antt =====
-- Creating an onboarding, with the record that is shown before the server has answered
-- (frontend/src/hooks/useOnboarding.ts).
use it_automation_workspace.Common.{some, [], ◌∷◌, ◌++◌, or_else, ◌≡◌, refl}
use it_automation_workspace.Onboarding.{
  OnboardedUserListItem, Cache, create_failed, create_mutate, create_error,
}

-- If the request to create a record fails, the list is as it was before: the record that was shown
-- is gone, and a notification says so. A list that had not been loaded is an empty one.
pub create_error-create_mutate :
    (item : OnboardedUserListItem) (c : Cache)
    → let (c', previous) = create_mutate item c in
      (c'.list ≡ some (or_else c.list [] ++ item ∷ []))
      × (create_error previous c'
          ≡ record c { list = some (or_else c.list []); toasts = c.toasts ++ create_failed ∷ [] })
unfolding create_mutate create_error
create_error-create_mutate item c = (refl, refl)

-- Two requests that are made one after the other and then fail in the same order: the rollback of
-- the second brings the record of the first back, though neither exists on the server.
pub create_error_twice :
    (a b : OnboardedUserListItem) (c : Cache)
    → let (c₁, previous₁) = create_mutate a c in
      let (c₂, previous₂) = create_mutate b c₁ in
      (create_error previous₂ (create_error previous₁ c₂)).list ≡ some (or_else c.list [] ++ a ∷ [])
unfolding create_mutate create_error
create_error_twice a b c = refl
