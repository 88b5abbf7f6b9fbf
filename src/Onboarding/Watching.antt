-- ===== src/Onboarding/Watching.antt =====
-- The watched jobs, and what an event of a job's stream changes
-- (frontend/src/hooks/useOnboarding.ts).
use Prim.Native.String.{String}
use text.Mathlib.Text.{◌==◌ as str_eq}
use text.Mathlib.TextEquality.{eq_iff}
use mathlib.Core.Option
use it_automation_workspace.Common.{
  ◌+◌, Bool, true, false, ◌&&◌, ◌||◌, not, Option, none, some, List, [], ◌∷◌, ◌++◌, Text, map,
  filter, if◌then◌else◌, ◌≡◌, ◌⊎◌, inl, inr, refl, arith, Bool-cases,
}
use it_automation_workspace.Onboarding.{
  OnboardedUserListItem, Cache, includes, workflow_status_of, is_terminal, add_watched_job,
  remove_watched_job,
}
use it_automation_workspace.Onboarding.JobStream.{
  OnboardingJobStreamEvent, is_job, with_event, apply_event,
}

includes-append :
    (j : String) (ids : List String) (i : String)
    → includes j (ids ++ i ∷ []) ≡ (includes j ids || str_eq i j)
includes-append j [] i = ground arith
includes-append j (k ∷ ids) i = ground (arith, includes-append j ids i)

includes-filter :
    (j i : String) (ids : List String)
    → includes j (filter (λ id. not (str_eq id i)) ids) ≡ (includes j ids && not (str_eq j i))
includes-filter j i [] = refl
includes-filter j i (k ∷ ids) =
    ground (arith, includes-filter j i ids, eq_iff k i, eq_iff k j, eq_iff j i)

-- No job stands twice in the list.
abbrev pub NoRepeats : List String → Type 0
NoRepeats [] = Unit
NoRepeats (id ∷ ids) = (includes id ids ≡ false) × NoRepeats ids

NoRepeats-append :
    (ids : List String) (i : String)
    → NoRepeats ids
    → includes i ids ≡ false
    → NoRepeats (ids ++ i ∷ [])
NoRepeats-append [] i h e = (refl, tt)
NoRepeats-append (k ∷ ids) i h e = (
  ground (arith, includes-append k ids i, eq_iff k i, eq_iff i k),
  NoRepeats-append ids i h.1 (ground arith),
)

NoRepeats-filter :
    (i : String) (ids : List String)
    → NoRepeats ids
    → NoRepeats (filter (λ id. not (str_eq id i)) ids)
NoRepeats-filter i [] h = tt
NoRepeats-filter i (k ∷ ids) h = elim (Bool-cases (str_eq k i)) [
  | inl e ↦ rw e (NoRepeats-filter i ids h.1)
  | inr e ↦ rw e (ground (arith, includes-filter k i ids), NoRepeats-filter i ids h.1)
]

-- The two ways in which the hooks change the watched jobs.
pub data Watch : Type 0 where
  add remove : String → Watch

abbrev pub watch : Watch → Cache → Cache
watch (add id) c = add_watched_job id c
watch (remove id) c = remove_watched_job id c

abbrev pub watch_all : List Watch → Cache → Cache
watch_all [] c = c
watch_all (w ∷ ws) c = watch_all ws (watch w c)

-- Whether a job is watched, by the last change that names it.
abbrev pub is_watched : String → Bool → List Watch → Bool
is_watched j before [] = before
is_watched j before (add id ∷ ws) = is_watched j (before || str_eq id j) ws
is_watched j before (remove id ∷ ws) = is_watched j (before && not (str_eq j id)) ws

add_lem :
    (j id : String) (c : Cache)
    → NoRepeats c.watched
    → NoRepeats (add_watched_job id c).watched
      × (includes j (add_watched_job id c).watched ≡ (includes j c.watched || str_eq id j))
unfolding add_watched_job
add_lem j id c h = elim (Bool-cases (includes id c.watched)) [
  | inl e ↦ rw e (h, ground (arith, eq_iff id j))
  | inr e ↦ rw e (NoRepeats-append c.watched id h e, includes-append j c.watched id)
]

-- After any changes, no job is watched twice, and a job is watched exactly if it was added after it
-- was last removed.
pub watch_all_lem :
    (ws : List Watch) (c : Cache) (j : String)
    → NoRepeats c.watched
    → NoRepeats (watch_all ws c).watched
      × (includes j (watch_all ws c).watched ≡ is_watched j (includes j c.watched) ws)
unfolding remove_watched_job
watch_all_lem [] c j h = (h, refl)
watch_all_lem (add id ∷ ws) c j h =
    let (fresh, same) = add_lem j id c h in
    rw (← same) (watch_all_lem ws (add_watched_job id c) j fresh)
watch_all_lem (remove id ∷ ws) c j h =
    rw (← includes-filter j id c.watched)
      (watch_all_lem ws (remove_watched_job id c) j (NoRepeats-filter id c.watched h))

-- One record before and after an event: it belongs to another job and stays, or it gets the event's
-- status, and its error if it has one.
abbrev pub IsUpdated : String → OnboardingJobStreamEvent → (r r' : OnboardedUserListItem) → Type 0
IsUpdated job_id e r r' =
    ((is_job job_id r ≡ false) × (r' ≡ r))
    ⊎ ((is_job job_id r ≡ true)
        × (r' ≡ record r {
          workflow_status = workflow_status_of e.status;
          error_message = r'.error_message;
        })
        × ((r'.error_message ≡ e.error)
            ⊎ ((e.error ≡ none) × (r'.error_message ≡ r.error_message))))

abbrev pub AllUpdated :
    String → OnboardingJobStreamEvent → (rs rs' : List OnboardedUserListItem) → Type 0
AllUpdated job_id e [] [] = Unit
AllUpdated job_id e (r ∷ rs) (r' ∷ rs') = IsUpdated job_id e r r' × AllUpdated job_id e rs rs'
AllUpdated job_id e _ _ = ⊥

map-AllUpdated :
    (job_id : String) (e : OnboardingJobStreamEvent) (rs : List OnboardedUserListItem)
    → AllUpdated job_id e rs (map (λ r. if is_job job_id r then with_event e r else r) rs)
map-AllUpdated job_id e [] = tt
map-AllUpdated job_id e (r ∷ rs) = elim (Bool-cases (is_job job_id r)) [
  | inl own ↦ rw own (inr (refl, refl, error_lem e.error), map-AllUpdated job_id e rs)
  | inr other ↦ rw other (inl (refl, refl), map-AllUpdated job_id e rs)
]
  where
    error_lem :
        (o : Option Text)
        → ((elim o as (λ _. Option Text) [ none ↦ r.error_message | some m ↦ some m ]) ≡ o)
          ⊎ ((o ≡ none)
              × ((elim o as (λ _. Option Text) [ none ↦ r.error_message | some m ↦ some m ])
                  ≡ r.error_message))
    error_lem none = inr (refl, refl)
    error_lem (some m) = inl refl

-- The list in the cache, record by record; where there is no list there is none afterwards.
abbrev pub ListUpdated : String → OnboardingJobStreamEvent → Cache → Cache → Type 0
ListUpdated job_id e c c' =
    ((c.list ≡ none) × (c'.list ≡ none))
    ⊎ ((rs : List OnboardedUserListItem) × (rs' : List OnboardedUserListItem) × (c.list ≡ some rs)
        × (c'.list ≡ some rs')
        × AllUpdated job_id e rs rs')

-- An event of a job's stream changes the records of this job alone, and in them the status and the
-- error message alone. With a final status the job is not watched any more, the others are as
-- before, and the list is fetched anew; with another status the watched jobs stay.
pub apply_event_lem :
    (job_id j : String) (e : OnboardingJobStreamEvent) (c : Cache)
    → let c' = apply_event job_id e c in
      ListUpdated job_id e c c'
      × (includes j c'.watched ≡ (
          includes j c.watched
          && not (is_terminal (workflow_status_of e.status) && str_eq j job_id)))
      × (c'.invalidated ≡ (
          if is_terminal (workflow_status_of e.status) then c.invalidated + 1 else c.invalidated))
unfolding apply_event
apply_event_lem job_id j e c = elim (Bool-cases (is_terminal (workflow_status_of e.status))) [
  | inl t ↦ rw t (lists c.list, includes-filter j job_id c.watched, refl)
  | inr t ↦ rw t (lists c.list, ground arith, refl)
]
  where
    lists :
        (l : Option (List OnboardedUserListItem))
        → ((l ≡ none)
            × (Option.map (map (λ r. if is_job job_id r then with_event e r else r)) l ≡ none))
          ⊎ ((rs : List OnboardedUserListItem) × (rs' : List OnboardedUserListItem) × (l ≡ some rs)
              × (Option.map (map (λ r. if is_job job_id r then with_event e r else r)) l ≡ some rs')
              × AllUpdated job_id e rs rs')
    lists none = inl (refl, refl)
    lists (some rs) = inr (rs, _, refl, refl, map-AllUpdated job_id e rs)
