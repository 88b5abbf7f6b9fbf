-- ===== src/Onboarding/Card/Full/Posted.antt =====
-- How often a card sends, and what it says (frontend/src/components/onboarding/OnboardingCard.tsx).
use it_automation_workspace.Common.{
  ℕ, suc, ◌+◌, ◌≤◌, Bool, true, false, List, [], ◌∷◌, length, filter, Bool-cases, inl, inr,
  if◌then◌else◌, ◌≡◌, refl, sym, ap, subst, ◌∙◌, arith,
}
use it_automation_workspace.Onboarding.{OnboardedUserListItem, Cache}
use it_automation_workspace.Onboarding.Card.Full.{
  Kind, retry, rollback, offboard, Request, post_retry, post_rollback, post_offboard, FullCard,
  new_card, kind_of, is_kind, mutate, Action, Answer, answering, act, act_all, answered, success,
  error,
}
use it_automation_workspace.Onboarding.Card.Full.Sends.{
  Outcome, act-Outcome, act-answering, MaySend-is_pending,
}

abbrev pub count : Kind → List Request → ℕ
count k qs = length (filter (λ q. is_kind (kind_of q) k) qs)

-- How many answers to requests of a kind there are.
abbrev pub adds : Kind → Action → ℕ
adds k (answering j _) = if is_kind j k then 1 else 0
adds k _ = 0

abbrev pub answers : Kind → List Action → ℕ
answers k [] = 0
answers k (a ∷ rest) = adds k a + answers k rest

-- After `n` answers, none was sent before the one before was answered.
abbrev InTurn : Kind → ℕ → FullCard → Type 0
InTurn k n c = count k c.requests ≤ n + (if c.is_pending k then 1 else 0)

mutate-InTurn :
    (k : Kind) (n : ℕ) (q : Request) (c : FullCard)
    → InTurn k n c
    → c.is_pending (kind_of q) ≡ false
    → InTurn k n (mutate q c)
unfolding mutate
mutate-InTurn retry n (post_retry j r) c h e = ground arith
mutate-InTurn retry n (post_rollback u) c h e = h
mutate-InTurn retry n (post_offboard u) c h e = h
mutate-InTurn rollback n (post_retry j r) c h e = h
mutate-InTurn rollback n (post_rollback u) c h e = ground arith
mutate-InTurn rollback n (post_offboard u) c h e = h
mutate-InTurn offboard n (post_retry j r) c h e = h
mutate-InTurn offboard n (post_rollback u) c h e = h
mutate-InTurn offboard n (post_offboard u) c h e = ground arith

outcome-InTurn : (k : Kind) (n : ℕ) (c d : FullCard) → Outcome c d → InTurn k n c → InTurn k n d
outcome-InTurn k n c d (inl q) h =
    subst (λ qs. count k qs ≤ n + (if d.is_pending k then 1 else 0)) (sym q.0)
      (subst (λ p. count k c.requests ≤ n + (if p k then 1 else 0)) (sym q.1) h)
outcome-InTurn k n c d (inr (q, e, may)) h =
    subst (InTurn k n) (sym e) (mutate-InTurn k n q c h (MaySend-is_pending c q may))

other_answered :
    (k j : Kind) (a : Answer) (c : FullCard)
    → is_kind j k ≡ false
    → (answered j a c).is_pending k ≡ c.is_pending k
unfolding answered
other_answered k j (error status) c e = rw e refl
other_answered k retry (success job_id) c e = rw e refl
other_answered k rollback (success job_id) c e = rw e refl
other_answered k offboard (success job_id) c e = rw e refl

other_answering :
    (k j : Kind) (a : Answer) (c : FullCard)
    → is_kind j k ≡ false
    → (act (answering j a) c).is_pending k ≡ c.is_pending k
unfolding act
other_answering k j a c e = elim (Bool-cases (c.is_pending j)) [
  | inl on ↦ rw on (other_answered k j a c e)
  | inr off ↦ rw off refl
]

-- The bound grows by one with an answer of the kind.
one_more :
    (b p q : Bool) (m n : ℕ)
    → (b ≡ false → q ≡ p)
    → m ≤ n + (if p then 1 else 0)
    → m ≤ (n + (if b then 1 else 0)) + (if q then 1 else 0)
one_more true p q m n e h = ground arith
one_more false p q m n e h = rw (e refl) (omega (arith, h))

answering-InTurn :
    (k j : Kind) (n : ℕ) (a : Answer) (c : FullCard)
    → InTurn k n c
    → InTurn k (n + (if is_kind j k then 1 else 0)) (act (answering j a) c)
answering-InTurn k j n a c h =
    subst
      (λ qs.
        count k qs
        ≤ (n + (if is_kind j k then 1 else 0))
          + (if (act (answering j a) c).is_pending k then 1 else 0))
      (sym (act-answering j a c).0)
      (one_more (is_kind j k) (c.is_pending k) ((act (answering j a) c).is_pending k)
        (count k c.requests) n (other_answering k j a c) h)

weaken_turn : (k : Kind) (n m : ℕ) (c : FullCard) → InTurn k n c → n ≤ m → InTurn k m c
weaken_turn k n m c h le = omega (arith, h, le)

act-InTurn :
    (k : Kind) (n : ℕ) (a : Action) (c : FullCard)
    → InTurn k n c
    → InTurn k (n + adds k a) (act a c)
act-InTurn k n a c h = elim (act-Outcome a c) [
  | inl (j, answer, e) ↦
      subst (λ b. InTurn k (n + adds k b) (act b c)) (sym e)
        (weaken_turn k _ _ (act (answering j answer) c) (answering-InTurn k j n answer c h)
          (omega arith))
  | inr o ↦
      weaken_turn k n (n + adds k a) (act a c) (outcome-InTurn k n c (act a c) o h) (omega arith)
]

InTurn-count : (k : Kind) (n : ℕ) (c : FullCard) → InTurn k n c → count k c.requests ≤ suc n
InTurn-count k n c h = ground arith

act_all-InTurn :
    (k : Kind) (actions : List Action) (n : ℕ) (c : FullCard)
    → InTurn k n c
    → InTurn k (n + answers k actions) (act_all actions c)
act_all-InTurn k [] n c h = weaken_turn k n (n + 0) c h (omega arith)
act_all-InTurn k (a ∷ rest) n c h =
    weaken_turn k ((n + adds k a) + answers k rest) (n + answers k (a ∷ rest))
      (act_all rest (act a c))
      (act_all-InTurn k rest (n + adds k a) (act a c) (act-InTurn k n a c h)) (omega arith)

act-job_missing : (a : Action) (c : FullCard) → (act a c).job_missing ≡ c.job_missing
unfolding mutate
act-job_missing a c = elim (act-Outcome a c) [
  | inl (j, answer, e) ↦ ap (λ b. (act b c).job_missing) e ∙ (act-answering j answer c).2
  | inr (inl q) ↦ q.2
  | inr (inr (q, e, may)) ↦ ap (λ d. d.job_missing) e
]

act_all-job_missing :
    (actions : List Action) (c : FullCard) → (act_all actions c).job_missing ≡ c.job_missing
act_all-job_missing [] c = refl
act_all-job_missing (a ∷ rest) c = act_all-job_missing rest (act a c) ∙ act-job_missing a c

-- Whatever is done with a new card, the requests of a kind are at most one more than the answers to
-- them, and the notification that a job is missing is never shown.
pub act_all-count :
    (k : Kind) (actions : List Action) (r : OnboardedUserListItem) (cache : Cache)
    → (count k (act_all actions (new_card r cache)).requests ≤ suc (answers k actions))
      × ((act_all actions (new_card r cache)).job_missing ≡ 0)
act_all-count k actions r cache = (
  InTurn-count k (answers k actions) (act_all actions (new_card r cache)) (
      weaken_turn k (0 + answers k actions) _ (act_all actions (new_card r cache))
        (act_all-InTurn k actions 0 (new_card r cache) (omega arith)) (omega arith)),
  act_all-job_missing actions (new_card r cache),
)
