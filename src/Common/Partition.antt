-- ===== src/Common/Partition.antt =====
-- Lists of tests of which each item passes exactly one: the items that pass them make up the list.
use mathlib.Core.Path.{◌≡◌, refl}
use mathlib.Core.Logic.{inl, inr}
use mathlib.Core.Bool.{Bool, true, false, not, ◌&&◌}
use mathlib.Core.List.{List, [], ◌∷◌, ◌++◌, Perm, perm_middle}
use mathlib.Core.List.Perm
use native.Mathlib.Omega.{arith}
use it_automation_workspace.Common.Tests.{if◌then◌else◌, Bool-cases}
use it_automation_workspace.Common.Lists.{filter, All}

module _ {ℓ} {A : Type ℓ} where
  abbrev pub no_one : List (A → Bool) → A → Bool
  no_one [] a = true
  no_one (p ∷ ps) a = not (p a) && no_one ps a

  abbrev pub only_one : List (A → Bool) → A → Bool
  only_one [] a = false
  only_one (p ∷ ps) a = let rest = only_one ps a in if p a then no_one ps a else rest

  -- The items that pass the first test, those that pass the second, and so on.
  abbrev pub classes : List (A → Bool) → List A → List A
  classes [] xs = []
  classes (p ∷ ps) xs = filter p xs ++ classes ps xs

  classes_nil : (ps : List (A → Bool)) → classes ps [] ≡ []
  classes_nil [] = refl
  classes_nil (p ∷ ps) = classes_nil ps

  classes_of_no_one :
      (ps : List (A → Bool)) (a : A) (xs : List A)
      → no_one ps a ≡ true
      → classes ps (a ∷ xs) ≡ classes ps xs
  classes_of_no_one [] a xs h = refl
  classes_of_no_one (p ∷ ps) a xs h = ground (arith, classes_of_no_one ps a xs)

  classes_cons :
      (ps : List (A → Bool)) (a : A) (xs : List A)
      → only_one ps a ≡ true
      → Perm (classes ps (a ∷ xs)) (a ∷ classes ps xs)
  classes_cons [] a xs h = cc
  classes_cons (p ∷ ps) a xs h = elim (Bool-cases (p a)) [
    | inl e ↦
        let rest : no_one ps a ≡ true = ground arith in
        rw (e, classes_of_no_one ps a xs rest) (Perm.refl _)
    | inr e ↦
        let rest : only_one ps a ≡ true = ground arith in
        rw e (
          Perm.trans (Perm.append_left (filter p xs) (classes_cons ps a xs rest)) (perm_middle _ _))
  ]

  pub classes-perm :
      (ps : List (A → Bool)) (xs : List A)
      → All (λ a. only_one ps a ≡ true) xs
      → Perm (classes ps xs) xs
  classes-perm ps [] h = rw (classes_nil ps) (Perm.refl [])
  classes-perm ps (a ∷ xs) h =
      Perm.trans (classes_cons ps a xs h.0) (Perm.cons a (classes-perm ps xs h.1))
