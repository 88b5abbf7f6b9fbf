-- ===== src/Common/Sorting.antt =====
-- `Array.prototype.sort`, which is stable, and the order of texts by their code units.
use mathlib.Core.Path.{◌≡◌, refl, ap, ◌∙◌}
use mathlib.Core.Logic.{inl, inr}
use mathlib.Core.Bool.{Bool, true, false, not, ◌&&◌, ◌||◌}
use mathlib.Core.List.{List, [], ◌∷◌, Perm}
use mathlib.Core.List.Perm
use native.Mathlib.Omega.{arith}
use it_automation_workspace.Common.Tests.{if◌then◌else◌, ltb, ◌==◌, Bool-cases}
use it_automation_workspace.Common.Lists.{filter, any, All}
use it_automation_workspace.Common.Strings.{Text, text_eq, text_eq_iff}

module _ {ℓ} {A : Type ℓ} (le : A → A → Bool) where
  abbrev pub insert : A → List A → List A
  insert x [] = x ∷ []
  insert x (y ∷ ys) = let rest = insert x ys in if le x y then x ∷ (y ∷ ys) else y ∷ rest

  -- `xs.sort`, by insertion: an item comes before those after it that it may not follow.
  abbrev pub sort : List A → List A
  sort [] = []
  sort (x ∷ xs) = insert x (sort xs)

  abbrev pub IsSorted : List A → Type 0
  IsSorted [] = Unit
  IsSorted (x ∷ xs) = All (λ y. le x y ≡ true) xs × IsSorted xs

  insert-perm : (x : A) (ys : List A) → Perm (insert x ys) (x ∷ ys)
  insert-perm x [] = Perm.rfl
  insert-perm x (y ∷ ys) = elim (Bool-cases (le x y)) [
    | inl e ↦ rw e Perm.rfl
    | inr e ↦ rw e (Perm.trans (Perm.cons y (insert-perm x ys)) (Perm.swap x y ys))
  ]

  pub sort-perm : (xs : List A) → Perm (sort xs) xs
  sort-perm [] = Perm.rfl
  sort-perm (x ∷ xs) = Perm.trans (insert-perm x (sort xs)) (Perm.cons x (sort-perm xs))

  any-insert : (p : A → Bool) (x : A) (ys : List A) → any p (insert x ys) ≡ p x || any p ys
  any-insert p x [] = refl
  any-insert p x (y ∷ ys) = ground (arith, any-insert p x ys)

  pub any-sort : (p : A → Bool) (xs : List A) → any p (sort xs) ≡ any p xs
  any-sort p [] = refl
  any-sort p (x ∷ xs) = any-insert p x (sort xs) ∙ ap (λ b. p x || b) (any-sort p xs)

  module _ (total : (a b : A) → le a b ≡ false → le b a ≡ true)
      (trans : (a b c : A) → le a b ≡ true → le b c ≡ true → le a c ≡ true) where
    below-All :
        (x y : A) (ys : List A)
        → le x y ≡ true
        → All (λ z. le y z ≡ true) ys
        → All (λ z. le x z ≡ true) ys
    below-All x y [] e h = tt
    below-All x y (z ∷ zs) e h = (trans x y z e h.0, below-All x y zs e h.1)

    All-insert :
        (x y : A) (ys : List A)
        → le y x ≡ true
        → All (λ z. le y z ≡ true) ys
        → All (λ z. le y z ≡ true) (insert x ys)
    All-insert x y [] e h = (e, tt)
    All-insert x y (z ∷ zs) e h = elim (Bool-cases (le x z)) [
      | inl t ↦ rw t (e, h)
      | inr t ↦ rw t (h.0, All-insert x y zs e h.1)
    ]

    insert-IsSorted : (x : A) (ys : List A) → IsSorted ys → IsSorted (insert x ys)
    insert-IsSorted x [] h = (tt, tt)
    insert-IsSorted x (y ∷ ys) h = elim (Bool-cases (le x y)) [
      | inl t ↦ rw t ((t, below-All x y ys t h.0), h)
      | inr t ↦ rw t (All-insert x y ys (total x y t) h.0, insert-IsSorted x ys h.1)
    ]

    pub sort-IsSorted : (xs : List A) → IsSorted (sort xs)
    sort-IsSorted [] = tt
    sort-IsSorted (x ∷ xs) = insert-IsSorted x (sort xs) (sort-IsSorted xs)

  -- Items that a test picks keep their order, if none of them comes before another by `le` alone.
  filter-insert :
      (p : A → Bool) (x : A) (ys : List A)
      → ((y : A) → p x ≡ true → p y ≡ true → le x y ≡ true)
      → filter p (insert x ys) ≡ (if p x then x ∷ filter p ys else filter p ys)
  filter-insert p x [] h = refl
  filter-insert p x (y ∷ ys) h = ground (arith, filter-insert p x ys h, h y)

  pub filter-sort :
      (p : A → Bool) (xs : List A)
      → ((x y : A) → p x ≡ true → p y ≡ true → le x y ≡ true)
      → filter p (sort xs) ≡ filter p xs
  filter-sort p [] h = refl
  filter-sort p (x ∷ xs) h = filter-insert p x (sort xs) (h x) ∙ rw (filter-sort p xs h) refl

-- `s <= t` by code units, the order of `sort()` without an argument
abbrev pub text_leb : Text → Text → Bool
text_leb [] t = true
text_leb (c ∷ s) [] = false
text_leb (c ∷ s) (d ∷ t) = ltb c d || (c == d && text_leb s t)

pub text_leb_total : (s t : Text) → text_leb s t ≡ false → text_leb t s ≡ true
text_leb_total [] t e = cc
text_leb_total (c ∷ s) [] e = refl
text_leb_total (c ∷ s) (d ∷ t) e = ground (arith, text_leb_total s t)

pub text_leb_trans :
    (s t u : Text) → text_leb s t ≡ true → text_leb t u ≡ true → text_leb s u ≡ true
text_leb_trans [] t u e f = refl
text_leb_trans (c ∷ s) [] u e f = cc
text_leb_trans (c ∷ s) (d ∷ t) [] e f = cc
text_leb_trans (c ∷ s) (d ∷ t) (x ∷ u) e f = ground (arith, text_leb_trans s t u)

-- `xs.includes(s)`
abbrev pub includes : Text → List Text → Bool
includes s = any (λ t. text_eq s t)

-- `[...new Set(xs)]`: of equal texts the first
abbrev pub distinct : List Text → List Text
distinct [] = []
distinct (s ∷ ss) = s ∷ filter (λ t. not (text_eq s t)) (distinct ss)

abbrev pub NoRepeats : List Text → Type 0
NoRepeats [] = Unit
NoRepeats (s ∷ ss) = (includes s ss ≡ false) × NoRepeats ss

pub text_eq_sym : (s t : Text) → text_eq s t ≡ text_eq t s
text_eq_sym [] [] = refl
text_eq_sym [] (d ∷ t) = refl
text_eq_sym (c ∷ s) [] = refl
text_eq_sym (c ∷ s) (d ∷ t) = ground (arith, text_eq_sym s t)

pub includes-filter :
    (s : Text) (p : Text → Bool) (ss : List Text) → includes s (filter p ss) ≡ includes s ss && p s
includes-filter s p [] = refl
includes-filter s p (t ∷ ss) = elim (Bool-cases (text_eq s t)) [
  | inl e ↦
      let same : p t ≡ p s = ap p ((text_eq_iff t s).0 (text_eq_sym t s ∙ e)) in
      ground (arith, includes-filter s p ss)
  | inr e ↦ ground (arith, includes-filter s p ss)
]

pub includes-distinct : (s : Text) (ss : List Text) → includes s (distinct ss) ≡ includes s ss
includes-distinct s [] = refl
includes-distinct s (t ∷ ss) = ground (
  arith,
  includes-filter s (λ u. not (text_eq t u)) (distinct ss),
  includes-distinct s ss,
  text_eq_sym s t,
)

filter-NoRepeats : (p : Text → Bool) (ss : List Text) → NoRepeats ss → NoRepeats (filter p ss)
filter-NoRepeats p [] h = tt
filter-NoRepeats p (s ∷ ss) h = elim (Bool-cases (p s)) [
  | inl e ↦ rw e (rw (includes-filter s p ss, h.0) refl, filter-NoRepeats p ss h.1)
  | inr e ↦ rw e (filter-NoRepeats p ss h.1)
]

distinct-NoRepeats : (ss : List Text) → NoRepeats (distinct ss)
distinct-NoRepeats [] = tt
distinct-NoRepeats (s ∷ ss) = (
  rw (includes-filter s (λ t. not (text_eq s t)) (distinct ss))
      (let same : text_eq s s ≡ true = (text_eq_iff s s).1 refl in rw same (ground arith)),
  filter-NoRepeats (λ t. not (text_eq s t)) (distinct ss) (distinct-NoRepeats ss),
)

insert-NoRepeats :
    (s : Text) (ss : List Text)
    → includes s ss ≡ false
    → NoRepeats ss
    → NoRepeats (insert text_leb s ss)
insert-NoRepeats s [] e h = (refl, tt)
insert-NoRepeats s (t ∷ ss) e h = elim (Bool-cases (text_leb s t)) [
  | inl f ↦ rw f (e, h)
  | inr f ↦ rw f (
    rw (any-insert text_leb (λ u. text_eq t u) s ss) (ground (arith, text_eq_sym s t)),
    insert-NoRepeats s ss (ground arith) h.1,
  )
]

sort-NoRepeats : (ss : List Text) → NoRepeats ss → NoRepeats (sort text_leb ss)
sort-NoRepeats [] h = tt
sort-NoRepeats (s ∷ ss) h =
    insert-NoRepeats s (sort text_leb ss) (any-sort text_leb (λ t. text_eq s t) ss ∙ h.0)
      (sort-NoRepeats ss h.1)

-- `[...new Set(ss)].sort()` is ascending, has each of the texts once, and no other.
pub sort-distinct :
    (ss : List Text)
    → let sorted = sort text_leb (distinct ss) in
      IsSorted text_leb sorted × NoRepeats sorted × ((s : Text) → includes s sorted ≡ includes s ss)
sort-distinct ss = (
  sort-IsSorted text_leb text_leb_total text_leb_trans (distinct ss),
  sort-NoRepeats (distinct ss) (distinct-NoRepeats ss),
  λ s. any-sort text_leb (λ t. text_eq s t) (distinct ss) ∙ includes-distinct s ss,
)
