-- ===== src/Scan/Cidr.antt =====
-- The check of a subnet before a scan: `scanRequestSchema` of frontend/src/types/scan.ts, with the
-- matching of its regular expression by backtracking.
use it_automation_workspace.Common.{
  ℕ, zero, suc, ◌-◌, ◌≤◌, Bool, true, false, ◌&&◌, ◌||◌, [], ◌∷◌, ◌++◌, length, All, Text, trim,
  leb, ◌==◌, if◌then◌else◌, ◌≡◌, refl, append-nil, ap, sym, ◌∙◌, arith, ◌↔◌, inl, inr, Bool-cases,
}

-- `\d`
abbrev pub is_digit : ℕ → Bool
is_digit c = leb 48 c && leb c 57

-- A part of a regular expression, followed by what the rest of the expression accepts.
abbrev pub Pattern : Type 0
Pattern = Text → Bool

-- `\d{least,most}`
abbrev pub digits : (least most : ℕ) → Pattern → Pattern
digits least zero rest s = least == 0 && rest s
digits least (suc most) rest [] = least == 0 && rest []
digits least (suc most) rest (c ∷ s) =
    let longer = digits (least - 1) most rest s in
    (is_digit c && longer) || (least == 0 && rest (c ∷ s))

abbrev pub literal : ℕ → Pattern → Pattern
literal c rest [] = false
literal c rest (d ∷ s) = d == c && rest s

-- `$`
abbrev pub at_end : Pattern
at_end [] = true
at_end (c ∷ s) = false

abbrev pub dot : ℕ
dot = 46

abbrev pub slash : ℕ
slash = 47

-- `^(\d{1,3}\.){3}\d{1,3}\/\d{1,2}$`
unfoldable pub matches_cidr : Pattern
matches_cidr = digits 1 3 (
    literal dot (
      digits 1 3
        (literal dot (digits 1 3 (literal dot (digits 1 3 (literal slash (digits 1 2 at_end))))))))

-- How the schema answers. Its issues are the message of the first check that fails.
pub data Checked : Type 0 where
  missing_subnet malformed_subnet : Checked
  parsed : Text → Checked

-- `scanRequestSchema.safeParse({ subnet })`
unfoldable pub scan_request : Text → Checked
unfolding matches_cidr
scan_request subnet =
    if length (trim subnet) == 0
    then missing_subnet
    else if matches_cidr (trim subnet)
    then parsed (trim subnet)
    else malformed_subnet

-- A number of a number of digits.
abbrev pub IsNumber : ℕ → ℕ → Text → Type 0
IsNumber least most p = (All (λ c. is_digit c ≡ true) p) × (least ≤ length p) × (length p ≤ most)

-- Four numbers of one to three digits with dots between them, a slash, and one or two digits.
pub record IsCidr (s : Text) : Type 0 where
  pub first : Text
  pub second : Text
  pub third : Text
  pub fourth : Text
  pub size : Text
  pub first_number : IsNumber 1 3 first
  pub second_number : IsNumber 1 3 second
  pub third_number : IsNumber 1 3 third
  pub fourth_number : IsNumber 1 3 fourth
  pub size_number : IsNumber 1 2 size
  pub together : s ≡ first ++ dot ∷ (second ++ dot ∷ (third ++ dot ∷ (fourth ++ slash ∷ size)))

digits-cons :
    (least most : ℕ) (rest : Pattern) (c : ℕ) (s : Text)
    → is_digit c ≡ true
    → ((p t : Text) × IsNumber (least - 1) most p × (s ≡ p ++ t) × (rest t ≡ true))
    → (p t : Text) × IsNumber least (suc most) p × (c ∷ s ≡ p ++ t) × (rest t ≡ true)
digits-cons least most rest c s d (p, t, (all, low, high), e, r) =
    (c ∷ p, t, ((d, all), omega (arith, low), omega (arith, high)), ap (λ u. c ∷ u) e, r)

-- A text that `digits` accepts, and one that `literal` accepts, split.
pub digits-split :
    (least most : ℕ) (rest : Pattern) (s : Text)
    → digits least most rest s ≡ true
    → (p t : Text) × IsNumber least most p × (s ≡ p ++ t) × (rest t ≡ true)
digits-split least zero rest s h =
    ([], s, (tt, ground (arith, h), ground arith), refl, ground (arith, h))
digits-split least (suc most) rest [] h =
    ([], [], (tt, ground (arith, h), ground arith), refl, ground (arith, h))
digits-split least (suc most) rest (c ∷ s) h =
    elim (Bool-cases (is_digit c && digits (least - 1) most rest s)) [
      | inl go ↦
          digits-cons least most rest c s (ground (arith, go))
            (digits-split (least - 1) most rest s (ground (arith, go)))
      | inr stop ↦
          ([], c ∷ s, (tt, ground (arith, h, stop), ground arith), refl, ground (arith, h, stop))
    ]

digits-append :
    (least most : ℕ) (rest : Pattern) (p t : Text)
    → IsNumber least most p
    → rest t ≡ true
    → digits least most rest (p ++ t) ≡ true
digits-append least zero rest [] t (all, low, high) r = ground arith
digits-append least zero rest (c ∷ p) t (all, low, high) r = ground arith
digits-append least (suc most) rest [] [] (all, low, high) r = ground arith
digits-append least (suc most) rest [] (d ∷ t) (all, low, high) r = ground arith
digits-append least (suc most) rest (c ∷ p) t (all, low, high) r =
    rw
      (
        all.0,
        digits-append (least - 1) most rest p t (all.1, omega (arith, low), omega (arith, high)) r,
      )
      refl

literal-split :
    (c : ℕ) (rest : Pattern) (s : Text)
    → literal c rest s ≡ true
    → (t : Text) × (s ≡ c ∷ t) × (rest t ≡ true)
literal-split c rest [] h = cc
literal-split c rest (d ∷ s) h = (s, ap (λ e. e ∷ s) (ground (arith, h)), ground (arith, h))

literal-cons : (c : ℕ) (rest : Pattern) (t : Text) → rest t ≡ true → literal c rest (c ∷ t) ≡ true
literal-cons c rest t r = ground arith

at_end-split : (s : Text) → at_end s ≡ true → s ≡ []
at_end-split [] h = refl
at_end-split (c ∷ s) h = cc

-- A number with a character after it.
abbrev field : ℕ → Pattern → Pattern
field c rest = digits 1 3 (literal c rest)

field-split :
    (c : ℕ) (rest : Pattern) (s : Text)
    → field c rest s ≡ true
    → (p t : Text) × IsNumber 1 3 p × (s ≡ p ++ c ∷ t) × (rest t ≡ true)
field-split c rest s h =
    let (p, u, n, e, r) = digits-split 1 3 (literal c rest) s h in
    let (t, f, q) = literal-split c rest u r in (p, t, n, e ∙ ap (λ v. p ++ v) f, q)

field-append :
    (c : ℕ) (rest : Pattern) (p t : Text)
    → IsNumber 1 3 p
    → rest t ≡ true
    → field c rest (p ++ c ∷ t) ≡ true
field-append c rest p t n r =
    digits-append 1 3 (literal c rest) p (c ∷ t) n (literal-cons c rest t r)

-- What stands after one, two and three of the dots, and after the slash.
abbrev after_slash : Pattern
after_slash = digits 1 2 at_end

abbrev fourth_field : Pattern
fourth_field = field slash after_slash

abbrev third_field : Pattern
third_field = field dot fourth_field

abbrev second_field : Pattern
second_field = field dot third_field

IsCidr-split : (s : Text) → field dot second_field s ≡ true → IsCidr s
IsCidr-split s h =
    let (a, s₁, na, e₁, h₁) = field-split dot second_field s h in
    let (b, s₂, nb, e₂, h₂) = field-split dot third_field s₁ h₁ in
    let (c, s₃, nc, e₃, h₃) = field-split dot fourth_field s₂ h₂ in
    let (d, s₄, nd, e₄, h₄) = field-split slash after_slash s₃ h₃ in
    let (e, s₅, ne, e₅, h₅) = digits-split 1 2 at_end s₄ h₄ in
    record {
      first = a;
      second = b;
      third = c;
      fourth = d;
      size = e;
      first_number = na;
      second_number = nb;
      third_number = nc;
      fourth_number = nd;
      size_number = ne;
      together =
          e₁
          ∙ ap (λ u. a ++ dot ∷ u)
              (e₂
                ∙ ap (λ u. b ++ dot ∷ u)
                    (e₃
                      ∙ ap (λ u. c ++ dot ∷ u)
                          (e₄
                            ∙ ap (λ u. d ++ slash ∷ u)
                                (e₅ ∙ ap (λ u. e ++ u) (at_end-split s₅ h₅) ∙ append-nil e))));
    }

cidr-append : (s : Text) → IsCidr s → field dot second_field s ≡ true
cidr-append s c = rw c.together (
    field-append dot second_field c.first _ c.first_number (
      field-append dot third_field c.second _ c.second_number (
        field-append dot fourth_field c.third _ c.third_number
          (field-append slash after_slash c.fourth _ c.fourth_number last))))
  where
    last : after_slash c.size ≡ true
    last = rw (sym (append-nil c.size)) (digits-append 1 2 at_end c.size [] c.size_number refl)

pub matches_cidr-IsCidr : (s : Text) → (matches_cidr s ≡ true) ↔ IsCidr s
unfolding matches_cidr
matches_cidr-IsCidr s = (IsCidr-split s, cidr-append s)

-- The two tests of the schema, on the trimmed text.
checked-parsed :
    (u t : Text)
    → (if length u == 0
        then missing_subnet
        else if matches_cidr u
        then parsed u
        else malformed_subnet)
      ≡ parsed t
    → (t ≡ u) × (matches_cidr u ≡ true)
checked-parsed u t h = (ground arith, ground arith)

suc_is_not_zero : (n : ℕ) → (suc n == 0) ≡ false
suc_is_not_zero n = ground arith

matches_cidr-length : (u : Text) → matches_cidr u ≡ true → (length u == 0) ≡ false
unfolding matches_cidr
matches_cidr-length [] h = cc
matches_cidr-length (c ∷ u) h = suc_is_not_zero (length u)

checked-matches :
    (u : Text)
    → matches_cidr u ≡ true
    → (if length u == 0
        then missing_subnet
        else if matches_cidr u
        then parsed u
        else malformed_subnet)
      ≡ parsed u
checked-matches u h = rw (matches_cidr-length u h, h) refl

-- The schema passes on the trimmed text exactly if that is in CIDR notation.
pub scan_request-parsed :
    (subnet t : Text) → (scan_request subnet ≡ parsed t) ↔ ((t ≡ trim subnet) × IsCidr t)
unfolding scan_request
scan_request-parsed subnet t = (
  λ h.
      let (e, m) = checked-parsed (trim subnet) t h in
      (e, rw e ((matches_cidr-IsCidr (trim subnet)).0 m)),
  λ h. rw h.0 (checked-matches (trim subnet) (rw (sym h.0) ((matches_cidr-IsCidr t).1 h.1))),
)
