-- ===== src/Onboarding/Page/View/Numbers.antt =====
-- The numbers of the pipeline page and what stands below them (frontend/src/pages/Onboarding.tsx).
use Prim.Native.String.{String}
use it_automation_workspace.Common.{
  ℕ, ◌+◌, false, Option, none, some, List, [], ◌∷◌, map, length, length-map, filter, All, ◌≡◌, refl,
  sym, suc, ap, ap₂, ◌∙◌, arith,
}
use it_automation_workspace.Onboarding.{
  OnboardingWorkflowStatus, pending, ad_creating, email_sending, jira_creating, partially_complete,
  OnboardedUserListItem,
}
use it_automation_workspace.Onboarding.Page.{
  active_columns, column_records, completed_records, offboarded_records, stats, ColumnConfig,
  column_config,
}
use it_automation_workspace.Onboarding.Page.Pipeline.{IsListed}
use it_automation_workspace.Onboarding.Card.View.{full_name}
use it_automation_workspace.Onboarding.Page.View.{
  Pipeline, PipelineStat, pipeline_stats, column_header, column_view, Column, ColumnBody,
  empty_column, cards, column_body, OffboardedCard, offboarded_card, Section, completed_section,
  completed_section_of, offboarded_section, offboarded_section_of, PageState, pipeline,
  onboarding_page,
}

abbrev pub section_count : {A : Type 0} → Option (Section A) → ℕ
section_count none = 0
section_count (some s) = s.count

-- The numbers in the order of the page.
abbrev pub values : List PipelineStat → List ℕ
values = map (λ (s : PipelineStat). s.value)

abbrev pub counts : List Column → List ℕ
counts = map (λ (c : Column). c.header.count)

-- The cards that a column and a section show.
abbrev pub cards_in : ColumnBody → List OnboardedUserListItem
cards_in empty_column = []
cards_in (cards rs) = rs

abbrev pub cards_of : Column → List OnboardedUserListItem
cards_of c = cards_in c.body

abbrev pub items_of : {A : Type 0} → Option (Section A) → List A
items_of none = []
items_of (some s) = s.items

-- What the numbers at the top have to be, from how many cards the columns and the sections show.
abbrev pub numbers_of : List ℕ → (completed offboarded : ℕ) → List ℕ
numbers_of (waiting ∷ ad ∷ email ∷ jira ∷ partly ∷ broken ∷ []) completed offboarded =
    (waiting + ad + email + jira + partly)
    ∷ (ad + email + jira)
    ∷ partly
    ∷ completed
    ∷ broken
    ∷ offboarded
    ∷ []
numbers_of _ completed offboarded = []

completed_section-count :
    (s : PageState) (rs : List OnboardedUserListItem)
    → section_count (completed_section_of s rs) ≡ length rs
completed_section-count s [] = refl
completed_section-count s (r ∷ rs) = refl

offboarded_section-count :
    (to_day : String → String) (s : PageState) (rs : List OnboardedUserListItem)
    → section_count (offboarded_section_of to_day s rs) ≡ length rs
offboarded_section-count to_day s [] = refl
offboarded_section-count to_day s (r ∷ rs) = refl

abbrev number : OnboardingWorkflowStatus → List OnboardedUserListItem → ℕ
number id rs = length (column_records (some rs) id)

-- The numbers that are sums of columns.
abbrev SumsOfColumns : List OnboardedUserListItem → Type 0
SumsOfColumns rs =
    ((stats (some rs)).active
      ≡ number pending rs
        + number ad_creating rs
        + number email_sending rs
        + number jira_creating rs
        + number partially_complete rs)
    × ((stats (some rs)).in_progress
        ≡ number ad_creating rs + number email_sending rs + number jira_creating rs)

sums_cons :
    (r : OnboardedUserListItem) (rs : List OnboardedUserListItem)
    → IsListed r
    → SumsOfColumns rs
    → SumsOfColumns (r ∷ rs)
unfolding stats column_records
sums_cons r rs h ih = (ground arith, ground arith)

sums_lem : (rs : List OnboardedUserListItem) → All IsListed rs → SumsOfColumns rs
unfolding stats column_records
sums_lem [] h = (refl, refl)
sums_lem (r ∷ rs) h = sums_cons r rs h.0 (sums_lem rs h.1)

cards_in-column_body : (rs : List OnboardedUserListItem) → cards_in (column_body rs) ≡ rs
cards_in-column_body [] = refl
cards_in-column_body (r ∷ rs) = refl

map-cards_of :
    (records : Option (List OnboardedUserListItem)) (cs : List ColumnConfig)
    → map cards_of (map (column_view records) cs)
      ≡ map (λ (c : ColumnConfig). column_records records c.id) cs
unfolding column_view
map-cards_of records [] = refl
map-cards_of records (c ∷ cs) =
    ap₂ (λ x xs. x ∷ xs) (cards_in-column_body (column_records records c.id))
      (map-cards_of records cs)

counts_lem :
    (records : Option (List OnboardedUserListItem)) (cs : List ColumnConfig)
    → counts (map (column_view records) cs)
      ≡ map (λ c. length (cards_of c)) (map (column_view records) cs)
unfolding column_view column_header
counts_lem records [] = refl
counts_lem records (c ∷ cs) =
    ap₂ (λ n ns. n ∷ ns)
      (sym (ap (λ rs. length rs) (cards_in-column_body (column_records records c.id))))
      (counts_lem records cs)

completed_section-items :
    (s : PageState) (rs : List OnboardedUserListItem) → items_of (completed_section_of s rs) ≡ rs
completed_section-items s [] = refl
completed_section-items s (r ∷ rs) = refl

names_lem :
    (to_day : String → String) (rs : List OnboardedUserListItem)
    → map (λ (c : OffboardedCard). c.name) (map (offboarded_card to_day) rs) ≡ map full_name rs
unfolding offboarded_card
names_lem to_day [] = refl
names_lem to_day (r ∷ rs) = ap (λ ns. full_name r ∷ ns) (names_lem to_day rs)

offboarded_section-items :
    (to_day : String → String) (s : PageState) (rs : List OnboardedUserListItem)
    → items_of (offboarded_section_of to_day s rs) ≡ map (offboarded_card to_day) rs
offboarded_section-items to_day s [] = refl
offboarded_section-items to_day s (r ∷ rs) = refl

section_count_lem :
    (s : PageState) (rs : List OnboardedUserListItem)
    → section_count (completed_section_of s rs) ≡ length (items_of (completed_section_of s rs))
section_count_lem s rs =
    completed_section-count s rs ∙ sym (ap (λ rs. length rs) (completed_section-items s rs))

offboarded_count_lem :
    (to_day : String → String) (s : PageState) (rs : List OnboardedUserListItem)
    → section_count (offboarded_section_of to_day s rs)
      ≡ length (items_of (offboarded_section_of to_day s rs))
offboarded_count_lem to_day s [] = refl
offboarded_count_lem to_day s (r ∷ rs) = ap suc (sym (length-map (offboarded_card to_day) rs))

abbrev pipeline_columns : List ColumnConfig
pipeline_columns = filter (λ (c : ColumnConfig). c.is_active) column_config

values_lem :
    (rs : List OnboardedUserListItem)
    → All IsListed rs
    → values (pipeline_stats (stats (some rs)))
      ≡ numbers_of
          (map length (active_columns (some rs)))
          (length (completed_records (some rs)))
          (length (offboarded_records (some rs)))
unfolding pipeline_stats stats active_columns column_records completed_records offboarded_records
values_lem rs h = rw ((sums_lem rs h).0, (sums_lem rs h).1) refl

-- What a page shows of the records. The columns of the pipeline and the two sections have every record
-- of theirs, employees who have left by their names; the header of a column and of a section counts
-- the cards in it, and the numbers at the top are those of the cards.
abbrev pub ShowsNumbers : List OnboardedUserListItem → Pipeline → Type 0
ShowsNumbers rs p =
    (map cards_of p.columns ≡ active_columns (some rs))
    × (items_of p.completed ≡ completed_records (some rs))
    × (map (λ (c : OffboardedCard). c.name) (items_of p.offboarded)
        ≡ map full_name (offboarded_records (some rs)))
    × (counts p.columns ≡ map (λ c. length (cards_of c)) p.columns)
    × (section_count p.completed ≡ length (items_of p.completed))
    × (section_count p.offboarded ≡ length (items_of p.offboarded))
    × (values p.numbers
        ≡ numbers_of (map (λ c. length (cards_of c)) p.columns) (length (items_of p.completed))
            (length (items_of p.offboarded)))

-- A page that is loaded shows every record of a column or a section there, and the numbers of its
-- cards in their headers and at the top, if every record has a status of the union: the active ones
-- at the top are those of all columns but that of the failed ones, those in progress are those of the
-- three columns between the first and that of the partially complete ones, and the others have a
-- column or a section each, which is left out where it is empty.
pub onboarding_page-numbers_of :
    (to_day : String → String) (rs : List OnboardedUserListItem) (s : PageState)
    → All IsListed rs
    → (p : Pipeline) × (onboarding_page to_day false false (some rs) s ≡ pipeline p)
      × ShowsNumbers rs p
unfolding onboarding_page completed_section offboarded_section active_columns
onboarding_page-numbers_of to_day rs s h =
    let done = completed_records (some rs) in
    let gone = offboarded_records (some rs) in
    let shown_columns = map (column_view (some rs)) pipeline_columns in
    let columns : map cards_of shown_columns ≡ active_columns (some rs) =
      map-cards_of (some rs) pipeline_columns in
    (
      _,
      refl,
      (
        columns,
        completed_section-items s done,
        ap (map (λ (c : OffboardedCard). c.name)) (offboarded_section-items to_day s gone)
            ∙ names_lem to_day gone,
        counts_lem (some rs) pipeline_columns,
        section_count_lem s done,
        offboarded_count_lem to_day s gone,
        values_lem rs h
            ∙ ap (λ ls. numbers_of (map length ls) (length done) (length gone)) (sym columns)
            ∙ ap₂ (numbers_of (map (λ c. length (cards_of c)) shown_columns))
                (sym (ap length (completed_section-items s done)))
                (sym (
                  ap length (offboarded_section-items to_day s gone)
                  ∙ length-map (offboarded_card to_day) gone)),
      ),
    )
