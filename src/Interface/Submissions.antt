-- ===== src/Interface/Submissions.antt =====
-- frontend/src/lib/submissions.ts: the hand-ins of an order with their files.
use my_build.Base.{
  ℕ, String, List, [], ◌∷◌, ◌++◌, map, Option, none, some, or_else, find, keep, nat_beq, leb,
  includes, ◌==◌, ℕ_eq, String_eq, if◌then◌else◌,
}
use mathlib.Core.Option
use my_build.Shared.Enums.{FileOwnerType, FileOwnerType_eq}
use my_build.Store.Queries.{sort_rows}
use my_build.Orders.View.{OrderFileDto, OrderSubmissionDto, OrderDetail}

pub record SubmissionView : Type 0 where
  pub round : ℕ
  pub comment : String
  pub submitted_at : Option String
  pub files : List OrderFileDto

pub record SubmissionsView : Type 0 where
  pub latest : Option SubmissionView
  pub history : List SubmissionView
  pub current : Option SubmissionView

-- `new Set(…)`: each number once.
unfoldable pub distinct_rounds : List ℕ → List ℕ
distinct_rounds [] = []
distinct_rounds (n ∷ ns) = let rest = distinct_rounds ns in if includes ns n then rest else n ∷ rest

abbrev pub company_files : List OrderFileDto → List OrderFileDto
company_files files = keep (λ file. file.owner_type == FileOwnerType.company) files

unfoldable pub submission_view : OrderDetail → ℕ → SubmissionView
submission_view order round =
    let submission =
      find (λ (item : OrderSubmissionDto). nat_beq item.round round) order.submissions in
    record {
      round = round;
      comment = or_else (Option.map (λ (item : OrderSubmissionDto). item.comment) submission) "";
      submitted_at = Option.bind submission (λ item. item.submitted_at);
      files =
          keep (λ (file : OrderFileDto). nat_beq file.submission_round round)
            (company_files order.files);
    }

-- `views.at(-1)` and `views.slice(0, -1).reverse()`, of the views from the first to the last.
abbrev pub last_of : {A : Type 0} → List A → Option A
last_of [] = none
last_of (x ∷ xs) = let rest = last_of xs in elim rest [ none ↦ some x | some y ↦ some y ]

abbrev pub earlier_reversed : {A : Type 0} → List A → List A
earlier_reversed [] = []
earlier_reversed (x ∷ []) = []
earlier_reversed (x ∷ y ∷ xs) = let rest = earlier_reversed (y ∷ xs) in rest ++ x ∷ []

-- A hand-in that was not sent is open.
abbrev pub open_of : Option SubmissionView → Option SubmissionView
open_of none = none
open_of (some view) = elim view.submitted_at [ none ↦ some view | some at ↦ none ]

abbrev pub rounds_of : OrderDetail → List ℕ
rounds_of order = sort_rows ℕ leb (
    distinct_rounds (
      map (λ (item : OrderSubmissionDto). item.round) order.submissions
      ++ map (λ (file : OrderFileDto). file.submission_round) (company_files order.files)))

unfoldable pub resolve_submissions : OrderDetail → SubmissionsView
unfolding distinct_rounds submission_view
resolve_submissions order =
    let views = map (submission_view order) (rounds_of order) in
    record {
      latest = last_of views;
      history = earlier_reversed views;
      current = open_of (last_of views);
    }
