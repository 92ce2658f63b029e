-- ===== src/Interface/Forms.antt =====
-- frontend/src/lib/completion-form.ts and work-form.ts: what the dialogs of an order check. A text stands as
-- its code points, of which those outside the basic plane count twice.
use my_build.Base.{
  ℕ, ◌+◌, String, ◌<>◌, Bool, true, false, List, [], ◌∷◌, Option, none, some, count, leb, ltb,
  decimal, ◌==◌, if◌then◌else◌,
}
use my_build.Shared.Enums.{FileOwnerType, FileOwnerType_eq}
use my_build.Shared.OrderNumber.{skip_spaces, all_spaces}
use my_build.Common.Uuid.{codes}
use my_build.Orders.View.{OrderFileDto}

-- `ORDER_LIMITS.comment`.
abbrev pub min_comment : ℕ
min_comment = 1

abbrev pub max_comment : ℕ
max_comment = 2000

-- `trim().length`.
unfoldable pub units_before_end : List ℕ → ℕ
units_before_end [] = 0
units_before_end (c ∷ cs) =
    let rest = units_before_end cs in
    if all_spaces (c ∷ cs) then 0 else if leb 65536 c then rest + 2 else rest + 1

unfoldable pub trimmed_length : String → ℕ
unfolding units_before_end skip_spaces
trimmed_length value = units_before_end (skip_spaces (codes value))

abbrev pub too_long : String
too_long = "Комментарий — не более 2000 символов"

unfoldable pub validate_completion_comment : String → Option String
unfolding trimmed_length
validate_completion_comment value =
    if ltb max_comment (trimmed_length value) then some too_long else none

unfoldable pub validate_correction_comment : String → Option String
unfolding trimmed_length
validate_correction_comment value =
    if ltb (trimmed_length value) min_comment
    then some "Опишите, что нужно доработать"
    else if ltb max_comment (trimmed_length value)
    then some too_long
    else none

pub record WorkFilesFormErrors : Type 0 where
  pub comment : Option String
  pub files : Option String

abbrev pub comment_error : String → Option String
comment_error comment =
    if ltb (trimmed_length comment) 1
    then some "Опишите, что вы загружаете"
    else if ltb max_comment (trimmed_length comment)
    then some too_long
    else none

abbrev pub files_error {ℓ} : {A : Type ℓ} → List A → Option String
files_error [] = some "Приложите хотя бы один файл"
files_error (file ∷ files) = none

unfoldable pub validate_work_files_form {ℓ} : {A : Type ℓ} → String → List A → WorkFilesFormErrors
unfolding trimmed_length
validate_work_files_form comment files = record {
  comment = comment_error comment;
  files = files_error files;
}

unfoldable pub count_company_files : List OrderFileDto → ℕ
count_company_files files =
    count (λ (file : OrderFileDto). file.owner_type == FileOwnerType.company) files

pub record UploadOutcome : Type 0 where
  pub title : String
  pub description : String
  pub changed : Bool

unfoldable pub describe_upload : ℕ → ℕ → UploadOutcome
describe_upload added round =
    if leb added 0
    then record {
      title = "Новых файлов нет";
      description =
          "Эти файлы уже приложены к сдаче №" <> decimal round <> ". Комментарий обновлён.";
      changed = false;
    }
    else record {
      title = if leb added 1 then "Файл загружен" else "Файлы загружены";
      description =
          "Сдача №"
          <> decimal round
          <> " · добавлено: "
          <> decimal added
          <> " · клиент получит уведомление";
      changed = true;
    }
