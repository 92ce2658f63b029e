-- ===== src/Interface/Views.antt =====
-- frontend/src/lib/plural.ts, notification-view.ts, document-view.ts and list-params.ts, and the names of
-- format.ts and contacts.ts: what the lists and the cards of the interface say.
use my_build.Base.{
  ℕ, ◌-◌, ◌%◌, max, String, ◌<>◌, Bool, ◌&&◌, List, [], ◌∷◌, map, Option, none, some, any, nat_beq,
  leb, ltb, decimal, ◌==◌, String_eq, if◌then◌else◌,
}
use mathlib.Core.Option
use my_build.Shared.Enums.{Role, Role_eq, FileOwnerType, FileOwnerType_eq}
use my_build.Shared.Labels.{format_order_number}
use my_build.Store.Queries.{sort_rows}
use my_build.Realtime.Events.{NotificationDto}

pub record PluralForms : Type 0 where
  pub one : String
  pub few : String
  pub many : String

unfoldable pub plural_ru : ℕ → PluralForms → String
plural_ru count forms =
    let tail = count % 100 in
    let last = tail % 10 in
    if leb 11 tail && leb tail 14
    then forms.many
    else if nat_beq last 1
    then forms.one
    else if leb 2 last && leb last 4
    then forms.few
    else forms.many

-- A text that is missing or empty leads nowhere.
abbrev pub nonempty : Option String → Option String
nonempty none = none
nonempty (some s) = if s == "" then none else some s

unfoldable pub notification_href : NotificationDto → Option String
notification_href notification =
    Option.map (λ order_id. "/orders/" <> order_id) (nonempty notification.order_id)

abbrev pub max_bell_count : ℕ
max_bell_count = 99

-- Of a count that is known.
unfoldable pub format_unread_count : Option ℕ → Option String
format_unread_count none = none
format_unread_count (some count) =
    if ltb count 1
    then none
    else if ltb max_bell_count count
    then some "99+"
    else some (decimal count)

unfoldable pub bell_label : Option ℕ → String
unfolding format_unread_count
bell_label count = elim (format_unread_count count) [
  | none ↦ "Уведомления"
  | some badge ↦ "Уведомления, непрочитанных: " <> badge
]

pub record OrderOption : Type 0 where
  pub id : String
  pub label : String

pub record OrderRef : Type 0 where
  pub id : String
  pub order_number : ℕ
  pub title : String

-- The first of each identifier.
unfoldable pub distinct_orders : List String → List OrderRef → List OrderRef
distinct_orders seen [] = []
distinct_orders seen (order ∷ orders) =
    let skipped = distinct_orders seen orders in
    let kept = distinct_orders (order.id ∷ seen) orders in
    if any (λ id. id == order.id) seen then skipped else order ∷ kept

abbrev pub option_of : OrderRef → OrderOption
option_of order = record {
  id = order.id;
  label = format_order_number order.order_number <> " · " <> order.title;
}

unfoldable pub to_order_options : List OrderRef → List OrderOption
unfolding distinct_orders
to_order_options orders =
    map option_of
      (sort_rows OrderRef (λ a b. leb b.order_number a.order_number) (distinct_orders [] orders))

unfoldable pub with_selected_order : List OrderOption → Option String → List OrderOption
with_selected_order options none = options
with_selected_order options (some selected) =
    if any (λ (option : OrderOption). option.id == selected) options
    then options
    else (record { id = selected; label = "Выбранный заказ" }) ∷ options

abbrev pub is_own_file : FileOwnerType → Role → Bool
is_own_file owner_type viewer =
    owner_type == (if viewer == Role.client then FileOwnerType.client else FileOwnerType.company)

unfoldable pub document_owner_label : FileOwnerType → Role → String
document_owner_label owner_type viewer =
    if is_own_file owner_type viewer
    then "Ваш файл"
    else if owner_type == FileOwnerType.client
    then "Файл клиента"
    else "Файл исполнителя"

unfoldable pub document_owner_tab_label : FileOwnerType → Role → String
document_owner_tab_label owner_type viewer =
    if is_own_file owner_type viewer
    then "Мои файлы"
    else if owner_type == FileOwnerType.client
    then "Файлы клиента"
    else "Файлы исполнителя"

-- The page before; from behind the last page, the last one.
unfoldable pub previous_page : ℕ → ℕ → ℕ
previous_page page total_pages = if ltb total_pages page then max total_pages 1 else page - 1
