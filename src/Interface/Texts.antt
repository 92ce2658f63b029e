-- ===== src/Interface/Texts.antt =====
-- frontend/src/lib/order-now.ts, work-view.ts, completion-view.ts and offer-view.ts: what the interface
-- says of an order and of an offer to each side.
use my_build.Base.{String, ◌<>◌, Bool, true, false, ℕ, Option, none, some, if◌then◌else◌}
use my_build.Shared.Enums.{OrderStatus, OfferStatus}
use my_build.Shared.Offers.{is_finally_rejected}
use my_build.Shared.Labels.{order_status_labels}
use my_build.Orders.View.{OfferDto}

unfoldable pub client_text : OrderStatus → String
client_text OrderStatus.waiting =
    "Заказ виден компаниям в ленте. Первое предложение придёт уведомлением — выбирать исполнителя будете вы."
client_text OrderStatus.awaiting_confirmation =
    "Предложения продолжают приходить, пока вы не выбрали исполнителя. Примете одно — остальные получат «Не выбрано», а цена сделки зафиксируется."
client_text OrderStatus.in_progress =
    "Исполнитель выбран, цена и срок зафиксированы. Файлы работы появятся в заказе по мере того, как он их приложит."
client_text OrderStatus.awaiting_completion_confirmation =
    "Работа сдана, и решение за вами: подтвердить выполнение или вернуть на доработку с комментарием."
client_text OrderStatus.completion_disputed =
    "Работа вернулась исполнителю с вашим комментарием. Решение вы примете снова, когда он пересдаст её."
client_text OrderStatus.completed =
    "Заказ завершён. Файлы всех сдач остаются в заказе и в разделе «Документы»."

unfoldable pub company_text : OrderStatus → Bool → String
company_text OrderStatus.waiting is_executor =
    "Заказ ищет исполнителя. Предложение с ценой и сроком отправляется прямо отсюда."
company_text OrderStatus.awaiting_confirmation true =
    "Ваше предложение принимается клиентом. Пока решение не принято, условия можно изменить или отозвать."
company_text OrderStatus.awaiting_confirmation false =
    "Клиент выбирает исполнителя. Пока выбор не сделан, свои условия можно изменить или отозвать."
company_text OrderStatus.in_progress is_executor =
    "Заказ ваш: клиент выбрал ваше предложение. Цена и срок зафиксированы теми, что вы предложили."
company_text OrderStatus.awaiting_completion_confirmation is_executor =
    "Работа передана клиенту. Он подтвердит выполнение или вернёт заказ на доработку с комментарием."
company_text OrderStatus.completion_disputed is_executor =
    "Клиент вернул работу с комментарием. Новая сдача уйдёт ему на подтверждение."
company_text OrderStatus.completed is_executor =
    "Клиент принял работу. Заказ засчитан в завершённые и виден в вашей карточке подрядчика."

unfoldable pub work_hint : OrderStatus → Bool → Option String
work_hint OrderStatus.waiting has_open_files = none
work_hint OrderStatus.awaiting_confirmation has_open_files = none
work_hint OrderStatus.in_progress true =
    some "Файлы загружены, клиент их уже видит. Когда работа готова, сдайте её на подтверждение."
work_hint OrderStatus.in_progress false =
    some "Загрузите файлы работы с комментарием — после этого заказ можно будет сдать клиенту."
work_hint OrderStatus.awaiting_completion_confirmation has_open_files =
    some
      "Работа передана клиенту и ждёт его решения. Добавить файлы можно будет, если он вернёт её на доработку."
work_hint OrderStatus.completion_disputed true =
    some
      "Исправленные файлы загружены и уже видны клиенту. Сдайте работу заново — она уйдёт ему на подтверждение."
work_hint OrderStatus.completion_disputed false =
    some "Клиент вернул работу на доработку. Загрузите исправленные файлы новой сдачей."
work_hint OrderStatus.completed has_open_files =
    some "Заказ завершён. Файлы сдач остаются доступными обеим сторонам."

unfoldable pub completion_hint : OrderStatus → Bool → Option String
completion_hint OrderStatus.waiting is_owner = none
completion_hint OrderStatus.awaiting_confirmation is_owner = none
completion_hint OrderStatus.in_progress is_owner = none
completion_hint OrderStatus.awaiting_completion_confirmation true =
    some
      "Компания сдала работу. Проверьте файлы сдачи и подтвердите выполнение или отправьте на доработку."
completion_hint OrderStatus.awaiting_completion_confirmation false =
    some "Работа сдана и ждёт решения клиента."
completion_hint OrderStatus.completion_disputed true =
    some
      "Работа вернулась исполнителю. Решение можно будет принять снова, когда компания пересдаст её."
completion_hint OrderStatus.completion_disputed false = some "Клиент вернул работу на доработку."
completion_hint OrderStatus.completed true = some "Вы приняли работу, заказ завершён."
completion_hint OrderStatus.completed false = some "Клиент принял работу."

pub record OrderNow : Type 0 where
  pub title : String
  pub text : String

-- The viewer is the client, or a company that may be the executor.
unfoldable pub resolve_order_now : OrderStatus → Bool → Bool → OrderNow
unfolding client_text company_text order_status_labels
resolve_order_now status is_owner is_executor = record {
  title = order_status_labels status;
  text = if is_owner then client_text status else company_text status is_executor;
}

pub record OfferDate : Type 0 where
  pub label : String
  pub iso : String

-- An offer that was edited is dated by its edit.
unfoldable pub offer_date : OfferDto → OfferDate
offer_date offer = elim offer.edited_at [
  | none ↦ record { label = "Предложение от"; iso = offer.created_at }
  | some edited_at ↦ record { label = "Обновлено"; iso = edited_at }
]

-- The version of the offer that an acceptance names.
unfoldable pub accept_offer_body : OfferDto → Option String
accept_offer_body offer = offer.edited_at

pub record Link : Type 0 where
  pub href : String
  pub label : String

pub record OfferHint : Type 0 where
  pub text : String
  pub link : Option Link

abbrev pub open_order : String → Option Link
open_order order_id = some (record { href = "/orders/" <> order_id; label = "Открыть заказ" })

abbrev pub to_feed : Option Link
to_feed = some (record { href = "/available"; label = "К ленте заказов" })

unfoldable pub rejected_hint : Bool → Bool → OfferHint
rejected_hint true can_resubmit = record {
  text = "Клиент дважды отклонил предложение — отправить его снова нельзя.";
  link = none;
}
rejected_hint false true = record {
  text = "Клиент отклонил предложение. Можно отправить новое — ещё один раз.";
  link = none;
}
rejected_hint false false = record {
  text = "Клиент отклонил предложение. Если заказ ещё ищет исполнителя, он есть в ленте.";
  link = to_feed;
}

unfoldable pub withdrawn_hint : Bool → OfferHint
withdrawn_hint true = record {
  text = "Вы отозвали предложение. Его можно отправить заново.";
  link = none;
}
withdrawn_hint false = record {
  text = "Вы отозвали предложение. Если заказ ещё ищет исполнителя, он есть в ленте.";
  link = to_feed;
}

unfoldable pub offer_hint : OfferStatus → ℕ → String → Bool → Option OfferHint
unfolding rejected_hint withdrawn_hint
offer_hint OfferStatus.sent rejection_count order_id can_resubmit = none
offer_hint OfferStatus.accepted rejection_count order_id can_resubmit =
    some (record {
      text = "Клиент выбрал вас. Можно приступать к работе.";
      link = open_order order_id;
    })
offer_hint OfferStatus.work_submitted rejection_count order_id can_resubmit =
    some
      (record { text = "Работа сдана и ждёт подтверждения клиента."; link = open_order order_id })
offer_hint OfferStatus.back_for_override rejection_count order_id can_resubmit =
    some (record { text = "Клиент вернул работу на доработку."; link = open_order order_id })
offer_hint OfferStatus.completed rejection_count order_id can_resubmit =
    some (record { text = "Заказ завершён, клиент принял работу."; link = open_order order_id })
offer_hint OfferStatus.rejected rejection_count order_id can_resubmit =
    some
      (rejected_hint (is_finally_rejected (some OfferStatus.rejected) rejection_count) can_resubmit)
offer_hint OfferStatus.withdrawn rejection_count order_id can_resubmit =
    some (withdrawn_hint can_resubmit)
offer_hint OfferStatus.not_accepted rejection_count order_id can_resubmit =
    some (record { text = "Клиент выбрал предложение другой компании."; link = none })
