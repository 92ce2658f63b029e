-- ===== src/Shared/Labels.antt =====
-- shared/src/labels.ts: the names of the domain's values in the interface and in notifications.
use my_build.Base.{ℕ, String, ◌<>◌, decimal}
use my_build.Shared.Enums.{
  Role, OrderStatus, OfferStatus, NotificationType, OrderCategory, ObjectType,
}
use my_build.Shared.State.{OrderEventType}

-- The colour of a status.
pub data StatusTone : Type 0 where
  gray yellow blue green red : StatusTone

unfoldable pub role_labels : Role → String
role_labels Role.client = "Клиент"
role_labels Role.company = "Компания"

unfoldable pub order_category_labels : OrderCategory → String
order_category_labels OrderCategory.plan_creation = "Создание плана проекта"
order_category_labels OrderCategory.plan_implementation = "Реализация плана"

unfoldable pub object_type_labels : ObjectType → String
object_type_labels ObjectType.apartment = "Квартира"
object_type_labels ObjectType.house = "Частный дом"
object_type_labels ObjectType.commercial = "Коммерческое помещение"
object_type_labels ObjectType.government = "Гос. объект"

unfoldable pub order_status_labels : OrderStatus → String
order_status_labels OrderStatus.waiting = "Поиск исполнителя"
order_status_labels OrderStatus.awaiting_confirmation = "Ожидает подтверждения"
order_status_labels OrderStatus.in_progress = "В работе"
order_status_labels OrderStatus.awaiting_completion_confirmation =
    "Ожидание подтверждения выполнения"
order_status_labels OrderStatus.completed = "Завершён"
order_status_labels OrderStatus.completion_disputed = "На доработке"

unfoldable pub order_status_tones : OrderStatus → StatusTone
order_status_tones OrderStatus.waiting = StatusTone.gray
order_status_tones OrderStatus.awaiting_confirmation = StatusTone.yellow
order_status_tones OrderStatus.in_progress = StatusTone.blue
order_status_tones OrderStatus.awaiting_completion_confirmation = StatusTone.yellow
order_status_tones OrderStatus.completed = StatusTone.green
order_status_tones OrderStatus.completion_disputed = StatusTone.red

unfoldable pub offer_status_labels : OfferStatus → String
offer_status_labels OfferStatus.sent = "Предложение отправлено"
offer_status_labels OfferStatus.accepted = "Предложение принято"
offer_status_labels OfferStatus.rejected = "Предложение отклонено"
offer_status_labels OfferStatus.not_accepted = "Не выбрано"
offer_status_labels OfferStatus.withdrawn = "Предложение отозвано"
offer_status_labels OfferStatus.work_submitted = "Работа сдана, ждёт подтверждения"
offer_status_labels OfferStatus.completed = "Предложение завершено"
offer_status_labels OfferStatus.back_for_override = "Возвращено на доработку"

unfoldable pub offer_status_tones : OfferStatus → StatusTone
offer_status_tones OfferStatus.sent = StatusTone.blue
offer_status_tones OfferStatus.accepted = StatusTone.green
offer_status_tones OfferStatus.rejected = StatusTone.red
offer_status_tones OfferStatus.not_accepted = StatusTone.gray
offer_status_tones OfferStatus.withdrawn = StatusTone.gray
offer_status_tones OfferStatus.work_submitted = StatusTone.yellow
offer_status_tones OfferStatus.completed = StatusTone.green
offer_status_tones OfferStatus.back_for_override = StatusTone.red

unfoldable pub order_event_labels : OrderEventType → String
order_event_labels OrderEventType.offer_submitted = "Отправка предложения"
order_event_labels OrderEventType.offer_withdrawn = "Отзыв предложения"
order_event_labels OrderEventType.offer_rejected = "Отклонение предложения"
order_event_labels OrderEventType.offer_accepted = "Принятие предложения"
order_event_labels OrderEventType.work_submitted = "Сдача работы"
order_event_labels OrderEventType.work_confirmed = "Подтверждение выполнения"
order_event_labels OrderEventType.work_disputed = "Отправка на доработку"

unfoldable pub notification_type_labels : NotificationType → String
notification_type_labels NotificationType.offer_received = "Новое предложение"
notification_type_labels NotificationType.offer_accepted = "Предложение принято"
notification_type_labels NotificationType.offer_rejected = "Предложение отклонено"
notification_type_labels NotificationType.offer_not_accepted = "Предложение не выбрано"
notification_type_labels NotificationType.offer_withdrawn = "Предложение отозвано"
notification_type_labels NotificationType.work_submitted = "Работа сдана"
notification_type_labels NotificationType.work_confirmed = "Работа принята"
notification_type_labels NotificationType.work_disputed = "Работа отправлена на доработку"
notification_type_labels NotificationType.files_updated = "Обновлены файлы заказа"
notification_type_labels NotificationType.area_verified = "Уточнена площадь"
notification_type_labels NotificationType.order_deleted = "Заказ удалён"

unfoldable pub format_order_number : ℕ → String
format_order_number order_number = "ORD-" <> decimal order_number
