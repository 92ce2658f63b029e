-- ===== src/Shared/Offers.antt =====
-- shared/src/offers.ts: which statuses make a company a participant of an order, and when it may
-- offer again.
use my_build.Base.{
  ℕ, Bool, not, ◌&&◌, ◌||◌, List, [], ◌∷◌, ◌++◌, Option, none, some, leb, includes, ◌==◌, Option_eq,
}
use my_build.Shared.Enums.{OrderStatus, OrderStatus_eq, OfferStatus, OfferStatus_eq}

abbrev pub offer_eligible_order_statuses : List OrderStatus
offer_eligible_order_statuses = OrderStatus.waiting ∷ OrderStatus.awaiting_confirmation ∷ []

abbrev pub resubmittable_offer_statuses : List OfferStatus
resubmittable_offer_statuses = OfferStatus.withdrawn ∷ OfferStatus.rejected ∷ []

abbrev pub executing_offer_statuses : List OfferStatus
executing_offer_statuses =
    OfferStatus.accepted ∷ OfferStatus.work_submitted ∷ OfferStatus.back_for_override ∷ []

-- `[...EXECUTING_OFFER_STATUSES, COMPLETED]`
abbrev pub executor_offer_statuses : List OfferStatus
executor_offer_statuses = executing_offer_statuses ++ OfferStatus.completed ∷ []

-- `[SENT, ...EXECUTOR_OFFER_STATUSES]`
abbrev pub active_offer_statuses : List OfferStatus
active_offer_statuses = OfferStatus.sent ∷ executor_offer_statuses

unfoldable pub is_executor_offer : OfferStatus → Bool
is_executor_offer status = includes executor_offer_statuses status

unfoldable pub is_active_offer : OfferStatus → Bool
is_active_offer status = includes active_offer_statuses status

unfoldable pub accepts_offers : OrderStatus → Bool
accepts_offers status = includes offer_eligible_order_statuses status

-- The argument is null where the company has no offer.
unfoldable pub company_sees_task_files : OrderStatus → Option OfferStatus → Bool
unfolding accepts_offers is_executor_offer
company_sees_task_files order_status none = accepts_offers order_status
company_sees_task_files order_status (some offer_status) =
    is_executor_offer offer_status || accepts_offers order_status

unfoldable pub is_pending_offer : OfferStatus → Bool
is_pending_offer status = status == OfferStatus.sent

abbrev pub max_offer_rejections : ℕ
max_offer_rejections = 2

unfoldable pub is_finally_rejected : Option OfferStatus → ℕ → Bool
is_finally_rejected status rejection_count =
    status == some OfferStatus.rejected && leb max_offer_rejections rejection_count

unfoldable pub can_resubmit_offer : OfferStatus → ℕ → Bool
unfolding is_finally_rejected
can_resubmit_offer status rejection_count =
    includes resubmittable_offer_statuses status
    && not (is_finally_rejected (some status) rejection_count)
