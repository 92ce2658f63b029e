-- ===== src/Offers/Feed.antt =====
-- backend/src/modules/offers/available-orders.ts: the feed of a company. The search by number and title
-- is the database's, and a parameter.
use my_build.Base.{
  ◌≤◌, ◌≡◌, refl, String, Bool, true, false, not, ◌&&◌, ◌||◌, List, [], ◌∷◌, Option, none, some,
  arith, any, count, includes, holds_of, any-find, ltb, ◌==◌, String_eq,
}
use my_build.Shared.Enums.{OrderStatus_eq, OfferStatus, OfferStatus_eq}
use my_build.Shared.Offers.{
  offer_eligible_order_statuses, max_offer_rejections, is_finally_rejected,
}
use my_build.Shared.State.{
  OrderEventType, OrderEventType_eq, order_transitions, offer_preconditions, can_transition,
}
use my_build.Orders.View.{
  OfferRow, OrderRow, OrderDetailRow, has_own, status_of, refused_for_good, resolve_visibility,
  to_order_detail,
}
use my_build.Orders.View.Privacy.{own_offer_of}

abbrev pub is_by : String → OfferRow → Bool
is_by company_id offer = offer.company_id == company_id

-- `availability`: no offer of the company, one that it took back, or one refused, not for good.
unfoldable pub is_available : String → OrderRow → Bool
is_available company_id order =
    not (any (is_by company_id) order.offers)
    || any (λ offer. is_by company_id offer && offer.status == OfferStatus.withdrawn) order.offers
    || any
        (λ offer.
          is_by company_id offer
          && (offer.status == OfferStatus.rejected
              && ltb offer.rejection_count max_offer_rejections))
        order.offers

-- The condition of `buildAvailableOrdersWhere`; a query that is missing or empty asks for no search.
unfoldable pub is_in_feed : String → Option (OrderRow → Bool) → OrderRow → Bool
unfolding is_available
is_in_feed company_id none order =
    includes offer_eligible_order_statuses order.status && is_available company_id order
is_in_feed company_id (some search) order =
    includes offer_eligible_order_statuses order.status
    && is_available company_id order
    && search order

own_decides :
    (order : OrderRow) (own : Option OfferRow)
    → (includes offer_eligible_order_statuses order.status
        && (not (holds_of (λ offer. true) own)
            || holds_of (λ offer. offer.status == OfferStatus.withdrawn) own
            || holds_of
                (λ offer.
                  offer.status == OfferStatus.rejected
                  && ltb offer.rejection_count max_offer_rejections)
                own))
      ≡ (can_transition order.status OrderEventType.offer_submitted (status_of own)
          && not (refused_for_good own)
          && not (has_own (λ s. s == OfferStatus.sent) own))
unfolding can_transition is_finally_rejected order_transitions offer_preconditions
own_decides order none = ground arith
own_decides order (some offer) = ground arith

any-is_by :
    (company_id : String) (offers : List OfferRow)
    → any (is_by company_id) offers ≡ any (λ offer. is_by company_id offer && true) offers
any-is_by company_id [] = refl
any-is_by company_id (o ∷ offers) = ground (arith, any-is_by company_id offers)

-- With one offer at most of a company for an order, the feed of a company shows exactly the orders for
-- which it may send an offer, by the card's button, and has none that is waiting for an answer.
pub is_in_feed-can_submit :
    (order : OrderDetailRow) (company_id : String)
    → (order.row.client_id == company_id) ≡ false
    → count (is_by company_id) order.row.offers ≤ 1
    → is_in_feed company_id none order.row ≡ (
        (to_order_detail order company_id).can_submit_offer
        && not (has_own (λ s. s == OfferStatus.sent) (own_offer_of order.row company_id)))
unfolding is_in_feed to_order_detail resolve_visibility
is_in_feed-can_submit order company_id h one = ground (
  arith,
  h,
  any-is_by company_id order.row.offers,
  any-find (is_by company_id) (λ offer. true) order.row.offers one,
  any-find (is_by company_id) (λ offer. offer.status == OfferStatus.withdrawn) order.row.offers one,
  any-find (is_by company_id)
      (λ offer.
        offer.status == OfferStatus.rejected && ltb offer.rejection_count max_offer_rejections)
      order.row.offers one,
  own_decides order.row (own_offer_of order.row company_id),
)
