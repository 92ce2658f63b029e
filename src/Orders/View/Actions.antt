-- ===== src/Orders/View/Actions.antt =====
-- What the card of an order promises, and what the server then does.
use my_build.Base.{ℕ, ◌≡◌, String, false, Option, none, some, arith, ◌==◌, String_eq}
use my_build.Errors.{is_ok}
use my_build.Shared.Enums.{FileOwnerType_eq}
use my_build.Shared.Offers.{is_finally_rejected}
use my_build.Orders.Machine.Types.{OrderStateContext, OrderEvent}
use my_build.Orders.Machine.{transition, finally_refused, past_deadline, seen_otherwise}
use my_build.Orders.Machine.Rules.{transition-is_ok}
use my_build.Orders.View.{OfferRow, OrderDetailRow, status_of, resolve_visibility, to_order_detail}
use my_build.Orders.View.Privacy.{own_offer_of}

abbrev pub rejections_of : Option OfferRow → ℕ
rejections_of none = 0
rejections_of (some offer) = offer.rejection_count

-- The event of a company that sends an offer in its present state.
abbrev pub submission_by : String → String → String → Option OfferRow → OrderEvent
submission_by offer_id company name own =
    OrderEvent.offer_submitted
      (record {
        offer_id = offer_id;
        company_id = company;
        offer_status = status_of own;
        rejection_count = rejections_of own;
      })
      name

-- A company, which is not the order's client, is shown the button of an offer exactly when the machine
-- would carry its offer out, in the order's true status.
pub can_submit_offer_lem :
    (order : OrderDetailRow) (viewer offer_id name : String) (context : OrderStateContext)
    → (order.row.client_id == viewer) ≡ false
    → context.status ≡ order.row.status
    → (to_order_detail order viewer).can_submit_offer
      ≡ is_ok
          (transition context (submission_by offer_id viewer name (own_offer_of order.row viewer)))
unfolding to_order_detail resolve_visibility finally_refused past_deadline seen_otherwise
    is_finally_rejected
can_submit_offer_lem order viewer offer_id name context h s = ground (
  arith,
  h,
  s,
  transition-is_ok context (submission_by offer_id viewer name (own_offer_of order.row viewer)),
)
