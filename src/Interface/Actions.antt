-- ===== src/Interface/Actions.antt =====
-- frontend/src/lib/order-actions.ts: the buttons that each side of an order is shown.
pub mod Agreement
pub mod Tests
use my_build.Base.{
  String, Bool, true, false, not, ◌&&◌, ◌||◌, List, [], ◌∷◌, map, Option, none, some, find, keep,
  ◌==◌, String_eq, if◌then◌else◌,
}
use my_build.Shared.Enums.{OrderStatus, OfferStatus}
use my_build.Shared.Offers.{is_executor_offer, is_pending_offer}
use my_build.Shared.Orders.{can_upload_work, can_verify_area}
use my_build.Shared.Dates.{is_offer_expired}
use my_build.Shared.State.{OrderEventType, can_transition}
use my_build.Orders.View.{OfferDto, OrderDetail}
use my_build.Interface.Access.{OrderDetailAccess}
use my_build.Interface.Submissions.{SubmissionView, SubmissionsView}

pub record OfferDecision : Type 0 where
  pub offer : OfferDto
  pub can_accept : Bool
  pub can_reject : Bool
  pub expired : Bool

pub record OrderClientActions : Type 0 where
  pub decisions : List OfferDecision
  pub executor_offer : Option OfferDto
  pub can_confirm_work : Bool
  pub can_dispute_work : Bool

abbrev pub nothing : OrderClientActions
nothing = record {
  decisions = [];
  executor_offer = none;
  can_confirm_work = false;
  can_dispute_work = false;
}

unfoldable pub decision_on : OrderStatus → String → OfferDto → OfferDecision
decision_on status today offer =
    let expired = is_offer_expired offer.proposed_deadline today in
    record {
      offer = offer;
      can_accept =
          not expired && can_transition status OrderEventType.offer_accepted (some offer.status);
      can_reject = can_transition status OrderEventType.offer_rejected (some offer.status);
      expired = expired;
    }

-- Whether the event is allowed at the executor's offer.
abbrev pub executor_allows : OrderStatus → OrderEventType → Option OfferDto → Bool
executor_allows status event none = false
executor_allows status event (some offer) = can_transition status event (some offer.status)

-- `today` is the day by UTC.
unfoldable pub resolve_client_actions :
    OrderDetail → OrderDetailAccess → String → OrderClientActions
unfolding decision_on
resolve_client_actions order access today =
    if not access.is_owner
    then nothing
    else let executor_offer =
        find (λ (offer : OfferDto). is_executor_offer offer.status) order.offers in
      record {
        decisions =
            map (decision_on order.item.status today)
              (keep (λ (offer : OfferDto). is_pending_offer offer.status) order.offers);
        executor_offer = executor_offer;
        can_confirm_work =
            executor_allows order.item.status OrderEventType.work_confirmed executor_offer;
        can_dispute_work =
            executor_allows order.item.status OrderEventType.work_disputed executor_offer;
      }

pub record OrderCompanyActions : Type 0 where
  pub own_offer : Option OfferDto
  pub is_executor : Bool
  pub can_submit_offer : Bool
  pub can_add_files : Bool
  pub can_submit_work : Bool
  pub can_verify_area : Bool

abbrev pub nothing_for_company : OrderCompanyActions
nothing_for_company = record {
  own_offer = none;
  is_executor = false;
  can_submit_offer = false;
  can_add_files = false;
  can_submit_work = false;
  can_verify_area = false;
}

-- `open !== null && open.files.length > 0`.
abbrev pub has_open_files : Option SubmissionView → Bool
has_open_files none = false
has_open_files (some view) = elim view.files [ [] ↦ false | file ∷ files ↦ true ]

unfoldable pub actions_of_offer :
    OrderDetail → SubmissionsView → Option OfferDto → OrderCompanyActions
actions_of_offer order submissions none = record nothing_for_company {
  can_submit_offer = order.can_submit_offer;
}
actions_of_offer order submissions (some own) =
    if not (is_executor_offer own.status)
    then record nothing_for_company {
      own_offer = some own;
      can_submit_offer = order.can_submit_offer;
    }
    else record {
      own_offer = some own;
      is_executor = true;
      can_submit_offer = order.can_submit_offer;
      can_add_files = can_upload_work order.item.status;
      can_submit_work =
          can_transition order.item.status OrderEventType.work_submitted (some own.status)
          && has_open_files submissions.current;
      can_verify_area = can_verify_area order.item.status;
    }

unfoldable pub resolve_company_actions :
    OrderDetail → OrderDetailAccess → SubmissionsView → Option String → OrderCompanyActions
unfolding actions_of_offer
resolve_company_actions order access submissions none = nothing_for_company
resolve_company_actions order access submissions (some viewer) =
    if access.is_owner
    then nothing_for_company
    else actions_of_offer order submissions
        (find (λ (offer : OfferDto). offer.company_id == viewer) order.offers)
