-- ===== src/Orders/View.antt =====
-- backend/src/modules/orders/order-view.ts: an order as one user sees it. A sum stands as the text
-- that `Decimal.toString` gives, a date as its milliseconds.
pub mod Privacy
pub mod Actions
pub mod Tests
use my_build.Base.{
  ℕ, String, Bool, true, false, not, ◌&&◌, ◌||◌, List, [], ◌∷◌, map, Option, none, some, find, keep,
  sum_of, or_else, ◌==◌, String_eq, if◌then◌else◌,
}
use mathlib.Core.Option
use my_build.Shared.Enums.{
  OrderStatus, OfferStatus, OrderCategory, ObjectType, FileOwnerType, FileOwnerType_eq,
}
use my_build.Shared.Offers.{
  is_executor_offer, is_active_offer, is_finally_rejected, company_sees_task_files,
}
use my_build.Shared.Dates.{Date, to_iso_string}
use my_build.Shared.State.{OrderEventType, can_transition}

pub record OfferRow : Type 0 where
  pub id : String
  pub order_id : String
  pub company_id : String
  pub status : OfferStatus
  pub proposed_price : String
  pub proposed_deadline : Date
  pub comment : Option String
  pub created_at : Date
  pub edited_at : Option Date
  pub updated_at : Date
  pub rejection_count : ℕ
  pub company_name : Option String

pub record OrderRow : Type 0 where
  pub id : String
  pub order_number : ℕ
  pub client_id : String
  pub title : String
  pub status : OrderStatus
  pub category : OrderCategory
  pub object_type : ObjectType
  pub client_budget : Option String
  pub price : Option String
  pub deadline : Option Date
  pub created_at : Date
  pub offers : List OfferRow

pub record SubmissionRow : Type 0 where
  pub round : ℕ
  pub comment : String
  pub submitted_at : Option Date
  pub created_at : Date

pub record OrderFileDto : Type 0 where
  pub id : String
  pub order_id : String
  pub owner_type : FileOwnerType
  pub submission_round : ℕ
  pub original_name : String
  pub mime_type : String
  pub size_bytes : ℕ
  pub created_at : String

pub record ClientCard : Type 0 where
  pub id : String
  pub first_name : String
  pub last_name : Option String
  pub city : Option String
  pub country : Option String
  pub email : String
  pub phone : String

-- `extends OrderRow`: the row, and the rest of the card.
pub record OrderDetailRow : Type 0 where
  pub row : OrderRow
  pub description : String
  pub address : String
  pub square_meters : ℕ
  pub verified_square_meters : Option ℕ
  pub desired_start_date : Option Date
  pub client_completion_comment : Option String
  pub correction_comment : Option String
  pub updated_at : Date
  pub client : ClientCard
  pub files : List OrderFileDto
  pub submissions : List SubmissionRow

pub record OrderVisibility : Type 0 where
  pub is_owner : Bool
  pub own_offer : Option OfferRow
  pub executor_offer : Option OfferRow
  pub sees_progress : Bool
  pub is_party : Bool

abbrev pub has_own : (OfferStatus → Bool) → Option OfferRow → Bool
has_own p none = false
has_own p (some offer) = p offer.status

unfoldable pub resolve_visibility : OrderRow → String → OrderVisibility
resolve_visibility order viewer =
    let is_owner = order.client_id == viewer in
    let own_offer = find (λ offer. offer.company_id == viewer) order.offers in
    record {
      is_owner = is_owner;
      own_offer = own_offer;
      executor_offer = find (λ offer. is_executor_offer offer.status) order.offers;
      sees_progress = is_owner || has_own is_active_offer own_offer;
      is_party = is_owner || has_own is_executor_offer own_offer;
    }

pub record OrderListItem : Type 0 where
  pub id : String
  pub order_number : ℕ
  pub title : String
  pub status : OrderStatus
  pub category : OrderCategory
  pub object_type : ObjectType
  pub client_budget : Option String
  pub price : Option String
  pub deadline : Option String
  pub contractor_name : Option String
  pub created_at : String

pub record OfferDto : Type 0 where
  pub id : String
  pub order_id : String
  pub company_id : String
  pub company_name : String
  pub status : OfferStatus
  pub proposed_price : String
  pub proposed_deadline : String
  pub comment : Option String
  pub created_at : String
  pub edited_at : Option String
  pub updated_at : String
  pub rejection_count : ℕ

unfoldable pub to_offer_dto : OfferRow → OfferDto
to_offer_dto offer = record {
  id = offer.id;
  order_id = offer.order_id;
  company_id = offer.company_id;
  company_name = or_else offer.company_name "";
  status = offer.status;
  proposed_price = offer.proposed_price;
  proposed_deadline = to_iso_string offer.proposed_deadline;
  comment = offer.comment;
  created_at = to_iso_string offer.created_at;
  edited_at = Option.map to_iso_string offer.edited_at;
  updated_at = to_iso_string offer.updated_at;
  rejection_count = offer.rejection_count;
}

-- What `isParty` and `seesProgress` leave of a value that may be null.
abbrev pub shown {ℓ} : {A : Type ℓ} → Bool → Option A → Option A
shown true a = a
shown false a = none

unfoldable pub to_order_list_item : OrderRow → String → OrderListItem
unfolding resolve_visibility
to_order_list_item order viewer =
    let view = resolve_visibility order viewer in
    record {
      id = order.id;
      order_number = order.order_number;
      title = order.title;
      status = if view.sees_progress then order.status else OrderStatus.waiting;
      category = order.category;
      object_type = order.object_type;
      client_budget = order.client_budget;
      price = shown view.sees_progress order.price;
      deadline = shown view.sees_progress (Option.map to_iso_string order.deadline);
      contractor_name =
          shown view.is_party (Option.bind view.executor_offer (λ offer. offer.company_name));
      created_at = to_iso_string order.created_at;
    }

-- `{ ...toOrderListItem, ownOffer }`.
unfoldable pub to_available_order_item : OrderRow → String → OrderListItem × Option OfferDto
unfolding resolve_visibility to_order_list_item
to_available_order_item order viewer = (
  to_order_list_item order viewer,
  Option.map to_offer_dto (resolve_visibility order viewer).own_offer,
)

pub record OrderSubmissionDto : Type 0 where
  pub round : ℕ
  pub comment : String
  pub submitted_at : Option String
  pub created_at : String

abbrev pub to_submission_dto : SubmissionRow → OrderSubmissionDto
to_submission_dto submission = record {
  round = submission.round;
  comment = submission.comment;
  submitted_at = Option.map to_iso_string submission.submitted_at;
  created_at = to_iso_string submission.created_at;
}

abbrev pub status_of : Option OfferRow → Option OfferStatus
status_of none = none
status_of (some offer) = some offer.status

unfoldable pub visible_files : OrderDetailRow → OrderVisibility → List OrderFileDto
visible_files order view =
    if view.is_party
    then order.files
    else if company_sees_task_files order.row.status (status_of view.own_offer)
    then keep (λ file. file.owner_type == FileOwnerType.client) order.files
    else []

abbrev pub own_offer_dtos : Option OfferRow → List OfferDto
own_offer_dtos none = []
own_offer_dtos (some offer) = to_offer_dto offer ∷ []

unfoldable pub visible_offers : OrderRow → OrderVisibility → List OfferDto
visible_offers order view =
    if view.is_owner
    then map to_offer_dto (keep (λ offer. is_active_offer offer.status) order.offers)
    else own_offer_dtos view.own_offer

abbrev pub refused_for_good : Option OfferRow → Bool
refused_for_good none = false
refused_for_good (some offer) = is_finally_rejected (some offer.status) offer.rejection_count

pub record OrderDetail : Type 0 where
  pub item : OrderListItem
  pub description : String
  pub address : String
  pub square_meters : ℕ
  pub verified_square_meters : Option ℕ
  pub desired_start_date : Option String
  pub client_completion_comment : Option String
  pub correction_comment : Option String
  pub updated_at : String
  pub client : Option ClientCard
  pub offers : List OfferDto
  pub files : List OrderFileDto
  pub files_size_bytes : Option ℕ
  pub submissions : List OrderSubmissionDto
  pub can_submit_offer : Bool

unfoldable pub to_order_detail : OrderDetailRow → String → OrderDetail
unfolding resolve_visibility to_order_list_item visible_files visible_offers
to_order_detail order viewer =
    let view = resolve_visibility order.row viewer in
    record {
      item = to_order_list_item order.row viewer;
      description = order.description;
      address = order.address;
      square_meters = order.square_meters;
      verified_square_meters = shown view.sees_progress order.verified_square_meters;
      desired_start_date = Option.map to_iso_string order.desired_start_date;
      client_completion_comment = shown view.is_party order.client_completion_comment;
      correction_comment = shown view.is_party order.correction_comment;
      updated_at =
          to_iso_string (if view.sees_progress then order.updated_at else order.row.created_at);
      client = shown view.is_party (some order.client);
      offers = visible_offers order.row view;
      files = visible_files order view;
      files_size_bytes = shown view.is_party (some (sum_of (λ file. file.size_bytes) order.files));
      submissions = if view.is_party then map to_submission_dto order.submissions else [];
      can_submit_offer =
          not view.is_owner
          && can_transition order.row.status OrderEventType.offer_submitted
              (status_of view.own_offer)
          && not (refused_for_good view.own_offer);
    }
