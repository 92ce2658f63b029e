-- ===== src/Orders/View/Privacy.antt =====
-- Who learns what of an order from its card.
use my_build.Base.{
  ◌≡◌, refl, sym, subst, ◌&&◌, String, false, List, [], ◌∷◌, Option, none, some, arith, find, keep,
  All, ◌==◌, String_eq,
}
use text.Mathlib.TextEquality.{eq_iff}
use my_build.Shared.Enums.{OrderStatus, OfferStatus, FileOwnerType, FileOwnerType_eq}
use my_build.Shared.Offers.{
  accepts_offers, is_executor_offer, is_active_offer, company_sees_task_files,
}
use my_build.Shared.State.{OrderEventType, OrderEventType_eq, order_transitions, can_transition}
use my_build.Orders.View.{
  OfferRow, OrderRow, OrderDetailRow, has_own, status_of, resolve_visibility, to_offer_dto,
  own_offer_dtos, to_order_list_item, visible_files, visible_offers, to_order_detail,
}

-- The offer by which an order counts a viewer as one of its companies.
abbrev pub own_offer_of : OrderRow → String → Option OfferRow
own_offer_of order viewer = find (λ offer. offer.company_id == viewer) order.offers

-- Neither the client nor a company whose offer is still in play.
pub record IsOutsider (order : OrderRow) (viewer : String) : Type 0 where
  pub not_owner : (order.client_id == viewer) ≡ false
  pub not_active : has_own is_active_offer (own_offer_of order viewer) ≡ false

-- Two orders that differ in nothing that a stranger may know: the status, beyond whether it accepts
-- offers, the terms, the client, the other companies' offers, the hand-ins and the comments are free.
pub record SameOutside (viewer : String) (a b : OrderDetailRow) : Type 0 where
  pub same_id : a.row.id ≡ b.row.id
  pub same_number : a.row.order_number ≡ b.row.order_number
  pub same_title : a.row.title ≡ b.row.title
  pub same_category : a.row.category ≡ b.row.category
  pub same_object : a.row.object_type ≡ b.row.object_type
  pub same_budget : a.row.client_budget ≡ b.row.client_budget
  pub same_creation : a.row.created_at ≡ b.row.created_at
  pub same_description : a.description ≡ b.description
  pub same_address : a.address ≡ b.address
  pub same_area : a.square_meters ≡ b.square_meters
  pub same_start : a.desired_start_date ≡ b.desired_start_date
  pub same_own : own_offer_of a.row viewer ≡ own_offer_of b.row viewer
  pub same_search : accepts_offers a.row.status ≡ accepts_offers b.row.status
  pub same_task :
      keep (λ file. file.owner_type == FileOwnerType.client) a.files
      ≡ keep (λ file. file.owner_type == FileOwnerType.client) b.files

has_own-executor :
    (own : Option OfferRow)
    → has_own is_active_offer own ≡ false
    → has_own is_executor_offer own ≡ false
unfolding is_active_offer is_executor_offer
has_own-executor none h = refl
has_own-executor (some offer) h = ground arith

can_submit :
    (status : OrderStatus) (own : Option OfferStatus)
    → can_transition status OrderEventType.offer_submitted own ≡ (
        accepts_offers status
        && can_transition OrderStatus.waiting OrderEventType.offer_submitted own)
unfolding can_transition accepts_offers order_transitions
can_submit status none = ground arith
can_submit status (some s) = ground arith

task_files :
    (status : OrderStatus) (own : Option OfferRow)
    → has_own is_active_offer own ≡ false
    → company_sees_task_files status (status_of own) ≡ accepts_offers status
unfolding company_sees_task_files is_active_offer
task_files status none h = refl
task_files status (some offer) h = ground arith

-- A viewer who is neither the client nor a company with an offer in play gets the same card of two
-- orders that agree on the task, on the viewer's own offer, and on whether they accept offers.
pub to_order_detail-outsider :
    (viewer : String) (a b : OrderDetailRow)
    → IsOutsider a.row viewer
    → IsOutsider b.row viewer
    → SameOutside viewer a b
    → to_order_detail a viewer ≡ to_order_detail b viewer
unfolding to_order_detail to_order_list_item resolve_visibility visible_files visible_offers
to_order_detail-outsider viewer a b o p s = ground (
  arith,
  has_own-executor (own_offer_of a.row viewer),
  has_own-executor (own_offer_of b.row viewer),
  can_submit a.row.status (status_of (own_offer_of a.row viewer)),
  can_submit b.row.status (status_of (own_offer_of b.row viewer)),
  task_files a.row.status (own_offer_of a.row viewer),
  task_files b.row.status (own_offer_of b.row viewer),
)

own_company :
    (viewer : String) (offers : List OfferRow) (offer : OfferRow)
    → find (λ o. o.company_id == viewer) offers ≡ some offer
    → offer.company_id ≡ viewer
own_company viewer [] offer h = cc
own_company viewer (o ∷ offers) offer h =
    ground (arith, own_company viewer offers offer, eq_iff o.company_id viewer)

own_dtos :
    (viewer : String) (own : Option OfferRow)
    → ((offer : OfferRow) → own ≡ some offer → offer.company_id ≡ viewer)
    → All (λ offer. offer.company_id ≡ viewer) (own_offer_dtos own)
unfolding to_offer_dto
own_dtos viewer none h = tt
own_dtos viewer (some offer) h = (h offer refl, tt)

-- Whoever is not the client sees no company's offer but the own one.
pub to_order_detail-own_offers :
    (viewer : String) (order : OrderDetailRow)
    → (order.row.client_id == viewer) ≡ false
    → All (λ offer. offer.company_id ≡ viewer) (to_order_detail order viewer).offers
unfolding to_order_detail resolve_visibility visible_offers to_offer_dto
to_order_detail-own_offers viewer order h =
    let own = own_offer_of order.row viewer in
    let shows : (to_order_detail order viewer).offers ≡ own_offer_dtos own = ground (arith, h) in
    subst (All (λ offer. offer.company_id ≡ viewer)) (sym shows)
      (own_dtos viewer own (own_company viewer order.row.offers))
