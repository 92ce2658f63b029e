-- ===== src/Orders/View/Tests.antt =====
-- An order in work, seen by a company that lost: the card's theorems at it.
use my_build.Base.{◌≡◌, refl, String, String_eq, Option, none, some, List, [], ◌∷◌, All}
use my_build.Errors.{is_ok}
use my_build.Shared.Enums.{OrderStatus, OfferStatus, OrderCategory, ObjectType, FileOwnerType}
use my_build.Shared.Offers.{is_active_offer, accepts_offers}
use my_build.Orders.Machine.Types.{OrderStateContext}
use my_build.Orders.Machine.{transition}
use my_build.Orders.View.{OfferRow, OrderDetailRow, OrderFileDto, to_order_detail}
use my_build.Orders.View.Privacy.{
  IsOutsider, SameOutside, own_offer_of, to_order_detail-outsider, to_order_detail-own_offers,
}
use my_build.Orders.View.Actions.{submission_by, can_submit_offer_lem}

abbrev pub bid : String → String → OfferStatus → OfferRow
bid id company_id status = record {
  id = id;
  order_id = "order";
  company_id = company_id;
  status = status;
  proposed_price = "1000";
  proposed_deadline = 0;
  comment = none;
  created_at = 0;
  edited_at = none;
  updated_at = 0;
  rejection_count = 0;
  company_name = some "Строй";
}

abbrev pub sketch : OrderFileDto
sketch = record {
  id = "file";
  order_id = "order";
  owner_type = FileOwnerType.client;
  submission_round = 0;
  original_name = "план.pdf";
  mime_type = "application/pdf";
  size_bytes = 1000;
  created_at = "";
}

abbrev pub hand_in : OrderFileDto
hand_in = record sketch { id = "work"; owner_type = FileOwnerType.company; submission_round = 1 }

abbrev pub card : OrderStatus → Option String → List OfferRow → List OrderFileDto → OrderDetailRow
card status price offers files = record {
  row = record {
    id = "order";
    order_number = 7;
    client_id = "client";
    title = "Дом";
    status = status;
    category = OrderCategory.plan_creation;
    object_type = ObjectType.house;
    client_budget = none;
    price = price;
    deadline = none;
    created_at = 0;
    offers = offers;
  };
  description = "";
  address = "";
  square_meters = 10000;
  verified_square_meters = none;
  desired_start_date = none;
  client_completion_comment = none;
  correction_comment = none;
  updated_at = 5;
  client = record {
    id = "client";
    first_name = "Анна";
    last_name = none;
    city = none;
    country = none;
    email = "a@b.c";
    phone = "1";
  };
  files = files;
  submissions = [];
}

-- In work by another company at a price, and completed at another with work handed in.
abbrev pub in_work : OrderDetailRow
in_work =
    card OrderStatus.in_progress (some "1000")
      (bid "a" "winner" OfferStatus.accepted ∷ bid "b" "loser" OfferStatus.not_accepted ∷ [])
      (sketch ∷ [])

abbrev completed : OrderDetailRow
completed =
    card OrderStatus.completed (some "2000")
      (bid "b" "loser" OfferStatus.not_accepted ∷ bid "c" "other" OfferStatus.completed ∷ [])
      (hand_in ∷ sketch ∷ [])

lost_in_work : IsOutsider in_work.row "loser"
unfolding is_active_offer
lost_in_work = record { not_owner = refl; not_active = refl }

lost_completed : IsOutsider completed.row "loser"
unfolding is_active_offer
lost_completed = record { not_owner = refl; not_active = refl }

alike : SameOutside "loser" in_work completed
unfolding accepts_offers
alike = record {
  same_id = refl;
  same_number = refl;
  same_title = refl;
  same_category = refl;
  same_object = refl;
  same_budget = refl;
  same_creation = refl;
  same_description = refl;
  same_address = refl;
  same_area = refl;
  same_start = refl;
  same_own = refl;
  same_search = refl;
  same_task = refl;
}

to_order_detail-outsider_example :
    to_order_detail in_work "loser" ≡ to_order_detail completed "loser"
to_order_detail-outsider_example =
    to_order_detail-outsider "loser" in_work completed lost_in_work lost_completed alike

to_order_detail-own_offers_example :
    All (λ offer. offer.company_id ≡ "loser") (to_order_detail in_work "loser").offers
to_order_detail-own_offers_example = to_order_detail-own_offers "loser" in_work refl

abbrev context : OrderStateContext
context = record {
  order_id = "order";
  order_number = 7;
  title = "Дом";
  client_id = "client";
  status = OrderStatus.in_progress;
}

can_submit_offer_lem_example :
    (to_order_detail in_work "loser").can_submit_offer
    ≡ is_ok
        (transition context (submission_by "b" "loser" "Строй" (own_offer_of in_work.row "loser")))
can_submit_offer_lem_example = can_submit_offer_lem in_work "loser" "b" "Строй" context refl refl
