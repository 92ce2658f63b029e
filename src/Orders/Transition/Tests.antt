-- ===== src/Orders/Transition/Tests.antt =====
-- An order with two offers whose client accepts one: the transition's theorems at that run.
use my_build.Base.{true, ◌*◌, ◌≡◌, refl, String, String_eq, beq→ne, none, [], ◌∷◌, map}
use my_build.Errors.{ok, ok_of, is_ok}
use my_build.Shared.Enums.{OrderStatus, OfferStatus, OrderCategory, ObjectType}
use my_build.Shared.Dates.{day_ms, to_iso_string, utc_calendar_date, is_offer_expired}
use my_build.Shared.State.{OrderEventType, can_transition}
use my_build.Common.Uuid.{is_uuid}
use my_build.Store.Tables.{Order, Offer, Db}
use my_build.Store.Queries.{Queries, list_queries, list_queries-IsLawful}
use my_build.Store.Notices.{drop_superseded_notifications, create_notifications}
use my_build.Orders.Notification.{offer_key}
use my_build.Orders.Machine.Handlers.{handler_for, offer_accepted}
use my_build.Orders.Machine.{transition, past_deadline, seen_otherwise}
use my_build.Orders.Transition.Types.{OrderTransitionCommand, AppliedTransition}
use my_build.Orders.Transition.{
  lock_order, resolve_offer, build_event, conclude, decide_on, run_locked, run,
}
use my_build.Orders.Transition.Write.{apply_effects}
use my_build.Orders.Transition.Settled.{DistinctIds, row_after}
use my_build.Orders.Transition.Offers.{run-offers}
use my_build.Orders.Transition.Inversion.{context_of}
use my_build.Orders.Transition.Told.{Told, run-Told}
use my_build.Orders.Transition.Total.{named, run-is_ok}
use my_build.Orders.Transition.Deal.{Dealt, run-order}

abbrev pub order_id : String
order_id = "00000000-0000-4000-8000-000000000001"

abbrev pub chosen_id : String
chosen_id = "00000000-0000-4000-8000-000000000002"

abbrev pub rival_id : String
rival_id = "00000000-0000-4000-8000-000000000003"

abbrev pub numbered : Queries
numbered = list_queries (λ n. "notification")

abbrev pub house : Order
house = record {
  id = order_id;
  order_number = 7;
  client_id = "client";
  title = "Дом";
  category = OrderCategory.plan_creation;
  object_type = ObjectType.house;
  description = "";
  address = "";
  square_meters = 10000;
  verified_square_meters = none;
  client_budget = none;
  desired_start_date = none;
  price = none;
  deadline = none;
  status = OrderStatus.awaiting_confirmation;
  client_completion_comment = none;
  correction_comment = none;
  created_at = 0;
  updated_at = 0;
}

abbrev offer_by : String → String → Offer
offer_by id company_id = record {
  id = id;
  order_id = order_id;
  company_id = company_id;
  status = OfferStatus.sent;
  comment = none;
  proposed_price = "1000";
  proposed_deadline = 20 * day_ms;
  created_at = 0;
  edited_at = none;
  updated_at = 0;
  rejection_count = 0;
}

abbrev pub chosen : Offer
chosen = offer_by chosen_id "company"

abbrev pub tables : Db
tables = record {
  users = [];
  orders = house ∷ [];
  submissions = [];
  files = [];
  offers = chosen ∷ offer_by rival_id "other" ∷ [];
  notifications = [];
  issued = 0;
}

abbrev pub command : OrderTransitionCommand
command = OrderTransitionCommand.offer_accepted order_id chosen_id none

pub distinct : DistinctIds tables.offers
distinct = ((beq→ne chosen_id rival_id refl, tt), (tt, tt))

pub answered : (r : AppliedTransition × Db) × (run numbered day_ms command tables ≡ ok r)
unfolding run run_locked decide_on conclude resolve_offer lock_order build_event transition
    can_transition handler_for offer_accepted past_deadline seen_otherwise to_iso_string
    utc_calendar_date is_offer_expired is_uuid apply_effects drop_superseded_notifications
    create_notifications offer_key
answered = ok_of (run numbered day_ms command tables) refl

run-offers_example :
    answered.0.1.offers
    ≡ map
        (row_after OrderEventType.offer_accepted day_ms order_id answered.0.0.offer_id)
        tables.offers
run-offers_example =
    run-offers numbered day_ms command tables answered.0.1 answered.0.0
      (list_queries-IsLawful (λ n. "notification")) distinct answered.1

run-order_example : Dealt day_ms command tables house chosen answered.0.0 answered.0.1
run-order_example =
    run-order numbered day_ms command tables answered.0.1 answered.0.0 house chosen
      (list_queries-IsLawful (λ n. "notification")) refl refl answered.1

well_named : named command ≡ true
unfolding is_uuid
well_named = refl

run-is_ok_example :
    is_ok (run numbered day_ms command tables)
    ≡ is_ok (transition (context_of house) (build_event numbered day_ms command chosen tables))
run-is_ok_example =
    run-is_ok numbered day_ms command tables house chosen
      (list_queries-IsLawful (λ n. "notification")) well_named refl refl

run-Told_example : Told day_ms command tables answered.0.1 answered.0.0
run-Told_example =
    run-Told numbered day_ms command tables answered.0.1 answered.0.0
      (list_queries-IsLawful (λ n. "notification")) answered.1
