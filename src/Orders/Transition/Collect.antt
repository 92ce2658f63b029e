-- ===== src/Orders/Transition/Collect.antt =====
-- `applyEffects`, its first part: the effects are sorted into what each table is to be told.
use my_build.Base.{String, List, [], ◌∷◌, ◌++◌, some, ◌==◌, if◌then◌else◌}
use my_build.Shared.Enums.{OfferStatus, OfferStatus_eq}
use my_build.Store.Tables.{Order}
use my_build.Store.Notices.{Draft}
use my_build.Orders.Machine.Types.{
  Notice, OrderSideEffect, set_offer_status, set_order_deal, set_correction_comment,
  set_completion_comment, create_notification,
}
use my_build.Orders.Transition.Types.{OfferStatusUpdate}

-- The fields of the order that are to change stand as the change of a row.
pub record Collected : Type 0 where
  pub order_data : Order → Order
  pub offer_updates : List OfferStatusUpdate
  pub notifications_to_create : List Draft

abbrev pub draft_of : String → Notice → Draft
draft_of order_id notice = record {
  user_id = notice.user_id;
  type = notice.type;
  order_id = some order_id;
  title = notice.title;
  body = notice.body;
  collapse_key = notice.collapse_key;
}

-- One round of the loop over the effects.
unfoldable pub collect_one : String → Collected → OrderSideEffect → Collected
collect_one order_id acc (set_offer_status offer status) = record acc {
  offer_updates =
      acc.offer_updates
      ++ record { offer_id = offer.offer_id; company_id = offer.company_id; status = status } ∷ [];
}
collect_one order_id acc (set_order_deal price deadline) = record acc {
  order_data = λ row. record (acc.order_data row) { price = some price; deadline = some deadline };
}
collect_one order_id acc (set_correction_comment comment) = record acc {
  order_data = λ row. record (acc.order_data row) { correction_comment = some comment };
}
collect_one order_id acc (set_completion_comment comment) = record acc {
  order_data = λ row. record (acc.order_data row) { client_completion_comment = comment };
}
collect_one order_id acc (create_notification notice) = record acc {
  notifications_to_create = acc.notifications_to_create ++ draft_of order_id notice ∷ [];
}

unfoldable pub collect : String → Collected → List OrderSideEffect → Collected
unfolding collect_one
collect order_id acc [] = acc
collect order_id acc (effect ∷ effects) = collect order_id (collect_one order_id acc effect) effects

-- `groupOfferIdsByStatus`: a status keeps the place of its first update.
unfoldable pub push_id :
    OfferStatus → String → List (OfferStatus × List String) → List (OfferStatus × List String)
push_id status id [] = (status, id ∷ []) ∷ []
push_id status id ((known, ids) ∷ groups) =
    if known == status
    then (known, ids ++ id ∷ []) ∷ groups
    else (known, ids) ∷ push_id status id groups

unfoldable pub group_from :
    List (OfferStatus × List String) → List OfferStatusUpdate → List (OfferStatus × List String)
unfolding push_id
group_from groups [] = groups
group_from groups (update ∷ updates) =
    group_from (push_id update.status update.offer_id groups) updates

unfoldable pub group_offer_ids_by_status : List OfferStatusUpdate → List (OfferStatus × List String)
unfolding group_from
group_offer_ids_by_status updates = group_from [] updates
