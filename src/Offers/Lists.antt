-- ===== src/Offers/Lists.antt =====
-- backend/src/modules/offers/offers.service.ts, listAvailableOrders and listOwnOffers: the two lists of a
-- company's office.
use my_build.Base.{
  ℕ, String, Bool, true, false, not, ◌&&◌, ◌||◌, map, take, drop, includes, Option, none, some,
  nat_beq, ltb, ◌==◌, String_eq,
}
use mathlib.Core.Option
use my_build.Shared.Enums.{OfferStatus, OfferStatus_eq}
use my_build.Shared.Offers.{executor_offer_statuses}
use my_build.Common.Pagination.{Paginated, page_request, to_page}
use my_build.Store.Tables.{Db, Order, Offer}
use my_build.Store.Queries.{Queries}
use my_build.Store.Tx.{Tx, ◌>>=◌, return, read}
use my_build.Orders.View.{
  OrderRow, OfferDto, OrderListItem, to_offer_dto, to_order_list_item, to_available_order_item,
}
use my_build.Orders.Detail.{offer_row, order_row}
use my_build.Orders.Service.{wanted_text, is_searched, newer_first}
use my_build.Offers.Feed.{is_in_feed}

-- `offerStatusFilter`: the two filters are both to be met.
abbrev pub has_tab : Option OfferStatus → Offer → Bool
has_tab none row = true
has_tab (some status) row = row.status == status

abbrev pub has_executor : Option Bool → Offer → Bool
has_executor none row = true
has_executor (some true) row = includes executor_offer_statuses row.status
has_executor (some false) row = not (includes executor_offer_statuses row.status)

abbrev pub is_own : String → Option OfferStatus → Option Bool → Offer → Bool
is_own company_id status executor_only row =
    row.company_id == company_id && (has_tab status row && has_executor executor_only row)

-- `OWN_OFFERS_ORDER_BY`.
abbrev pub last_changed : (String → String → Bool) → Offer → Offer → Bool
last_changed id_before a b =
    ltb b.updated_at a.updated_at || nat_beq a.updated_at b.updated_at && id_before b.id a.id

module _ (q : Queries) (like id_before : String → String → Bool) where
  abbrev pub search_of : Db → Order → String → OrderRow → Bool
  search_of db order text row = is_searched q like db text false order

  abbrev pub is_offered : String → Option String → Db → Order → Bool
  is_offered company_id query db order =
      is_in_feed company_id (Option.map (search_of db order) (wanted_text query))
        (order_row q db order)

  -- The row has the company's own offer alone.
  abbrev pub company_row : String → Db → Order → OrderRow
  company_row company_id db order = record (order_row q db order) {
    offers = map (offer_row q db) (
        q.find_many Offer (λ offer. offer.order_id == order.id && offer.company_id == company_id)
          db.offers);
  }

  unfoldable pub list_available_orders :
      String
      → Option String
      → Option ℕ
      → Option ℕ
      → Tx (Paginated (OrderListItem × Option OfferDto))
  unfolding to_available_order_item is_in_feed page_request to_page
  list_available_orders company_id query page page_size = do
    total ← read λ db. q.count_rows Order (is_offered company_id query db) db.orders
    rows ← read λ db.
        let request = page_request page page_size in
        map (λ order. to_available_order_item (company_row company_id db order) company_id)
          (take request.page_size (
            drop request.skip (
              q.find_sorted Order (is_offered company_id query db) (newer_first q like id_before)
                db.orders)))
    return (to_page rows (page_request page page_size) total)

  -- An offer with its order; the foreign key says that the order is there.
  abbrev pub with_order : String → Db → Offer → OfferDto × Option OrderListItem
  with_order company_id db offer = (
    to_offer_dto (offer_row q db offer),
    Option.map (λ order. to_order_list_item (company_row company_id db order) company_id)
        (q.find_first Order (λ order. order.id == offer.order_id) db.orders),
  )

  unfoldable pub list_own_offers :
      String
      → Option OfferStatus
      → Option Bool
      → Option ℕ
      → Option ℕ
      → Tx (Paginated (OfferDto × Option OrderListItem))
  unfolding to_offer_dto to_order_list_item page_request to_page
  list_own_offers company_id status executor_only page page_size = do
    total ← read λ db. q.count_rows Offer (is_own company_id status executor_only) db.offers
    rows ← read λ db.
        let request = page_request page page_size in
        map (with_order company_id db) (
          take request.page_size (
            drop request.skip (
              q.find_sorted Offer (is_own company_id status executor_only) (last_changed id_before)
                db.offers)))
    return (to_page rows (page_request page page_size) total)
