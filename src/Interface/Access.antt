-- ===== src/Interface/Access.antt =====
-- frontend/src/lib/order-access.ts, contacts.ts and the names and places of format.ts: who looks at an
-- order, and the client's card for the company that carries it out.
use my_build.Base.{
  String, Bool, true, false, ◌||◌, List, Option, none, some, find, keep, ◌==◌, String_eq,
}
use my_build.Shared.Enums.{OfferStatus, FileOwnerType, FileOwnerType_eq}
use my_build.Shared.Offers.{is_active_offer, is_executor_offer}
use my_build.Orders.View.{OfferDto, OrderDetail, OrderFileDto, ClientCard}

pub record OrderDetailAccess : Type 0 where
  pub is_owner : Bool
  pub is_party : Bool
  pub sees_real_status : Bool
  pub client_files : List OrderFileDto

abbrev pub is_viewer : Option String → String → Bool
is_viewer none id = false
is_viewer (some viewer) id = id == viewer

abbrev pub is_clients : Option String → Option ClientCard → Bool
is_clients viewer none = false
is_clients viewer (some client) = is_viewer viewer client.id

abbrev pub has_status : (OfferStatus → Bool) → Option OfferDto → Bool
has_status p none = false
has_status p (some offer) = p offer.status

unfoldable pub resolve_order_detail_access : OrderDetail → Option String → OrderDetailAccess
resolve_order_detail_access order viewer =
    let is_owner = is_clients viewer order.client in
    let own_offer = find (λ (offer : OfferDto). is_viewer viewer offer.company_id) order.offers in
    record {
      is_owner = is_owner;
      is_party = is_owner || has_status is_executor_offer own_offer;
      sees_real_status = is_owner || has_status is_active_offer own_offer;
      client_files = keep (λ file. file.owner_type == FileOwnerType.client) order.files;
    }

unfoldable pub empty_client_files_message : Bool → String
empty_client_files_message true = "Вы не приложили файлы к этому заказу."
empty_client_files_message false = "Клиент не приложил файлы к этому заказу."
