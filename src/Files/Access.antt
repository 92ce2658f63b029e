-- ===== src/Files/Access.antt =====
-- backend/src/modules/files/files.service.ts, assertFileAccess, and
-- backend/src/modules/files/document-scope.ts: who may read which files of an order.
pub mod Laws
use my_build.Base.{
  String, Bool, true, false, ◌&&◌, ◌||◌, Option, none, some, any, find, ◌==◌, String_eq,
  if◌then◌else◌,
}
use my_build.Errors.{Result, ok, err, forbidden, not_found}
use my_build.Shared.Enums.{Role, Role_eq, FileOwnerType, FileOwnerType_eq}
use my_build.Shared.Offers.{is_executor_offer, company_sees_task_files}
use my_build.Orders.View.{OfferRow, OrderRow, OrderFileDto, has_own, status_of}

-- Of an order that is found, with its offers. A role that is missing is null.
unfoldable pub file_access : OrderRow → String → Option Role → FileOwnerType → Result (Unit {0})
file_access order viewer role owner_type =
    if order.client_id == viewer
    then ok tt
    else let own_offer = find (λ offer. offer.company_id == viewer) order.offers in
      if is_company role
        && (if owner_type == FileOwnerType.client
            then company_sees_task_files order.status (status_of own_offer)
            else has_own is_executor_offer own_offer)
      then ok tt
      else err (forbidden "Нет доступа к файлам этого заказа")
  where
    is_company : Option Role → Bool
    is_company none = false
    is_company (some role) = role == Role.company

unfoldable pub assert_file_access :
    Option OrderRow → String → Option Role → FileOwnerType → Result (Unit {0})
unfolding file_access
assert_file_access none viewer role owner_type = err (not_found "Заказ не найден")
assert_file_access (some order) viewer role owner_type = file_access order viewer role owner_type

pub record DocumentScope : Type 0 where
  pub user_id : String
  pub owner_type : Option FileOwnerType
  pub order_id : Option String

abbrev pub wanted_owner : Option FileOwnerType → FileOwnerType → Bool
wanted_owner none owner_type = true
wanted_owner (some wanted) owner_type = owner_type == wanted

abbrev pub wanted_order : Option String → String → Bool
wanted_order none order_id = true
wanted_order (some wanted) order_id = order_id == wanted

-- The condition of `buildDocumentsWhere` on a file and its order.
unfoldable pub is_document : DocumentScope → OrderRow → OrderFileDto → Bool
is_document scope order file =
    (order.client_id == scope.user_id
      || any (λ offer. offer.company_id == scope.user_id && is_executor_offer offer.status)
          order.offers)
    && wanted_owner scope.owner_type file.owner_type
    && wanted_order scope.order_id file.order_id
