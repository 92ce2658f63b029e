-- ===== src/Common/Ownership.antt =====
-- backend/src/common/guards/ownership.guard.ts: who a route of an order lets in.
use my_build.Base.{
  String, Bool, true, false, not, ◌&&◌, ◌||◌, ◌≡◌, Option, none, some, arith, ◌==◌, String_eq,
  if◌then◌else◌,
}
use my_build.Errors.{Result, ok, err, is_ok, not_found, unauthorized}
use my_build.Shared.Enums.{Role, Role_eq, OrderStatus, OfferStatus}
use my_build.Shared.Offers.{is_executor_offer}
use my_build.Store.Tables.{Db, Order, Offer}
use my_build.Store.Queries.{Queries}
use my_build.Common.Uuid.{is_uuid}

pub data OrderAccessMode : Type 0 where
  owner viewer executor : OrderAccessMode

pub record RequestUser : Type 0 where
  pub id : String
  pub role : Option Role

pub record OwnOffer : Type 0 where
  pub id : String
  pub status : OfferStatus

pub record OrderAccessContext : Type 0 where
  pub order_id : String
  pub client_id : String
  pub status : OrderStatus
  pub is_owner : Bool
  pub own_offer : Option OwnOffer

-- A route that names no mode is the owner's.
abbrev pub mode_of : Option OrderAccessMode → OrderAccessMode
mode_of none = OrderAccessMode.owner
mode_of (some mode) = mode

abbrev pub is_company : Option Role → Bool
is_company none = false
is_company (some role) = role == Role.company

abbrev pub executes : Option OwnOffer → Bool
executes none = false
executes (some offer) = is_executor_offer offer.status

abbrev pub is_viewer : OrderAccessMode → Bool
is_viewer OrderAccessMode.viewer = true
is_viewer _ = false

-- `allowed`.
unfoldable pub lets_in : OrderAccessMode → Bool → Option Role → Option OwnOffer → Bool
lets_in OrderAccessMode.executor is_owner role own_offer = executes own_offer
lets_in mode is_owner role own_offer = is_owner || is_viewer mode && is_company role

abbrev pub own_of : Option Offer → Option OwnOffer
own_of none = none
own_of (some offer) = some (record { id = offer.id; status = offer.status })

-- `canActivate`: what it writes to the request is its answer.
unfoldable pub can_activate :
    Queries
    → Option OrderAccessMode
    → Option RequestUser
    → Option String
    → Db
    → Result OrderAccessContext
unfolding lets_in
can_activate q mode none param db = err (unauthorized "Требуется авторизация")
can_activate q mode (some user) param db =
    let order_id = raw param in
    if not (is_uuid order_id)
    then err (not_found "Заказ не найден")
    else elim (q.find_first Order (λ row. row.id == order_id) db.orders) [
      | none ↦ err (not_found "Заказ не найден")
      | some order ↦
          let own_offer = own_of (
            q.find_first Offer (λ row. row.order_id == order_id && row.company_id == user.id)
              db.offers) in
          let is_owner = order.client_id == user.id in
          if lets_in (mode_of mode) is_owner user.role own_offer
          then ok (record {
            order_id = order_id;
            client_id = order.client_id;
            status = order.status;
            is_owner = is_owner;
            own_offer = own_offer;
          })
          else err (not_found "Заказ не найден")
    ]
  where
    -- A parameter that is missing or repeated is no text.
    raw : Option String → String
    raw none = ""
    raw (some text) = text

-- Whom the guard turns away learns nothing of the order: the answer is that of an order that is not there.
pub can_activate-hides :
    (q : Queries) (mode : Option OrderAccessMode) (user : RequestUser) (order_id : String) (db : Db)
    → is_ok (can_activate q mode (some user) (some order_id) db) ≡ false
    → can_activate q mode (some user) (some order_id) db ≡ err (not_found "Заказ не найден")
unfolding can_activate
can_activate-hides q mode user order_id db h = ground (arith, h)
