-- ===== src/Offers/Service.antt =====
-- backend/src/modules/offers/offers.service.ts: a company sends an offer or takes it back, a client
-- turns it down.
pub mod Rows
pub mod Terms
pub mod Submit
use my_build.Base.{
  ℕ, suc, String, Bool, true, false, not, ◌&&◌, List, [], ◌∷◌, ◌++◌, Option, none, some, ◌==◌,
  String_eq,
}
use mathlib.Core.Option
use my_build.Errors.{Result, ok, err, refuse, or_throw, not_found}
use my_build.Shared.Enums.{OfferStatus}
use my_build.Shared.Dates.{Date}
use my_build.Common.Uuid.{is_uuid}
use my_build.Store.Tables.{Db, Order, Offer}
use my_build.Store.Queries.{Queries}
use my_build.Store.Tx.{Tx, ◌>>=◌, ◌>>◌, return, lift, read, write, Service, transaction}
use my_build.Orders.Transition.Types.{OrderTransitionCommand, AppliedTransition}
use my_build.Orders.Transition.{lock_order, run}

pub record CreateOfferDto : Type 0 where
  pub order_id : String
  pub proposed_price : String
  pub proposed_deadline : Date
  pub comment : Option String

-- `orderId_companyId`, the unique key of the table.
abbrev pub has_key : String → String → Offer → Bool
has_key order_id company_id row = row.order_id == order_id && row.company_id == company_id

-- The offer whose terms are rewritten, and the moment of it.
abbrev pub edited : Date → CreateOfferDto → Offer → Offer
edited now dto row = record row {
  status = OfferStatus.sent;
  proposed_price = dto.proposed_price;
  proposed_deadline = dto.proposed_deadline;
  comment = dto.comment;
  edited_at = some now;
  updated_at = now;
}

abbrev pub created_row : String → Date → String → CreateOfferDto → Offer
created_row id now company_id dto = record {
  id = id;
  order_id = dto.order_id;
  company_id = company_id;
  status = OfferStatus.sent;
  comment = dto.comment;
  proposed_price = dto.proposed_price;
  proposed_deadline = dto.proposed_deadline;
  created_at = now;
  edited_at = none;
  updated_at = now;
  rejection_count = 0;
}

abbrev pub is_some {ℓ} : {A : Type ℓ} → Option A → Bool
is_some none = false
is_some (some a) = true

module _ (q : Queries) (now : Date) where
  -- The table that `upsert` leaves, by whether the key has a row.
  abbrev pub upserted : String → CreateOfferDto → Option Offer → Db → Db
  upserted company_id dto none db = record db {
    offers = db.offers ++ created_row (q.new_id db.issued) now company_id dto ∷ [];
    issued = suc db.issued;
  }
  upserted company_id dto (some existing) db = record db {
    offers = q.update_many Offer (has_key dto.order_id company_id) (edited now dto) db.offers;
  }

  unfoldable pub upsert : String → CreateOfferDto → Option Offer → Tx Offer
  upsert company_id dto existing = do
    write (upserted company_id dto existing)
    found ← read λ db. q.find_first Offer (has_key dto.order_id company_id) db.offers
    lift (or_throw found (not_found "Offer"))

  -- The transition in the same transaction, with the status before the offer was written.
  unfoldable pub submit_written :
      Order → Option Offer → Offer → Tx (Offer × AppliedTransition × Bool)
  submit_written order existing created = do
    applied ← run q now (
        OrderTransitionCommand.offer_submitted order.id created.id
          (Option.map (λ (row : Offer). row.status) existing))
    return (created, applied, is_some existing)

  unfoldable pub submit_locked :
      String → CreateOfferDto → Order → Tx (Offer × AppliedTransition × Bool)
  unfolding upsert submit_written
  submit_locked company_id dto order = do
    existing ← read λ db. q.find_first Offer (has_key dto.order_id company_id) db.offers
    created ← upsert company_id dto existing
    submit_written order existing created

  unfoldable pub submit_in : String → CreateOfferDto → Tx (Offer × AppliedTransition × Bool)
  unfolding submit_locked
  submit_in company_id dto = do
    order ← lock_order q dto.order_id
    submit_locked company_id dto order

  -- `submit`: one transaction; the offer, the transition, and whether the offer was there before.
  unfoldable pub submit : String → CreateOfferDto → Service (Offer × AppliedTransition × Bool)
  unfolding submit_in transaction
  submit company_id dto = transaction (submit_in company_id dto)

-- `OfferActor`.
pub data OfferActor : Type 0 where
  of_company of_client : String → OfferActor

module _ (q : Queries) where
  abbrev pub is_clients : String → Db → Offer → Bool
  is_clients client_id db row = is_some (
      q.find_first Order (λ order. order.id == row.order_id && order.client_id == client_id)
        db.orders)

  abbrev pub acts_on : OfferActor → Db → Offer → Bool
  acts_on (OfferActor.of_company company_id) db row = row.company_id == company_id
  acts_on (OfferActor.of_client client_id) db row = is_clients client_id db row

  unfoldable pub find_offer : String → OfferActor → Tx Offer
  find_offer offer_id actor = do
    lift (refuse (not (is_uuid offer_id)) (not_found "Предложение не найдено"))
    found ←
        read λ db. q.find_first Offer (λ row. row.id == offer_id && acts_on actor db row) db.offers
    lift (or_throw found (not_found "Предложение не найдено"))
