-- ===== src/Offers/Actions.antt =====
-- backend/src/modules/offers/offers.service.ts: the routes by which an offer is sent, taken back and
-- turned down, each with its broadcast and its answer.
use my_build.Base.{String, none, some, ◌==◌, String_eq}
use my_build.Errors.{not_found, or_throw}
use my_build.Shared.Dates.{Date}
use my_build.Store.Tables.{Offer}
use my_build.Store.Queries.{Queries}
use my_build.Store.Tx as Tables
use my_build.Store.Tx.{Tx, read}
use my_build.Realtime.Actions.{Action, ◌>>=◌, ◌>>◌, return, commit, look, transition_applied}
use my_build.Orders.Transition.Types.{OrderTransitionCommand}
use my_build.Orders.Transition.{run}
use my_build.Orders.View.{OfferRow, OfferDto, to_offer_dto}
use my_build.Orders.Detail.{offer_row}
use my_build.Offers.Service.{CreateOfferDto, submit_in, OfferActor, find_offer}

-- `LeaveSelectionEvent`.
pub data LeaveSelectionEvent : Type 0 where
  offer_withdrawn offer_rejected : LeaveSelectionEvent

abbrev pub leave_command : LeaveSelectionEvent → String → String → OrderTransitionCommand
leave_command LeaveSelectionEvent.offer_withdrawn = OrderTransitionCommand.offer_withdrawn
leave_command LeaveSelectionEvent.offer_rejected = OrderTransitionCommand.offer_rejected

module _ (q : Queries) (now : Date) where
  -- The offer with its company, as `OFFER_INCLUDE` reads it.
  unfoldable pub submit : String → CreateOfferDto → Action OfferDto
  unfolding submit_in transition_applied
  submit company_id dto = do
    done ← commit (submit_in q now company_id dto)
    transition_applied done.1 (some done.2)
    row ← look (read λ db. offer_row q db done.0)
    return (to_offer_dto row)

  unfoldable pub read_offer : String → Tx OfferRow
  read_offer offer_id =
      Tables.◌>>=◌ (read λ db. q.find_first Offer (λ row. row.id == offer_id) db.offers) (λ found.
        Tables.◌>>=◌ (Tables.lift (or_throw found (not_found "Предложение не найдено")))
          (λ offer. read λ db. offer_row q db offer))

  -- The right to the offer, the transition, the broadcast, and the whole row read anew.
  unfoldable pub leave_selection : String → OfferActor → LeaveSelectionEvent → Action OfferDto
  unfolding find_offer transition_applied read_offer
  leave_selection offer_id actor event = do
    offer ← look (find_offer q offer_id actor)
    applied ← commit (run q now (leave_command event offer.order_id offer_id))
    transition_applied applied none
    updated ← look (read_offer offer_id)
    return (to_offer_dto updated)

  unfoldable pub withdraw : String → String → Action OfferDto
  unfolding leave_selection
  withdraw company_id offer_id =
      leave_selection offer_id (OfferActor.of_company company_id)
        LeaveSelectionEvent.offer_withdrawn

  unfoldable pub reject : String → String → Action OfferDto
  unfolding leave_selection
  reject client_id offer_id =
      leave_selection offer_id (OfferActor.of_client client_id) LeaveSelectionEvent.offer_rejected
