-- ===== src/Orders/Actions.antt =====
-- backend/src/modules/orders/order-workflow.service.ts: the routes of a deal. Each is a transaction, a
-- broadcast after its commit, and the order's card as it is then.
pub mod Files
use my_build.Base.{ℕ, String, Bool, true, false, not, Option, none, some, List}
use my_build.Errors.{refuse}
use my_build.Shared.Enums.{OrderStatus}
use my_build.Shared.Dates.{Date}
use my_build.Shared.Orders.{can_verify_area}
use my_build.Store.Tables.{Notification}
use my_build.Store.Queries.{Queries}
use my_build.Realtime.Actions.{
  Action, ◌>>=◌, ◌>>◌, return, lift, commit, look, transition_applied, order_area_verified,
}
use my_build.Orders.Transition.Types.{OrderTransitionCommand, AppliedTransition}
use my_build.Orders.Transition.{run}
use my_build.Orders.View.{OrderDetail}
use my_build.Orders.Detail.{get_detail}
use my_build.Orders.Workflow.{submit_work_in, verify_area_in, area_forbidden}

module _ (q : Queries) (id_before : String → String → Bool) (now : Date) where
  -- A transition, told, and the card for the one who asked.
  unfoldable pub apply_and_show : String → String → OrderTransitionCommand → Action OrderDetail
  unfolding transition_applied
  apply_and_show order_id viewer command = do
    applied ← commit (run q now command)
    transition_applied applied none
    look (get_detail q id_before order_id viewer)

  unfoldable pub accept_offer : String → String → Option String → String → Action OrderDetail
  unfolding apply_and_show
  accept_offer order_id offer_id seen client_id =
      apply_and_show order_id client_id
        (OrderTransitionCommand.offer_accepted order_id offer_id seen)

  unfoldable pub confirm : String → String → Option String → Action OrderDetail
  unfolding apply_and_show
  confirm order_id client_id comment =
      apply_and_show order_id client_id (OrderTransitionCommand.work_confirmed order_id comment)

  unfoldable pub dispute : String → String → String → Action OrderDetail
  unfolding apply_and_show
  dispute order_id client_id correction_comment =
      apply_and_show order_id client_id
        (OrderTransitionCommand.work_disputed order_id correction_comment)

  unfoldable pub submit_work : String → String → Action OrderDetail
  unfolding transition_applied
  submit_work order_id company_id = do
    applied ← commit (submit_work_in q now order_id)
    transition_applied applied none
    look (get_detail q id_before order_id company_id)

  -- The same area is no event, and nobody is told.
  unfoldable pub tell_area : String → Option (String × List Notification) → Action (Unit {0})
  unfolding order_area_verified
  tell_area order_id none = return tt
  tell_area order_id (some (client_id, notifications)) =
      order_area_verified order_id client_id notifications

  -- The status is that of the guard's snapshot; the transaction checks it again.
  unfoldable pub verify_area : (ℕ → String) → String → OrderStatus → String → ℕ → Action OrderDetail
  unfolding tell_area
  verify_area area_text order_id status company_id area = do
    lift (refuse (not (can_verify_area status)) area_forbidden)
    verified ← commit (verify_area_in q now area_text order_id area)
    tell_area order_id verified
    look (get_detail q id_before order_id company_id)
