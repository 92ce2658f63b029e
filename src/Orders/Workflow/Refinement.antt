-- ===== src/Orders/Workflow/Refinement.antt =====
-- The tables implement the hand-ins of an order: the work that is handed in, and any run of steps.
use my_build.Base.{
  ℕ, ◌≡◌, ◌≢◌, refl, sym, ap, subst, ◌∙◌, String, Bool, false, List, [], ◌∷◌, some, arith, find,
  count, ◌==◌, String_eq,
}
use mathlib.Core.Option
use my_build.Errors.{ok}
use my_build.Shared.Enums.{OrderStatus}
use my_build.Shared.State.{OrderEventType}
use my_build.Shared.Dates.{Date}
use my_build.Shared.Orders.{can_upload_work}
use my_build.Store.Tables.{Db, Order, OrderSubmission}
use my_build.Store.Queries.{list_queries, list_queries-IsLawful, update_where}
use my_build.Orders.Machine.Graph.{
  Moves, first_offer, another_offer, withdrawn_among_others, last_withdrawn, rejected_among_others,
  last_rejected, accepted, submitted, confirmed, disputed, submitted_again,
}
use my_build.Orders.Transition.Types.{
  OrderTransitionCommand, command_order_id, command_type, AppliedTransition,
}
use my_build.Orders.Transition.{run}
use my_build.Orders.Transition.Inversion.{run-inv}
use my_build.Orders.Transition.Applied.{apply_effects-inv}
use my_build.Orders.Transition.Deal.{run-order}
use my_build.Orders.Workflow.{is_open_of, submit_work_in}
use my_build.Orders.Workflow.Counts.{count-update, find-count, find-key, count-none}
use my_build.Orders.Workflow.Numbered.{IsNumbered, is_sent_of, changed-IsNumbered}
use my_build.Orders.Workflow.Inversion.{close, submit_work_in-inv}
use my_build.Orders.Workflow.Spec.{
  Act, spec, spec_all, comment_of, view, IsConsistent, Step, Refines,
}
use my_build.Orders.Workflow.Taken.{current-find, taken-Refines}
use my_build.Orders.Workflow.Kept.{rewritten-Refines}

Moves-upload :
    {s t : OrderStatus} {type : OrderEventType}
    → Moves s type t
    → type ≢ OrderEventType.work_submitted
    → can_upload_work t ≡ false
    → can_upload_work s ≡ false
unfolding can_upload_work
Moves-upload first_offer h f = refl
Moves-upload another_offer h f = refl
Moves-upload withdrawn_among_others h f = refl
Moves-upload last_withdrawn h f = refl
Moves-upload rejected_among_others h f = refl
Moves-upload last_rejected h f = refl
Moves-upload accepted h f = cc
Moves-upload submitted h f = absurd (h refl)
Moves-upload confirmed h f = refl
Moves-upload disputed h f = cc
Moves-upload submitted_again h f = absurd (h refl)

module _ (new_id : ℕ → String) (order_id : String) where
  sent-Refines :
      (now : Date) (a : AppliedTransition) (db after : Db)
      → submit_work_in (list_queries new_id) now order_id db ≡ ok (a, after)
      → IsConsistent order_id db
      → Refines order_id Act.submits db after
  unfolding spec view
  sent-Refines now a db after h c =
      let (row, mid, current, ran, some_files, is_after) =
        submit_work_in-inv (list_queries new_id) now order_id db after a h in
      let rows = db.submissions in
      let found : find (is_open_of order_id) rows ≡ some row =
        sym (current-find new_id order_id now db c) ∙ current in
      let is_open = find-count (is_open_of order_id) rows row found in
      let there : find (λ x. x.id == row.id) rows ≡ some row =
        find-key (is_open_of order_id) (λ x. x.id == row.id) rows row found
          ((String_eq.same_iff row.id row.id).1 refl) (c.numbered.distinct row.id) in
      let same : mid.submissions ≡ rows =
        (let run_of =
            run-inv (list_queries new_id) now (OrderTransitionCommand.work_submitted order_id) db
              mid a ran in
          (apply_effects-inv (list_queries new_id) now run_of.order.id run_of.result.next_status
            run_of.result.effects db mid run_of.written run_of.applied).submissions) in
      let left : after.submissions
          ≡ update_where OrderSubmission (λ x. x.id == row.id) (close now) rows =
        ap (λ (d : Db). d.submissions) is_after
        ∙ ap (update_where OrderSubmission (λ x. x.id == row.id) (close now)) same in
      let moved_by = λ (p : OrderSubmission → Bool).
        count-update p (λ x. x.id == row.id) (close now) rows row (c.numbered.distinct row.id)
          there in
      let none_open : count (is_open_of order_id) after.submissions ≡ 0 =
        ground (arith, left, moved_by (is_open_of order_id), is_open, c.numbered.one_open) in
      (
        record {
          numbered = subst (IsNumbered order_id) (sym left) (
              changed-IsNumbered order_id rows c.numbered (close now) row (λ x. (refl, refl, refl))
                there is_open.0);
          idle = λ o e f. none_open;
        },
        ground (
          arith,
          left,
          found,
          count-none (is_open_of order_id) after.submissions none_open,
          moved_by (is_sent_of order_id),
          is_open.0,
        ),
      )

  moved-Refines :
      (now : Date) (command : OrderTransitionCommand) (a : AppliedTransition) (db after : Db)
      → command_order_id command ≡ order_id
      → command_type command ≢ OrderEventType.work_submitted
      → run (list_queries new_id) now command db ≡ ok (a, after)
      → IsConsistent order_id db
      → Refines order_id Act.moves db after
  unfolding spec view
  moved-Refines now command a db after of_it type h c =
      let run_of = run-inv (list_queries new_id) now command db after a h in
      let same : after.submissions ≡ db.submissions =
        (apply_effects-inv (list_queries new_id) now run_of.order.id run_of.result.next_status
          run_of.result.effects db after run_of.written run_of.applied).submissions in
      let (from, along, found, change, _) =
        run-order (list_queries new_id) now command db after a run_of.order run_of.offer
          (list_queries-IsLawful new_id) run_of.found run_of.meant h in
      (
        record {
          numbered = subst (IsNumbered order_id) (sym same) c.numbered;
          idle = λ o e f.
              ap (count (is_open_of order_id)) same
              ∙ c.idle run_of.order
                  (subst (λ id. find (λ row. row.id == id) db.orders ≡ some run_of.order) of_it
                    run_of.found)
                  (Moves-upload along type (
                    next_closed o a.order
                      (subst (λ id. find (λ row. row.id == id) after.orders ≡ some a.order) of_it
                        found)
                      e f change.status));
        },
        ap
            (λ rows. some (record {
              sent = count (is_sent_of order_id) rows;
              draft = Option.map comment_of (find (is_open_of order_id) rows);
            }))
            (sym same),
      )
    where
      next_closed :
          (o answered : Order)
          → find (λ row. row.id == order_id) after.orders ≡ some answered
          → find (λ row. row.id == order_id) after.orders ≡ some o
          → can_upload_work o.status ≡ false
          → answered.status ≡ a.next_status
          → can_upload_work a.next_status ≡ false
      next_closed o answered found e f same = ground (arith, found, e, f, same)

  Step-Refines :
      (act : Act) (db after : Db)
      → Step new_id order_id act db after
      → IsConsistent order_id db
      → Refines order_id act db after
  Step-Refines _ db after (Step.files_taken now comment s _ _ fresh h) c =
      taken-Refines new_id order_id now comment s db after fresh h c
  Step-Refines _ db after (Step.comment_rewritten id comment changed _ _ owned h) c =
      rewritten-Refines new_id order_id id comment changed db after owned h c
  Step-Refines _ db after (Step.work_sent now a _ _ h) c = sent-Refines now a db after h c
  Step-Refines _ db after (Step.deal_moved now command a _ _ of_it type h) c =
      moved-Refines now command a db after of_it type h c

-- Any run of such steps.
pub data Steps (new_id : ℕ → String) (order_id : String) : List Act → Db → Db → Type 0 where
  none_left : (db : Db) → Steps new_id order_id [] db db
  and_then :
      (act : Act) (acts : List Act) (db mid after : Db)
      → Step new_id order_id act db mid
      → Steps new_id order_id acts mid after
      → Steps new_id order_id (act ∷ acts) db after

-- From tables where the hand-ins of an order are numbered from 1, at most the last of them is open, and
-- none where the order takes no files, every run of the service's steps on that order that answers
-- (files taken, a comment written to one of the order's hand-ins, the work handed in, and every other
-- transition), with new identifiers for new rows, leaves them so. The run is one of the specification:
-- files open a hand-in only where none is open, and always under the number after those that were
-- sent; a comment and a submission need one that is open; a submission adds one to those that were
-- sent.
pub steps-Refines :
    (new_id : ℕ → String) (order_id : String) (acts : List Act) (db after : Db)
    → Steps new_id order_id acts db after
    → IsConsistent order_id db
    → IsConsistent order_id after × (spec_all acts (view order_id db) ≡ some (view order_id after))
unfolding spec_all Option.bind
steps-Refines new_id order_id _ db after (Steps.none_left _) c = (c, refl)
steps-Refines new_id order_id _ db after (Steps.and_then act acts _ mid _ step steps) c =
    let (there, one) = Step-Refines new_id order_id act db mid step c in
    let (end, rest) = steps-Refines new_id order_id acts mid after steps there in
    (end, ap (λ h. Option.bind h (spec_all acts)) one ∙ rest)
