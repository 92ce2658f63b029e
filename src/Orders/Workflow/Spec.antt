-- ===== src/Orders/Workflow/Spec.antt =====
-- The hand-ins of an order as a client and a company think of them, and what the service does to them.
use my_build.Base.{
  ℕ, suc, ◌≡◌, ◌≢◌, String, Bool, true, false, List, [], ◌∷◌, Option, none, some, or_else, find,
  count, nat_beq, ◌==◌, String_eq, if◌then◌else◌,
}
use mathlib.Core.Option
use my_build.Errors.{ok}
use my_build.Shared.State.{OrderEventType}
use my_build.Shared.Dates.{Date}
use my_build.Shared.Orders.{can_upload_work}
use my_build.Store.Tables.{Db, Order, OrderSubmission}
use my_build.Store.Queries.{list_queries}
use my_build.Orders.Transition.Types.{
  OrderTransitionCommand, command_order_id, command_type, AppliedTransition,
}
use my_build.Orders.Transition.{run}
use my_build.Orders.Workflow.{
  OpenSubmission, of_order, is_open_of, open_submission, save_comment, submit_work_in,
}
use my_build.Orders.Workflow.Numbered.{IsNumbered, is_sent_of}

-- How many hand-ins the client has been sent, and the comment of the one that is being prepared.
pub record HandIns : Type 0 where
  pub sent : ℕ
  pub draft : Option String

-- What is done to them: files are taken under a comment and told their round, the comment is
-- written anew, the work is handed in, or the deal moves on.
pub data Act : Type 0 where
  takes : String → ℕ → Act
  rewrites : String → Act
  submits : Act
  moves : Act

unfoldable pub spec : Act → HandIns → Option HandIns
spec (Act.takes comment round) h =
    if nat_beq round (suc h.sent)
    then some (record h { draft = some (or_else h.draft comment) })
    else none
spec (Act.rewrites comment) h = elim h.draft [
  | none ↦ none
  | some old ↦ some (record h { draft = some comment })
]
spec Act.submits h = elim h.draft [
  | none ↦ none
  | some old ↦ some (record { sent = suc h.sent; draft = none })
]
spec Act.moves h = some h

unfoldable pub spec_all : List Act → HandIns → Option HandIns
spec_all [] h = some h
spec_all (act ∷ acts) h = Option.bind (spec act h) (spec_all acts)

abbrev pub comment_of : OrderSubmission → String
comment_of row = row.comment

-- What the tables hold of them.
unfoldable pub view : String → Db → HandIns
view order_id db = record {
  sent = count (is_sent_of order_id) db.submissions;
  draft = Option.map comment_of (find (is_open_of order_id) db.submissions);
}

-- The hand-ins are numbered, and none is open where the order takes no files.
pub record IsConsistent (order_id : String) (db : Db) : Type 0 where
  pub numbered : IsNumbered order_id db.submissions
  pub idle :
      (order : Order)
      → find (λ row. row.id == order_id) db.orders ≡ some order
      → can_upload_work order.status ≡ false
      → count (is_open_of order_id) db.submissions ≡ 0

-- What the service does to the hand-ins of one order, where it answers. The database gives a new row an
-- identifier that none has.
pub data Step (new_id : ℕ → String) (order_id : String) : Act → Db → Db → Type 0 where
  files_taken :
      (now : Date) (comment : String) (s : OpenSubmission) (db after : Db)
      → count (λ row. row.id == new_id db.issued) db.submissions ≡ 0
      → open_submission (list_queries new_id) now order_id comment db ≡ ok (s, after)
      → Step new_id order_id (Act.takes comment s.round) db after
  comment_rewritten :
      (id comment : String) (changed : Bool) (db after : Db)
      → ((row : OrderSubmission)
          → find (λ row. row.id == id) db.submissions ≡ some row
          → of_order order_id row ≡ true)
      → save_comment (list_queries new_id) order_id id comment db ≡ ok (changed, after)
      → Step new_id order_id (Act.rewrites comment) db after
  work_sent :
      (now : Date) (a : AppliedTransition) (db after : Db)
      → submit_work_in (list_queries new_id) now order_id db ≡ ok (a, after)
      → Step new_id order_id Act.submits db after
  deal_moved :
      (now : Date) (command : OrderTransitionCommand) (a : AppliedTransition) (db after : Db)
      → command_order_id command ≡ order_id
      → command_type command ≢ OrderEventType.work_submitted
      → run (list_queries new_id) now command db ≡ ok (a, after)
      → Step new_id order_id Act.moves db after

-- The consistency that follows, and the step of the specification.
abbrev pub Refines : String → Act → Db → Db → Type 0
Refines order_id act db after =
    IsConsistent order_id after × (spec act (view order_id db) ≡ some (view order_id after))
