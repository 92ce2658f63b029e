-- ===== src/Orders/Workflow/Inversion.antt =====
-- What the operations on hand-ins have read and written when they answer.
use my_build.Base.{
  suc, ◌≡◌, refl, subst, String, Bool, true, false, not, [], ◌∷◌, ◌++◌, Option, none, some, arith,
  nat_beq, ◌==◌, String_eq, inl, inr, Bool-cases, ◌&&◌, if◌then◌else◌,
}
use my_build.Errors.{ok}
use my_build.Shared.Dates.{Date}
use my_build.Shared.Orders.{can_upload_work}
use my_build.Store.Tables.{Db, Order, OrderSubmission, OrderFile}
use my_build.Store.Queries.{Queries}
use my_build.Store.Tx.{Tx-eq-ok, refuse-eq-ok, or_throw-eq-ok, return}
use my_build.Orders.Transition.Types.{OrderTransitionCommand, AppliedTransition}
use my_build.Orders.Transition.{lock_order, run}
use my_build.Orders.Transition.Inversion.{lock_order-inv}
use my_build.Orders.Workflow.{
  upload_forbidden, nothing_to_submit, OpenSubmission, of_order, is_open_of, is_null, is_work_of,
  next_round, submission_row, find_open_submission, update_submission, create_submission,
  open_or_create, open_submission, assert_submission_open, write_comment, save_comment,
  close_submission, submit_open, submit_work_in,
}

abbrev pub rewrite : String → OrderSubmission → OrderSubmission
rewrite comment row = record row { comment = comment }

abbrev pub close : Date → OrderSubmission → OrderSubmission
close now row = record row { submitted_at = some now }

module _ (q : Queries) (now : Date) (order_id : String) where
  abbrev pub current_of : Db → Option OrderSubmission
  current_of db =
      q.find_greatest OrderSubmission (is_open_of order_id) (λ row. row.round) db.submissions

  abbrev pub new_row : Db → String → OrderSubmission
  new_row db comment =
      submission_row q now (q.new_id db.issued) order_id
        (next_round
          (q.find_greatest OrderSubmission (of_order order_id) (λ row. row.round) db.submissions))
        comment

  -- The hand-in that is answered, and the table of hand-ins, by whether one was open.
  abbrev pub Opened : String → Db → Option OrderSubmission → OpenSubmission → Db → Type 0
  Opened comment db (some row) s after = (s.round ≡ row.round) × (s.id ≡ row.id) × (after ≡ db)
  Opened comment db none s after =
      (s.round ≡ (new_row db comment).round)
      × (s.id ≡ (new_row db comment).id)
      × (after ≡ record db {
        submissions = db.submissions ++ new_row db comment ∷ [];
        issued = suc db.issued;
      })

  open_or_create-inv :
      (comment : String) (order : Order) (current : Option OrderSubmission) (db after : Db)
      (s : OpenSubmission)
      → open_or_create q now order_id comment order current db ≡ ok (s, after)
      → Opened comment db current s after
  unfolding open_or_create create_submission
  open_or_create-inv comment order none db after s h = ground arith
  open_or_create-inv comment order (some row) db after s h = ground arith

  pub open_submission-inv :
      (comment : String) (db after : Db) (s : OpenSubmission)
      → open_submission q now order_id comment db ≡ ok (s, after)
      → (order : Order) × (q.find_first Order (λ row. row.id == order_id) db.orders ≡ some order)
        × (can_upload_work order.status ≡ true)
        × Opened comment db (current_of db) s after
  unfolding open_submission find_open_submission
  open_submission-inv comment db after s h =
      let (order, there, e, h1) = Tx-eq-ok (lock_order q order_id) _ db h in
      let (same, found) = lock_order-inv q order_id db there order e in
      let (lets, h2) =
        refuse-eq-ok (not (can_upload_work order.status)) upload_forbidden _ there h1 in
      (
        order,
        found,
        ground (arith, lets),
        open_or_create-inv comment order (current_of db) db after s (
            subst
              (λ d. open_or_create q now order_id comment order (current_of d) d ≡ ok (s, after))
              same h2),
      )

  abbrev pub with_changed : String → (OrderSubmission → OrderSubmission) → Db → Db
  with_changed id f db = record db {
    submissions = q.update_many OrderSubmission (λ row. row.id == id) f db.submissions;
  }

  update_submission-inv :
      (id : String) (f : OrderSubmission → OrderSubmission) (db after : Db) {u : Unit {0}}
      → update_submission q id f db ≡ ok (u, after)
      → after ≡ with_changed id f db
  unfolding update_submission
  update_submission-inv id f db after h =
      let (row, found, h1) =
        or_throw-eq-ok (q.find_first OrderSubmission (λ row. row.id == id) db.submissions) _ _ db
          h in
      ground (arith, h1)

  -- What a comment that is written leaves, by whether it is the one that is there.
  abbrev pub Written : String → String → OrderSubmission → Db → Bool → Db → Type 0
  Written id comment row db changed after =
      (changed ≡ not (row.comment == comment))
      × (after ≡ (if row.comment == comment then db else with_changed id (rewrite comment) db))

  write_comment-inv :
      (id comment : String) (row : OrderSubmission) (db after : Db) (changed : Bool)
      → write_comment q id comment row db ≡ ok (changed, after)
      → Written id comment row db changed after
  unfolding write_comment
  write_comment-inv id comment row db after changed h = elim (Bool-cases (row.comment == comment)) [
    | inl e ↦ ground (arith, h, e)
    | inr e ↦
        let (u, mid, h1, h2) =
          Tx-eq-ok (update_submission q id (rewrite comment)) (λ _. return true) db (rw e at h) in
        ground (arith, e, h2, update_submission-inv id (rewrite comment) db mid h1)
  ]

  assert_submission_open-inv :
      (id : String) (db after : Db) (row : OrderSubmission)
      → assert_submission_open q order_id id db ≡ ok (row, after)
      → (after ≡ db)
        × (q.find_first OrderSubmission (λ x. x.id == id && is_null x.submitted_at) db.submissions
            ≡ some row)
  unfolding assert_submission_open
  assert_submission_open-inv id db after row h =
      let (order, there, e1, h2) = Tx-eq-ok (lock_order q order_id) _ db h in
      let (same, _) = lock_order-inv q order_id db there order e1 in
      let (lets, h3) =
        refuse-eq-ok (not (can_upload_work order.status)) upload_forbidden _ there h2 in
      ground (arith, same, h3)

  pub save_comment-inv :
      (id comment : String) (db after : Db) (changed : Bool)
      → save_comment q order_id id comment db ≡ ok (changed, after)
      → (row : OrderSubmission) × (q.find_first OrderSubmission
            (λ x. x.id == id && is_null x.submitted_at)
            db.submissions
          ≡ some row)
        × Written id comment row db changed after
  unfolding save_comment
  save_comment-inv id comment db after changed h =
      let (row, mid, e, h1) = Tx-eq-ok (assert_submission_open q order_id id) _ db h in
      let (same, found) = assert_submission_open-inv id db mid row e in
      (
        row,
        found,
        write_comment-inv id comment row db after changed
            (subst (λ d. write_comment q id comment row d ≡ ok (changed, after)) same h1),
      )

  close_submission-inv :
      (current : Option OrderSubmission) (db after : Db) {u : Unit {0}}
      → close_submission q now order_id current db ≡ ok (u, after)
      → (row : OrderSubmission) × (current ≡ some row)
        × (nat_beq (q.count_rows OrderFile (is_work_of order_id row.round) db.files) 0 ≡ false)
        × (after ≡ with_changed row.id (close now) db)
  unfolding close_submission
  close_submission-inv none db after h = absurd (ground (arith, h))
  close_submission-inv (some row) db after h =
      let (some_files, h1) =
        refuse-eq-ok (nat_beq (q.count_rows OrderFile (is_work_of order_id row.round) db.files) 0)
          nothing_to_submit _ db h in
      (row, refl, some_files, update_submission-inv row.id (close now) db after h1)

  -- What a hand-in that is submitted has met.
  pub submit_work_in-inv :
      (db after : Db) (a : AppliedTransition)
      → submit_work_in q now order_id db ≡ ok (a, after)
      → (row : OrderSubmission) × (mid : Db) × (current_of db ≡ some row)
        × (run q now (OrderTransitionCommand.work_submitted order_id) db ≡ ok (a, mid))
        × (nat_beq (q.count_rows OrderFile (is_work_of order_id row.round) mid.files) 0 ≡ false)
        × (after ≡ with_changed row.id (close now) mid)
  unfolding submit_work_in submit_open find_open_submission
  submit_work_in-inv db after a h =
      let (order, there, e1, h1) = Tx-eq-ok (lock_order q order_id) _ db h in
      let (same, _) = lock_order-inv q order_id db there order e1 in
      let h2 = subst (λ d. submit_open q now order_id (current_of d) d ≡ ok (a, after)) same h1 in
      let (b, mid, ran, h3) =
        Tx-eq-ok (run q now (OrderTransitionCommand.work_submitted order_id)) _ db h2 in
      let (u, last, closed, h4) =
        Tx-eq-ok (close_submission q now order_id (current_of db)) (λ _. return b) mid h3 in
      let (row, current, some_files, is_after) =
        close_submission-inv (current_of db) mid last closed in
      (row, mid, current, ground (arith, ran, h4), some_files, ground (arith, is_after, h4))
