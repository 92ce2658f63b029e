-- ===== src/Orders/Workflow/Taken.antt =====
-- Files that are taken, as a step of the specification.
use my_build.Base.{
  ℕ, suc, ◌≡◌, refl, sym, subst, String, true, [], ◌∷◌, ◌++◌, some, arith, find, count, nat_beq,
  ◌==◌, String_eq, Option-cases, inl, inr,
}
use my_build.Errors.{ok}
use my_build.Shared.Dates.{Date}
use my_build.Shared.Orders.{can_upload_work}
use my_build.Store.Tables.{Db, Order, OrderSubmission}
use my_build.Store.Queries.{list_queries}
use my_build.Orders.Workflow.{OpenSubmission, of_order, is_open_of, open_submission}
use my_build.Orders.Workflow.Counts.{
  count-append, find-count, find-none, find-append, count-none, greatest-only, count-all,
}
use my_build.Orders.Workflow.Numbered.{is_sent_of, count-sent, next_round-count, created-IsNumbered}
use my_build.Orders.Workflow.Inversion.{current_of, new_row, Opened, open_submission-inv}
use my_build.Orders.Workflow.Spec.{Act, spec, view, IsConsistent, Refines}

module _ (new_id : ℕ → String) (order_id : String) where
  -- The hand-in that the service reads as the open one.
  pub current-find :
      (now : Date) (db : Db)
      → IsConsistent order_id db
      → current_of (list_queries new_id) now order_id db ≡ find (is_open_of order_id) db.submissions
  current-find now db c =
      greatest-only (λ row. row.round) (is_open_of order_id) db.submissions c.numbered.one_open

  round-sent :
      (db : Db) (row : OrderSubmission)
      → IsConsistent order_id db
      → find (is_open_of order_id) db.submissions ≡ some row
      → row.round ≡ suc (count (is_sent_of order_id) db.submissions)
  round-sent db row c e = ground (
    arith,
    find-count (is_open_of order_id) db.submissions row e,
    count-sent order_id db.submissions,
    c.numbered.one_open,
    count-all (is_open_of order_id)
        (λ x. nat_beq x.round (count (of_order order_id) db.submissions)) (is_open_of order_id)
        db.submissions row c.numbered.newest e,
  )

  abbrev opened_db : Date → String → Db → Db
  opened_db now comment db = record db {
    submissions = db.submissions ++ new_row (list_queries new_id) now order_id db comment ∷ [];
    issued = suc db.issued;
  }

  created-Refines :
      (now : Date) (comment : String) (db : Db) (order : Order)
      → find (λ row. row.id == order_id) db.orders ≡ some order
      → can_upload_work order.status ≡ true
      → count (is_open_of order_id) db.submissions ≡ 0
      → count (λ row. row.id == new_id db.issued) db.submissions ≡ 0
      → IsConsistent order_id db
      → Refines order_id
          (Act.takes comment (new_row (list_queries new_id) now order_id db comment).round)
          db
          (opened_db now comment db)
  unfolding spec view
  created-Refines now comment db order found lets none_open fresh c =
      let row = new_row (list_queries new_id) now order_id db comment in
      let rows = db.submissions in
      let next = next_round-count order_id rows c.numbered in
      (
        record {
          numbered = created-IsNumbered order_id rows c.numbered row none_open fresh refl refl next;
          idle = λ o e f. ground (arith, e, f, found, lets);
        },
        ground (
          arith,
          next,
          none_open,
          count-none (is_open_of order_id) rows none_open,
          count-sent order_id rows,
          count-append (is_sent_of order_id) rows row,
          find-append (is_open_of order_id) rows row none_open,
          String_eq.same_iff order_id order_id,
        ),
      )

  pub taken-Refines :
      (now : Date) (comment : String) (s : OpenSubmission) (db after : Db)
      → count (λ row. row.id == new_id db.issued) db.submissions ≡ 0
      → open_submission (list_queries new_id) now order_id comment db ≡ ok (s, after)
      → IsConsistent order_id db
      → Refines order_id (Act.takes comment s.round) db after
  unfolding spec view
  taken-Refines now comment s db after fresh h c =
      let (order, found, lets, opened) =
        open_submission-inv (list_queries new_id) now order_id comment db after s h in
      let by_find =
        subst (λ current. Opened (list_queries new_id) now order_id comment db current s after)
          (current-find now db c) opened in
      elim (Option-cases (find (is_open_of order_id) db.submissions)) [
        | inr (row, e) ↦
            let (same_round, same_id, same) =
              subst
                (λ current. Opened (list_queries new_id) now order_id comment db current s after) e
                by_find in
            (
              subst (IsConsistent order_id) (sym same) c,
              ground (arith, e, same, same_round, round-sent db row c e),
            )
        | inl e ↦
            let (is_round, is_id, is_after) =
              subst
                (λ current. Opened (list_queries new_id) now order_id comment db current s after) e
                by_find in
            let (cons, refines) =
              created-Refines now comment db order found lets
                (find-none (is_open_of order_id) db.submissions e) fresh c in
            (
              subst (IsConsistent order_id) (sym is_after) cons,
              ground (arith, is_round, refines, is_after),
            )
      ]
