-- ===== src/Orders/Workflow/Kept.antt =====
-- A comment that is rewritten, as a step of the specification.
use my_build.Base.{
  ℕ, ◌≡◌, refl, sym, subst, String, Bool, true, ◌&&◌, some, arith, find, ◌==◌, String_eq,
  Bool-cases, inl, inr,
}
use my_build.Errors.{ok}
use my_build.Store.Tables.{Db, OrderSubmission}
use my_build.Store.Queries.{list_queries}
use my_build.Orders.Workflow.{of_order, is_open_of, is_null, save_comment}
use my_build.Orders.Workflow.Counts.{count-update, find-count, find-key, find-update}
use my_build.Orders.Workflow.Numbered.{IsNumbered, is_sent_of, changed-IsNumbered}
use my_build.Orders.Workflow.Inversion.{rewrite, with_changed, save_comment-inv}
use my_build.Orders.Workflow.Spec.{Act, spec, view, IsConsistent, Refines}

module _ (new_id : ℕ → String) (order_id : String) where
  -- A row that is open under an identifier is the order's open hand-in.
  pub rewritten-Refines :
      (id comment : String) (changed : Bool) (db after : Db)
      → ((row : OrderSubmission)
          → find (λ row. row.id == id) db.submissions ≡ some row
          → of_order order_id row ≡ true)
      → save_comment (list_queries new_id) order_id id comment db ≡ ok (changed, after)
      → IsConsistent order_id db
      → Refines order_id (Act.rewrites comment) db after
  unfolding spec view
  rewritten-Refines id comment changed db after owned h c =
      let (row, found, written) =
        save_comment-inv (list_queries new_id) 0 order_id id comment db after changed h in
      let rows = db.submissions in
      let is_open =
        find-count (λ (x : OrderSubmission). x.id == id && is_null x.submitted_at) rows row found in
      let named : row.id ≡ id = (String_eq.same_iff row.id id).0 (ground (arith, is_open)) in
      let there : find (λ x. x.id == id) rows ≡ some row =
        find-key (λ x. x.id == id && is_null x.submitted_at) (λ x. x.id == id) rows row found
          (ground (arith, is_open)) (c.numbered.distinct id) in
      let mine : is_open_of order_id row ≡ true = ground (arith, owned row there, is_open) in
      let at_row : find (λ x. x.id == row.id) rows ≡ some row =
        subst (λ i. find (λ (x : OrderSubmission). x.id == i) rows ≡ some row) (sym named) there in
      let current : find (is_open_of order_id) rows ≡ some row =
        find-key (λ x. x.id == id) (is_open_of order_id) rows row there mine c.numbered.one_open in
      elim (Bool-cases (row.comment == comment)) [
        | inl e ↦
            let same : after ≡ db = ground (arith, written, e) in
            (
              subst (IsConsistent order_id) (sym same) c,
              ground (arith, same, current, e, String_eq.same_iff row.comment comment),
            )
        | inr e ↦
            let is_after : after
                ≡ with_changed (list_queries new_id) 0 order_id row.id (rewrite comment) db =
              ground (arith, written, e, named) in
            let by_row =
              count-update (is_sent_of order_id) (λ x. x.id == row.id) (rewrite comment) rows row in
            (
              record {
                numbered =
                    subst (λ (d : Db). IsNumbered order_id d.submissions) (sym is_after)
                      (changed-IsNumbered order_id rows c.numbered (rewrite comment) row
                        (λ x. (refl, refl, refl)) at_row mine);
                idle = λ o e' f. ground (
                  arith,
                  is_after,
                  c.idle o (ground (arith, e', is_after)) f,
                  count-update (is_open_of order_id) (λ x. x.id == row.id) (rewrite comment) rows
                      row (c.numbered.distinct row.id) at_row,
                );
              },
              ground (
                arith,
                is_after,
                current,
                find-update (is_open_of order_id) (λ x. x.id == row.id) (rewrite comment) rows row
                    c.numbered.one_open at_row mine mine,
                by_row (c.numbered.distinct row.id) at_row,
              ),
            )
      ]
