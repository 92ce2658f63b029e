-- ===== src/Offers/Service/Submit.antt =====
-- What an offer that is sent leaves in the table.
use my_build.Base.{
  ℕ, ◌≡◌, ◌≢◌, refl, sym, ap, ◌∙◌, subst, String, Bool, true, ◌&&◌, List, [], ◌∷◌, map, Option,
  none, some, arith, All, find, ◌==◌, String_eq,
}
use mathlib.Core.Option
use my_build.Errors.{ok}
use my_build.Shared.Dates.{Date}
use my_build.Shared.State.{OrderEventType}
use my_build.Store.Tables.{Db, Order, Offer}
use my_build.Store.Queries.{
  Queries, IsLawful, list_queries, IsLawful-list_queries, list_queries-IsLawful,
}
use my_build.Store.Tx.{Tx-eq-ok, return}
use my_build.Orders.Transition.Types.{OrderTransitionCommand, AppliedTransition}
use my_build.Orders.Transition.{lock_order, run}
use my_build.Orders.Transition.Inversion.{run-inv, lock_order-inv}
use my_build.Orders.Transition.Settled.{DistinctIds, settled}
use my_build.Orders.Transition.Offers.{run-settled}
use my_build.Offers.Service.{
  CreateOfferDto, has_key, upserted, upsert, submit_written, submit_locked, submit_in, is_some,
}
use my_build.Offers.Service.Terms.{
  Terms, History, is_companys, created-Terms, edited-Terms, upserted-DistinctIds,
}
use my_build.Offers.Service.Rows.{
  Fresh, updated-Fresh, added-Fresh, found-Fresh, settled_kept, only_one,
}

module _ (new_id : ℕ → String) (now : Date) (company_id : String) (dto : CreateOfferDto)
    (db : Db) where
  key-Fresh :
      (existing : Option Offer)
      → find (has_key dto.order_id company_id) db.offers ≡ existing
      → All
          (λ row. has_key dto.order_id company_id row ≡ true → Fresh now row)
          (upserted (list_queries new_id) now company_id dto existing db).offers
  key-Fresh none h = added-Fresh (new_id db.issued) now company_id dto db.offers h
  key-Fresh (some row) h = updated-Fresh now company_id dto db.offers

  upsert-inv :
      (existing : Option Offer) (mid : Db) (created : Offer)
      → upsert (list_queries new_id) now company_id dto existing db ≡ ok (created, mid)
      → (mid ≡ upserted (list_queries new_id) now company_id dto existing db)
        × (find (has_key dto.order_id company_id) mid.offers ≡ some created)
  unfolding upsert
  upsert-inv existing mid created h = ground (arith, h)

  submit_written-inv :
      (order : Order) (existing : Option Offer) (created : Offer) (mid after : Db)
      (r : Offer × AppliedTransition × Bool)
      → submit_written (list_queries new_id) now order existing created mid ≡ ok (r, after)
      → (run
            (list_queries new_id)
            now
            (OrderTransitionCommand.offer_submitted order.id created.id
              (Option.map (λ (row : Offer). row.status) existing))
            mid
          ≡ ok (r.1, after))
        × (r.0 ≡ created)
        × (r.2 ≡ is_some existing)
  unfolding submit_written
  submit_written-inv order existing created mid after r h =
      let (a, mid', e, e') =
        Tx-eq-ok
          (run (list_queries new_id) now (
            OrderTransitionCommand.offer_submitted order.id created.id
              (Option.map (λ (row : Offer). row.status) existing)))
          (λ applied. return (created, applied, is_some existing)) mid h in
      (ground (arith, e, e'), ground (arith, e'), ground (arith, e'))

  found_id :
      (id order_id : String) (rows : List Offer) (c : Offer)
      → find (λ row. row.id == id && row.order_id == order_id) rows ≡ some c
      → c.id ≡ id
  found_id id order_id [] c h = cc
  found_id id order_id (x ∷ rows) c h =
      ground (arith, h, found_id id order_id rows c, String_eq.same_iff x.id id)

  transition_keeps :
      (order : Order) (existing : Option Offer) (created : Offer) (mid after : Db)
      (a : AppliedTransition)
      → DistinctIds mid.offers
      → All (λ row. has_key dto.order_id company_id row ≡ true → Fresh now row) mid.offers
      → find (has_key dto.order_id company_id) mid.offers ≡ some created
      → run
          (list_queries new_id)
          now
          (OrderTransitionCommand.offer_submitted order.id created.id
            (Option.map (λ (row : Offer). row.status) existing))
          mid
        ≡ ok (a, after)
      → (after.offers ≡ mid.offers) × Fresh now created
  transition_keeps order existing created mid after a d fresh found ran =
      let command =
        OrderTransitionCommand.offer_submitted order.id created.id
          (Option.map (λ (row : Offer). row.status) existing) in
      let lists = list_queries new_id in
      let run_of = run-inv lists now command mid after a ran in
      let chosen : a.offer_id ≡ created.id =
        ap (λ (x : AppliedTransition). x.offer_id) run_of.answer
        ∙ found_id created.id run_of.order.id mid.offers run_of.offer run_of.meant in
      let sent = found-Fresh (has_key dto.order_id company_id) now mid.offers created fresh found in
      (
        run-settled lists now command mid after a (list_queries-IsLawful new_id) d ran
            ∙ ap (λ c. map (settled OrderEventType.offer_submitted now order.id c) mid.offers)
                chosen
            ∙ settled_kept now order.id created mid.offers sent
                (only_one (has_key dto.order_id company_id) mid.offers created d found),
        sent,
      )

-- What a submission leaves of the offers, and what it answers: the company's row with the terms that
-- it has sent, and whether it was there.
pub record Submitted (q : Queries) (now : Date) (company_id : String) (dto : CreateOfferDto)
    (db after : Db) (r : Offer × AppliedTransition × Bool) : Type 0 where
  pub found : find (is_companys dto.order_id company_id) after.offers ≡ some r.0
  pub terms : Terms now company_id dto r.0
  pub history :
      History
        (q.new_id db.issued)
        now
        dto.order_id
        company_id
        (find (is_companys dto.order_id company_id) db.offers)
        db.offers
        after.offers
        r.0
  pub existed : r.2 ≡ is_some (find (is_companys dto.order_id company_id) db.offers)

row_left :
    (new_id : ℕ → String) (now : Date) (company_id : String) (dto : CreateOfferDto) (db : Db)
    (existing : Option Offer) (row : Offer)
    → find (has_key dto.order_id company_id) db.offers ≡ existing
    → find
        (has_key dto.order_id company_id)
        (upserted (list_queries new_id) now company_id dto existing db).offers
      ≡ some row
    → Terms now company_id dto row
      × History
          (new_id db.issued)
          now
          dto.order_id
          company_id
          existing
          db.offers
          (upserted (list_queries new_id) now company_id dto existing db).offers
          row
row_left new_id now company_id dto db none row e f =
    created-Terms now company_id dto (new_id db.issued) db.offers row e f
row_left new_id now company_id dto db (some old) row e f =
    edited-Terms now company_id dto (new_id db.issued) db.offers old row e f

-- On tables that meet the laws, and where no two offers have one identifier and the next one that
-- the database gives out is new, a submission that answers has left the company's own offer for
-- the order with the price, the deadline and the comment of the request, sent, and changed now. If
-- the company had none, the row is new, at the end of the table, not edited and never refused; if
-- it had one, the row keeps its identifier, the moment it was made and its count of refusals and
-- is marked as edited now, and no other company's offer and no offer of another order has changed.
-- The answer is that row, and whether it was there before.
pub submit_in-Submitted :
    (q : Queries) (now : Date) (company_id : String) (dto : CreateOfferDto) (db after : Db)
    (r : Offer × AppliedTransition × Bool)
    → IsLawful q
    → DistinctIds db.offers
    → All (λ row. row.id ≢ q.new_id db.issued) db.offers
    → submit_in q now company_id dto db ≡ ok (r, after)
    → Submitted q now company_id dto db after r
unfolding submit_in submit_locked
submit_in-Submitted q now company_id dto db after r lawful distinct fresh =
    subst Claim (IsLawful-list_queries q lawful) on_lists
  where
    Claim : Queries → Type 0
    Claim p =
        submit_in p now company_id dto db ≡ ok (r, after)
        → Submitted p now company_id dto db after r

    lists : Queries
    lists = list_queries q.new_id

    on_lists : Claim (list_queries q.new_id)
    on_lists h =
        let existing = find (has_key dto.order_id company_id) db.offers in
        let d = upserted-DistinctIds now company_id dto q.new_id existing db distinct fresh in
        let (order, there, e0, h0) =
          Tx-eq-ok (lock_order lists dto.order_id) (submit_locked lists now company_id dto) db h in
        let (same, _) = lock_order-inv lists dto.order_id db there order e0 in
        let h1 =
          subst (λ d. submit_locked lists now company_id dto order d ≡ ok (r, after)) same h0 in
        let (created, mid, e2, h2) =
          Tx-eq-ok (upsert lists now company_id dto existing)
            (submit_written lists now order existing) db h1 in
        let (is_mid, found) = upsert-inv q.new_id now company_id dto db existing mid created e2 in
        let (ran, is_created, is_existed) =
          submit_written-inv q.new_id now company_id dto db order existing created mid after r h2 in
        let kept =
          transition_keeps q.new_id now company_id dto db order existing created mid after r.1
            (subst (λ (x : Db). DistinctIds x.offers) (sym is_mid) d)
            (subst
              (λ (x : Db).
                All (λ row. has_key dto.order_id company_id row ≡ true → Fresh now row) x.offers)
              (sym is_mid) (key-Fresh q.new_id now company_id dto db existing refl))
            found ran in
        let offers = kept.0 ∙ ap (λ (x : Db). x.offers) is_mid in
        let (terms, history) = row_left q.new_id now company_id dto db existing created refl (
          subst (λ (x : Db). find (has_key dto.order_id company_id) x.offers ≡ some created) is_mid
            found) in
        record {
          found =
              ap (find (has_key dto.order_id company_id)) kept.0 ∙ found ∙ ap some (sym is_created);
          terms = subst (Terms now company_id dto) (sym is_created) terms;
          history =
              subst
                (λ rows.
                  History (q.new_id db.issued) now dto.order_id company_id existing db.offers rows
                    r.0)
                (sym offers)
                (subst
                  (λ row.
                    History (q.new_id db.issued) now dto.order_id company_id existing db.offers
                      (upserted lists now company_id dto existing db).offers row)
                  (sym is_created) history);
          existed = is_existed;
        }
