-- ===== src/Orders/Workflow/Numbered.antt =====
-- How the hand-ins of an order are numbered, and that the statements of the service keep it so.
use my_build.Base.{
  ℕ, suc, ◌+◌, ◌≤◌, ◌≡◌, refl, sym, ap, subst, String, Bool, true, not, ◌&&◌, List, [], ◌∷◌, ◌++◌,
  none, some, arith, keep, find, count, ltb, leb, nat_beq, ◌==◌, String_eq, if◌then◌else◌,
  Option-cases, inl, inr,
}
use my_build.Store.Tables.{OrderSubmission}
use my_build.Store.Queries.{update_where, greatest_of}
use my_build.Orders.Workflow.{of_order, is_open_of, is_null, next_round}
use my_build.Orders.Workflow.Counts.{
  count-append, count-update, greatest-none, greatest-there, greatest-bounds, count-fewer,
  count-all,
}

abbrev pub has_round : String → ℕ → OrderSubmission → Bool
has_round order_id k row = row.order_id == order_id && nat_beq row.round k

abbrev pub is_sent_of : String → OrderSubmission → Bool
is_sent_of order_id row = row.order_id == order_id && not (is_null row.submitted_at)

abbrev pub is_newest_of : String → ℕ → OrderSubmission → Bool
is_newest_of order_id n row = is_open_of order_id row && nat_beq row.round n

-- No two rows have one identifier; at most one hand-in of the order is open; their rounds are 1 to
-- their number, each once; and the open one is the last.
pub record IsNumbered (order_id : String) (rows : List OrderSubmission) : Type 0 where
  pub distinct : (id : String) → count (λ row. row.id == id) rows ≤ 1
  pub one_open : count (is_open_of order_id) rows ≤ 1
  pub numbered :
      (k : ℕ)
      → count (has_round order_id k) rows
        ≡ (if ltb 0 k && leb k (count (of_order order_id) rows) then 1 else 0)
  pub newest :
      count (is_newest_of order_id (count (of_order order_id) rows)) rows
      ≡ count (is_open_of order_id) rows

pub count-sent :
    (order_id : String) (rows : List OrderSubmission)
    → count (of_order order_id) rows
      ≡ count (is_sent_of order_id) rows + count (is_open_of order_id) rows
count-sent order_id [] = refl
count-sent order_id (r ∷ rows) = ground (arith, count-sent order_id rows)

module _ (order_id : String) (rows : List OrderSubmission) (inv : IsNumbered order_id rows) where
  open inv use {distinct, one_open, numbered, newest}

  abbrev n : ℕ
  n = count (of_order order_id) rows

  -- A new hand-in takes the number after the last.
  pub next_round-count :
      next_round (greatest_of OrderSubmission (λ row. row.round) (keep (of_order order_id) rows))
      ≡ suc (count (of_order order_id) rows)
  next_round-count =
      elim (Option-cases
        (greatest_of OrderSubmission (λ row. row.round) (keep (of_order order_id) rows))) [
          | inl e ↦ ground (arith, e, greatest-none (λ row. row.round) (of_order order_id) rows e)
          | inr (b, e) ↦ ground (
            arith,
            e,
            greatest-there (λ row. row.round) (of_order order_id) rows b e,
            greatest-bounds (λ row. row.round) (of_order order_id) rows b n e,
            numbered b.round,
            numbered n,
          )
        ]

  -- A hand-in that is opened where none is.
  pub created-IsNumbered :
      (row : OrderSubmission)
      → count (is_open_of order_id) rows ≡ 0
      → count (λ x. x.id == row.id) rows ≡ 0
      → row.order_id ≡ order_id
      → row.submitted_at ≡ none
      → row.round ≡ suc (count (of_order order_id) rows)
      → IsNumbered order_id (rows ++ row ∷ [])
  created-IsNumbered row none_open fresh of_it unsent next =
      let mine : (row.order_id == order_id) ≡ true =
        (String_eq.same_iff row.order_id order_id).1 of_it in
      record {
        distinct = λ id. ground (
          arith,
          distinct id,
          fresh,
          count-append (λ x. x.id == id) rows row,
          count_renamed id row.id,
        );
        one_open =
            ground (arith, none_open, count-append (is_open_of order_id) rows row, mine, unsent);
        numbered = λ k. ground (
          arith,
          numbered k,
          count-append (has_round order_id k) rows row,
          count-append (of_order order_id) rows row,
          mine,
          next,
        );
        newest = ground (
          arith,
          count-append (is_newest_of order_id (suc n)) rows row,
          count-append (of_order order_id) rows row,
          count-append (is_open_of order_id) rows row,
          mine,
          next,
          unsent,
          none_open,
          count-fewer (is_open_of order_id) (λ x. nat_beq x.round (suc n)) rows,
        );
      }
    where
      count_renamed :
          (id other : String)
          → (other == id) ≡ true
          → count (λ x. x.id == other) rows ≡ count (λ (x : OrderSubmission). x.id == id) rows
      count_renamed id other e =
          ap (λ i. count (λ (x : OrderSubmission). x.id == i) rows)
            ((String_eq.same_iff other id).0 e)

  -- A hand-in that is changed in its comment, or closed.
  pub changed-IsNumbered :
      (f : OrderSubmission → OrderSubmission) (row : OrderSubmission)
      → ((x : OrderSubmission)
          → ((f x).id ≡ x.id) × ((f x).order_id ≡ x.order_id) × ((f x).round ≡ x.round))
      → find (λ x. x.id == row.id) rows ≡ some row
      → is_open_of order_id row ≡ true
      → IsNumbered order_id (update_where OrderSubmission (λ x. x.id == row.id) f rows)
  changed-IsNumbered f row keeps there was_open =
      let key = λ (x : OrderSubmission). x.id == row.id in
      let moved =
        λ (p : OrderSubmission → Bool). count-update p key f rows row (distinct row.id) there in
      let (same_id, same_order, same_round) = keeps row in
      let after = update_where OrderSubmission key f rows in
      let same_count : count (of_order order_id) after ≡ n =
        ground (arith, moved (of_order order_id), same_order) in
      let last : nat_beq row.round n ≡ true =
        count-all (is_open_of order_id) (λ x. nat_beq x.round n) key rows row newest there
          was_open in
      record {
        distinct = λ id. ground (arith, distinct id, moved (λ x. x.id == id), same_id);
        one_open = ground (arith, one_open, moved (is_open_of order_id), was_open);
        numbered = λ k. ground (
          arith,
          numbered k,
          moved (has_round order_id k),
          moved (of_order order_id),
          same_order,
          same_round,
        );
        newest =
            subst (λ m. count (is_newest_of order_id m) after ≡ count (is_open_of order_id) after)
              (sym same_count)
              (ground (
                arith,
                newest,
                moved (is_newest_of order_id n),
                moved (is_open_of order_id),
                same_order,
                same_round,
                was_open,
                one_open,
                last,
              ));
      }
