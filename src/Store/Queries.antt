-- ===== src/Store/Queries.antt =====
-- The Prisma client as an interface: the queries that the program makes of one table, and the laws
-- by which their documentation describes them. The program does not implement it.
use my_build.Base.{
  ℕ, String, ◌≡◌, refl, sym, Bool, List, [], ◌∷◌, Option, none, some, keep, find, count, sum_of,
  ltb, if◌then◌else◌,
}

pub record Queries : Type 1 where
  pub find_first : (Row : Type 0) → (Row → Bool) → List Row → Option Row
  pub find_many : (Row : Type 0) → (Row → Bool) → List Row → List Row
  pub count_rows : (Row : Type 0) → (Row → Bool) → List Row → ℕ
  pub update_many : (Row : Type 0) → (Row → Bool) → (Row → Row) → List Row → List Row
  pub delete_many : (Row : Type 0) → (Row → Bool) → List Row → List Row
  -- `findFirst` with `orderBy: desc` of a number, `findMany` with `orderBy`, and `_sum` of a number.
  pub find_greatest : (Row : Type 0) → (Row → Bool) → (Row → ℕ) → List Row → Option Row
  pub find_sorted : (Row : Type 0) → (Row → Bool) → (Row → Row → Bool) → List Row → List Row
  pub sum_rows : (Row : Type 0) → (Row → Bool) → (Row → ℕ) → List Row → ℕ
  -- The identifier that the database gives to a new row, by how many it has given before.
  pub new_id : ℕ → String

-- The rows that an update changes, and those that it leaves.
abbrev pub update_where : (Row : Type 0) → (Row → Bool) → (Row → Row) → List Row → List Row
update_where Row p f [] = []
update_where Row p f (r ∷ rows) = (if p r then f r else r) ∷ update_where Row p f rows

abbrev pub rows_except : (Row : Type 0) → (Row → Bool) → List Row → List Row
rows_except Row p [] = []
rows_except Row p (r ∷ rows) = if p r then rows_except Row p rows else r ∷ rows_except Row p rows

-- The first of the rows with the largest number.
abbrev pub greatest_of : (Row : Type 0) → (Row → ℕ) → List Row → Option Row
greatest_of Row f [] = none
greatest_of Row f (r ∷ rows) =
    let best = greatest_of Row f rows in
    elim best [ none ↦ some r | some b ↦ if ltb (f r) (f b) then some b else some r ]

-- The rows in an order, given by whether the first of two may stand before the second.
abbrev pub insert_sorted : (Row : Type 0) → (Row → Row → Bool) → Row → List Row → List Row
insert_sorted Row before x [] = x ∷ []
insert_sorted Row before x (r ∷ rows) =
    let rest = insert_sorted Row before x rows in if before x r then x ∷ r ∷ rows else r ∷ rest

abbrev pub sort_rows : (Row : Type 0) → (Row → Row → Bool) → List Row → List Row
sort_rows Row before [] = []
sort_rows Row before (r ∷ rows) = insert_sorted Row before r (sort_rows Row before rows)

-- A query answers by the rows that meet its condition, in their order, and a statement changes or
-- removes just those.
pub record IsLawful (q : Queries) : Type 1 where
  pub find_first_lem :
      (Row : Type 0) (p : Row → Bool) (rows : List Row) → q.find_first Row p rows ≡ find p rows
  pub find_many_lem :
      (Row : Type 0) (p : Row → Bool) (rows : List Row) → q.find_many Row p rows ≡ keep p rows
  pub count_rows_lem :
      (Row : Type 0) (p : Row → Bool) (rows : List Row) → q.count_rows Row p rows ≡ count p rows
  pub update_many_lem :
      (Row : Type 0) (p : Row → Bool) (f : Row → Row) (rows : List Row)
      → q.update_many Row p f rows ≡ update_where Row p f rows
  pub delete_many_lem :
      (Row : Type 0) (p : Row → Bool) (rows : List Row)
      → q.delete_many Row p rows ≡ rows_except Row p rows
  pub find_greatest_lem :
      (Row : Type 0) (p : Row → Bool) (f : Row → ℕ) (rows : List Row)
      → q.find_greatest Row p f rows ≡ greatest_of Row f (keep p rows)
  pub find_sorted_lem :
      (Row : Type 0) (p : Row → Bool) (before : Row → Row → Bool) (rows : List Row)
      → q.find_sorted Row p before rows ≡ sort_rows Row before (keep p rows)
  pub sum_rows_lem :
      (Row : Type 0) (p : Row → Bool) (f : Row → ℕ) (rows : List Row)
      → q.sum_rows Row p f rows ≡ sum_of f (keep p rows)

-- Tables as lists meet the laws.
abbrev pub list_queries : (ℕ → String) → Queries
list_queries new_id = record {
  find_first = λ Row. find;
  find_many = λ Row. keep;
  count_rows = λ Row. count;
  update_many = update_where;
  delete_many = rows_except;
  find_greatest = λ Row p f rows. greatest_of Row f (keep p rows);
  find_sorted = λ Row p before rows. sort_rows Row before (keep p rows);
  sum_rows = λ Row p f rows. sum_of f (keep p rows);
  new_id = new_id;
}

pub list_queries-IsLawful : (new_id : ℕ → String) → IsLawful (list_queries new_id)
list_queries-IsLawful new_id = record {
  find_first_lem = λ Row p rows. refl;
  find_many_lem = λ Row p rows. refl;
  count_rows_lem = λ Row p rows. refl;
  update_many_lem = λ Row p f rows. refl;
  delete_many_lem = λ Row p rows. refl;
  find_greatest_lem = λ Row p f rows. refl;
  find_sorted_lem = λ Row p before rows. refl;
  sum_rows_lem = λ Row p f rows. refl;
}

-- Whatever meets the laws answers as the lists do, so a statement about those holds of it.
pub IsLawful-list_queries : (q : Queries) → IsLawful q → list_queries q.new_id ≡ q
IsLawful-list_queries q h = λ i. record {
  find_first = λ Row p rows. sym (h.find_first_lem Row p rows) i;
  find_many = λ Row p rows. sym (h.find_many_lem Row p rows) i;
  count_rows = λ Row p rows. sym (h.count_rows_lem Row p rows) i;
  update_many = λ Row p f rows. sym (h.update_many_lem Row p f rows) i;
  delete_many = λ Row p rows. sym (h.delete_many_lem Row p rows) i;
  find_greatest = λ Row p f rows. sym (h.find_greatest_lem Row p f rows) i;
  find_sorted = λ Row p before rows. sym (h.find_sorted_lem Row p before rows) i;
  sum_rows = λ Row p f rows. sym (h.sum_rows_lem Row p f rows) i;
  new_id = q.new_id;
}
