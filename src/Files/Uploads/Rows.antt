-- ===== src/Files/Uploads/Rows.antt =====
-- The rows of an insertion that skips duplicates: what they add, and that no key comes twice.
use my_build.Base.{
  ℕ, ◌+◌, ◌≤◌, ◌≡◌, refl, sym, eq_refl, subst, All, String, Bool, true, false, List, [], ◌∷◌, ◌++◌,
  arith, any, keep, count, sum_of, String_eq, if◌then◌else◌, Bool-cases, inl, inr,
}
use my_build.Store.Tables.{OrderFile}
use my_build.Files.Uploads.{has_file_key, insert_skipping}

module _ {A : Type 0} where
  pub sum-append :
      (p : A → Bool) (f : A → ℕ) (xs : List A) (x : A)
      → sum_of f (keep p (xs ++ x ∷ [])) ≡ sum_of f (keep p xs) + (if p x then f x else 0)
  sum-append p f [] x = ground arith
  sum-append p f (y ∷ xs) x = ground (arith, sum-append p f xs x)

  pub any-append :
      (p : A → Bool) (xs : List A) (x : A) → any p xs ≡ true → any p (xs ++ x ∷ []) ≡ true
  any-append p [] x h = cc
  any-append p (y ∷ xs) x h = ground (arith, h, any-append p xs x)

  pub any-last : (p : A → Bool) (xs : List A) (x : A) → p x ≡ true → any p (xs ++ x ∷ []) ≡ true
  any-last p [] x h = ground (arith, h)
  any-last p (y ∷ xs) x h = ground (arith, any-last p xs x h)

  pub any-count : (p : A → Bool) (xs : List A) → any p xs ≡ false → count p xs ≡ 0
  any-count p [] h = refl
  any-count p (y ∷ xs) h = ground (arith, h, any-count p xs)

  pub count-last :
      (p : A → Bool) (xs : List A) (x : A)
      → count p (xs ++ x ∷ []) ≡ count p xs + (if p x then 1 else 0)
  count-last p [] x = ground arith
  count-last p (y ∷ xs) x = ground (arith, count-last p xs x)

abbrev pub size_of : OrderFile → ℕ
size_of row = row.size_bytes

-- No more room is taken than by all the rows.
pub insert_skipping-sum :
    (p : OrderFile → Bool) (rows table : List OrderFile)
    → sum_of size_of (keep p (insert_skipping rows table).1)
      ≤ sum_of size_of (keep p table) + sum_of size_of rows
unfolding insert_skipping
insert_skipping-sum p [] table = ground arith
insert_skipping-sum p (row ∷ rows) table = ground (
  arith,
  insert_skipping-sum p rows table,
  insert_skipping-sum p rows (table ++ row ∷ []),
  sum-append p size_of table row,
)

-- Rows of the table stay, in number by any test.
pub insert_skipping-any :
    (p : OrderFile → Bool) (rows table : List OrderFile)
    → any p table ≡ true
    → any p (insert_skipping rows table).1 ≡ true
unfolding insert_skipping
insert_skipping-any p [] table h = h
insert_skipping-any p (row ∷ rows) table h = ground (
  arith,
  insert_skipping-any p rows table h,
  insert_skipping-any p rows (table ++ row ∷ []),
  any-append p table row h,
)

-- At most one row of each key.
abbrev pub NoDuplicates : List OrderFile → Type 0
NoDuplicates table =
    (order_id : String) (round : ℕ) (hash : String)
    → count (has_file_key order_id round hash) table ≤ 1

added-NoDuplicates :
    (row : OrderFile) (table : List OrderFile)
    → NoDuplicates table
    → any (has_file_key row.order_id row.submission_round row.file_hash) table ≡ false
    → NoDuplicates (table ++ row ∷ [])
added-NoDuplicates row table h e order_id round hash =
    elim (Bool-cases (has_file_key order_id round hash row)) [
      | inl mine ↦
          let same_order : row.order_id ≡ order_id =
            (String_eq.same_iff row.order_id order_id).0 (ground (arith, mine)) in
          let same_hash : row.file_hash ≡ hash =
            (String_eq.same_iff row.file_hash hash).0 (ground (arith, mine)) in
          let same_round : row.submission_round ≡ round = ground (arith, mine) in
          let none_yet : count (has_file_key order_id round hash) table ≡ 0 =
            any-count (has_file_key order_id round hash) table (
              subst (λ o. any (has_file_key o round hash) table ≡ false) same_order
                (subst (λ r. any (has_file_key row.order_id r hash) table ≡ false) same_round
                  (subst (λ k. any (has_file_key row.order_id row.submission_round k) table ≡ false)
                    same_hash e))) in
          ground (arith, none_yet, count-last (has_file_key order_id round hash) table row, mine)
      | inr other ↦ ground (
        arith,
        h order_id round hash,
        count-last (has_file_key order_id round hash) table row,
        other,
      )
    ]

pub insert_skipping-NoDuplicates :
    (rows table : List OrderFile) → NoDuplicates table → NoDuplicates (insert_skipping rows table).1
unfolding insert_skipping
insert_skipping-NoDuplicates [] table h order_id round hash = h order_id round hash
insert_skipping-NoDuplicates (row ∷ rows) table h order_id round hash =
    elim (Bool-cases (any (has_file_key row.order_id row.submission_round row.file_hash) table)) [
      | inl e ↦ ground (arith, e, insert_skipping-NoDuplicates rows table h order_id round hash)
      | inr e ↦ ground (
        arith,
        e,
        insert_skipping-NoDuplicates rows (table ++ row ∷ []) (added-NoDuplicates row table h e)
            order_id round hash,
      )
    ]

-- Every row's key is in a table.
abbrev pub Present : List OrderFile → List OrderFile → Type 0
Present rows table =
    All (λ row. any (has_file_key row.order_id row.submission_round row.file_hash) table ≡ true)
      rows

pub insert_skipping-Present :
    (rows table : List OrderFile) → Present rows (insert_skipping rows table).1
unfolding insert_skipping
insert_skipping-Present [] table = tt
insert_skipping-Present (row ∷ rows) table =
    elim (Bool-cases (any (has_file_key row.order_id row.submission_round row.file_hash) table)) [
      | inl e ↦ (
        ground (
          arith,
          e,
          insert_skipping-any (has_file_key row.order_id row.submission_round row.file_hash) rows
              table e,
        ),
        subst (Present rows) (sym (ground (arith, e))) (insert_skipping-Present rows table),
      )
      | inr e ↦ (
        ground (
          arith,
          e,
          insert_skipping-any (has_file_key row.order_id row.submission_round row.file_hash) rows
              (table ++ row ∷ [])
              (any-last (has_file_key row.order_id row.submission_round row.file_hash) table row
                (ground (arith, eq_refl row.order_id, eq_refl row.file_hash))),
        ),
        subst (Present rows) (sym (ground (arith, e)))
            (insert_skipping-Present rows (table ++ row ∷ [])),
      )
    ]
