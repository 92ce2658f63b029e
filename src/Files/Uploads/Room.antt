-- ===== src/Files/Uploads/Room.antt =====
-- The room that an insertion of files leaves taken, by the check in its transaction.
use my_build.Base.{
  ℕ, suc, ◌+◌, ◌≤◌, ◌≡◌, refl, subst, ◌∙◌, All, String, Bool, true, false, ◌&&◌, List, [], ◌∷◌,
  Option, none, some, arith, any, keep, find, sum_of, ◌==◌, String_eq, inl, inr, Option-cases,
}
use my_build.Errors.{ok}
use my_build.Shared.Enums.{FileOwnerType}
use my_build.Shared.Dates.{Date}
use my_build.Store.Tables.{Db, Order, OrderFile}
use my_build.Store.Queries.{list_queries}
use my_build.Store.Tx.{Tx-eq-ok, lift-eq-ok}
use my_build.Files.Quota.{
  StorageUsage, QuotaRefusal, check_storage_quota, add_usage, max_order_files_bytes,
  max_client_files_bytes, max_total_files_bytes,
}
use my_build.Files.Quota.Bounds.{of_incoming, Judges, check_storage_quota-Judges}
use my_build.Files.Uploads.{
  PreparedFile, Target, sum_sizes, refuse_over_quota, has_file_key, insert_skipping,
  is_file_of_client, usage_of, client_of, read_storage_usage, assert_storage_quota, file_rows,
}
use my_build.Files.Uploads.Rows.{size_of, insert_skipping-sum, Present}

refuse_over_quota-inv :
    (refusal : Option QuotaRefusal) {u : Unit {0}}
    → refuse_over_quota refusal ≡ ok u
    → refusal ≡ none
unfolding refuse_over_quota
refuse_over_quota-inv none h = refl
refuse_over_quota-inv (some refusal) h = absurd (ground (arith, h))

-- The files of a kind take no more room than a bound, but for what others have added between two
-- tables of files.
abbrev pub Within :
    (OrderFile → Bool) → ℕ → List OrderFile → List OrderFile → List OrderFile → Type 0
Within p bound before between after =
    sum_of size_of (keep p after) + sum_of size_of (keep p before)
    ≤ bound + sum_of size_of (keep p between)

-- The file is of an order of the client.
abbrev pub is_of_client : List Order → String → OrderFile → Bool
is_of_client orders client_id row =
    any (λ (order : Order). order.id == row.order_id && order.client_id == client_id) orders

-- So it is for the files of an order, of its client's orders, and of all orders.
abbrev pub WithinRoom : String → String → Db → Db → List OrderFile → Type 0
WithinRoom order_id client_id db between files =
    Within (λ row. row.order_id == order_id) max_order_files_bytes db.files between.files files
    × Within (is_of_client db.orders client_id) max_client_files_bytes db.files between.files files
    × Within (λ row. true) max_total_files_bytes db.files between.files files

find-any :
    {A : Type 0} (p : A → Bool) (xs : List A)
    → (elim (find p xs) [ none ↦ false | some x ↦ true ]) ≡ any p xs
find-any p [] = refl
find-any p (x ∷ xs) = ground (arith, find-any p xs)

file_of_client :
    (new_id : ℕ → String) (db : Db) (client_id : String) (row : OrderFile)
    → is_file_of_client (list_queries new_id) db client_id row
      ≡ is_of_client db.orders client_id row
file_of_client new_id db client_id row =
    find-any (λ (order : Order). order.id == row.order_id && order.client_id == client_id) db.orders

module _ (new_id : ℕ → String) (to_megabytes : ℕ → String) (now : Date) (order_id : String)
    (owner_type : FileOwnerType) (submission_round : ℕ) where
  sum-file_rows :
      (issued : ℕ) (fresh : List PreparedFile)
      → sum_of size_of (
          file_rows
            (list_queries new_id)
            to_megabytes
            now
            order_id
            owner_type
            submission_round
            issued
            fresh)
        ≡ sum_sizes fresh
  unfolding sum_sizes
  sum-file_rows issued [] = refl
  sum-file_rows issued (file ∷ fresh) = ground (arith, sum-file_rows (suc issued) fresh)

  pub Present-file_rows :
      (issued : ℕ) (fresh : List PreparedFile) (table : List OrderFile)
      → Present
          (file_rows
            (list_queries new_id)
            to_megabytes
            now
            order_id
            owner_type
            submission_round
            issued
            fresh)
          table
      → All (λ file. any (has_file_key order_id submission_round file.file_hash) table ≡ true) fresh
  Present-file_rows issued [] table h = tt
  Present-file_rows issued (file ∷ fresh) table h =
      (h.0, Present-file_rows (suc issued) fresh table h.1)

  abbrev usage_in : Db → Order → StorageUsage
  usage_in db order = usage_of (list_queries new_id) db (Target.of_order order_id) order.client_id

  read_storage_usage-inv :
      (db after : Db) (r : StorageUsage × String)
      → read_storage_usage (list_queries new_id) (Target.of_order order_id) db ≡ ok (r, after)
      → (after ≡ db)
        × (order : Order) × (find (λ row. row.id == order_id) db.orders ≡ some order)
        × (r ≡ (usage_in db order, order.client_id))
  unfolding read_storage_usage client_of
  read_storage_usage-inv db after r h =
      elim (Option-cases (find (λ (row : Order). row.id == order_id) db.orders)) [
        | inl e ↦ absurd (ground (arith, h, e))
        | inr (order, e) ↦ (ground (arith, h, e), order, e, ground (arith, h, e))
      ]

  pub assert_storage_quota-inv :
      (adding : List PreparedFile) (db after : Db) {u : Unit {0}}
      → assert_storage_quota (list_queries new_id) to_megabytes order_id owner_type adding db
        ≡ ok (u, after)
      → (after ≡ db)
        × (order : Order) × (find (λ row. row.id == order_id) db.orders ≡ some order)
        × (check_storage_quota to_megabytes (usage_in db order) (sum_sizes adding) owner_type
            ≡ none)
  unfolding assert_storage_quota
  assert_storage_quota-inv adding db after h =
      let (usage, mid, e, h1) =
        Tx-eq-ok (read_storage_usage (list_queries new_id) (Target.of_order order_id)) _ db h in
      let (same, order, found, is_usage) = read_storage_usage-inv db mid usage e in
      let (passed, there) =
        lift-eq-ok
          (refuse_over_quota
            (check_storage_quota to_megabytes usage.0 (sum_sizes adding) owner_type))
          mid after h1 in
      (
        there ∙ same,
        order,
        found,
        subst
            (λ (r : StorageUsage × String).
              check_storage_quota to_megabytes r.0 (sum_sizes adding) owner_type ≡ none)
            is_usage (refuse_over_quota-inv _ passed),
      )

  -- What an insertion that passes leaves of the room, on the tables that the others leave.
  abbrev pub rows_in : Db → List PreparedFile → List OrderFile
  rows_in db fresh =
      file_rows (list_queries new_id) to_megabytes now order_id owner_type submission_round
        db.issued fresh

  pub create-Within :
      (fresh : List PreparedFile) (db between : Db) (order : Order) (files : List OrderFile)
      → check_storage_quota to_megabytes (usage_in db order) (sum_sizes fresh) owner_type ≡ none
      → files ≡ (insert_skipping (rows_in between fresh) between.files).1
      → WithinRoom order_id order.client_id db between files
  unfolding add_usage
  create-Within fresh db between order files passed is_files =
      let fits =
        subst (Judges (add_usage (usage_in db order) (of_incoming (sum_sizes fresh)))) passed (
          check_storage_quota-Judges to_megabytes (usage_in db order) (sum_sizes fresh)
            owner_type) in
      (
        within (λ row. row.order_id == order_id) max_order_files_bytes fits.0,
        subst (λ p. Within p max_client_files_bytes db.files between.files files)
            (λ i row. file_of_client new_id db order.client_id row i)
            (within (is_file_of_client (list_queries new_id) db order.client_id)
              max_client_files_bytes fits.1),
        within (λ row. true) max_total_files_bytes fits.2,
      )
    where
      within :
          (p : OrderFile → Bool) (bound : ℕ)
          → sum_of size_of (keep p db.files) + sum_sizes fresh ≤ bound
          → Within p bound db.files between.files files
      within p bound h = ground (
        arith,
        h,
        is_files,
        sum-file_rows between.issued fresh,
        insert_skipping-sum p (rows_in between fresh) between.files,
      )
