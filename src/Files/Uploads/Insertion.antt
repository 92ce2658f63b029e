-- ===== src/Files/Uploads/Insertion.antt =====
-- An insertion of files that commits: the room it leaves taken, and the files that are there.
use my_build.Base.{
  ℕ, ◌+◌, ◌≡◌, sym, ap, subst, ◌∙◌, All, String, true, List, [], ◌∷◌, Option, some, arith, any,
  find, length, ◌==◌, String_eq,
}
use my_build.Errors.{ok}
use my_build.Shared.Enums.{FileOwnerType}
use my_build.Shared.Dates.{Date}
use my_build.Store.Tables.{Db, Order, OrderFile}
use my_build.Store.Queries.{Queries, list_queries}
use my_build.Store.Tx.{Tx, Tx-eq-ok, return, ◌>>=◌}
use my_build.Files.Uploads.{
  PreparedFile, has_file_key, insert_skipping, assert_storage_quota, create_files, attached,
  insert_in,
}
use my_build.Files.Uploads.Room.{
  WithinRoom, assert_storage_quota-inv, Present-file_rows, rows_in, create-Within,
}
use my_build.Files.Uploads.Rows.{
  NoDuplicates, insert_skipping-NoDuplicates, Present, insert_skipping-Present,
}

-- A step of the caller that leaves the files and the orders as they are.
abbrev pub LeavesFiles : {A : Type 0} → Tx A → Type 0
LeavesFiles {A} t =
    (db after : Db) (u : A)
    → t db ≡ ok (u, after)
    → (after.files ≡ db.files) × (after.orders ≡ db.orders)

attached-LeavesFiles :
    {N : Type 0} (q : Queries) (to_megabytes : ℕ → String) (on_attached : List OrderFile → Tx N)
    → ((rows : List OrderFile) → LeavesFiles (on_attached rows))
    → (rows : List OrderFile) → LeavesFiles (attached q to_megabytes on_attached rows)
unfolding attached
attached-LeavesFiles q to_megabytes on_attached leaves [] db after u h =
    (ground (arith, h), ground (arith, h))
attached-LeavesFiles q to_megabytes on_attached leaves (row ∷ rows) db after u h =
    let (n, mid, e, h1) =
      Tx-eq-ok (on_attached (row ∷ rows)) (λ written. return (some written)) db h in
    let (files, orders) = leaves (row ∷ rows) db mid n e in
    (ground (arith, files, h1), ground (arith, orders, h1))

-- What an insertion leaves: the tables at its check of the room, by which the order's, the client's and
-- the service's room are within their bounds but for what others have added since, no file twice in a
-- hand-in, and each file that was sent among those of its hand-in.
pub record Inserted (order_id : String) (submission_round : ℕ) (meanwhile : Db → Db)
    (fresh : List PreparedFile) (db after : Db) : Type 0 where
  pub checked : Db
  pub files_checked : checked.files ≡ db.files
  pub orders_checked : checked.orders ≡ db.orders
  pub order : Order
  pub there : find (λ row. row.id == order_id) checked.orders ≡ some order
  pub room : WithinRoom order_id order.client_id checked (meanwhile checked) after.files
  pub once : NoDuplicates after.files
  pub present :
      All
        (λ file. any (has_file_key order_id submission_round file.file_hash) after.files ≡ true)
        fresh

-- On tables where no hand-in has a file twice, with steps of the caller that leave the files and the
-- orders as they are, and whatever other requests commit between the check of the room and the rows,
-- if it leaves no file twice in a hand-in: an insertion of files that commits exceeds the room of the
-- order, of its client and of the service by no more than these others have added there in between, and
-- by nothing where they have added nothing; no hand-in has a file twice, and each file that was sent is
-- among those of its hand-in, by this insertion or by another's.
pub insert_in-Inserted :
    {G N : Type 0} (new_id : ℕ → String) (to_megabytes : ℕ → String) (now : Date)
    (order_id : String) (owner_type : FileOwnerType) (submission_round : ℕ) (meanwhile : Db → Db)
    (guard : Tx G) (on_attached : List OrderFile → Tx N) (fresh : List PreparedFile) (db after : Db)
    (r : List OrderFile × G × Option N)
    → LeavesFiles guard
    → ((rows : List OrderFile) → LeavesFiles (on_attached rows))
    → ((d : Db) → NoDuplicates d.files → NoDuplicates (meanwhile d).files)
    → NoDuplicates db.files
    → insert_in
        (list_queries new_id)
        to_megabytes
        now
        order_id
        owner_type
        submission_round
        meanwhile
        guard
        on_attached
        fresh
        db
      ≡ ok (r, after)
    → Inserted order_id submission_round meanwhile fresh db after
unfolding insert_in create_files
insert_in-Inserted new_id to_megabytes now order_id owner_type submission_round meanwhile guard
      on_attached fresh db after r leaves leaves_attached unique once h =
    let lists = list_queries new_id in
    let (u, mid, guarded, h1) = Tx-eq-ok guard _ db h in
    let (v, there, passed, h2) =
      Tx-eq-ok (assert_storage_quota lists to_megabytes order_id owner_type fresh) _ mid h1 in
    let (same, order, found, fits) =
      assert_storage_quota-inv new_id to_megabytes now order_id owner_type submission_round fresh
        mid there passed in
    let between = meanwhile mid in
    let rows = rows_in new_id to_megabytes now order_id owner_type submission_round between fresh in
    let done = insert_skipping rows between.files in
    let created_db = record between { files = done.1; issued = between.issued + length fresh } in
    let finish = λ (rows : List OrderFile).
      attached lists to_megabytes on_attached rows >>= λ written. return (rows, u, written) in
    let h3 : finish done.0 created_db ≡ ok (r, after) =
      subst
        (λ d.
          (create_files lists to_megabytes now order_id owner_type submission_round fresh
              >>= finish)
            (meanwhile d)
          ≡ ok (r, after))
        same h2 in
    let (w, last, told, h4) =
      Tx-eq-ok (attached lists to_megabytes on_attached done.0)
        (λ written. return (done.0, u, written)) created_db h3 in
    let last_is : last ≡ after = ground (arith, h4) in
    let (files_kept, _) =
      attached-LeavesFiles lists to_megabytes on_attached leaves_attached done.0 created_db last w
        told in
    let files : after.files ≡ done.1 = sym (ap (λ (d : Db). d.files) last_is) ∙ files_kept in
    let (guarded_files, guarded_orders) = leaves db mid u guarded in
    record {
      checked = mid;
      files_checked = guarded_files;
      orders_checked = guarded_orders;
      order = order;
      there = found;
      room =
          create-Within new_id to_megabytes now order_id owner_type submission_round fresh mid
            between order after.files fits files;
      once = subst NoDuplicates (sym files) (
          insert_skipping-NoDuplicates rows between.files
            (unique mid (subst NoDuplicates (sym guarded_files) once)));
      present =
          Present-file_rows new_id to_megabytes now order_id owner_type submission_round
            between.issued fresh after.files
            (subst (Present rows) (sym files) (insert_skipping-Present rows between.files));
    }
