-- ===== src/Files/Uploads.antt =====
-- backend/src/modules/files/files.service.ts: what an upload reads and writes of the tables. The name
-- for a key is made by file-validation.ts from the platform's tables of letters, and comes with the
-- prepared file; the text of a number of megabytes is a parameter.
pub mod Room
pub mod Insertion
pub mod Callers
pub mod Tests
pub mod Rows
use my_build.Base.{
  ℕ, suc, ◌+◌, ◌-◌, ◌*◌, or_else, String, ◌<>◌, decimal, Bool, true, false, not, ◌&&◌, List, [],
  ◌∷◌, ◌++◌, Option, none, some, any, keep, map, length, sum_of, includes, nat_beq, ◌==◌, String_eq,
  if◌then◌else◌,
}
use Prim.Native.String.{slice}
use mathlib.Core.Option
use my_build.Errors.{
  HttpError, Result, ok, err, not_found, bad_request, insufficient_storage, refuse, or_throw,
}
use my_build.Shared.Enums.{FileOwnerType}
use my_build.Shared.Dates.{Date}
use my_build.Store.Tables.{Db, Order, OrderFile}
use my_build.Store.Queries.{Queries}
use my_build.Store.Tx.{Tx, ◌>>=◌, ◌>>◌, return, lift, read, write}
use my_build.Files.Quota.{StorageUsage, QuotaScope, QuotaRefusal, check_storage_quota, add_usage}
use my_build.Files.Quota.Reservations.{StorageReservations, pending, reserve}

-- The path of the temporary file is left out: it names where the bytes are read from.
pub record PreparedFile : Type 0 where
  pub original_name : String
  pub safe_name : String
  pub mime_type : String
  pub size_bytes : ℕ
  pub file_hash : String

-- `ownerType.toLowerCase()`.
abbrev pub owner_folder : FileOwnerType → String
owner_folder FileOwnerType.client = "client"
owner_folder FileOwnerType.company = "company"

unfoldable pub build_storage_key : String → FileOwnerType → ℕ → PreparedFile → String
build_storage_key order_id owner_type submission_round file =
    "orders/"
    <> order_id
    <> "/"
    <> owner_folder owner_type
    <> "/"
    <> decimal submission_round
    <> "/"
    <> slice file.file_hash 0 16
    <> "-"
    <> file.safe_name

unfoldable pub sum_sizes : List PreparedFile → ℕ
sum_sizes files = sum_of (λ file. file.size_bytes) files

-- Of equal files the first stays.
unfoldable pub unique_in_batch : List String → List PreparedFile → List PreparedFile
unique_in_batch seen [] = []
unique_in_batch seen (file ∷ files) =
    let skipping = unique_in_batch seen files in
    let keeping = unique_in_batch (file.file_hash ∷ seen) files in
    if includes seen file.file_hash then skipping else file ∷ keeping

abbrev pub hashes : List PreparedFile → List String
hashes = map (λ file. file.file_hash)

abbrev pub is_known : String → ℕ → List String → OrderFile → Bool
is_known order_id submission_round wanted row =
    row.order_id == order_id
    && (nat_beq row.submission_round submission_round && includes wanted row.file_hash)

-- `orderId + submissionRound + fileHash`, the unique key of the table.
abbrev pub has_file_key : String → ℕ → String → OrderFile → Bool
has_file_key order_id submission_round file_hash row =
    row.order_id == order_id
    && (nat_beq row.submission_round submission_round && row.file_hash == file_hash)

-- `createManyAndReturn` with `skipDuplicates`: the rows that are written, and the table after them.
unfoldable pub insert_skipping : List OrderFile → List OrderFile → List OrderFile × List OrderFile
insert_skipping [] table = ([], table)
insert_skipping (row ∷ rows) table =
    let skipped = insert_skipping rows table in
    let added = insert_skipping rows (table ++ row ∷ []) in
    if any (has_file_key row.order_id row.submission_round row.file_hash) table
    then skipped
    else (row ∷ added.0, added.1)

-- Whose room is asked for: an order's, or that of a client who creates one.
pub data Target : Type 0 where
  of_order of_client : String → Target

abbrev pub target_of : Option String → String → Target
target_of none client_id = Target.of_client client_id
target_of (some order_id) client_id = Target.of_order order_id

-- `UPLOAD_REQUEST_OVERHEAD_BYTES` of shared/src/api.ts.
abbrev pub upload_request_overhead_bytes : ℕ
upload_request_overhead_bytes = 1024 * 1024

unfoldable pub refuse_over_quota : Option QuotaRefusal → Result (Unit {0})
refuse_over_quota none = ok tt
refuse_over_quota (some refusal) = elim refusal.scope [
  | QuotaScope.of_total ↦ err (insufficient_storage refusal.message)
  | _ ↦ err (bad_request refusal.message)
]

-- The keys among an upload's own that no row refers to.
unfoldable pub orphan_keys : List String → List String → List String
orphan_keys in_use keys = keep (λ key. not (includes in_use key)) keys

module _ (q : Queries) where
  unfoldable pub drop_duplicates : String → ℕ → List PreparedFile → Tx (List PreparedFile)
  unfolding unique_in_batch
  drop_duplicates order_id submission_round prepared = do
    existing ← read λ db.
        q.find_many OrderFile
          (is_known order_id submission_round (hashes (unique_in_batch [] prepared))) db.files
    return (
        keep
          (λ file.
            not (includes (map (λ (row : OrderFile). row.file_hash) existing) file.file_hash))
          (unique_in_batch [] prepared))

  -- `order: { clientId }`: the file's order is of that client.
  abbrev pub is_file_of_client : Db → String → OrderFile → Bool
  is_file_of_client db client_id row =
      elim (q.find_first Order (λ order. order.id == row.order_id && order.client_id == client_id)
        db.orders) [ none ↦ false | some order ↦ true ]

  abbrev pub usage_of : Db → Target → String → StorageUsage
  usage_of db target client_id = record {
    order = elim target [
      | Target.of_order order_id ↦
          q.sum_rows OrderFile (λ row. row.order_id == order_id) (λ row. row.size_bytes) db.files
      | Target.of_client _ ↦ 0
    ];
    client = q.sum_rows OrderFile (is_file_of_client db client_id) (λ row. row.size_bytes) db.files;
    total = q.sum_rows OrderFile (λ row. true) (λ row. row.size_bytes) db.files;
  }

  unfoldable pub client_of : Target → Tx String
  client_of (Target.of_client client_id) = return client_id
  client_of (Target.of_order order_id) = do
    found ← read λ db. q.find_first Order (λ order. order.id == order_id) db.orders
    order ← lift (or_throw found (not_found "Заказ не найден"))
    return order.client_id

  unfoldable pub read_storage_usage : Target → Tx (StorageUsage × String)
  unfolding client_of
  read_storage_usage target = do
    client_id ← client_of target
    read λ db. (usage_of db target client_id, client_id)

  module _ (to_megabytes : ℕ → String) where
    unfoldable pub assert_storage_quota : String → FileOwnerType → List PreparedFile → Tx (Unit {0})
    unfolding read_storage_usage check_storage_quota refuse_over_quota sum_sizes
    assert_storage_quota order_id uploader adding = do
      usage ← read_storage_usage (Target.of_order order_id)
      lift
          (refuse_over_quota (check_storage_quota to_megabytes usage.0 (sum_sizes adding) uploader))

    -- The check before the upload, and the room that it promises.
    unfoldable pub reserve_storage :
        StorageReservations → String → FileOwnerType → List PreparedFile → Tx StorageReservations
    unfolding read_storage_usage check_storage_quota refuse_over_quota sum_sizes add_usage pending
        reserve
    reserve_storage reservations order_id uploader adding = do
      usage ← read_storage_usage (Target.of_order order_id)
      lift (
          refuse_over_quota (
            check_storage_quota to_megabytes
              (add_usage usage.0 (pending reservations order_id usage.1)) (sum_sizes adding)
              uploader))
      return (reserve reservations order_id usage.1 (sum_sizes adding))

    -- By the length that a request declares, before its body is read. The order is null where the request
    -- creates it.
    unfoldable pub assert_room_for_upload :
        StorageReservations → Option String → String → FileOwnerType → ℕ → Tx (Unit {0})
    unfolding read_storage_usage check_storage_quota refuse_over_quota add_usage pending
    assert_room_for_upload reservations order_id client_id uploader declared_bytes = do
      usage ← read_storage_usage (target_of order_id client_id)
      lift (
          refuse_over_quota (
            check_storage_quota to_megabytes
              (add_usage usage.0 (pending reservations (or_else order_id "") usage.1))
              (declared_bytes - upload_request_overhead_bytes) uploader))

    abbrev pub file_rows :
        Date → String → FileOwnerType → ℕ → ℕ → List PreparedFile → List OrderFile
    file_rows now order_id owner_type submission_round issued [] = []
    file_rows now order_id owner_type submission_round issued (file ∷ files) =
        (record {
          id = q.new_id issued;
          order_id = order_id;
          storage_key = build_storage_key order_id owner_type submission_round file;
          owner_type = owner_type;
          submission_round = submission_round;
          file_hash = file.file_hash;
          original_name = file.original_name;
          mime_type = file.mime_type;
          size_bytes = file.size_bytes;
          created_at = now;
        })
        ∷ file_rows now order_id owner_type submission_round (suc issued) files

    unfoldable pub create_files :
        Date → String → FileOwnerType → ℕ → List PreparedFile → Tx (List OrderFile)
    unfolding insert_skipping
    create_files now order_id owner_type submission_round fresh db =
        let done =
          insert_skipping (file_rows now order_id owner_type submission_round db.issued fresh)
            db.files in
        ok (done.0, record db { files = done.1; issued = db.issued + length fresh })

    -- `if (created.length > 0) await params.onAttached?.(tx, created)`.
    unfoldable pub attached :
        {N : Type 0} → (List OrderFile → Tx N) → List OrderFile → Tx (Option N)
    attached on_attached [] = return none
    attached on_attached (row ∷ rows) = do written ← on_attached (row ∷ rows); return (some written)

    -- The transaction of `uploadAndInsert`: the caller's check, the quota, the rows, and what the caller
    -- writes beside them. Nothing locks the table of files, so that what others commit between the
    -- check of the room and the rows is a parameter.
    unfoldable pub insert_in :
        {G N : Type 0}
        → Date
        → String
        → FileOwnerType
        → ℕ
        → (Db → Db)
        → Tx G
        → (List OrderFile → Tx N)
        → List PreparedFile
        → Tx (List OrderFile × G × Option N)
    unfolding assert_storage_quota create_files attached
    insert_in now order_id owner_type submission_round meanwhile guard on_attached fresh = do
      checked ← guard
      assert_storage_quota order_id owner_type fresh
      write meanwhile
      created ← create_files now order_id owner_type submission_round fresh
      written ← attached on_attached created
      return (created, checked, written)

  -- `removeOrphanObjects`: the objects that are removed from the storage.
  unfoldable pub orphan_objects : String → ℕ → List PreparedFile → List String → Tx (List String)
  unfolding orphan_keys
  orphan_objects order_id submission_round fresh keys = read λ db.
      orphan_keys
        (map (λ (row : OrderFile). row.storage_key)
          (q.find_many OrderFile (is_known order_id submission_round (hashes fresh)) db.files))
        keys

  unfoldable pub list_storage_keys : String → Tx (List String)
  list_storage_keys order_id = read λ db.
      map (λ (row : OrderFile). row.storage_key)
        (q.find_many OrderFile (λ row. row.order_id == order_id) db.files)
