-- ===== src/Files/Attach.antt =====
-- backend/src/modules/files/files.service.ts, attachFiles: what is checked, put into the storage and
-- written, and what is taken out of the storage again. The storage's answers are a parameter: whether it
-- keeps the object of a key. What others commit during the insertion, and what the process has reserved for other uploads, are arguments.
use my_build.Base.{
  ℕ, String, Bool, true, false, List, [], ◌∷◌, map, Option, none, some, length, ltb, if◌then◌else◌,
}
use my_build.Errors.{Result, ok, err, HttpError, bad_request, internal_server_error, refuse}
use my_build.Shared.Enums.{FileOwnerType}
use my_build.Shared.Dates.{Date}
use my_build.Store.Tables.{Db, OrderFile}
use my_build.Store.Queries.{Queries}
use my_build.Store.Tx.{Tx, write}
use my_build.Realtime.Actions.{
  Effect, Action, ◌>>=◌, ◌>>◌, return, lift, commit, look, effect, attempt,
}
use my_build.Orders.View.{OrderFileDto}
use my_build.Orders.Detail.{to_order_file_dto}
use my_build.Files.Quota.Reservations.{StorageReservations}
use my_build.Files.Uploads.{
  PreparedFile, build_storage_key, drop_duplicates, reserve_storage, insert_in, orphan_objects,
}

abbrev pub no_files : HttpError
no_files = bad_request "Не приложен ни один файл"

abbrev pub not_stored : HttpError
not_stored = internal_server_error "Не удалось сохранить файл в хранилище"

abbrev pub is_empty {ℓ} : {A : Type ℓ} → List A → Bool
is_empty [] = true
is_empty (x ∷ xs) = false

-- `StorageService.upload`.
unfoldable pub upload : (String → Bool) → String → Action (Unit {0})
upload keeps key = if keeps key then effect (Effect.stores key) else lift (err not_stored)

-- One after another; the first that is not kept ends it.
unfoldable pub upload_all : (String → Bool) → List String → Action (Unit {0})
unfolding upload
upload_all keeps [] = return tt
upload_all keeps (key ∷ keys) = do upload keeps key; upload_all keeps keys

-- `StorageService.remove`, which never throws.
unfoldable pub remove_objects : List String → Action (Unit {0})
remove_objects [] = return tt
remove_objects (key ∷ keys) = effect (Effect.removes (key ∷ keys))

-- What `guard` and `onAttached` have answered, or nothing where no file was new.
pub record Attached (G N : Type 0) : Type 0 where
  pub files : List OrderFileDto
  pub written : Option (G × Option N)

unfoldable pub remove_orphans :
    Queries → String → ℕ → List PreparedFile → List String → Action (Unit {0})
unfolding remove_objects
remove_orphans q order_id submission_round fresh keys = do
  orphans ← look (orphan_objects q order_id submission_round fresh keys)
  remove_objects orphans

module _ (q : Queries) (to_megabytes : ℕ → String) (keeps : String → Bool) (meanwhile : Db → Db)
    (now : Date) {G N : Type 0} where
  -- What others have committed stands where the insertion is rolled back. A failure is cleaned up and
  -- thrown again; rows that another request has written leave objects over only where their keys
  -- are not in use.
  unfoldable pub settle :
      String
      → ℕ
      → List PreparedFile
      → List String
      → Result (List OrderFile × G × Option N)
      → Action (Attached G N)
  unfolding remove_orphans
  settle order_id submission_round fresh keys (err e) = do
    commit (write meanwhile)
    remove_orphans q order_id submission_round fresh keys
    lift (err e)
  settle order_id submission_round fresh keys (ok (rows, checked, written)) = do
    if ltb (length rows) (length fresh)
        then remove_orphans q order_id submission_round fresh keys
        else return tt
    return (record { files = map to_order_file_dto rows; written = some (checked, written) })

  unfoldable pub upload_and_insert :
      String
      → FileOwnerType
      → ℕ
      → Tx G
      → (List OrderFile → Tx N)
      → List PreparedFile
      → Action (Attached G N)
  unfolding upload_all insert_in settle
  upload_and_insert order_id owner_type submission_round guard on_attached fresh =
      let keys = map (build_storage_key order_id owner_type submission_round) fresh in
      do
        done ← attempt (do
          upload_all keeps keys
          commit (
              insert_in q to_megabytes now order_id owner_type submission_round meanwhile guard
                on_attached fresh))
        settle order_id submission_round fresh keys done

  unfoldable pub attach_fresh :
      StorageReservations
      → String
      → FileOwnerType
      → ℕ
      → Tx G
      → (List OrderFile → Tx N)
      → List PreparedFile
      → Action (Attached G N)
  unfolding upload_and_insert reserve_storage
  attach_fresh reservations order_id owner_type submission_round guard on_attached [] =
      return (record { files = []; written = none })
  attach_fresh reservations order_id owner_type submission_round guard on_attached (file ∷ fresh) =
      do
        reserved ←
            look (reserve_storage q to_megabytes reservations order_id owner_type (file ∷ fresh))
        upload_and_insert order_id owner_type submission_round guard on_attached (file ∷ fresh)

  unfoldable pub attach_files :
      StorageReservations
      → String
      → FileOwnerType
      → ℕ
      → Tx G
      → (List OrderFile → Tx N)
      → List PreparedFile
      → Action (Attached G N)
  unfolding attach_fresh drop_duplicates
  attach_files reservations order_id owner_type submission_round guard on_attached files = do
    lift (refuse (is_empty files) no_files)
    fresh ← look (drop_duplicates q order_id submission_round files)
    attach_fresh reservations order_id owner_type submission_round guard on_attached fresh
