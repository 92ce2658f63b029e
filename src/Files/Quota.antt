-- ===== src/Files/Quota.antt =====
-- backend/src/modules/files/file-quota.ts: the room that is left, and the room promised to uploads on
-- their way. The text of a number of megabytes comes from the platform's tables, and is a parameter.
pub mod Reservations
pub mod Bounds
use my_build.Base.{
  ℕ, ◌+◌, ◌*◌, String, ◌<>◌, Bool, true, false, Option, none, some, ltb, ◌==◌, if◌then◌else◌,
}
use my_build.Shared.Enums.{FileOwnerType, FileOwnerType_eq}

abbrev pub mb : ℕ
mb = 1024 * 1024

abbrev pub max_order_files_bytes : ℕ
max_order_files_bytes = 50 * 1024 * 1024

abbrev pub max_client_files_bytes : ℕ
max_client_files_bytes = 150 * mb

abbrev pub max_total_files_bytes : ℕ
max_total_files_bytes = 800 * mb

pub record StorageUsage : Type 0 where
  pub order : ℕ
  pub client : ℕ
  pub total : ℕ

pub data QuotaScope : Type 0 where
  of_order of_client of_total : QuotaScope

pub record QuotaRefusal : Type 0 where
  pub scope : QuotaScope
  pub message : String

unfoldable pub check_storage_quota :
    (ℕ → String) → StorageUsage → ℕ → FileOwnerType → Option QuotaRefusal
check_storage_quota to_megabytes usage incoming uploader =
    if ltb max_order_files_bytes (usage.order + incoming)
    then some (record {
      scope = QuotaScope.of_order;
      message =
          "Файлы заказа не помещаются в "
          <> to_megabytes max_order_files_bytes
          <> " МБ: занято "
          <> to_megabytes usage.order
          <> " МБ, добавляется "
          <> to_megabytes incoming
          <> " МБ";
    })
    else if ltb max_client_files_bytes (usage.client + incoming)
    then some (record {
      scope = QuotaScope.of_client;
      message =
          (if uploader == FileOwnerType.client
            then "Место под файлы ваших заказов закончилось"
            else "У заказчика закончилось место под файлы заказов")
          <> ": занято "
          <> to_megabytes usage.client
          <> " из "
          <> to_megabytes max_client_files_bytes
          <> " МБ, добавляется "
          <> to_megabytes incoming
          <> " МБ";
    })
    else if ltb max_total_files_bytes (usage.total + incoming)
    then some (record {
      scope = QuotaScope.of_total;
      message = "Хранилище файлов сервиса заполнено. Попробуйте позже";
    })
    else none

unfoldable pub add_usage : StorageUsage → StorageUsage → StorageUsage
add_usage a b = record {
  order = a.order + b.order;
  client = a.client + b.client;
  total = a.total + b.total;
}
