-- ===== src/Files/Quota/Bounds.antt =====
-- What an upload that passes the check of the room leaves within its bounds.
use my_build.Base.{
  ℕ, ◌≤◌, ◌<◌, ◌≡◌, String, refl, Bool, true, false, if◌then◌else◌, ltb, Option, none, some, arith,
}
use my_build.Shared.Enums.{FileOwnerType}
use my_build.Files.Quota.{
  StorageUsage, QuotaScope, QuotaRefusal, check_storage_quota, add_usage, max_order_files_bytes,
  max_client_files_bytes, max_total_files_bytes,
}

-- The room is within its three bounds.
abbrev pub Fits : StorageUsage → Type 0
Fits usage =
    (usage.order ≤ max_order_files_bytes)
    × (usage.client ≤ max_client_files_bytes)
    × (usage.total ≤ max_total_files_bytes)

abbrev pub of_incoming : ℕ → StorageUsage
of_incoming bytes = record { order = bytes; client = bytes; total = bytes }

-- The bound that a refusal names, and the narrower ones.
abbrev pub Names : StorageUsage → QuotaScope → Type 0
Names usage QuotaScope.of_order = max_order_files_bytes < usage.order
Names usage QuotaScope.of_client =
    (usage.order ≤ max_order_files_bytes) × (max_client_files_bytes < usage.client)
Names usage QuotaScope.of_total =
    (usage.order ≤ max_order_files_bytes)
    × (usage.client ≤ max_client_files_bytes)
    × (max_total_files_bytes < usage.total)

abbrev pub Judges : StorageUsage → Option QuotaRefusal → Type 0
Judges usage none = Fits usage
Judges usage (some refusal) = Names usage refusal.scope

either_way :
    (usage : StorageUsage) (b : Bool) (x y : Option QuotaRefusal)
    → (b ≡ true → Judges usage x)
    → (b ≡ false → Judges usage y)
    → Judges usage (if b then x else y)
either_way usage true x y f g = f refl
either_way usage false x y f g = g refl

-- The check passes exactly what leaves the order, the client and the service within their bounds, and
-- a refusal names the narrowest bound that would be exceeded.
pub check_storage_quota-Judges :
    (to_megabytes : ℕ → String) (usage : StorageUsage) (incoming : ℕ) (uploader : FileOwnerType)
    → Judges
        (add_usage usage (of_incoming incoming))
        (check_storage_quota to_megabytes usage incoming uploader)
unfolding check_storage_quota add_usage
check_storage_quota-Judges to_megabytes usage incoming uploader =
    let after = add_usage usage (of_incoming incoming) in
    either_way after (ltb max_order_files_bytes after.order) _ _ (λ e. ground (arith, e))
      (λ order_fits.
        either_way after (ltb max_client_files_bytes after.client) _ _
          (λ e. (ground (arith, order_fits), ground (arith, e)))
          (λ client_fits.
            either_way after (ltb max_total_files_bytes after.total) _ _
              (λ e. (ground (arith, order_fits), ground (arith, client_fits), ground (arith, e)))
              (λ total_fits. (
                ground (arith, order_fits),
                ground (arith, client_fits),
                ground (arith, total_fits),
              ))))
