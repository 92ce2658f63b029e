-- ===== src/Files/Access/Laws.antt =====
-- The lists of files and the right to download them agree.
use my_build.Base.{
  ◌≤◌, ◌≡◌, refl, String, Bool, true, false, ◌&&◌, List, [], ◌∷◌, Option, none, some, arith, any,
  count, find, keep, holds_of, any-find, ◌==◌, String_eq,
}
use my_build.Errors.{is_ok}
use my_build.Shared.Enums.{Role, OrderStatus, FileOwnerType, FileOwnerType_eq}
use my_build.Shared.Offers.{is_executor_offer, company_sees_task_files}
use my_build.Orders.View.{
  OfferRow, OrderRow, OrderDetailRow, OrderFileDto, OrderVisibility, has_own, status_of,
  resolve_visibility, visible_files, to_order_detail,
}
use my_build.Files.Access.{assert_file_access, DocumentScope, is_document}

-- Files that the viewer may download.
abbrev pub readable : OrderRow → String → List OrderFileDto → List OrderFileDto
readable order viewer files =
    keep
      (λ file. is_ok (assert_file_access (some order) viewer (some Role.company) file.owner_type))
      files

keep_all :
    (order : OrderRow) (viewer : String) (files : List OrderFileDto)
    → ((t : FileOwnerType)
        → is_ok (assert_file_access (some order) viewer (some Role.company) t) ≡ true)
    → readable order viewer files ≡ files
keep_all order viewer [] h = refl
keep_all order viewer (f ∷ files) h = ground (arith, h f.owner_type, keep_all order viewer files h)

keep_none :
    (order : OrderRow) (viewer : String) (files : List OrderFileDto)
    → ((t : FileOwnerType)
        → is_ok (assert_file_access (some order) viewer (some Role.company) t) ≡ false)
    → readable order viewer files ≡ []
keep_none order viewer [] h = refl
keep_none order viewer (f ∷ files) h =
    ground (arith, h f.owner_type, keep_none order viewer files h)

keep_task :
    (order : OrderRow) (viewer : String) (files : List OrderFileDto)
    → ((t : FileOwnerType)
        → is_ok (assert_file_access (some order) viewer (some Role.company) t)
          ≡ (t == FileOwnerType.client))
    → readable order viewer files ≡ keep (λ file. file.owner_type == FileOwnerType.client) files
keep_task order viewer [] h = refl
keep_task order viewer (f ∷ files) h =
    ground (arith, h f.owner_type, keep_task order viewer files h)

executor_sees :
    (status : OrderStatus) (own : Option OfferRow)
    → has_own is_executor_offer own ≡ true
    → company_sees_task_files status (status_of own) ≡ true
unfolding company_sees_task_files
executor_sees status none h = cc
executor_sees status (some offer) h = ground (arith, h)

-- A company that opens the card of an order, or a company account that owns it, is shown exactly the
-- files that it may download.
pub files-readable :
    (order : OrderDetailRow) (viewer : String)
    → (to_order_detail order viewer).files ≡ readable order.row viewer order.files
unfolding to_order_detail assert_file_access visible_files resolve_visibility
files-readable order viewer =
    by_party (resolve_visibility order.row viewer).is_party refl
      (company_sees_task_files order.row.status
        (status_of (resolve_visibility order.row viewer).own_offer))
      refl
  where
    view : OrderVisibility
    view = resolve_visibility order.row viewer

    by_party :
        (party : Bool)
        → view.is_party ≡ party
        → (sees : Bool) → company_sees_task_files order.row.status (status_of view.own_offer) ≡ sees
        → visible_files order view ≡ readable order.row viewer order.files
    by_party true e sees e' = ground (
      arith,
      e,
      keep_all order.row viewer order.files
          (λ t. ground (arith, e, executor_sees order.row.status view.own_offer)),
    )
    by_party false e true e' =
        ground (arith, e, e', keep_task order.row viewer order.files (λ t. ground (arith, e, e')))
    by_party false e false e' =
        ground (arith, e, e', keep_none order.row viewer order.files (λ t. ground (arith, e, e')))

any-weaker :
    (viewer : String) (offers : List OfferRow)
    → any (λ offer. offer.company_id == viewer && is_executor_offer offer.status) offers ≡ true
    → any (λ offer. offer.company_id == viewer) offers ≡ true
any-weaker viewer [] h = h
any-weaker viewer (o ∷ offers) h = ground (arith, any-weaker viewer offers)

executor_reads :
    (status : OrderStatus) (own : Option OfferRow)
    → holds_of (λ offer. is_executor_offer offer.status) own ≡ has_own is_executor_offer own
executor_reads status none = refl
executor_reads status (some offer) = refl

-- Every file of the documents can be downloaded, by a user whose role is the company's where the user
-- has offered for the order, and with one offer at most of a company for an order.
pub is_document-readable :
    (scope : DocumentScope) (role : Option Role) (order : OrderRow) (file : OrderFileDto)
    → count (λ offer. offer.company_id == scope.user_id) order.offers ≤ 1
    → (any (λ offer. offer.company_id == scope.user_id) order.offers ≡ true
        → role ≡ some Role.company)
    → is_document scope order file ≡ true
    → is_ok (assert_file_access (some order) scope.user_id role file.owner_type) ≡ true
unfolding is_document assert_file_access
is_document-readable scope role order file one company h = ground (
  arith,
  any-find (λ offer. offer.company_id == scope.user_id) (λ offer. is_executor_offer offer.status)
      order.offers one,
  any-weaker scope.user_id order.offers,
  executor_reads order.status (find (λ offer. offer.company_id == scope.user_id) order.offers),
  executor_sees order.status (find (λ offer. offer.company_id == scope.user_id) order.offers),
  company,
  h,
)
