-- ===== src/Users.antt =====
-- backend/src/modules/users: users.service.ts, contractors.service.ts and contractor-search.ts. How the
-- database compares a text with a pattern, and which of two names or identifiers stands first, are
-- parameters.
pub mod Laws
pub mod Tests
use my_build.Base.{
  ℕ, String, Bool, true, false, not, ◌&&◌, ◌||◌, List, [], ◌∷◌, map, take, drop, Option, none, some,
  or_else, nat_beq, ◌==◌, String_eq, option_beq, if◌then◌else◌,
}
use mathlib.Core.Option
use my_build.Errors.{Result, ok, err, refuse, or_throw, not_found, bad_request}
use my_build.Shared.Enums.{Role, Role_eq, OfferStatus, OfferStatus_eq}
use my_build.Shared.Dates.{Date, to_iso_string}
use my_build.Common.Uuid.{is_uuid}
use my_build.Common.Pagination.{Paginated, page_request, to_page}
use my_build.Store.Tables.{Db, User, Offer}
use my_build.Store.Queries.{Queries}
use my_build.Store.Tx.{Tx, ◌>>=◌, ◌>>◌, return, lift, read, write}
use my_build.Orders.Service.{escape_like, wanted_text}
use my_build.Notifications.{first_of}

pub record UserProfile : Type 0 where
  pub id : String
  pub email : String
  pub role : Role
  pub first_name : String
  pub last_name : Option String
  pub phone : String
  pub company_name : Option String
  pub city : Option String
  pub country : Option String
  pub created_at : String
  pub updated_at : String

abbrev pub to_profile : User → UserProfile
to_profile user = record {
  id = user.id;
  email = user.email;
  role = user.role;
  first_name = user.first_name;
  last_name = user.last_name;
  phone = user.phone;
  company_name = user.company_name;
  city = user.city;
  country = user.country;
  created_at = to_iso_string user.created_at;
  updated_at = to_iso_string user.updated_at;
}

-- A field that is missing is left as it is.
pub record UpdateProfileDto : Type 0 where
  pub first_name : Option String
  pub last_name : Option String
  pub phone : Option String
  pub city : Option String
  pub country : Option String
  pub company_name : Option String

-- `emptyToNull`, on the value that the row has: an empty text clears the field.
abbrev pub empty_to_null : Option String → Option String → Option String
empty_to_null none current = current
empty_to_null (some value) current = if value == "" then none else some value

-- The new name, or null where the request has none.
unfoldable pub resolve_company_name : Role → Option String → Result (Option String)
resolve_company_name role none = ok none
resolve_company_name role (some value) =
    if not (role == Role.company)
    then err (bad_request "Название компании есть только у роли «Компания»")
    else if value == ""
    then err (bad_request "Название компании обязательно и не может быть пустым")
    else ok (some value)

abbrev pub updated_user : Date → UpdateProfileDto → Option String → User → User
updated_user now dto company_name user = record user {
  first_name = or_else dto.first_name user.first_name;
  phone = or_else dto.phone user.phone;
  last_name = empty_to_null dto.last_name user.last_name;
  city = empty_to_null dto.city user.city;
  country = empty_to_null dto.country user.country;
  company_name = elim company_name [ none ↦ user.company_name | some name ↦ some name ];
  updated_at = now;
}

pub record ContractorListItem : Type 0 where
  pub id : String
  pub company_name : Option String
  pub city : Option String
  pub country : Option String
  pub completed_orders_count : ℕ

pub record ContractorCard : Type 0 where
  pub item : ContractorListItem
  pub email : String
  pub phone : String

abbrev pub is_some : {A : Type 0} → Option A → Bool
is_some none = false
is_some (some a) = true

module _ (q : Queries) where
  unfoldable pub find_or_fail : String → Tx User
  find_or_fail user_id = do
    user ← read λ db. q.find_first User (λ row. row.id == user_id) db.users
    lift (or_throw user (not_found "Профиль не найден"))

  unfoldable pub get_profile : String → Tx UserProfile
  unfolding find_or_fail
  get_profile user_id = do user ← find_or_fail user_id; return (to_profile user)

  unfoldable pub update_profile : Date → String → UpdateProfileDto → Tx UserProfile
  unfolding find_or_fail resolve_company_name
  update_profile now user_id dto = do
    current ← find_or_fail user_id
    company_name ← lift (resolve_company_name current.role dto.company_name)
    write λ db. record db {
      users =
          q.update_many User (λ row. row.id == user_id) (updated_user now dto company_name)
            db.users;
    }
    updated ← find_or_fail user_id
    return (to_profile updated)

  -- `_count` of the offers that the client has confirmed.
  abbrev pub is_completed_by : String → Offer → Bool
  is_completed_by company_id offer =
      offer.company_id == company_id && offer.status == OfferStatus.completed

  abbrev pub to_list_item : Db → User → ContractorListItem
  to_list_item db user = record {
    id = user.id;
    company_name = user.company_name;
    city = user.city;
    country = user.country;
    completed_orders_count = q.count_rows Offer (is_completed_by user.id) db.offers;
  }

  abbrev pub to_contractor_card : Db → User → ContractorCard
  to_contractor_card db user = record {
    item = to_list_item db user;
    email = user.email;
    phone = user.phone;
  }

  module _ (like : String → String → Bool) where
    abbrev pub is_like : String → Option String → Bool
    is_like pattern none = false
    is_like pattern (some text) = like pattern text

    abbrev pub meets_text : Option String → User → Bool
    meets_text none user = true
    meets_text (some text) user =
        is_like (escape_like text) user.company_name || is_like (escape_like text) user.city

    -- `buildContractorsWhere`: a company with a name and a confirmed address.
    unfoldable pub is_contractor : Option String → User → Bool
    unfolding escape_like
    is_contractor query user =
        user.role == Role.company
        && (is_some user.company_name
            && (is_some user.email_verified_at && meets_text (wanted_text query) user))

    unfoldable pub get_by_id : String → Tx ContractorCard
    unfolding is_contractor
    get_by_id contractor_id = do
      lift (refuse (not (is_uuid contractor_id)) (not_found "Подрядчик не найден"))
      rows ← read λ db. map (to_contractor_card db) (
          take 1 (
            q.find_many User (λ user. is_contractor none user && user.id == contractor_id)
              db.users))
      lift (or_throw (first_of rows) (not_found "Подрядчик не найден"))

    -- `ORDER_BY`: the order of names and of identifiers is the database's, with what stands at the same
    -- place as the first of both.
    abbrev pub by_name :
        (Option String → Option String → Bool) → (String → String → Bool) → User → User → Bool
    by_name name_before id_before a b =
        if option_beq String_eq a.company_name b.company_name
        then id_before a.id b.id
        else name_before a.company_name b.company_name

    unfoldable pub list_contractors :
        (Option String → Option String → Bool)
        → (String → String → Bool)
        → Option String
        → Option ℕ
        → Option ℕ
        → Tx (Paginated ContractorListItem)
    unfolding is_contractor page_request to_page
    list_contractors name_before id_before query page page_size = do
      total ← read λ db. q.count_rows User (is_contractor query) db.users
      rows ← read λ db.
          let request = page_request page page_size in
          map (to_list_item db) (
            take request.page_size (
              drop request.skip (
                q.find_sorted User (is_contractor query) (by_name name_before id_before) db.users)))
      return (to_page rows (page_request page page_size) total)
