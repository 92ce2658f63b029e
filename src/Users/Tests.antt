-- ===== src/Users/Tests.antt =====
-- A company that changes its telephone and clears its town.
use my_build.Base.{◌≡◌, refl, [], ◌∷◌, none, some, String_eq}
use my_build.Errors.{ok, ok_of}
use my_build.Shared.Enums.{Role}
use my_build.Shared.Dates.{day_ms}
use my_build.Store.Tables.{Db, User}
use my_build.Store.Queries.{list_queries-IsLawful}
use my_build.Orders.Transition.Tests.{numbered, tables}
use my_build.Users.{
  UserProfile, UpdateProfileDto, find_or_fail, update_profile, resolve_company_name,
}
use my_build.Users.Laws.{ProfileUpdated, update_profile-read}

abbrev builder : User
builder = record {
  id = "company";
  role = Role.company;
  first_name = "Ильхам";
  last_name = none;
  company_name = some "СтройГрад";
  email = "mail";
  phone = "1";
  city = some "Баку";
  country = none;
  email_verified_at = some 0;
  created_at = 0;
  updated_at = 0;
}

abbrev town : Db
town = record tables { users = builder ∷ record builder { id = "other" } ∷ [] }

abbrev change : UpdateProfileDto
change = record {
  first_name = none;
  last_name = none;
  phone = some "2";
  city = some "";
  country = none;
  company_name = none;
}

changed : (r : UserProfile × Db) × (update_profile numbered day_ms "company" change town ≡ ok r)
unfolding update_profile find_or_fail resolve_company_name
changed = ok_of (update_profile numbered day_ms "company" change town) refl

update_profile-read_example :
    ProfileUpdated numbered day_ms "company" change town changed.0.1 changed.0.0
update_profile-read_example =
    update_profile-read numbered day_ms "company" change town changed.0.1 changed.0.0
      (list_queries-IsLawful (λ n. "notification")) changed.1
