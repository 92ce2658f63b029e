-- ===== src/Users/Laws.antt =====
-- A profile that is changed: whose it is, and what is read of it afterwards.
use my_build.Base.{
  ℕ, String, ◌≡◌, ◌≢◌, refl, sym, ap, ◌∙◌, subst, not, false, Option, none, some, or_else,
  Bool-cases, if◌then◌else◌, List, [], ◌∷◌, find, keep, arith, ◌==◌, String_eq, Option-cases, inl,
  inr,
}
use my_build.Errors.{ok, Result-cases}
use my_build.Shared.Enums.{Role, Role_eq}
use my_build.Shared.Dates.{Date, to_iso_string}
use my_build.Store.Tables.{Db, User}
use my_build.Store.Queries.{Queries, IsLawful, IsLawful-list_queries, list_queries, update_where}
use my_build.Users.{
  UserProfile, UpdateProfileDto, to_profile, empty_to_null, updated_user, find_or_fail, get_profile,
  update_profile, resolve_company_name,
}

keep-others :
    (id : String) (f : User → User) (rows : List User)
    → ((row : User) → (f row).id ≡ row.id)
    → keep (λ row. not (row.id == id)) (update_where User (λ row. row.id == id) f rows)
      ≡ keep (λ row. not (row.id == id)) rows
keep-others id f [] same = refl
keep-others id f (r ∷ rows) same = ground (arith, keep-others id f rows same, same r)

-- What a field that always has a text comes to, by the text of the request.
abbrev pub Sets : Option String → String → String → Type 0
Sets none before now = now ≡ before
Sets (some value) before now = now ≡ value

-- What a field that may be cleared comes to: an empty text clears it.
abbrev pub Clears : Option String → Option String → Option String → Type 0
Clears none before now = now ≡ before
Clears (some value) before now = now ≡ (if value == "" then none else some value)

-- What the name of a company comes to: only a company has one, and it is not empty.
abbrev pub Names : Role → Option String → Option String → Option String → Type 0
Names role none before now = now ≡ before
Names role (some value) before now = (now ≡ some value) × (role ≡ Role.company) × (value ≢ "")

-- What a change of a profile makes of it, field by field.
pub record Changed (now : Date) (dto : UpdateProfileDto) (old : User) (profile : UserProfile)
    : Type 0 where
  pub id : profile.id ≡ old.id
  pub email : profile.email ≡ old.email
  pub role : profile.role ≡ old.role
  pub created_at : profile.created_at ≡ to_iso_string old.created_at
  pub updated_at : profile.updated_at ≡ to_iso_string now
  pub first_name : Sets dto.first_name old.first_name profile.first_name
  pub phone : Sets dto.phone old.phone profile.phone
  pub last_name : Clears dto.last_name old.last_name profile.last_name
  pub city : Clears dto.city old.city profile.city
  pub country : Clears dto.country old.country profile.country
  pub company_name : Names old.role dto.company_name old.company_name profile.company_name

or_else-Sets :
    (wanted : Option String) (before : String) → Sets wanted before (or_else wanted before)
or_else-Sets none before = refl
or_else-Sets (some wanted) before = refl

empty_to_null-Clears :
    (wanted before : Option String) → Clears wanted before (empty_to_null wanted before)
empty_to_null-Clears none before = refl
empty_to_null-Clears (some wanted) before = refl

is_company : (role : Role) → not (role == Role.company) ≡ false → role ≡ Role.company
is_company Role.client h = absurd (ground (arith, h))
is_company Role.company h = refl

resolve_company_name-Names :
    (role : Role) (wanted name before : Option String)
    → resolve_company_name role wanted ≡ ok name
    → Names role wanted before (elim name [ none ↦ before | some value ↦ some value ])
unfolding resolve_company_name
resolve_company_name-Names role none name before h = ground (arith, h)
resolve_company_name-Names role (some wanted) name before h =
    elim (Bool-cases (not (role == Role.company))) [
      | inl e ↦ absurd (ground (arith, h, e))
      | inr e ↦ elim (Bool-cases (wanted == "")) [
        | inl f ↦ absurd (ground (arith, h, e, f))
        | inr f ↦ (
          ground (arith, h, e, f),
          is_company role e,
          (λ x. absurd (ground (arith, x, f, String_eq.same_iff wanted ""))),
        )
      ]
    ]

updated_user-Changed :
    (now : Date) (dto : UpdateProfileDto) (name : Option String) (old : User)
    → resolve_company_name old.role dto.company_name ≡ ok name
    → Changed now dto old (to_profile (updated_user now dto name old))
updated_user-Changed now dto name old h = record {
  id = refl;
  email = refl;
  role = refl;
  created_at = refl;
  updated_at = refl;
  first_name = or_else-Sets dto.first_name old.first_name;
  phone = or_else-Sets dto.phone old.phone;
  last_name = empty_to_null-Clears dto.last_name old.last_name;
  city = empty_to_null-Clears dto.city old.city;
  country = empty_to_null-Clears dto.country old.country;
  company_name = resolve_company_name-Names old.role dto.company_name name old.company_name h;
}

find-updated :
    (id : String) (f : User → User) (rows : List User) (old new : User)
    → ((row : User) → (f row).id ≡ row.id)
    → find (λ row. row.id == id) rows ≡ some old
    → find (λ row. row.id == id) (update_where User (λ row. row.id == id) f rows) ≡ some new
    → new ≡ f old
find-updated id f [] old new same e g = cc
find-updated id f (r ∷ rows) old new same e g = elim (Bool-cases (r.id == id)) [
  | inl h ↦ ground (arith, h, e, g, same r)
  | inr h ↦ find-updated id f rows old new same (ground (arith, h, e)) (ground (arith, h, g))
]

-- What a change leaves: the row that was there, the profile that it answers, what is read of it
-- afterwards, and the other rows and tables.
pub record ProfileUpdated (q : Queries) (now : Date) (user_id : String) (dto : UpdateProfileDto)
    (db after : Db) (profile : UserProfile) : Type 0 where
  pub old : User
  pub there : find (λ row. row.id == user_id) db.users ≡ some old
  pub changed : Changed now dto old profile
  pub read : get_profile q user_id after ≡ ok (profile, after)
  pub others :
      keep (λ row. not (row.id == user_id)) after.users
      ≡ keep (λ row. not (row.id == user_id)) db.users
  pub tables : record after { users = db.users } ≡ db

by_steps :
    (new_id : ℕ → String) (now : Date) (user_id : String) (dto : UpdateProfileDto) (db after : Db)
    (profile : UserProfile)
    → update_profile (list_queries new_id) now user_id dto db ≡ ok (profile, after)
    → ProfileUpdated (list_queries new_id) now user_id dto db after profile
unfolding update_profile get_profile find_or_fail
by_steps new_id now user_id dto db after profile h =
    elim (Option-cases (find (λ row. row.id == user_id) db.users)) [
      | inl e ↦ absurd (ground arith)
      | inr (current, e) ↦
          elim (Result-cases (resolve_company_name current.role dto.company_name)) [
            | inr (x, f) ↦ absurd (ground arith)
            | inl (name, f) ↦
                let rows =
                  update_where User (λ row. row.id == user_id) (updated_user now dto name)
                    db.users in
                elim (Option-cases (find (λ row. row.id == user_id) rows)) [
                  | inl g ↦ absurd (ground arith)
                  | inr (updated, g) ↦
                      let is_updated =
                        find-updated user_id (updated_user now dto name) db.users current updated
                          (λ row. refl) e g in
                      let answer : to_profile updated ≡ profile = ground (arith, h, e, f, g) in
                      record {
                        old = current;
                        there = e;
                        changed =
                            subst (Changed now dto current)
                              (ap to_profile (sym is_updated) ∙ answer)
                              (updated_user-Changed now dto name current f);
                        read = ground (arith, h, e, f, g);
                        others = ground (
                          arith,
                          h,
                          e,
                          f,
                          g,
                          keep-others user_id (updated_user now dto name) db.users (λ row. refl),
                        );
                        tables = ground (arith, h, e, f, g);
                      }
                ]
          ]
    ]

-- On tables that meet the laws, a change of a profile that answers is of a row that was there. Every
-- field that the request names has the value of the request, an empty text clearing those that may be
-- empty, and every other field but the moment of the change has the row's; a name of a company is only
-- taken from a company, and is not empty. Reading the profile afterwards answers the same, and every
-- other row and every other table is as it was.
pub update_profile-read :
    (q : Queries) (now : Date) (user_id : String) (dto : UpdateProfileDto) (db after : Db)
    (profile : UserProfile)
    → IsLawful q
    → update_profile q now user_id dto db ≡ ok (profile, after)
    → ProfileUpdated q now user_id dto db after profile
update_profile-read q now user_id dto db after profile lawful h =
    subst Claim (IsLawful-list_queries q lawful) on_lists h
  where
    Claim : Queries → Type 0
    Claim p =
        update_profile p now user_id dto db ≡ ok (profile, after)
        → ProfileUpdated p now user_id dto db after profile

    on_lists : Claim (list_queries q.new_id)
    on_lists h' = by_steps q.new_id now user_id dto db after profile h'
