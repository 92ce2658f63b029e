-- ===== src/Interface/Contacts.antt =====
-- frontend/src/lib/contacts.ts, personName and formatLocation of format.ts, and resolveOrderClient of
-- order-access.ts: the client's card for the company that carries the order out.
use Prim.Native.Char.{code}
use my_build.Base.{
  String, ◌<>◌, Bool, false, not, ◌||◌, List, [], ◌∷◌, ◌++◌, Option, none, some, nat_beq, ◌==◌,
  String_eq, if◌then◌else◌,
}
use mathlib.Core.Option
use my_build.Shared.OrderNumber.{is_digit}
use my_build.Shared.Texts.{trim_left, trim_right, trimmed}
use my_build.Orders.View.{OrderDetail, ClientCard}
use my_build.Interface.Access.{OrderDetailAccess}

-- The words that are there and not empty, put together.
abbrev pub present : Option String → List String
present none = []
present (some s) = if s == "" then [] else s ∷ []

abbrev pub joined : String → List String → String
joined separator [] = ""
joined separator (word ∷ []) = word
joined separator (word ∷ next ∷ words) = word <> separator <> joined separator (next ∷ words)

unfoldable pub person_name : String → Option String → String
person_name first_name last_name = joined " " (present (some first_name) ++ present last_name)

abbrev pub joined_parts : List String → Option String
joined_parts [] = none
joined_parts (part ∷ parts) = some (joined ", " (part ∷ parts))

unfoldable pub format_location : Option String → Option String → Option String
unfolding trim_left trim_right
format_location city country =
    joined_parts (present (Option.map trimmed city) ++ present (Option.map trimmed country))

pub record ContactLink : Type 0 where
  pub label : String
  pub value : String
  pub href : Option String

-- `replaceAll(/\D/g, "")`.
unfoldable pub digits_of : String → String
digits_of String.[] = String.[]
digits_of (String.◌∷◌ c s) =
    let rest = digits_of s in if is_digit (code c) then String.◌∷◌ c rest else rest

abbrev pub begins_by_plus : String → Bool
begins_by_plus String.[] = false
begins_by_plus (String.◌∷◌ c s) = nat_beq (code c) b'+'

unfoldable pub tel_href : String → Option String
unfolding digits_of trim_left
tel_href phone =
    if digits_of phone == ""
    then none
    else some ("tel:" <> (if begins_by_plus (trim_left phone) then "+" else "") <> digits_of phone)

unfoldable pub contact_links : String → String → List ContactLink
unfolding tel_href
contact_links email phone =
    (record {
      label = "Email";
      value = email;
      href = if email == "" then none else some ("mailto:" <> email);
    })
    ∷ (record { label = "Телефон"; value = phone; href = tel_href phone })
    ∷ []

pub record OrderClientCard : Type 0 where
  pub name : String
  pub location : Option String
  pub contacts : List ContactLink

abbrev pub card_of : ClientCard → OrderClientCard
card_of client = record {
  name = person_name client.first_name client.last_name;
  location = format_location client.city client.country;
  contacts = contact_links client.email client.phone;
}

-- Only for the executor.
unfoldable pub resolve_order_client : OrderDetail → OrderDetailAccess → Option OrderClientCard
unfolding person_name format_location contact_links
resolve_order_client order access =
    if access.is_owner || not access.is_party then none else Option.map card_of order.client
