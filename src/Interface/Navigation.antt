-- ===== src/Interface/Navigation.antt =====
-- frontend/src/lib/navigation.ts and breadcrumbs.ts: the menu of each role, which of its items is marked,
-- and the path to a page. How a segment of an address is decoded is a parameter; the icons are left out. A
-- segment is none of the names that every object of the language has (constructor and the like).
use my_build.Base.{
  ℕ, String, ◌<>◌, Bool, true, false, not, ◌&&◌, ◌||◌, List, [], ◌∷◌, ◌++◌, Option, none, some, any,
  nat_beq, ◌==◌, String_eq, option_beq, if◌then◌else◌,
}
use my_build.Shared.Enums.{Role, Role_eq}
use my_build.Common.Uuid.{codes}

pub record NavItem : Type 0 where
  pub href : String
  pub label : String

pub record NavSection : Type 0 where
  pub title : Option String
  pub items : List NavItem

abbrev pub item : String → String → NavItem
item href label = record { href = href; label = label }

abbrev pub common_items : List NavItem
common_items =
    item "/documents" "Документы"
    ∷ item "/notifications" "Уведомления"
    ∷ item "/settings" "Настройки"
    ∷ []

abbrev pub client_navigation : List NavSection
client_navigation =
    (record {
      title = none;
      items = item "/orders" "Все заказы" ∷ item "/orders/new" "Создать заказ" ∷ [];
    })
    ∷ (record { title = some "Меню"; items = item "/contractors" "Подрядчики" ∷ common_items })
    ∷ []

abbrev pub company_navigation : List NavSection
company_navigation =
    (record {
      title = none;
      items = item "/available" "Доступные заказы" ∷ item "/offers" "Мои предложения" ∷ [];
    })
    ∷ (record { title = some "Меню"; items = common_items })
    ∷ []

unfoldable pub get_navigation : Role → List NavSection
get_navigation role = if role == Role.company then company_navigation else client_navigation

unfoldable pub get_home_href : Option Role → String
get_home_href none = "/no-role"
get_home_href (some Role.company) = "/available"
get_home_href (some Role.client) = "/orders"

-- What follows a prefix.
unfoldable pub after_prefix : List ℕ → List ℕ → Option (List ℕ)
after_prefix [] cs = some cs
after_prefix (p ∷ ps) [] = none
after_prefix (p ∷ ps) (c ∷ cs) = let rest = after_prefix ps cs in if nat_beq p c then rest else none

abbrev pub is_new : List ℕ → Bool
is_new (n ∷ e ∷ w ∷ []) = nat_beq n b'n' && nat_beq e b'e' && nat_beq w b'w'
is_new _ = false

abbrev pub is_segment : List ℕ → Bool
is_segment [] = false
is_segment (c ∷ cs) = not (any (λ d. nat_beq d b'/') (c ∷ cs))

-- `ORDER_DETAIL`: the page of an order, not that of a new one.
unfoldable pub is_order_detail : String → Bool
unfolding after_prefix
is_order_detail pathname = elim (after_prefix (codes "/orders/") (codes pathname)) [
  | none ↦ false
  | some rest ↦ is_segment rest && not (is_new rest)
]

abbrev pub begins_with : String → String → Bool
begins_with prefix text = elim (after_prefix (codes prefix) (codes text)) [
  | none ↦ false
  | some rest ↦ true
]

unfoldable pub is_nav_item_active : String → String → Role → Bool
unfolding is_order_detail after_prefix
is_nav_item_active href pathname role =
    if href == "/orders"
    then pathname == "/orders" || is_order_detail pathname
    else if href == "/offers" && role == Role.company && is_order_detail pathname
    then true
    else pathname == href || begins_with (href <> "/") pathname

pub record Crumb : Type 0 where
  pub label : String
  pub href : Option String
  pub current : Bool

abbrev pub label_in : List (String × String) → String → Option String
label_in [] segment = none
label_in ((key, label) ∷ labels) segment =
    if key == segment then some label else label_in labels segment

abbrev pub segment_labels : List (String × String)
segment_labels =
    ("orders", "Все заказы")
    ∷ ("new", "Создать заказ")
    ∷ ("available", "Доступные заказы")
    ∷ ("offers", "Мои предложения")
    ∷ ("contractors", "Подрядчики")
    ∷ ("documents", "Документы")
    ∷ ("notifications", "Уведомления")
    ∷ ("settings", "Настройки")
    ∷ []

abbrev pub entity_labels : List (String × String)
entity_labels = ("orders", "Заказ") ∷ ("contractors", "Компания") ∷ []

-- The company's orders are its offers.
abbrev pub is_company_section : String → Option Role → Bool
is_company_section href role = option_beq Role_eq role (some Role.company) && href == "/orders"

module _ (decode_segment : String → String) where
  abbrev pub entity_label : Option String → String → String
  entity_label none segment = decode_segment segment
  entity_label (some parent) segment = elim (label_in entity_labels parent) [
    | none ↦ decode_segment segment
    | some label ↦ label
  ]

  unfoldable pub crumb_label : String → Option String → String
  crumb_label segment parent = elim (label_in segment_labels segment) [
    | none ↦ entity_label parent segment
    | some label ↦ label
  ]

  abbrev pub is_last : List String → Bool
  is_last [] = true
  is_last (segment ∷ segments) = false

  -- The crumbs of the segments behind an address, with the segment before them.
  unfoldable pub crumbs_from : Option Role → String → Option String → List String → List Crumb
  unfolding crumb_label
  crumbs_from role base parent [] = []
  crumbs_from role base parent (segment ∷ segments) =
      let href = base <> "/" <> segment in
      let section = is_company_section href role in
      (record {
        label = if section then "Мои предложения" else crumb_label segment parent;
        href = if is_last segments then none else some (if section then "/offers" else href);
        current = is_last segments;
      })
      ∷ crumbs_from role href (some segment) segments

  abbrev pub home_crumb : Option Role → List String → List Crumb
  home_crumb role [] =
      (record { label = "Главная"; href = some (get_home_href role); current = false }) ∷ []
  home_crumb role (segment ∷ segments) =
      if "/" <> segment == get_home_href role
      then []
      else (record { label = "Главная"; href = some (get_home_href role); current = false }) ∷ []

  -- Of the segments of an address that are not empty.
  unfoldable pub build_breadcrumbs : List String → Option Role → List Crumb
  unfolding crumbs_from get_home_href
  build_breadcrumbs segments role = home_crumb role segments ++ crumbs_from role "" none segments
