-- ===== src/Shared/OrderNumber.antt =====
-- shared/src/labels.ts, parseOrderNumber, and backend/src/modules/orders/order-search.ts: what a search
-- text finds. A text stands as its code points.
pub mod RoundTrip
use my_build.Base.{
  ℕ, ◌+◌, ◌-◌, ◌*◌, String, Bool, true, false, ◌&&◌, ◌||◌, List, [], ◌∷◌, ◌++◌, Option, none, some,
  nat_beq, leb, if◌then◌else◌,
}
use Prim.Native.Char.{Char, code}
use my_build.Common.Uuid.{codes}

abbrev pub max_order_number : ℕ
max_order_number = 2147483647

abbrev pub is_digit : ℕ → Bool
is_digit c = leb b'0' c && leb c b'9'

-- `\s`.
abbrev pub is_space : ℕ → Bool
is_space c =
    leb 9 c && leb c 13
    || nat_beq c 32
    || nat_beq c 160
    || nat_beq c 5760
    || leb 8192 c && leb c 8202
    || nat_beq c 8232
    || nat_beq c 8233
    || nat_beq c 8239
    || nat_beq c 8287
    || nat_beq c 12288
    || nat_beq c 65279

unfoldable pub skip_spaces : List ℕ → List ℕ
skip_spaces [] = []
skip_spaces (c ∷ cs) = let rest = skip_spaces cs in if is_space c then rest else c ∷ cs

abbrev pub all_spaces : List ℕ → Bool
all_spaces [] = true
all_spaces (c ∷ cs) = is_space c && all_spaces cs

-- A letter without regard to case.
abbrev pub is_letter : ℕ → ℕ → Bool
is_letter upper c = nat_beq c upper || nat_beq c (upper + 32)

-- `(?:ORD-)?`.
unfoldable pub skip_prefix : List ℕ → List ℕ
skip_prefix (o ∷ r ∷ d ∷ dash ∷ cs) =
    if is_letter b'O' o && is_letter b'R' r && is_letter b'D' d && nat_beq dash b'-'
    then cs
    else o ∷ r ∷ d ∷ dash ∷ cs
skip_prefix cs = cs

-- `(\d+)\s*$` after a first digit, and its number.
unfoldable pub digits_to_end : ℕ → List ℕ → Option ℕ
digits_to_end value [] = some value
digits_to_end value (c ∷ cs) =
    let rest = digits_to_end (value * 10 + (c - b'0')) cs in
    if is_digit c then rest else if all_spaces (c ∷ cs) then some value else none

unfoldable pub number_to_end : List ℕ → Option ℕ
unfolding digits_to_end
number_to_end [] = none
number_to_end (c ∷ cs) = if is_digit c then digits_to_end 0 (c ∷ cs) else none

-- A number that no order can have is none. One too large for the platform's integers is above the
-- largest order number as well.
abbrev pub in_range : Option ℕ → Option ℕ
in_range none = none
in_range (some n) = if leb 1 n && leb n max_order_number then some n else none

unfoldable pub parse_order_number : String → Option ℕ
unfolding skip_spaces skip_prefix number_to_end
parse_order_number query = in_range (number_to_end (skip_prefix (skip_spaces (codes query))))
