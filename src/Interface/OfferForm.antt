-- ===== src/Interface/OfferForm.antt =====
-- frontend/src/lib/offer-form.ts and form-input.ts, with the pattern of a price of shared/src/offers.ts: the
-- form by which a company sends its terms. Today is an argument.
use Prim.Native.Char.{code}
use my_build.Base.{
  ℕ, zero, suc, String, Bool, true, false, not, ◌&&◌, List, [], ◌∷◌, Option, none, some, or_else,
  nat_beq, leb, ltb, any, ◌==◌, String_eq, if◌then◌else◌,
}
use text.Mathlib.Text.{is_lt}
use Prim.Native.String.{compare, slice}
use my_build.Shared.OrderNumber.{is_digit}
use my_build.Shared.Texts.{trim_left, trim_right, trimmed}
use my_build.Common.Uuid.{codes}
use my_build.Orders.View.{OfferDto}
use my_build.Interface.Forms.{trimmed_length, max_comment, too_long}

-- `replaceAll(",", ".")` of the trimmed text.
unfoldable pub with_points : String → String
with_points String.[] = String.[]
with_points (String.◌∷◌ c s) =
    let rest = with_points s in
    if nat_beq (code c) b',' then String.◌∷◌ "." rest else String.◌∷◌ c rest

unfoldable pub normalize_number : String → String
unfolding with_points trim_left trim_right
normalize_number value = with_points (trimmed value)

abbrev pub all_digits : List ℕ → Bool
all_digits [] = true
all_digits (c ∷ cs) = is_digit c && all_digits cs

-- `\d{4}-\d{2}-\d{2}`, to the end.
abbrev pub is_dated : List ℕ → Bool
is_dated (y1 ∷ y2 ∷ y3 ∷ y4 ∷ dash ∷ m1 ∷ m2 ∷ dash' ∷ d1 ∷ d2 ∷ []) =
    all_digits (y1 ∷ y2 ∷ y3 ∷ y4 ∷ m1 ∷ m2 ∷ d1 ∷ d2 ∷ [])
    && nat_beq dash b'-'
    && nat_beq dash' b'-'
is_dated _ = false

unfoldable pub is_calendar_date : String → Bool
is_calendar_date value = is_dated (codes value)

unfoldable pub is_past_date : String → String → Bool
is_past_date today value = is_lt (compare value today)

-- What follows at most `n` digits, and how many there were; a digit more is left.
unfoldable pub digits_upto : ℕ → List ℕ → ℕ × List ℕ
digits_upto zero cs = (0, cs)
digits_upto (suc n) [] = (0, [])
digits_upto (suc n) (c ∷ cs) =
    let rest = digits_upto n cs in if is_digit c then (suc rest.0, rest.1) else (0, c ∷ cs)

abbrev pub is_done : ℕ × List ℕ → Bool
is_done (n, []) = ltb 0 n
is_done (n, c ∷ cs) = false

-- `(\.\d{1,2})?$`.
abbrev pub is_fraction : List ℕ → Bool
is_fraction [] = true
is_fraction (c ∷ cs) = nat_beq c b'.' && is_done (digits_upto 2 cs)

abbrev pub is_money : ℕ × List ℕ → Bool
is_money (n, rest) = ltb 0 n && is_fraction rest

-- A digit other than zero, before the end of the line.
abbrev pub has_value : List ℕ → Bool
has_value cs = any (λ c. leb b'1' c && leb c b'9') cs

-- `OFFER_PRICE_PATTERN`: up to ten digits, with a point and one or two digits more, above zero.
unfoldable pub is_offer_price : String → Bool
unfolding digits_upto
is_offer_price price = has_value (codes price) && is_money (digits_upto 10 (codes price))

pub record OfferFormValues : Type 0 where
  pub proposed_price : String
  pub proposed_deadline : String
  pub comment : String

pub record OfferFormErrors : Type 0 where
  pub proposed_price : Option String
  pub proposed_deadline : Option String
  pub comment : Option String

unfoldable pub offer_form_values : Option OfferDto → OfferFormValues
offer_form_values none = record { proposed_price = ""; proposed_deadline = ""; comment = "" }
offer_form_values (some offer) = record {
  proposed_price = offer.proposed_price;
  proposed_deadline = slice offer.proposed_deadline 0 10;
  comment = or_else offer.comment "";
}

abbrev pub price_error : String → Option String
price_error price =
    if price == ""
    then some "Укажите цену"
    else if not (is_offer_price price)
    then some "Цена — сумма больше нуля, вида 150000 или 150000.50"
    else none

abbrev pub deadline_error : String → String → Option String
deadline_error today deadline =
    if deadline == ""
    then some "Укажите срок выполнения"
    else if not (is_calendar_date deadline)
    then some "Некорректный срок выполнения"
    else if is_past_date today deadline
    then some "Срок выполнения не может быть в прошлом"
    else none

unfoldable pub validate_offer_form : String → OfferFormValues → OfferFormErrors
unfolding normalize_number is_offer_price is_calendar_date is_past_date trimmed_length
validate_offer_form today values = record {
  proposed_price = price_error (normalize_number values.proposed_price);
  proposed_deadline = deadline_error today (trimmed values.proposed_deadline);
  comment = if ltb max_comment (trimmed_length values.comment) then some too_long else none;
}

pub record OfferRequestBody : Type 0 where
  pub order_id : String
  pub proposed_price : String
  pub proposed_deadline : String
  pub comment : Option String

unfoldable pub to_offer_body : String → OfferFormValues → OfferRequestBody
unfolding normalize_number
to_offer_body order_id values = record {
  order_id = order_id;
  proposed_price = normalize_number values.proposed_price;
  proposed_deadline = trimmed values.proposed_deadline;
  comment = if trimmed values.comment == "" then none else some (trimmed values.comment);
}
