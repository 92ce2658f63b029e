-- ===== src/Shared/OrderNumber/RoundTrip.antt =====
-- A search for an order by the number that the interface prints finds that number.
use my_build.Base.{
  ℕ, zero, suc, ◌+◌, ◌*◌, ◌/◌, ◌%◌, ◌≤◌, ◌<◌, ◌≡◌, refl, sym, ap, subst, ◌∙◌, String, ◌<>◌, true,
  false, ◌&&◌, List, [], ◌∷◌, ◌++◌, none, some, arith, ltb, ltb→lt, leb, decimal, decimal_from,
  digit, if◌then◌else◌, Bool-cases, inl, inr,
}
use Prim.Native.Char.{code}
use text.Mathlib.TextLemmas.{nil-append, cons-append}
use my_build.Common.Uuid.{codes}
use my_build.Shared.Labels.{format_order_number}
use my_build.Shared.OrderNumber.{
  max_order_number, is_digit, skip_spaces, skip_prefix, digits_to_end, number_to_end, in_range,
  parse_order_number,
}

codes-append : (a b : String) → codes (a <> b) ≡ codes a ++ codes b
codes-append String.[] b = ap codes (nil-append b)
codes-append (String.◌∷◌ c a) b =
    ap codes (cons-append c a b) ∙ ap (λ cs. code c ∷ cs) (codes-append a b)

digit_code : (d : ℕ) → d < 10 → codes (digit d) ≡ (b'0' + d) ∷ []
digit_code zero h = refl
digit_code (suc zero) h = refl
digit_code (suc (suc zero)) h = refl
digit_code (suc (suc (suc zero))) h = refl
digit_code (suc (suc (suc (suc zero)))) h = refl
digit_code (suc (suc (suc (suc (suc zero))))) h = refl
digit_code (suc (suc (suc (suc (suc (suc zero)))))) h = refl
digit_code (suc (suc (suc (suc (suc (suc (suc zero))))))) h = refl
digit_code (suc (suc (suc (suc (suc (suc (suc (suc zero)))))))) h = refl
digit_code (suc (suc (suc (suc (suc (suc (suc (suc (suc zero))))))))) h = refl
digit_code (suc (suc (suc (suc (suc (suc (suc (suc (suc (suc d)))))))))) h =
    absurd (omega (arith, h))

-- The number that the digits of a printed number lead to, from one that is read before them.
shifted : ℕ → ℕ → ℕ → ℕ
shifted zero n value = value
shifted (suc fuel) n value =
    let rest = shifted fuel (n / 10) value in
    if ltb n 10 then value * 10 + n else rest * 10 + n % 10

ltb-false : (a b : ℕ) → ltb a b ≡ false → b ≤ a
ltb-false a b h = ground (arith, h)

shifted_lem : (fuel n : ℕ) → n < fuel → shifted fuel n 0 ≡ n
unfolding shifted
shifted_lem zero n h = absurd (omega (arith, h))
shifted_lem (suc fuel) n h = elim (Bool-cases (ltb n 10)) [
  | inl e ↦ ground (arith, e)
  | inr e ↦ ground (arith, e, shifted_lem fuel (n / 10) (omega (arith, h, ltb-false n 10 e)))
]

digit_step :
    (d value : ℕ) (rest : List ℕ)
    → d < 10
    → digits_to_end value (codes (digit d) ++ rest) ≡ digits_to_end (value * 10 + d) rest
unfolding digits_to_end
digit_step d value rest h =
    ap (λ cs. digits_to_end value (cs ++ rest)) (digit_code d h) ∙ ground (arith, h)

append_assoc : (a b c : List ℕ) → (a ++ b) ++ c ≡ a ++ (b ++ c)
append_assoc [] b c = refl
append_assoc (x ∷ a) b c = ap (λ cs. x ∷ cs) (append_assoc a b c)

digits-decimal_from :
    (fuel n value : ℕ) (rest : List ℕ)
    → digits_to_end value (codes (decimal_from fuel n) ++ rest)
      ≡ digits_to_end (shifted fuel n value) rest
unfolding decimal_from shifted
digits-decimal_from zero n value rest = refl
digits-decimal_from (suc fuel) n value rest = elim (Bool-cases (ltb n 10)) [
  | inl e ↦ ground (arith, e, digit_step n value rest (ltb→lt n 10 e))
  | inr e ↦
      let front = decimal_from fuel (n / 10) in
      let last = n % 10 in
      let step : digits_to_end value (codes (front <> digit last) ++ rest)
          ≡ digits_to_end (shifted fuel (n / 10) value * 10 + last) rest =
        ap (λ cs. digits_to_end value (cs ++ rest)) (codes-append front (digit last))
        ∙ ap (digits_to_end value) (append_assoc (codes front) (codes (digit last)) rest)
        ∙ digits-decimal_from fuel (n / 10) value (codes (digit last) ++ rest)
        ∙ digit_step last (shifted fuel (n / 10) value) rest (omega arith) in
      ground (arith, e, step)
]

abbrev StartsByDigit : List ℕ → Type 0
StartsByDigit cs = (c : ℕ) × (rest : List ℕ) × (cs ≡ c ∷ rest) × (is_digit c ≡ true)

started-append : (a b : List ℕ) → StartsByDigit a → StartsByDigit (a ++ b)
started-append a b (c, rest, e, d) = (c, rest ++ b, ap (λ cs. cs ++ b) e, d)

digit-StartsByDigit : (d : ℕ) → d < 10 → StartsByDigit (codes (digit d))
digit-StartsByDigit d h = (b'0' + d, [], digit_code d h, ground (arith, h))

decimal_from-StartsByDigit : (fuel n : ℕ) → n < fuel → StartsByDigit (codes (decimal_from fuel n))
unfolding decimal_from
decimal_from-StartsByDigit zero n h = absurd (omega (arith, h))
decimal_from-StartsByDigit (suc fuel) n h = elim (Bool-cases (ltb n 10)) [
  | inl e ↦ subst StartsByDigit (ground (arith, e)) (digit-StartsByDigit n (ltb→lt n 10 e))
  | inr e ↦
      let front = decimal_from fuel (n / 10) in
      subst StartsByDigit (ground (arith, e, codes-append front (digit (n % 10)))) (
        started-append (codes front) (codes (digit (n % 10)))
          (decimal_from-StartsByDigit fuel (n / 10) (omega (arith, h, ltb-false n 10 e))))
]

skip_prefix-digit : (c : ℕ) (cs : List ℕ) → is_digit c ≡ true → skip_prefix (c ∷ cs) ≡ c ∷ cs
unfolding skip_prefix
skip_prefix-digit c [] h = refl
skip_prefix-digit c (x ∷ []) h = refl
skip_prefix-digit c (x ∷ y ∷ []) h = refl
skip_prefix-digit c (x ∷ y ∷ z ∷ cs) h = ground (arith, h)

-- Of a text that begins by a digit.
parsed :
    (cs : List ℕ)
    → StartsByDigit cs
    → (number_to_end cs ≡ digits_to_end 0 cs) × (skip_prefix cs ≡ cs) × (skip_spaces cs ≡ cs)
unfolding number_to_end skip_spaces
parsed cs (c, rest, e, d) = (
  ground (arith, e, d),
  subst (λ x. skip_prefix x ≡ x) (sym e) (skip_prefix-digit c rest d),
  ground (arith, e, d),
)

read_back : (n : ℕ) → number_to_end (codes (decimal n)) ≡ some n
unfolding decimal digits_to_end
read_back n =
    let cs = codes (decimal_from (suc n) n) in
    (parsed cs (decimal_from-StartsByDigit (suc n) n (omega arith))).0
    ∙ ap (digits_to_end 0) (sym (append-nil cs))
    ∙ digits-decimal_from (suc n) n 0 []
    ∙ ap some (shifted_lem (suc n) n (omega arith))
  where
    append-nil : (cs : List ℕ) → cs ++ [] ≡ cs
    append-nil [] = refl
    append-nil (c ∷ cs) = ap (λ xs. c ∷ xs) (append-nil cs)

-- A search by an order's number, as it is printed or bare, is read as that number, where an order can have
-- it: from 1 to the largest number of the column. Any other number is read as none.
pub parse-format :
    (n : ℕ)
    → (parse_order_number (format_order_number n)
        ≡ (if leb 1 n && leb n max_order_number then some n else none))
      × (parse_order_number (decimal n)
          ≡ (if leb 1 n && leb n max_order_number then some n else none))
unfolding parse_order_number format_order_number decimal skip_spaces skip_prefix
parse-format n =
    let cs = codes (decimal_from (suc n) n) in
    let (first, prefix, spaces) = parsed cs (decimal_from-StartsByDigit (suc n) n (omega arith)) in
    (
      ap (λ xs. in_range (number_to_end (skip_prefix (skip_spaces xs))))
            (codes-append "ORD-" (decimal n))
          ∙ ap in_range (read_back n),
      ap (λ xs. in_range (number_to_end (skip_prefix xs))) spaces
          ∙ ap (λ xs. in_range (number_to_end xs)) prefix
          ∙ ap in_range (read_back n),
    )
