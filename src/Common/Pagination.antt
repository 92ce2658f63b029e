-- ===== src/Common/Pagination.antt =====
-- backend/src/common/pagination.ts: pages of a list. A page is what `skip` and `take` of a query leave.
use my_build.Base.{
  ℕ, zero, suc, ◌+◌, ◌-◌, ◌*◌, ◌/◌, ◌≤◌, ◌≡◌, refl, sym, ◌∙◌, ap, subst, max, Option, none, some,
  List, [], ◌∷◌, ◌++◌, arith, length, take, drop,
}
use native.Mathlib.Nat.{lt-div-mul-add}

pub record PageRequest : Type 0 where
  pub page : ℕ
  pub page_size : ℕ
  pub skip : ℕ

pub record Paginated {ℓ} (A : Type ℓ) : Type ℓ where
  pub items : List A
  pub page : ℕ
  pub page_size : ℕ
  pub total : ℕ
  pub total_pages : ℕ

abbrev pub default_page_size : ℕ
default_page_size = 20

-- `value || fallback`: what is missing and what is zero.
abbrev pub or_default : Option ℕ → ℕ → ℕ
or_default none fallback = fallback
or_default (some zero) fallback = fallback
or_default (some (suc n)) fallback = suc n

unfoldable pub page_request : Option ℕ → Option ℕ → PageRequest
page_request page page_size =
    let page' = or_default page 1 in
    let page_size' = or_default page_size default_page_size in
    record { page = page'; page_size = page_size'; skip = (page' - 1) * page_size' }

-- `Math.max(1, Math.ceil(total / pageSize))`.
unfoldable pub total_pages_of : ℕ → ℕ → ℕ
total_pages_of total page_size = max 1 ((total + (page_size - 1)) / page_size)

unfoldable pub to_page {ℓ} : {A : Type ℓ} → List A → PageRequest → ℕ → Paginated A
unfolding total_pages_of
to_page items request total = record {
  items = items;
  page = request.page;
  page_size = request.page_size;
  total = total;
  total_pages = total_pages_of total request.page_size;
}

-- The page that a list answers a request with.
unfoldable pub paginate {ℓ} : {A : Type ℓ} → List A → Option ℕ → Option ℕ → Paginated A
unfolding page_request to_page
paginate xs page page_size =
    let request = page_request page page_size in
    to_page (take request.page_size (drop request.skip xs)) request (length xs)

module _ {ℓ} {A : Type ℓ} where
  -- The items of `n` pages in a row, after the first `i`.
  abbrev pub items_of_pages : List A → ℕ → ℕ → ℕ → List A
  items_of_pages xs size i zero = []
  items_of_pages xs size i (suc n) =
      (paginate xs (some (suc i)) (some size)).items ++ items_of_pages xs size (suc i) n

  drop_at : (xs : List A) (a b : ℕ) → a ≡ b → drop a xs ≡ drop b xs
  drop_at xs a b h = ap (λ k. drop k xs) h

  take_at : (xs : List A) (a b : ℕ) → a ≡ b → take a xs ≡ take b xs
  take_at xs a b h = ap (λ k. take k xs) h

  drop-drop : (n m : ℕ) (xs : List A) → drop m (drop n xs) ≡ drop (n + m) xs
  drop-drop zero m xs = drop_at xs m (0 + m) (omega arith)
  drop-drop (suc n) zero [] = drop_at [] (suc n) (suc n + 0) (omega arith)
  drop-drop (suc n) (suc m) [] = drop_at [] (suc (n + suc m)) (suc n + suc m) (omega arith)
  drop-drop (suc n) m (x ∷ xs) =
      drop-drop n m xs ∙ drop_at (x ∷ xs) (suc (n + m)) (suc n + m) (omega arith)

  take-add : (n m : ℕ) (xs : List A) → take n xs ++ take m (drop n xs) ≡ take (n + m) xs
  take-add zero m xs = take_at xs m (0 + m) (omega arith)
  take-add (suc n) zero [] = take_at [] (suc n) (suc n + 0) (omega arith)
  take-add (suc n) (suc m) [] = take_at [] (suc (n + suc m)) (suc n + suc m) (omega arith)
  take-add (suc n) m (x ∷ xs) =
      ap (λ ys. x ∷ ys) (take-add n m xs) ∙ take_at (x ∷ xs) (suc (n + m)) (suc n + m) (omega arith)

  take_all : (n : ℕ) (xs : List A) → length xs ≤ n → take n xs ≡ xs
  take_all zero [] h = refl
  take_all zero (x ∷ xs) h = ground arith
  take_all (suc n) [] h = refl
  take_all (suc n) (x ∷ xs) h = ap (λ ys. x ∷ ys) (take_all n xs (omega (arith, h)))

  pages-take :
      (xs : List A) (size i n : ℕ)
      → items_of_pages xs (suc size) i n ≡ take (n * suc size) (drop (i * suc size) xs)
  unfolding paginate
  pages-take xs size i zero = take_at (drop (i * suc size) xs) 0 (0 * suc size) (omega arith)
  pages-take xs size i (suc n) =
      let b = suc size in
      let here = drop (i * b) xs in
      ap (λ ys. take b ys ++ items_of_pages xs b (suc i) n)
        (drop_at xs ((suc i - 1) * b) (i * b) (ap (λ k. k * b) (pred_suc i)))
      ∙ ap (λ ys. take b here ++ ys) (pages-take xs size (suc i) n)
      ∙ ap (λ ys. take b here ++ take (n * b) ys)
          (drop_at xs (suc i * b) (i * b + b) (omega arith) ∙ sym (drop-drop (i * b) b xs))
      ∙ take-add b (n * b) here
      ∙ take_at here (b + n * b) (suc n * b) (omega arith)
    where
      pred_suc : (i : ℕ) → suc i - 1 ≡ i
      pred_suc i = omega arith

at_least_one : (q b : ℕ) → q * b ≤ max 1 q * b
at_least_one zero b = omega arith
at_least_one (suc n) b = subst (λ k. suc n * b ≤ k * b) (the_larger n) (omega arith)
  where
    the_larger : (n : ℕ) → suc n ≡ max 1 (suc n)
    the_larger n = omega arith

enough : (size total : ℕ) → total ≤ total_pages_of total (suc size) * suc size
unfolding total_pages_of
enough size total =
    let a = total + (suc size - 1) in
    omega (
      arith,
      at_least_one (a / suc size) (suc size),
      lt-div-mul-add {a = a} {b = suc size} (omega arith),
    )

-- The pages of a list, from the first to the last that an answer names, one after the other, are the
-- list: none is left out and none is shown twice, whatever the size of a page.
pub items_of_pages-all {ℓ} :
    {A : Type ℓ} (xs : List A) (size : ℕ)
    → items_of_pages xs (suc size) 0 (paginate xs none (some (suc size))).total_pages ≡ xs
unfolding paginate
items_of_pages-all xs size =
    let n = total_pages_of (length xs) (suc size) in
    pages-take xs size 0 n
    ∙ ap (λ ys. take (n * suc size) ys) (drop_at xs (0 * suc size) 0 (omega arith))
    ∙ take_all (n * suc size) xs (enough size (length xs))
