-- ===== src/Orders/Workflow/Counts.antt =====
-- How the queries of a table change and read the numbers of its rows.
use my_build.Base.{
  ℕ, ◌+◌, ◌≤◌, ◌≡◌, refl, Bool, true, false, ◌&&◌, List, [], ◌∷◌, ◌++◌, none, some, arith, keep,
  find, count, nat_beq, Option-cases, inl, inr,
}
use my_build.Store.Queries.{update_where, greatest_of}

abbrev pub bit : Bool → ℕ
bit true = 1
bit false = 0

module _ {A : Type 0} where
  pub count-append :
      (p : A → Bool) (xs : List A) (x : A) → count p (xs ++ x ∷ []) ≡ count p xs + bit (p x)
  count-append p [] x = ground arith
  count-append p (y ∷ xs) x = ground (arith, count-append p xs x)

  count-untouched :
      (p key : A → Bool) (f : A → A) (xs : List A)
      → count key xs ≡ 0
      → count p (update_where A key f xs) ≡ count p xs
  count-untouched p key f [] h = refl
  count-untouched p key f (x ∷ xs) h = ground (arith, h, count-untouched p key f xs)

  -- A statement that changes one row moves a number by what that row counts.
  pub count-update :
      (p key : A → Bool) (f : A → A) (xs : List A) (x : A)
      → count key xs ≤ 1
      → find key xs ≡ some x
      → count p (update_where A key f xs) + bit (p x) ≡ count p xs + bit (p (f x))
  count-update p key f [] x h e = cc
  count-update p key f (y ∷ xs) x h e =
      ground (arith, h, e, count-update p key f xs x, count-untouched p key f xs)

  pub find-count :
      (p : A → Bool) (xs : List A) (x : A) → find p xs ≡ some x → (p x ≡ true) × (1 ≤ count p xs)
  find-count p [] x e = cc
  find-count p (y ∷ xs) x e = ground (arith, e, find-count p xs x)

  pub find-none : (p : A → Bool) (xs : List A) → find p xs ≡ none → count p xs ≡ 0
  find-none p [] e = refl
  find-none p (y ∷ xs) e = ground (arith, e, find-none p xs)

  kept-none : (p : A → Bool) (xs : List A) → count p xs ≡ 0 → keep p xs ≡ []
  kept-none p [] h = refl
  kept-none p (y ∷ xs) h = ground (arith, h, kept-none p xs)

  -- Of one row at most, the greatest is the one that is found.
  pub greatest-only :
      (f : A → ℕ) (p : A → Bool) (xs : List A)
      → count p xs ≤ 1
      → greatest_of A f (keep p xs) ≡ find p xs
  greatest-only f p [] h = refl
  greatest-only f p (y ∷ xs) h = ground (arith, h, greatest-only f p xs, kept-none p xs)

  pub greatest-none :
      (f : A → ℕ) (p : A → Bool) (xs : List A) → greatest_of A f (keep p xs) ≡ none → count p xs ≡ 0
  greatest-none f p [] h = refl
  greatest-none f p (y ∷ xs) h = ground (arith, h, greatest-none f p xs)

  pub count-fewer : (p r : A → Bool) (xs : List A) → count (λ x. p x && r x) xs ≤ count p xs
  count-fewer p r [] = omega arith
  count-fewer p r (x ∷ xs) = ground (arith, count-fewer p r xs)

  pub greatest-there :
      (f : A → ℕ) (p : A → Bool) (xs : List A) (x : A)
      → greatest_of A f (keep p xs) ≡ some x
      → 1 ≤ count (λ y. p y && nat_beq (f y) (f x)) xs
  greatest-there f p [] x h = cc
  greatest-there f p (y ∷ xs) x h = elim (Option-cases (greatest_of A f (keep p xs))) [
    | inl e ↦ ground (arith, h, e)
    | inr (b, e) ↦ ground (arith, h, e, greatest-there f p xs b e)
  ]

  pub greatest-bounds :
      (f : A → ℕ) (p : A → Bool) (xs : List A) (x : A) (k : ℕ)
      → greatest_of A f (keep p xs) ≡ some x
      → 1 ≤ count (λ y. p y && nat_beq (f y) k) xs
      → k ≤ f x
  greatest-bounds f p [] x k h c = ground (arith, c)
  greatest-bounds f p (y ∷ xs) x k h c = elim (Option-cases (greatest_of A f (keep p xs))) [
    | inl e ↦
        ground (arith, h, e, c, count-fewer p (λ z. nat_beq (f z) k) xs, greatest-none f p xs e)
    | inr (b, e) ↦ ground (arith, h, e, c, greatest-bounds f p xs b k e)
  ]

  -- Where as many rows pass two tests as pass the first, each that passes it passes the second.
  pub count-all :
      (p r key : A → Bool) (xs : List A) (x : A)
      → count (λ y. p y && r y) xs ≡ count p xs
      → find key xs ≡ some x
      → p x ≡ true
      → r x ≡ true
  count-all p r key [] x h e t = cc
  count-all p r key (y ∷ xs) x h e t =
      ground (arith, h, e, t, count-all p r key xs x, count-fewer p r xs)

  pub find-append :
      (p : A → Bool) (xs : List A) (x : A)
      → count p xs ≡ 0
      → p x ≡ true
      → find p (xs ++ x ∷ []) ≡ some x
  find-append p [] x h e = ground (arith, e)
  find-append p (y ∷ xs) x h e = ground (arith, h, find-append p xs x, e)

  pub count-none : (p : A → Bool) (xs : List A) → count p xs ≡ 0 → find p xs ≡ none
  count-none p [] h = refl
  count-none p (y ∷ xs) h = ground (arith, h, count-none p xs)

  found-count :
      (p key : A → Bool) (xs : List A) (x : A)
      → find p xs ≡ some x
      → key x ≡ true
      → 1 ≤ count key xs
  found-count p key [] x h e = cc
  found-count p key (y ∷ xs) x h e = ground (arith, h, e, found-count p key xs x)

  -- The row that a test finds is the one that its key finds.
  pub find-key :
      (p key : A → Bool) (xs : List A) (x : A)
      → find p xs ≡ some x
      → key x ≡ true
      → count key xs ≤ 1
      → find key xs ≡ some x
  find-key p key [] x h e c = cc
  find-key p key (y ∷ xs) x h e c =
      ground (arith, h, e, c, find-key p key xs x, found-count p key xs x)

  pub find-update :
      (p key : A → Bool) (f : A → A) (xs : List A) (x : A)
      → count p xs ≤ 1
      → find key xs ≡ some x
      → p x ≡ true
      → p (f x) ≡ true
      → find p (update_where A key f xs) ≡ some (f x)
  find-update p key f [] x c h e t = cc
  find-update p key f (y ∷ xs) x c h e t =
      ground (arith, c, h, e, t, find-update p key f xs x, found-count key p xs x)
