-- ===== src/Offers/Service/Rows.antt =====
-- The rows of the table of offers around the one that a company sends.
use my_build.Base.{
  ◌≡◌, ◌≢◌, refl, sym, subst, String, Bool, true, List, [], ◌∷◌, ◌++◌, map, none, some, arith, All,
  find, Bool-cases, inl, inr, ◌==◌, String_eq,
}
use my_build.Shared.Enums.{OfferStatus}
use my_build.Shared.Dates.{Date}
use my_build.Shared.State.{OrderEventType}
use my_build.Store.Tables.{Offer}
use my_build.Store.Queries.{update_where}
use my_build.Orders.Transition.Settled.{DistinctIds, settled}
use my_build.Offers.Service.{CreateOfferDto, has_key, edited, created_row}

-- A row that a company has just sent.
abbrev pub Fresh : Date → Offer → Type 0
Fresh now row = (row.status ≡ OfferStatus.sent) × (row.updated_at ≡ now)

pub updated-Fresh :
    (now : Date) (company_id : String) (dto : CreateOfferDto) (rows : List Offer)
    → All
        (λ row. has_key dto.order_id company_id row ≡ true → Fresh now row)
        (update_where Offer (has_key dto.order_id company_id) (edited now dto) rows)
updated-Fresh now company_id dto [] = tt
updated-Fresh now company_id dto (r ∷ rows) = (ground arith, updated-Fresh now company_id dto rows)

pub added-Fresh :
    (id : String) (now : Date) (company_id : String) (dto : CreateOfferDto) (rows : List Offer)
    → find (has_key dto.order_id company_id) rows ≡ none
    → All
        (λ row. has_key dto.order_id company_id row ≡ true → Fresh now row)
        (rows ++ created_row id now company_id dto ∷ [])
added-Fresh id now company_id dto [] h = ((λ e. (refl, refl)), tt)
added-Fresh id now company_id dto (r ∷ rows) h =
    (ground (arith, h), added-Fresh id now company_id dto rows (ground (arith, h)))

pub found-Fresh :
    (p : Offer → Bool) (now : Date) (rows : List Offer) (c : Offer)
    → All (λ row. p row ≡ true → Fresh now row) rows
    → find p rows ≡ some c
    → Fresh now c
found-Fresh p now [] c a h = cc
found-Fresh p now (r ∷ rows) c a h = ground (arith, a.0, h, found-Fresh p now rows c a.1)

pub settled_kept :
    (now : Date) (order_id : String) (c : Offer) (rows : List Offer)
    → Fresh now c
    → All (λ row. (row.id == c.id) ≡ true → row ≡ c) rows
    → map (settled OrderEventType.offer_submitted now order_id c.id) rows ≡ rows
settled_kept now order_id c [] f a = refl
settled_kept now order_id c (r ∷ rows) f a =
    ground (arith, a.0, f, settled_kept now order_id c rows f a.1)

apart :
    (x : Offer) (rows : List Offer)
    → All (λ row. x.id ≢ row.id) rows
    → All (λ row. (row.id == x.id) ≡ true → row ≡ x) rows
apart x [] d = tt
apart x (r ∷ rows) d =
    ((λ e. absurd (d.0 (sym ((String_eq.same_iff r.id x.id).0 e)))), apart x rows d.1)

found_apart :
    (p : Offer → Bool) (x : Offer) (rows : List Offer) (c : Offer)
    → All (λ row. x.id ≢ row.id) rows
    → find p rows ≡ some c
    → x.id ≢ c.id
found_apart p x [] c d h = cc
found_apart p x (r ∷ rows) c d h = λ e. ground (arith, h, d.0, e, found_apart p x rows c d.1)

pub only_one :
    (p : Offer → Bool) (rows : List Offer) (c : Offer)
    → DistinctIds rows
    → find p rows ≡ some c
    → All (λ row. (row.id == c.id) ≡ true → row ≡ c) rows
only_one p [] c d h = tt
only_one p (r ∷ rows) c d h = elim (Bool-cases (p r)) [
  | inl e ↦
      let same : r ≡ c = ground (arith, h, e) in
      subst (λ x. All (λ row. (row.id == x.id) ≡ true → row ≡ x) (r ∷ rows)) same
        ((λ _. refl), apart r rows d.0)
  | inr e ↦
      let found : find p rows ≡ some c = ground (arith, h, e) in
      (
        (λ e. absurd (found_apart p r rows c d.0 found ((String_eq.same_iff r.id c.id).0 e))),
        only_one p rows c d.1 found,
      )
]
