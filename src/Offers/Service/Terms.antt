-- ===== src/Offers/Service/Terms.antt =====
-- The row that a company's submission leaves: its terms, and what is kept of the row before.
use my_build.Base.{
  ℕ, ◌≡◌, ◌≢◌, refl, ap, subst, All, if◌then◌else◌, String, Bool, true, false, not, ◌&&◌, List, [],
  ◌∷◌, ◌++◌, Option, none, some, arith, keep, count, find, ◌==◌, String_eq, eq_refl, Bool-cases,
  inl, inr,
}
use my_build.Shared.Enums.{OfferStatus}
use my_build.Shared.Dates.{Date}
use my_build.Store.Tables.{Db, Offer}
use my_build.Store.Queries.{list_queries, update_where}
use my_build.Orders.Transition.Settled.{DistinctIds}
use my_build.Offers.Service.{CreateOfferDto, has_key, edited, created_row, upserted}

-- The company's own offer for an order.
abbrev pub is_companys : String → String → Offer → Bool
is_companys order_id company_id row = row.order_id == order_id && row.company_id == company_id

-- The terms that the company has sent.
pub record Terms (now : Date) (company_id : String) (dto : CreateOfferDto) (row : Offer)
    : Type 0 where
  pub of_order : row.order_id ≡ dto.order_id
  pub by_company : row.company_id ≡ company_id
  pub status : row.status ≡ OfferStatus.sent
  pub price : row.proposed_price ≡ dto.proposed_price
  pub deadline : row.proposed_deadline ≡ dto.proposed_deadline
  pub comment : row.comment ≡ dto.comment
  pub updated_at : row.updated_at ≡ now

-- A row that was not there before stands at the end of the table, not edited and never refused; one
-- that was keeps its identifier, its beginning and its count of refusals, and is marked as edited.
abbrev pub History :
    String → Date → String → String → Option Offer → List Offer → List Offer → Offer → Type 0
History id now order_id company_id none before after row =
    (after ≡ before ++ row ∷ [])
    × (row.id ≡ id)
    × (row.created_at ≡ now)
    × (row.edited_at ≡ none)
    × (row.rejection_count ≡ 0)
History id now order_id company_id (some old) before after row =
    (keep (λ r. not (is_companys order_id company_id r)) after
      ≡ keep (λ r. not (is_companys order_id company_id r)) before)
    × (count (is_companys order_id company_id) after
        ≡ count (is_companys order_id company_id) before)
    × (row.id ≡ old.id)
    × (row.created_at ≡ old.created_at)
    × (row.edited_at ≡ some now)
    × (row.rejection_count ≡ old.rejection_count)

module _ (now : Date) (company_id : String) (dto : CreateOfferDto) where
  abbrev own : Offer → Bool
  own = has_key dto.order_id company_id

  edited_found :
      (rows : List Offer) (old row : Offer)
      → find own rows ≡ some old
      → find own (update_where Offer own (edited now dto) rows) ≡ some row
      → (row ≡ edited now dto old) × (own old ≡ true)
  edited_found [] old row e f = cc
  edited_found (r ∷ rows) old row e f = elim (Bool-cases (own r)) [
    | inl h ↦ (ground (arith, e, f, h), ground (arith, e, h))
    | inr h ↦ edited_found rows old row (ground (arith, e, h)) (ground (arith, f, h))
  ]

  edited_others :
      (rows : List Offer)
      → (keep (λ r. not (own r)) (update_where Offer own (edited now dto) rows)
          ≡ keep (λ r. not (own r)) rows)
        × (count own (update_where Offer own (edited now dto) rows) ≡ count own rows)
  edited_others [] = (refl, refl)
  edited_others (r ∷ rows) = elim (Bool-cases (own r)) [
    | inl h ↦ ground (arith, edited_others rows, h)
    | inr h ↦ ground (arith, edited_others rows, h)
  ]

  created_found :
      (id : String) (rows : List Offer) (row : Offer)
      → find own rows ≡ none
      → find own (rows ++ created_row id now company_id dto ∷ []) ≡ some row
      → created_row id now company_id dto ≡ row
  created_found id [] row e f = ground (arith, f, eq_refl dto.order_id, eq_refl company_id)
  created_found id (r ∷ rows) row e f =
      created_found id rows row (ground (arith, e)) (ground (arith, e, f))

  pub created-Terms :
      (id : String) (rows : List Offer) (row : Offer)
      → find own rows ≡ none
      → find own (rows ++ created_row id now company_id dto ∷ []) ≡ some row
      → Terms now company_id dto row
        × History id now dto.order_id company_id none rows
            (rows ++ created_row id now company_id dto ∷ [])
            row
  created-Terms id rows row e f =
      subst
        (λ x.
          Terms now company_id dto x
          × History id now dto.order_id company_id none rows
              (rows ++ created_row id now company_id dto ∷ []) x)
        (created_found id rows row e f)
        (
          record {
            of_order = refl;
            by_company = refl;
            status = refl;
            price = refl;
            deadline = refl;
            comment = refl;
            updated_at = refl;
          },
          (refl, refl, refl, refl, refl),
        )

  pub edited-Terms :
      (id : String) (rows : List Offer) (old row : Offer)
      → find own rows ≡ some old
      → find own (update_where Offer own (edited now dto) rows) ≡ some row
      → Terms now company_id dto row
        × History id now dto.order_id company_id
            (some old)
            rows
            (update_where Offer own (edited now dto) rows)
            row
  edited-Terms id rows old row e f =
      let (same, mine) = edited_found rows old row e f in
      let (others, counted) = edited_others rows in
      (
        record {
          of_order = ground (arith, same, mine, String_eq.same_iff old.order_id dto.order_id);
          by_company = ground (arith, same, mine, String_eq.same_iff old.company_id company_id);
          status = ap (λ (x : Offer). x.status) same;
          price = ap (λ (x : Offer). x.proposed_price) same;
          deadline = ap (λ (x : Offer). x.proposed_deadline) same;
          comment = ap (λ (x : Offer). x.comment) same;
          updated_at = ap (λ (x : Offer). x.updated_at) same;
        },
        (
          others,
          counted,
          ap (λ (x : Offer). x.id) same,
          ap (λ (x : Offer). x.created_at) same,
          ap (λ (x : Offer). x.edited_at) same,
          ap (λ (x : Offer). x.rejection_count) same,
        ),
      )

  apart-edited :
      (id : String) (rows : List Offer)
      → All (λ r. id ≢ r.id) rows
      → All (λ r. id ≢ r.id) (update_where Offer own (edited now dto) rows)
  apart-edited id [] h = tt
  apart-edited id (r ∷ rows) h = (same_id (own r), apart-edited id rows h.1)
    where
      same_id : (b : Bool) → id ≢ (if b then edited now dto r else r).id
      same_id true = h.0
      same_id false = h.0

  distinct-edited :
      (rows : List Offer)
      → DistinctIds rows
      → DistinctIds (update_where Offer own (edited now dto) rows)
  distinct-edited [] d = tt
  distinct-edited (r ∷ rows) d = (first (own r), distinct-edited rows d.1)
    where
      first :
          (b : Bool)
          → All
              (λ x. (if b then edited now dto r else r).id ≢ x.id)
              (update_where Offer own (edited now dto) rows)
      first true = apart-edited r.id rows d.0
      first false = apart-edited r.id rows d.0

  apart-added :
      (x id : String) (rows : List Offer)
      → x ≢ id
      → All (λ r. x ≢ r.id) rows
      → All (λ r. x ≢ r.id) (rows ++ created_row id now company_id dto ∷ [])
  apart-added x id [] e h = (e, tt)
  apart-added x id (r ∷ rows) e h = (h.0, apart-added x id rows e h.1)

  distinct-added :
      (id : String) (rows : List Offer)
      → DistinctIds rows
      → All (λ r. r.id ≢ id) rows
      → DistinctIds (rows ++ created_row id now company_id dto ∷ [])
  distinct-added id [] d h = (tt, tt)
  distinct-added id (r ∷ rows) d h =
      (apart-added r.id id rows h.0 d.0, distinct-added id rows d.1 h.1)

  -- The write leaves the identifiers apart.
  pub upserted-DistinctIds :
      (new_id : ℕ → String) (existing : Option Offer) (db : Db)
      → DistinctIds db.offers
      → All (λ r. r.id ≢ new_id db.issued) db.offers
      → DistinctIds (upserted (list_queries new_id) now company_id dto existing db).offers
  upserted-DistinctIds new_id none db d h = distinct-added (new_id db.issued) db.offers d h
  upserted-DistinctIds new_id (some old) db d h = distinct-edited db.offers d
