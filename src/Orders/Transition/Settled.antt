-- ===== src/Orders/Transition/Settled.antt =====
-- The updates that the service groups by status, and finds their rows for by identifier, settle each
-- offer of the order by what it is.
use my_build.Base.{
  ℕ, String, ◌≡◌, refl, sym, ap, ◌∙◌, subst, ◌≢◌, inl, inr, Bool, true, false, ◌&&◌, List, [], ◌∷◌,
  ◌++◌, ◌+◌, map, arith, All, keep, includes, ◌==◌, String_eq, eq_refl, Bool-cases, if◌then◌else◌,
}
use mathlib.Core.List.{append_assoc, append-nil}
use text.Mathlib.TextEquality.{eq_iff}
use my_build.Shared.Enums.{OfferStatus, OfferStatus_eq}
use my_build.Shared.State.{OrderEventType}
use my_build.Shared.Dates.{Date}
use my_build.Store.Tables.{Offer}
use my_build.Store.Queries.{list_queries, update_where}
use my_build.Orders.Machine.Types.{OfferOwner}
use my_build.Orders.Machine.Effects.{lost}
use my_build.Orders.Transition.Types.{OfferStatusUpdate}
use my_build.Orders.Transition.Collect.{group_from, group_offer_ids_by_status}
use my_build.Orders.Transition.Write.{with_status, update_groups}
use my_build.Orders.Transition.Applied.{update_of}
use my_build.Orders.Transition.{is_rival, owner_of}

-- The primary key of the table: no two rows have the same identifier.
abbrev pub DistinctIds : List Offer → Type 0
DistinctIds [] = Unit
DistinctIds (row ∷ rows) = All (λ r. row.id ≢ r.id) rows × DistinctIds rows

abbrev ids : List Offer → List String
ids = map (λ r. r.id)

includes-ids_fresh :
    (p : Offer → Bool) (id : String) (rows : List Offer)
    → All (λ r. id ≢ r.id) rows
    → includes (ids (keep p rows)) id ≡ false
includes-ids_fresh p id [] h = refl
includes-ids_fresh p id (r ∷ rows) h =
    ground (arith, includes-ids_fresh p id rows h.1, eq_iff r.id id)

abbrev Agrees : List String → (Offer → Bool) → Offer → Type 0
Agrees names p r = includes names r.id ≡ p r

Agrees-cons :
    (p : Offer → Bool) (x : Offer) (names : List String) (rows : List Offer)
    → All (λ r. x.id ≢ r.id) rows
    → All (Agrees names p) rows
    → All (Agrees (x.id ∷ names) p) rows
Agrees-cons p x names [] f h = tt
Agrees-cons p x names (r ∷ rows) f h =
    (ground (arith, eq_iff x.id r.id), Agrees-cons p x names rows f.1 h.1)

keep-cons_yes :
    (p : Offer → Bool) (x : Offer) (rows : List Offer)
    → p x ≡ true
    → x ∷ keep p rows ≡ keep p (x ∷ rows)
keep-cons_yes p x rows e = rw e

keep-cons_no :
    (p : Offer → Bool) (x : Offer) (rows : List Offer)
    → p x ≡ false
    → keep p rows ≡ keep p (x ∷ rows)
keep-cons_no p x rows e = rw e

-- With distinct identifiers, the identifiers of the rows that a test keeps name just those rows.
Agrees-keep :
    (p : Offer → Bool) (rows : List Offer)
    → DistinctIds rows
    → All (Agrees (ids (keep p rows)) p) rows
Agrees-keep p [] d = tt
Agrees-keep p (x ∷ rows) d =
    let later = Agrees-keep p rows d.1 in
    elim (Bool-cases (p x)) [
      | inl e ↦
          subst (λ ks. All (Agrees (ids ks) p) (x ∷ rows)) (keep-cons_yes p x rows e)
            (ground (arith, eq_refl x.id), Agrees-cons p x (ids (keep p rows)) rows d.0 later)
      | inr e ↦
          subst (λ ks. All (Agrees (ids ks) p) (x ∷ rows)) (keep-cons_no p x rows e)
            (includes-ids_fresh p x.id rows d.0 ∙ sym e, later)
    ]

abbrev pub lost_updates : List OfferOwner → List OfferStatusUpdate
lost_updates rivals = map update_of (map lost rivals)

abbrev owner_ids : List OfferOwner → List String
owner_ids = map (λ o. o.offer_id)

group_from-lost :
    (a b : List String) (rivals : List OfferOwner)
    → group_from
        ((OfferStatus.accepted, a) ∷ (OfferStatus.not_accepted, b) ∷ [])
        (lost_updates rivals)
      ≡ (OfferStatus.accepted, a) ∷ (OfferStatus.not_accepted, b ++ owner_ids rivals) ∷ []
unfolding group_from
group_from-lost a b [] = rw append-nil
group_from-lost a b (r ∷ rivals) =
    group_from-lost a (b ++ r.offer_id ∷ []) rivals ∙ rw (append_assoc b)

-- What becomes of an offer by the event of a command about the offer `chosen`.
abbrev pub meant_status : OrderEventType → OfferStatus
meant_status OrderEventType.offer_submitted = OfferStatus.sent
meant_status OrderEventType.offer_withdrawn = OfferStatus.withdrawn
meant_status OrderEventType.offer_rejected = OfferStatus.rejected
meant_status OrderEventType.offer_accepted = OfferStatus.accepted
meant_status OrderEventType.work_submitted = OfferStatus.work_submitted
meant_status OrderEventType.work_confirmed = OfferStatus.completed
meant_status OrderEventType.work_disputed = OfferStatus.back_for_override

abbrev pub is_acceptance : OrderEventType → Bool
is_acceptance OrderEventType.offer_accepted = true
is_acceptance _ = false

abbrev pub settled : OrderEventType → Date → String → String → Offer → Offer
settled type now order_id chosen row =
    if row.id == chosen
    then with_status now (meant_status type) row
    else if is_acceptance type && is_rival order_id chosen row
    then with_status now OfferStatus.not_accepted row
    else row

-- How often an offer has been refused after an event about it.
abbrev pub refused_after : OrderEventType → ℕ → ℕ
refused_after OrderEventType.offer_rejected before = before + 1
refused_after _ before = before

-- The row of an offer after a transition about the offer `chosen` of an order.
abbrev pub row_after : OrderEventType → Date → String → String → Offer → Offer
row_after type now order_id chosen row =
    if row.id == chosen
    then record row {
      status = meant_status type;
      rejection_count = refused_after type row.rejection_count;
      updated_at = now;
    }
    else if is_acceptance type && (row.order_id == order_id && row.status == OfferStatus.sent)
    then record row { status = OfferStatus.not_accepted; updated_at = now }
    else row

settled-row_after :
    (type : OrderEventType) (now : Date) (order_id chosen : String) (row : Offer)
    → settled type now order_id chosen row ≡ row_after type now order_id chosen row
settled-row_after OrderEventType.offer_submitted now order_id chosen row = refl
settled-row_after OrderEventType.offer_withdrawn now order_id chosen row = refl
settled-row_after OrderEventType.offer_rejected now order_id chosen row = refl
settled-row_after OrderEventType.offer_accepted now order_id chosen row = ground arith
settled-row_after OrderEventType.work_submitted now order_id chosen row = refl
settled-row_after OrderEventType.work_confirmed now order_id chosen row = refl
settled-row_after OrderEventType.work_disputed now order_id chosen row = refl

pub map-settled :
    (type : OrderEventType) (now : Date) (order_id chosen : String) (rows : List Offer)
    → map (settled type now order_id chosen) rows ≡ map (row_after type now order_id chosen) rows
map-settled type now order_id chosen [] = refl
map-settled type now order_id chosen (r ∷ rows) = λ i.
    settled-row_after type now order_id chosen r i ∷ map-settled type now order_id chosen rows i

module _ (new_id : ℕ → String) (now : Date) (order_id chosen : String) where
  alone :
      (type : OrderEventType) (offers : List Offer)
      → is_acceptance type ≡ false
      → update_groups (list_queries new_id) now ((meant_status type, chosen ∷ []) ∷ []) offers
        ≡ map (settled type now order_id chosen) offers
  unfolding update_groups
  alone type [] h = refl
  alone type (r ∷ offers) h =
      ground (arith, alone type offers h, eq_iff chosen r.id, eq_iff r.id chosen)

  with_rivals :
      (names : List String) (offers : List Offer)
      → All (Agrees names (is_rival order_id chosen)) offers
      → update_groups
          (list_queries new_id)
          now
          ((OfferStatus.accepted, chosen ∷ []) ∷ (OfferStatus.not_accepted, names) ∷ [])
          offers
        ≡ map (settled OrderEventType.offer_accepted now order_id chosen) offers
  unfolding update_groups
  with_rivals names [] h = refl
  with_rivals names (r ∷ offers) h =
      ground (arith, with_rivals names offers h.1, eq_iff chosen r.id, eq_iff r.id chosen)

  owner_ids-owners : (rows : List Offer) → owner_ids (map owner_of rows) ≡ ids rows
  owner_ids-owners [] = refl
  owner_ids-owners (r ∷ rows) = ap (λ (is : List String). r.id ∷ is) (owner_ids-owners rows)

  update_none :
      (f : Offer → Offer) (rows : List Offer)
      → rows ≡ update_where Offer (λ row. includes [] row.id) f rows
  update_none f [] = refl
  update_none f (r ∷ rows) = ap (λ (rs : List Offer). r ∷ rs) (update_none f rows)

  accepted_groups :
      (chosen_owner : OfferOwner) (rivals : List OfferOwner) (offers : List Offer)
      → chosen_owner.offer_id ≡ chosen
      → All (Agrees (owner_ids rivals) (is_rival order_id chosen)) offers
      → update_groups
          (list_queries new_id)
          now
          (group_offer_ids_by_status
            (update_of (chosen_owner, OfferStatus.accepted) ∷ lost_updates rivals))
          offers
        ≡ map (settled OrderEventType.offer_accepted now order_id chosen) offers
  unfolding group_offer_ids_by_status update_groups
  accepted_groups o [] offers e h =
      subst
        (λ c.
          update_groups (list_queries new_id) now ((OfferStatus.accepted, c ∷ []) ∷ []) offers
          ≡ map (settled OrderEventType.offer_accepted now order_id chosen) offers)
        (sym e) (update_none (with_status now OfferStatus.not_accepted) _ ∙ with_rivals [] offers h)
  accepted_groups o (r ∷ rivals) offers e h =
      ap (λ gs. update_groups (list_queries new_id) now gs offers)
        (group_from-lost (o.offer_id ∷ []) (r.offer_id ∷ []) rivals)
      ∙ subst
          (λ c.
            update_groups (list_queries new_id) now
              ((OfferStatus.accepted, c ∷ [])
                ∷ (OfferStatus.not_accepted, owner_ids (r ∷ rivals))
                ∷ [])
              offers
            ≡ map (settled OrderEventType.offer_accepted now order_id chosen) offers)
          (sym e) (with_rivals (owner_ids (r ∷ rivals)) offers h)

  pub groups_settled :
      (type : OrderEventType) (offers : List Offer) (owner : OfferOwner)
      → DistinctIds offers
      → owner.offer_id ≡ chosen
      → update_groups
          (list_queries new_id)
          now
          (group_offer_ids_by_status (
            update_of (owner, meant_status type)
            ∷ lost_updates (
                if is_acceptance type
                then map owner_of (keep (is_rival order_id chosen) offers)
                else [])))
          offers
        ≡ map (settled type now order_id chosen) offers
  unfolding group_offer_ids_by_status
  groups_settled OrderEventType.offer_accepted offers owner d e =
      accepted_groups owner (map owner_of (keep (is_rival order_id chosen) offers)) offers e (
        subst (λ names. All (Agrees names (is_rival order_id chosen)) offers)
          (sym (owner_ids-owners (keep (is_rival order_id chosen) offers)))
          (Agrees-keep (is_rival order_id chosen) offers d))
  groups_settled type offers owner d e =
      subst
        (λ c.
          update_groups (list_queries new_id) now ((meant_status type, c ∷ []) ∷ []) offers
          ≡ map (settled type now order_id chosen) offers)
        (sym e) (alone type offers refl)
