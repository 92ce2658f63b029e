-- ===== src/Orders/Detail.antt =====
-- backend/src/modules/orders/orders.service.ts, getDetail, and backend/src/modules/files/files.service.ts,
-- listOrderFiles: the rows of an order, read together and shown to one user. How the database orders
-- identifiers is a parameter.
use my_build.Base.{String, Bool, ◌&&◌, ◌||◌, List, map, ltb, leb, nat_beq, ◌==◌, String_eq}
use mathlib.Core.Option
use my_build.Errors.{not_found, or_throw}
use my_build.Shared.Dates.{to_iso_string}
use my_build.Store.Tables.{Db, User, Order, OrderSubmission, OrderFile, Offer}
use my_build.Store.Queries.{Queries}
use my_build.Store.Tx.{Tx, ◌>>=◌, return, lift, read}
use my_build.Orders.View.{
  OfferRow, OrderRow, SubmissionRow, OrderFileDto, ClientCard, OrderDetailRow, OrderDetail,
  to_order_detail,
}

unfoldable pub to_order_file_dto : OrderFile → OrderFileDto
to_order_file_dto file = record {
  id = file.id;
  order_id = file.order_id;
  owner_type = file.owner_type;
  submission_round = file.submission_round;
  original_name = file.original_name;
  mime_type = file.mime_type;
  size_bytes = file.size_bytes;
  created_at = to_iso_string file.created_at;
}

-- From the first hand-in to the last, in a hand-in by the moment, then by the identifier.
abbrev pub file_before : (String → String → Bool) → OrderFile → OrderFile → Bool
file_before id_before a b =
    ltb a.submission_round b.submission_round
    || nat_beq a.submission_round b.submission_round
      && (ltb a.created_at b.created_at || nat_beq a.created_at b.created_at && id_before a.id b.id)

abbrev pub submission_row_of : OrderSubmission → SubmissionRow
submission_row_of row = record {
  round = row.round;
  comment = row.comment;
  submitted_at = row.submitted_at;
  created_at = row.created_at;
}

abbrev pub client_card : User → ClientCard
client_card user = record {
  id = user.id;
  first_name = user.first_name;
  last_name = user.last_name;
  city = user.city;
  country = user.country;
  email = user.email;
  phone = user.phone;
}

module _ (q : Queries) where
  -- `include: { company: { select: { companyName: true } } }`.
  abbrev pub offer_row : Db → Offer → OfferRow
  offer_row db offer = record {
    id = offer.id;
    order_id = offer.order_id;
    company_id = offer.company_id;
    status = offer.status;
    proposed_price = offer.proposed_price;
    proposed_deadline = offer.proposed_deadline;
    comment = offer.comment;
    created_at = offer.created_at;
    edited_at = offer.edited_at;
    updated_at = offer.updated_at;
    rejection_count = offer.rejection_count;
    company_name =
        Option.bind (q.find_first User (λ user. user.id == offer.company_id) db.users)
          (λ user. user.company_name);
  }

  abbrev pub order_row : Db → Order → OrderRow
  order_row db order = record {
    id = order.id;
    order_number = order.order_number;
    client_id = order.client_id;
    title = order.title;
    status = order.status;
    category = order.category;
    object_type = order.object_type;
    client_budget = order.client_budget;
    price = order.price;
    deadline = order.deadline;
    created_at = order.created_at;
    offers = map (offer_row db) (
        q.find_sorted Offer (λ row. row.order_id == order.id) (λ a b. leb a.created_at b.created_at)
          db.offers);
  }

  unfoldable pub list_order_files : (String → String → Bool) → String → Tx (List OrderFileDto)
  unfolding to_order_file_dto
  list_order_files id_before order_id = read λ db.
      map to_order_file_dto
        (q.find_sorted OrderFile (λ row. row.order_id == order_id) (file_before id_before) db.files)

  abbrev pub detail_row : Db → Order → User → List OrderFileDto → OrderDetailRow
  detail_row db order client files = record {
    row = order_row db order;
    description = order.description;
    address = order.address;
    square_meters = order.square_meters;
    verified_square_meters = order.verified_square_meters;
    desired_start_date = order.desired_start_date;
    client_completion_comment = order.client_completion_comment;
    correction_comment = order.correction_comment;
    updated_at = order.updated_at;
    client = client_card client;
    files = files;
    submissions = map submission_row_of (
        q.find_sorted OrderSubmission (λ row. row.order_id == order.id) (λ a b. leb a.round b.round)
          db.submissions);
  }

  -- The client of an order is a required relation: the query throws where the row is missing.
  unfoldable pub get_detail : (String → String → Bool) → String → String → Tx OrderDetail
  unfolding list_order_files
  get_detail id_before order_id viewer = do
    found ← read λ db. q.find_first Order (λ row. row.id == order_id) db.orders
    order ← lift (or_throw found (not_found "Заказ не найден"))
    owner ← read λ db. q.find_first User (λ user. user.id == order.client_id) db.users
    client ← lift (or_throw owner (not_found "User"))
    files ← list_order_files id_before order_id
    detail ← read λ db. detail_row db order client files
    return (to_order_detail detail viewer)
