-- ===== src/Shared/Enums.antt =====
-- shared/src/enums.ts: the enums of the domain. The program compares their values with `===`, which
-- is the equality of each type here.
use my_build.Base.{ℕ, ◌≡◌, ◌↔◌, true, nat_beq, arith, Eq}

pub data Role : Type 0 where
  client company : Role

pub data OrderStatus : Type 0 where
  waiting awaiting_confirmation in_progress awaiting_completion_confirmation : OrderStatus
  completed completion_disputed : OrderStatus

pub data OfferStatus : Type 0 where
  sent accepted rejected not_accepted withdrawn work_submitted completed : OfferStatus
  back_for_override : OfferStatus

pub data FileOwnerType : Type 0 where
  client company : FileOwnerType

pub data NotificationType : Type 0 where
  offer_received offer_accepted offer_rejected offer_not_accepted : NotificationType
  offer_withdrawn work_submitted work_confirmed work_disputed files_updated : NotificationType
  area_verified order_deleted : NotificationType

pub data OrderCategory : Type 0 where
  plan_creation plan_implementation : OrderCategory

pub data ObjectType : Type 0 where
  apartment house commercial government : ObjectType

abbrev pub role_tag : Role → ℕ
role_tag Role.client = 0
role_tag Role.company = 1

pub role_tag_iff : (a b : Role) → (nat_beq (role_tag a) (role_tag b) ≡ true) ↔ (a ≡ b)
role_tag_iff a b = ground arith

instance abbrev pub Role_eq : Eq Role
Role_eq = record { same = λ a b. nat_beq (role_tag a) (role_tag b); same_iff = role_tag_iff }

abbrev pub order_status_tag : OrderStatus → ℕ
order_status_tag OrderStatus.waiting = 0
order_status_tag OrderStatus.awaiting_confirmation = 1
order_status_tag OrderStatus.in_progress = 2
order_status_tag OrderStatus.awaiting_completion_confirmation = 3
order_status_tag OrderStatus.completed = 4
order_status_tag OrderStatus.completion_disputed = 5

pub order_status_tag_iff :
    (a b : OrderStatus) → (nat_beq (order_status_tag a) (order_status_tag b) ≡ true) ↔ (a ≡ b)
order_status_tag_iff a b = ground arith

instance abbrev pub OrderStatus_eq : Eq OrderStatus
OrderStatus_eq = record {
  same = λ a b. nat_beq (order_status_tag a) (order_status_tag b);
  same_iff = order_status_tag_iff;
}

abbrev pub offer_status_tag : OfferStatus → ℕ
offer_status_tag OfferStatus.sent = 0
offer_status_tag OfferStatus.accepted = 1
offer_status_tag OfferStatus.rejected = 2
offer_status_tag OfferStatus.not_accepted = 3
offer_status_tag OfferStatus.withdrawn = 4
offer_status_tag OfferStatus.work_submitted = 5
offer_status_tag OfferStatus.completed = 6
offer_status_tag OfferStatus.back_for_override = 7

pub offer_status_tag_iff :
    (a b : OfferStatus) → (nat_beq (offer_status_tag a) (offer_status_tag b) ≡ true) ↔ (a ≡ b)
offer_status_tag_iff a b = ground arith

instance abbrev pub OfferStatus_eq : Eq OfferStatus
OfferStatus_eq = record {
  same = λ a b. nat_beq (offer_status_tag a) (offer_status_tag b);
  same_iff = offer_status_tag_iff;
}

abbrev pub file_owner_type_tag : FileOwnerType → ℕ
file_owner_type_tag FileOwnerType.client = 0
file_owner_type_tag FileOwnerType.company = 1

pub file_owner_type_tag_iff :
    (a b : FileOwnerType)
    → (nat_beq (file_owner_type_tag a) (file_owner_type_tag b) ≡ true) ↔ (a ≡ b)
file_owner_type_tag_iff a b = ground arith

instance abbrev pub FileOwnerType_eq : Eq FileOwnerType
FileOwnerType_eq = record {
  same = λ a b. nat_beq (file_owner_type_tag a) (file_owner_type_tag b);
  same_iff = file_owner_type_tag_iff;
}
