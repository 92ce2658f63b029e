-- ===== src/Errors.antt =====
-- The exceptions that the backend throws, as values: the order's own classes of
-- backend/src/modules/orders/order-state-machine.ts and the framework's by their HTTP status.
use my_build.Base.{◌≡◌, ◌⊎◌, inl, inr, refl, String, Bool, true, false, Option, none, some}
use my_build.Shared.Enums.{OrderStatus, OfferStatus}
use my_build.Shared.State.{OrderEventType}

pub data HttpError : Type 0 where
  invalid_state_transition : OrderStatus → OrderEventType → HttpError
  invalid_offer_status : OfferStatus → OrderEventType → HttpError
  offer_finally_rejected offer_expired offer_changed : HttpError
  -- An error of the program itself, answered by status 500.
  unexpected : OrderEventType → HttpError
  not_found conflict bad_request forbidden : String → HttpError
  insufficient_storage service_unavailable unauthorized : String → HttpError
  internal_server_error too_many_requests length_required payload_too_large : String → HttpError

pub data Result {ℓ} (A : Type ℓ) : Type ℓ where
  ok : A → Result A
  err : HttpError → Result A

infixl 5 ◌>>◌
module _ {ℓ κ} {A : Type ℓ} {B : Type κ} where
  infixl 5 ◌>>=◌
  abbrev pub ◌>>=◌ : Result A → (A → Result B) → Result B
  err e >>= f = err e
  ok a >>= f = f a

  -- A chain that answers has answered at its first step.
  pub >>=-eq-ok :
      (first : Result A) (rest : A → Result B) {answer : B}
      → (first >>= rest) ≡ ok answer
      → (met : A) × (first ≡ ok met) × (rest met ≡ ok answer)
  >>=-eq-ok (err e) rest h = cc
  >>=-eq-ok (ok met) rest h = (met, refl, h)

abbrev pub ◌>>◌ {ℓ} : {B : Type ℓ} → Result (Unit {0}) → Result B → Result B
first >> rest = first >>= λ _. rest

-- `if (refused) throw e`.
abbrev pub refuse : Bool → HttpError → Result (Unit {0})
refuse true e = err e
refuse false e = ok tt

abbrev pub or_throw {ℓ} : {A : Type ℓ} → Option A → HttpError → Result A
or_throw none e = err e
or_throw (some a) e = ok a

abbrev pub is_ok {ℓ} : {A : Type ℓ} → Result A → Bool
is_ok (ok a) = true
is_ok (err e) = false

pub Result-cases {ℓ} :
    {A : Type ℓ} (m : Result A) → ((a : A) × (m ≡ ok a)) ⊎ ((e : HttpError) × (m ≡ err e))
Result-cases (ok a) = inl (a, refl)
Result-cases (err e) = inr (e, refl)

pub ok_of {ℓ} : {A : Type ℓ} (m : Result A) → is_ok m ≡ true → (a : A) × (m ≡ ok a)
ok_of (ok a) h = (a, refl)
ok_of (err e) h = cc
