-- ===== src/Auth/Token.antt =====
-- backend/src/modules/auth/supabase-jwt.service.ts: the user that a token's claims name. Whether the token's
-- signature, issuer, audience and term are right is the answer of the library of tokens.
use my_build.Base.{
  ℕ, ◌*◌, String, Bool, true, false, Option, none, some, ◌==◌, String_eq, if◌then◌else◌,
}
use my_build.Shared.Enums.{Role}
use my_build.Auth.{Verification}

-- The value of a claim, by the kinds that are told apart.
pub data Claim : Type 0 where
  absent : Claim
  text : String → Claim
  flag : Bool → Claim
  number : ℕ → Claim
  other : Claim

-- `demo` is the field of `app_metadata`, absent where that is no object.
pub record JwtPayload : Type 0 where
  pub sub : Option String
  pub email : Claim
  pub email_verified : Claim
  pub user_role : Claim
  pub session_id : Claim
  pub demo : Claim
  pub exp : Claim

abbrev pub text_of : Claim → Option String
text_of (Claim.text s) = some s
text_of _ = none

-- Only an explicit `false` says that the address is not confirmed.
abbrev pub read_email_verified : Claim → Bool
read_email_verified (Claim.flag b) = b
read_email_verified _ = true

-- Only an explicit `true` says that the account is a demo.
abbrev pub read_is_demo : Claim → Bool
read_is_demo (Claim.flag b) = b
read_is_demo _ = false

unfoldable pub read_role : Claim → Option Role
read_role (Claim.text s) =
    if s == "CLIENT" then some Role.client else if s == "COMPANY" then some Role.company else none
read_role _ = none

abbrev pub expires_at_of : Claim → Option ℕ
expires_at_of (Claim.number seconds) = some (seconds * 1000)
expires_at_of _ = none

abbrev pub no_user : Verification
no_user = Verification.invalid "В токене нет идентификатора пользователя"

abbrev read_user : JwtPayload → Verification
read_user payload = elim payload.sub [
  | none ↦ no_user
  | some sub ↦
      if sub == ""
      then no_user
      else Verification.verified
          (record {
            id = sub;
            email = text_of payload.email;
            email_verified = read_email_verified payload.email_verified;
            role = read_role payload.user_role;
            is_demo = read_is_demo payload.demo;
            session_id = text_of payload.session_id;
          })
          (expires_at_of payload.exp)
]

unfoldable pub verify_token : (String → Option JwtPayload) → String → Verification
unfolding read_role
verify_token jwt_verify token = elim (jwt_verify token) [
  | none ↦ Verification.invalid "Токен недействителен или истёк"
  | some payload ↦ read_user payload
]
