-- ===== src/Auth.antt =====
-- backend/src/modules/auth/auth-user.ts and backend/src/common/guards/supabase-auth.guard.ts: the user of
-- a token, and the guard that lets nobody in without one. Whether a token is valid, and what it says,
-- is the answer of a library.
pub mod Token
pub mod Guards
use Prim.Native.Char.{Char, code}
use my_build.Base.{
  ℕ, ◌+◌, String, Bool, true, false, not, ◌&&◌, ◌||◌, List, [], ◌∷◌, Option, none, some, nat_beq,
  ◌==◌, String_eq, if◌then◌else◌,
}
use my_build.Errors.{
  Result, ok, err, refuse, ◌>>=◌, ◌>>◌, unauthorized, forbidden, internal_server_error,
}
use my_build.Shared.Enums.{Role}
use my_build.Common.Uuid.{codes}

pub record AuthUser : Type 0 where
  pub id : String
  pub email : Option String
  pub email_verified : Bool
  pub role : Option Role
  pub is_demo : Bool
  pub session_id : Option String

-- What becomes of a token: its user and the moment of its end, a refusal with its text
-- (`InvalidTokenError`), or a failure of another kind.
pub data Verification : Type 0 where
  verified : AuthUser → Option ℕ → Verification
  invalid : String → Verification
  broken : Verification

abbrev prepend : Char → List String → List String
prepend c [] = String.◌∷◌ c String.[] ∷ []
prepend c (word ∷ words) = String.◌∷◌ c word ∷ words

-- `split(' ')`.
unfoldable pub split_spaces : String → List String
split_spaces String.[] = String.[] ∷ []
split_spaces (String.◌∷◌ c s) =
    let rest = split_spaces s in if nat_beq (code c) 32 then String.[] ∷ rest else prepend c rest

-- `toLowerCase() === 'bearer'`: no character outside ASCII has a lower case among these letters.
abbrev is_word : List ℕ → List ℕ → Bool
is_word [] [] = true
is_word (l ∷ letters) (c ∷ cs) = (nat_beq c l || nat_beq (c + 32) l) && is_word letters cs
is_word _ _ = false

abbrev pub is_bearer : String → Bool
is_bearer scheme = is_word (codes "bearer") (codes scheme)

-- A scheme and a value, and nothing after them.
abbrev pub bearer_value : List String → Option String
bearer_value (scheme ∷ value ∷ []) =
    if not (is_bearer scheme) || value == "" then none else some value
bearer_value _ = none

unfoldable pub extract_bearer_token : Option String → Option String
unfolding split_spaces
extract_bearer_token none = none
extract_bearer_token (some header) = bearer_value (split_spaces header)

-- What kind of call the guard stands before.
pub data ContextType : Type 0 where
  http ws : ContextType

abbrev pub email_not_verified : String
email_not_verified = "Подтвердите email: ссылка отправлена на вашу почту"

abbrev pub user_of : Verification → Result AuthUser
user_of (verified user expires_at) = ok user
user_of (invalid message) = err (unauthorized message)
user_of broken = err (internal_server_error "")

abbrev pub token_of : Option String → Result String
token_of none = err (unauthorized "Требуется авторизация")
token_of (some token) = ok token

abbrev authenticated : (String → Verification) → Option String → Result (Option AuthUser)
authenticated verify header = token_of (extract_bearer_token header) >>= λ token.
    user_of (verify token) >>= λ user.
    refuse (not user.email_verified) (forbidden email_not_verified) >> ok (some user)

-- `canActivate`: the user that the request carries from here on.
unfoldable pub authenticate_request :
    (String → Verification) → ContextType → Bool → Option String → Result (Option AuthUser)
authenticate_request verify ContextType.ws is_public header = ok none
authenticate_request verify ContextType.http true header = ok none
authenticate_request verify ContextType.http false header = authenticated verify header
