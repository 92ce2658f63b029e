-- ===== src/Auth/Guards.antt =====
-- backend/src/common/guards: roles.guard.ts, not-demo.guard.ts, throttle.guard.ts and upload-size.guard.ts.
use my_build.Base.{
  ℕ, ◌+◌, ◌-◌, ◌*◌, ◌/◌, max, String, ◌<>◌, Bool, false, not, ◌&&◌, List, [], ◌∷◌, Option, none,
  some, or_else, ltb, includes, decimal, ◌==◌, String_eq, if◌then◌else◌,
}
use my_build.Errors.{
  Result, ok, err, refuse, ◌>>◌, unauthorized, forbidden, too_many_requests, length_required,
  payload_too_large,
}
use my_build.Shared.Enums.{Role, Role_eq}
use my_build.Shared.OrderNumber.{is_digit}
use my_build.Common.Uuid.{codes}
use my_build.Common.RateWindow.{RateWindowOptions, RateWindowResult, RateWindows, hit}
use my_build.Files.Quota.{max_order_files_bytes}
use my_build.Files.Uploads.{upload_request_overhead_bytes}
use my_build.Auth.{AuthUser, ContextType}

abbrev pub needs_role : List Role → Option Role → Result (Unit {0})
needs_role required none =
    err (forbidden "В токене нет роли. Включите Custom Access Token Hook в проекте Supabase")
needs_role required (some role) =
    refuse (not (includes required role)) (forbidden "Недостаточно прав для этого действия")

abbrev needs_user : List Role → Option AuthUser → Result (Unit {0})
needs_user required none = err (unauthorized "Требуется авторизация")
needs_user required (some user) = needs_role required user.role

abbrev check_roles : List Role → ContextType → Option AuthUser → Result (Unit {0})
check_roles required ContextType.ws user = err (
    forbidden
      "Проверка роли работает только в HTTP-контексте: у сообщения сокета роль проверяет шлюз")
check_roles required ContextType.http user = needs_user required user

-- A route that names no role is open to every one.
unfoldable pub roles_guard : Option (List Role) → ContextType → Option AuthUser → Result (Unit {0})
roles_guard none context user = ok tt
roles_guard (some []) context user = ok tt
roles_guard (some (role ∷ roles)) context user = check_roles (role ∷ roles) context user

abbrev pub is_demo_user : Option AuthUser → Bool
is_demo_user none = false
is_demo_user (some user) = user.is_demo

unfoldable pub not_demo_guard : Option AuthUser → Result (Unit {0})
not_demo_guard user = refuse (is_demo_user user) (
    forbidden
      "Демо-аккаунт общий для всех посетителей, поэтому это в нём не меняется. Зарегистрируйтесь, чтобы попробовать со своим аккаунтом")

abbrev pub default_throttle : RateWindowOptions
default_throttle = record { limit = 20; ttl = 60000 }

-- A demo account is told apart by its session, where the token names one.
abbrev pub subject_of : AuthUser → String
subject_of user =
    let session = or_else user.session_id "" in
    if user.is_demo && not (session == "") then user.id <> "/" <> session else user.id

unfoldable pub throttle_subject : Option AuthUser → Option String → String
throttle_subject none ip = or_else ip "unknown"
throttle_subject (some user) ip = subject_of user

unfoldable pub build_key : Option AuthUser → Option String → String → String → String
unfolding throttle_subject
build_key user ip class handler = throttle_subject user ip <> ":" <> class <> "#" <> handler

-- `Math.max(1, Math.ceil(retryAfterMs / 1000))`, which is no number where the argument is none.
unfoldable pub retry_after_seconds : Option ℕ → String
retry_after_seconds none = "NaN"
retry_after_seconds (some ms) = decimal (max 1 ((ms + 999) / 1000))

abbrev pub throttled : RateWindowResult → Result (Unit {0})
throttled answer = refuse (not answer.allowed) (
    too_many_requests (
      "Слишком много запросов. Повторите через "
      <> retry_after_seconds answer.retry_after_ms
      <> " с"))

unfoldable pub throttle_guard :
    RateWindows → ℕ → Option RateWindowOptions → String → RateWindows × Result (Unit {0})
throttle_guard windows now options key =
    let counted = hit windows key (or_else options default_throttle) now in
    (counted.0, throttled counted.1)

abbrev pub max_upload_request_bytes : ℕ
max_upload_request_bytes = max_order_files_bytes + upload_request_overhead_bytes

-- The number that `\d+` writes, to the end of the text.
unfoldable pub read_length : ℕ → List ℕ → Option ℕ
read_length value [] = some value
read_length value (c ∷ cs) =
    let rest = read_length (value * 10 + (c - b'0')) cs in if is_digit c then rest else none

abbrev pub length_of : List ℕ → Option ℕ
length_of [] = none
length_of (c ∷ cs) = read_length 0 (c ∷ cs)

abbrev pub within_request : Option ℕ → Result ℕ
within_request none =
    err (length_required "Запрос с файлами должен объявлять размер (Content-Length)")
within_request (some bytes) =
    refuse (ltb max_upload_request_bytes bytes)
      (payload_too_large "Запрос больше 51 МБ. Приложите файлы меньшего размера")
    >> ok bytes

-- The declared length of a request that goes on.
unfoldable pub upload_size_guard : Option String → Result ℕ
unfolding read_length
upload_size_guard none = within_request none
upload_size_guard (some header) = within_request (length_of (codes header))
