-- ===== src/Files/Validation.antt =====
-- backend/src/modules/files/file-validation.ts with fileExtension and cleanFileName of shared/src/api.ts: the
-- checks of a file's name, size, type and first bytes. A text stands as its code points where it is
-- compared without regard to case; the tables have letters of ASCII alone, to which no other letter
-- of theirs is the lower case.
use Prim.Native.Char.{Char, code}
use my_build.Base.{
  ℕ, zero, suc, ◌+◌, ◌*◌, String, ◌<>◌, Bool, true, false, not, ◌&&◌, ◌||◌, List, [], ◌∷◌, take,
  drop, length, Option, none, some, nat_beq, leb, ltb, ◌==◌, String_eq, if◌then◌else◌,
}
use my_build.Errors.{Result, ok, err, refuse, ◌>>◌, bad_request, payload_too_large}
use my_build.Shared.OrderNumber.{skip_spaces, all_spaces, is_digit}
use my_build.Shared.Texts.{trim_left, trim_right, trimmed}
use my_build.Common.Uuid.{codes}

pub data AllowedFileMimeType : Type 0 where
  pdf png jpeg webp dwg dxf : AllowedFileMimeType

abbrev pub mime_name : AllowedFileMimeType → String
mime_name AllowedFileMimeType.pdf = "application/pdf"
mime_name AllowedFileMimeType.png = "image/png"
mime_name AllowedFileMimeType.jpeg = "image/jpeg"
mime_name AllowedFileMimeType.webp = "image/webp"
mime_name AllowedFileMimeType.dwg = "image/vnd.dwg"
mime_name AllowedFileMimeType.dxf = "application/dxf"

-- A letter of a table, or the capital of it.
abbrev pub is_lower_case : ℕ → ℕ → Bool
is_lower_case l c = nat_beq c l || leb b'a' l && leb l b'z' && nat_beq (c + 32) l

unfoldable pub lower_is : List ℕ → List ℕ → Bool
lower_is [] [] = true
lower_is (l ∷ letters) (c ∷ cs) = is_lower_case l c && lower_is letters cs
lower_is _ _ = false

-- `trim`.
unfoldable pub drop_spaces_at_end : List ℕ → List ℕ
drop_spaces_at_end [] = []
drop_spaces_at_end (c ∷ cs) =
    let rest = drop_spaces_at_end cs in if all_spaces (c ∷ cs) then [] else c ∷ rest

abbrev pub trimmed_codes : List ℕ → List ℕ
trimmed_codes cs = drop_spaces_at_end (skip_spaces cs)

-- From the last dot on.
unfoldable pub from_last_dot : List ℕ → List ℕ
from_last_dot [] = []
from_last_dot (c ∷ cs) =
    let rest = from_last_dot cs in
    elim rest [ [] ↦ if nat_beq c b'.' then c ∷ cs else [] | d ∷ ds ↦ d ∷ ds ]

-- A dot that the name begins by does not count.
unfoldable pub file_extension : String → List ℕ
unfolding skip_spaces drop_spaces_at_end from_last_dot
file_extension name = from_last_dot (drop 1 (trimmed_codes (codes name)))

-- The first value of a table whose key is the lower case of a text, with the key.
unfoldable pub look_up :
    List (String × AllowedFileMimeType) → List ℕ → Option (String × AllowedFileMimeType)
unfolding lower_is
look_up [] cs = none
look_up ((key, mime) ∷ table) cs =
    let rest = look_up table cs in if lower_is (codes key) cs then some (key, mime) else rest

abbrev pub file_extension_mime : List (String × AllowedFileMimeType)
file_extension_mime =
    (".pdf", AllowedFileMimeType.pdf)
    ∷ (".png", AllowedFileMimeType.png)
    ∷ (".jpg", AllowedFileMimeType.jpeg)
    ∷ (".jpeg", AllowedFileMimeType.jpeg)
    ∷ (".webp", AllowedFileMimeType.webp)
    ∷ (".dwg", AllowedFileMimeType.dwg)
    ∷ (".dxf", AllowedFileMimeType.dxf)
    ∷ []

abbrev pub mime_aliases : List (String × AllowedFileMimeType)
mime_aliases =
    ("application/pdf", AllowedFileMimeType.pdf)
    ∷ ("image/png", AllowedFileMimeType.png)
    ∷ ("image/jpeg", AllowedFileMimeType.jpeg)
    ∷ ("image/jpg", AllowedFileMimeType.jpeg)
    ∷ ("image/webp", AllowedFileMimeType.webp)
    ∷ ("image/vnd.dwg", AllowedFileMimeType.dwg)
    ∷ ("image/x-dwg", AllowedFileMimeType.dwg)
    ∷ ("application/acad", AllowedFileMimeType.dwg)
    ∷ ("application/x-acad", AllowedFileMimeType.dwg)
    ∷ ("application/dxf", AllowedFileMimeType.dxf)
    ∷ ("image/vnd.dxf", AllowedFileMimeType.dxf)
    ∷ []

-- The type with which a browser marks a file that it does not know.
abbrev pub is_unknown_mime : List ℕ → Bool
is_unknown_mime cs =
    lower_is [] cs
    || lower_is (codes "application/octet-stream") cs
    || lower_is (codes "binary/octet-stream") cs

-- `split(';')[0]`.
unfoldable pub before_semicolon : List ℕ → List ℕ
before_semicolon [] = []
before_semicolon (c ∷ cs) =
    let rest = before_semicolon cs in if nat_beq c b';' then [] else c ∷ rest

abbrev pub is_alias : AllowedFileMimeType → Option (String × AllowedFileMimeType) → Bool
is_alias expected none = false
is_alias expected (some (key, mime)) = mime_name mime == mime_name expected

abbrev pub agreed_type :
    String → String → List ℕ → Option (String × AllowedFileMimeType) → Result AllowedFileMimeType
agreed_type original_name declared_mime_type declared none = err (
    bad_request (
      "Файл «" <> original_name
      <> "»: такой тип загрузить нельзя. Разрешены PDF, DWG, DXF, PNG, JPEG, WEBP"))
agreed_type original_name declared_mime_type declared (some (extension, expected)) =
    if is_unknown_mime declared
    then ok expected
    else refuse (not (is_alias expected (look_up mime_aliases declared))) (
        bad_request (
          "Файл «" <> original_name <> "»: тип «" <> declared_mime_type
          <> "» не совпадает с расширением «" <> extension <> "»"))
      >> ok expected

-- The extension decides; a declared type that is known must agree with it.
unfoldable pub resolve_mime_type : String → String → Result AllowedFileMimeType
unfolding file_extension look_up before_semicolon lower_is
resolve_mime_type original_name declared_mime_type =
    agreed_type original_name declared_mime_type
      (trimmed_codes (before_semicolon (codes declared_mime_type)))
      (look_up file_extension_mime (file_extension original_name))

abbrev pub max_file_size_bytes : ℕ
max_file_size_bytes = 20 * 1024 * 1024

unfoldable pub assert_upload_size : String → ℕ → Result (Unit {0})
assert_upload_size original_name size_bytes =
    refuse (nat_beq size_bytes 0) (bad_request ("Файл «" <> original_name <> "» пустой"))
    >> refuse (ltb max_file_size_bytes size_bytes)
        (payload_too_large ("Файл «" <> original_name <> "» больше 20 МБ"))

abbrev pub same_bytes : List ℕ → List ℕ → Bool
same_bytes [] [] = true
same_bytes (x ∷ xs) (b ∷ bs) = nat_beq x b && same_bytes xs bs
same_bytes _ _ = false

-- The characters of latin1 are the bytes.
abbrev pub bytes_are : String → List ℕ → Bool
bytes_are text bytes = same_bytes (codes text) bytes

-- `/^AC\d{4}$/` of six bytes.
abbrev pub is_dwg_version : List ℕ → Bool
is_dwg_version (a ∷ c ∷ d1 ∷ d2 ∷ d3 ∷ d4 ∷ []) =
    nat_beq a b'A' && nat_beq c b'C' && (is_digit d1 && is_digit d2 && (is_digit d3 && is_digit d4))
is_dwg_version _ = false

abbrev pub is_jpeg : List ℕ → Bool
is_jpeg (a ∷ b ∷ c ∷ rest) = nat_beq a 255 && nat_beq b 216 && nat_beq c 255
is_jpeg _ = false

-- Of the first bytes of a file. DXF has no signature.
unfoldable pub matches_signature : AllowedFileMimeType → List ℕ → Bool
matches_signature AllowedFileMimeType.pdf head = bytes_are "%PDF-" (take 5 head)
matches_signature AllowedFileMimeType.png head =
    same_bytes (137 ∷ 80 ∷ 78 ∷ 71 ∷ 13 ∷ 10 ∷ 26 ∷ 10 ∷ []) (take 8 head)
matches_signature AllowedFileMimeType.jpeg head = is_jpeg head
matches_signature AllowedFileMimeType.webp head =
    bytes_are "RIFF" (take 4 head) && bytes_are "WEBP" (take 4 (drop 8 head))
matches_signature AllowedFileMimeType.dwg head = is_dwg_version (take 6 head)
matches_signature AllowedFileMimeType.dxf head = true

-- Control characters, and those that turn the direction of a text.
abbrev pub is_unsafe_name_character : Char → Bool
is_unsafe_name_character c =
    leb (code c) 31
    || leb 127 (code c) && leb (code c) 159
    || nat_beq (code c) 1564
    || leb 8206 (code c) && leb (code c) 8207
    || leb 8234 (code c) && leb (code c) 8238
    || leb 8294 (code c) && leb (code c) 8297

unfoldable pub without_unsafe : String → String
without_unsafe String.[] = String.[]
without_unsafe (String.◌∷◌ c s) =
    let rest = without_unsafe s in if is_unsafe_name_character c then rest else String.◌∷◌ c rest

unfoldable pub clean_file_name : String → String
unfolding without_unsafe trim_left trim_right
clean_file_name name = trimmed (without_unsafe name)

-- The first characters of a text.
abbrev pub characters : ℕ → String → String
characters zero s = String.[]
characters (suc n) String.[] = String.[]
characters (suc n) (String.◌∷◌ c s) = String.◌∷◌ c (characters n s)

abbrev pub max_file_name_length : ℕ
max_file_name_length = 255

-- The clean name, where it is no longer than a file system takes.
unfoldable pub assert_file_name : String → Result String
unfolding clean_file_name
assert_file_name original_name =
    let name = clean_file_name original_name in
    refuse (name == "") (bad_request "У файла нет имени")
    >> refuse (ltb max_file_name_length (length (codes name))) (
        bad_request
          ("Имя файла «" <> characters 40 name <> "…» длиннее 255 символов — переименуйте файл"))
    >> ok name
