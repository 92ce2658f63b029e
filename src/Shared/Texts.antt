-- ===== src/Shared/Texts.antt =====
-- The language's own `trim`, on texts.
use Prim.Native.Char.{code}
use my_build.Base.{String, ◌&&◌, ◌==◌, String_eq, if◌then◌else◌}
use my_build.Shared.OrderNumber.{is_space}

unfoldable pub trim_left : String → String
trim_left String.[] = String.[]
trim_left (String.◌∷◌ c s) =
    let rest = trim_left s in if is_space (code c) then rest else String.◌∷◌ c s

unfoldable pub trim_right : String → String
trim_right String.[] = String.[]
trim_right (String.◌∷◌ c s) =
    let rest = trim_right s in
    if is_space (code c) && rest == "" then String.[] else String.◌∷◌ c rest

abbrev pub trimmed : String → String
trimmed s = trim_right (trim_left s)
