-- ===== src/Common/Uuid.antt =====
-- backend/src/common/uuid.ts: the test of an identifier before it goes to the database.
use Prim.Native.Char.{code}
use my_build.Base.{ℕ, zero, suc, String, Bool, true, false, ◌&&◌, ◌||◌, List, [], ◌∷◌, nat_beq, leb}

-- The code points of a text. The pattern has no flag by which another letter could stand for one of
-- its own, so a character outside ASCII never fits.
abbrev pub codes : String → List ℕ
codes String.[] = []
codes (String.◌∷◌ c s) = code c ∷ codes s

-- `[0-9a-f]` without regard to case.
unfoldable pub is_hex : ℕ → Bool
is_hex c = leb b'0' c && leb c b'9' || leb b'a' c && leb c b'f' || leb b'A' c && leb c b'F'

-- What the pattern wants at each place, to the end of the text.
pub data Place : Type 0 where
  hex dash : Place

unfoldable pub fits : Place → ℕ → Bool
unfolding is_hex
fits Place.hex c = is_hex c
fits Place.dash c = nat_beq c b'-'

unfoldable pub matches : List Place → List ℕ → Bool
unfolding fits
matches [] [] = true
matches (p ∷ ps) (c ∷ cs) = fits p c && matches ps cs
matches _ _ = false

hexes : ℕ → List Place → List Place
hexes zero rest = rest
hexes (suc n) rest = Place.hex ∷ hexes n rest

unfoldable pub uuid : List Place
unfolding hexes
uuid =
    hexes 8 (
      Place.dash ∷ hexes 4 (Place.dash ∷ hexes 4 (Place.dash ∷ hexes 4 (Place.dash ∷ hexes 12 []))))

unfoldable pub is_uuid : String → Bool
unfolding matches uuid
is_uuid value = matches uuid (codes value)
