-- ===== src/Interface/Redirects.antt =====
-- frontend/src/lib/redirects.ts: where a visitor is sent after signing in.
use Prim.Native.Char.{Char, code}
use my_build.Base.{
  ℕ, String, Bool, true, false, not, ◌&&◌, ◌||◌, ◌≡◌, refl, Option, none, some, arith, nat_beq, leb,
  ◌==◌, String_eq, if◌then◌else◌,
}

-- `[\t\n\r]`.
abbrev pub is_stripped : Char → Bool
is_stripped c = nat_beq (code c) 9 || (nat_beq (code c) 10 || nat_beq (code c) 13)

unfoldable pub strip_anywhere : String → String
strip_anywhere String.[] = String.[]
strip_anywhere (String.◌∷◌ c s) =
    let rest = strip_anywhere s in if is_stripped c then rest else String.◌∷◌ c rest

abbrev pub is_edge : Char → Bool
is_edge c = leb (code c) 32

unfoldable pub trim_start : String → String
trim_start String.[] = String.[]
trim_start (String.◌∷◌ c s) = let rest = trim_start s in if is_edge c then rest else String.◌∷◌ c s

abbrev pub is_empty : String → Bool
is_empty String.[] = true
is_empty (String.◌∷◌ c s) = false

unfoldable pub trim_end : String → String
trim_end String.[] = String.[]
trim_end (String.◌∷◌ c s) =
    let rest = trim_end s in if is_edge c && is_empty rest then String.[] else String.◌∷◌ c rest

unfoldable pub trim_edges : String → String
unfolding trim_start trim_end
trim_edges value = trim_end (trim_start value)

abbrev pub is_slash : Char → Bool
is_slash c = nat_beq (code c) b'/'

-- A slash that neither another one nor a backslash follows.
unfoldable pub is_relative : String → Bool
is_relative String.[] = false
is_relative (String.◌∷◌ c String.[]) = is_slash c
is_relative (String.◌∷◌ c (String.◌∷◌ d s)) =
    is_slash c && (not (is_slash d) && not (nat_beq (code d) b'\\'))

abbrev pub cleaned : String → String
cleaned raw = trim_edges (strip_anywhere raw)

-- The first value of the parameter.
unfoldable pub safe_next_path : Option String → String → String
unfolding trim_edges strip_anywhere is_relative
safe_next_path none fallback = fallback
safe_next_path (some raw) fallback =
    if raw == "" then fallback else if is_relative (cleaned raw) then cleaned raw else fallback

abbrev has_none : String → Bool
has_none String.[] = true
has_none (String.◌∷◌ c s) = not (is_stripped c) && has_none s

has_none-strip_anywhere : (s : String) → has_none (strip_anywhere s) ≡ true
unfolding strip_anywhere
has_none-strip_anywhere String.[] = refl
has_none-strip_anywhere (String.◌∷◌ c s) = ground (arith, has_none-strip_anywhere s)

has_none-trim_start : (s : String) → has_none s ≡ true → has_none (trim_start s) ≡ true
unfolding trim_start
has_none-trim_start String.[] h = refl
has_none-trim_start (String.◌∷◌ c s) h = ground (arith, has_none-trim_start s, h)

has_none-trim_end : (s : String) → has_none s ≡ true → has_none (trim_end s) ≡ true
unfolding trim_end
has_none-trim_end String.[] h = refl
has_none-trim_end (String.◌∷◌ c s) h = ground (arith, has_none-trim_end s, h)

-- Whether an address holds a character.
abbrev pub holds : ℕ → String → Bool
holds n String.[] = false
holds n (String.◌∷◌ c s) = nat_beq (code c) n || holds n s

has_none-holds :
    (s : String)
    → has_none s ≡ true
    → (holds 9 s ≡ false) × (holds 10 s ≡ false) × (holds 13 s ≡ false)
has_none-holds String.[] h = (refl, refl, refl)
has_none-holds (String.◌∷◌ c s) h = ground (arith, h, has_none-holds s)

-- Whether the last character is one that a browser leaves out at the end: a space or a control.
abbrev pub ends_blank : String → Bool
ends_blank String.[] = false
ends_blank (String.◌∷◌ c String.[]) = leb (code c) 32
ends_blank (String.◌∷◌ c (String.◌∷◌ d s)) = ends_blank (String.◌∷◌ d s)

ends_blank-cons :
    (c : Char) (rest : String)
    → ends_blank rest ≡ false
    → (is_edge c && is_empty rest) ≡ false
    → ends_blank (String.◌∷◌ c rest) ≡ false
ends_blank-cons c String.[] h e = ground (arith, e)
ends_blank-cons c (String.◌∷◌ d s) h e = h

ends_blank-if :
    (c : Char) (rest : String) (b : Bool)
    → ends_blank rest ≡ false
    → (is_edge c && is_empty rest) ≡ b
    → ends_blank (if b then String.[] else String.◌∷◌ c rest) ≡ false
ends_blank-if c rest true h e = refl
ends_blank-if c rest false h e = ends_blank-cons c rest h e

ends_blank-trim_end : (s : String) → ends_blank (trim_end s) ≡ false
unfolding trim_end
ends_blank-trim_end String.[] = refl
ends_blank-trim_end (String.◌∷◌ c s) =
    ends_blank-if c (trim_end s) (is_edge c && is_empty (trim_end s)) (ends_blank-trim_end s) refl

-- Where a browser takes an address, by the standard of URLs: spaces and controls at its start, and tabs
-- and line ends anywhere, are left out; what then begins with one slash is a path of the same site;
-- two slashes, the second of them in either direction, name another host; anything else is
-- another address.
pub data Reached : Type 0 where
  own_path other_host other_address : Reached

abbrev pub after_slash : String → Reached
after_slash String.[] = own_path
after_slash (String.◌∷◌ c s) =
    let later = after_slash s in
    if nat_beq (code c) 9 || (nat_beq (code c) 10 || nat_beq (code c) 13)
    then later
    else if nat_beq (code c) 47 || nat_beq (code c) 92
    then other_host
    else own_path

abbrev pub reached : String → Reached
reached String.[] = other_address
reached (String.◌∷◌ c s) =
    let later = reached s in
    if leb (code c) 32 then later else if nat_beq (code c) 47 then after_slash s else other_address

is_relative-reached : (s : String) → has_none s ≡ true → is_relative s ≡ true → reached s ≡ own_path
unfolding is_relative
is_relative-reached String.[] h e = absurd (ground arith)
is_relative-reached (String.◌∷◌ c String.[]) h e = ground (arith, e)
is_relative-reached (String.◌∷◌ c (String.◌∷◌ d s)) h e = ground (arith, e, h)

-- What makes an address safe to be sent to: a browser reaches a path of this site by it, and it holds no
-- tab or line end and no blank end that browsers and servers could read differently.
pub record IsSafe (path : String) : Type 0 where
  pub local : reached path ≡ own_path
  pub no_tab : holds 9 path ≡ false
  pub no_line_feed : holds 10 path ≡ false
  pub no_return : holds 13 path ≡ false
  pub no_blank_end : ends_blank path ≡ false

cleaned-IsSafe : (raw : String) → is_relative (cleaned raw) ≡ true → IsSafe (cleaned raw)
unfolding trim_edges
cleaned-IsSafe raw h =
    let clean =
      has_none-trim_end (trim_start (strip_anywhere raw))
        (has_none-trim_start (strip_anywhere raw) (has_none-strip_anywhere raw)) in
    let (tab, line_feed, return) = has_none-holds (cleaned raw) clean in
    record {
      local = is_relative-reached (cleaned raw) clean h;
      no_tab = tab;
      no_line_feed = line_feed;
      no_return = return;
      no_blank_end = ends_blank-trim_end (trim_start (strip_anywhere raw));
    }

-- Where the fallback is safe, so is what is answered, whatever the parameter: a browser that follows it
-- reaches a path of this site and no other host, and it holds no tab, no line end and no blank at its end.
pub safe_next_path-IsSafe :
    (value : Option String) (fallback : String)
    → IsSafe fallback
    → IsSafe (safe_next_path value fallback)
unfolding safe_next_path
safe_next_path-IsSafe none fallback safe = safe
safe_next_path-IsSafe (some raw) fallback safe =
    by_tests (raw == "") (is_relative (cleaned raw)) refl
  where
    by_tests :
        (empty local : Bool)
        → is_relative (cleaned raw) ≡ local
        → IsSafe (if empty then fallback else if local then cleaned raw else fallback)
    by_tests true local h = safe
    by_tests false true h = cleaned-IsSafe raw h
    by_tests false false h = safe
