-- ===== src/Common/Text.antt =====
-- The parts of JavaScript's text functions that the program uses, over code points.
use Prim.Native.Nat.{ℕ, zero, suc, ◌+◌, ◌/◌, ◌%◌}
use Prim.Native.Char.{Char, code}
use Prim.Native.String.{String, [], ◌∷◌}
use mathlib.Core.Bool.{Bool, true, false, ◌&&◌, ◌||◌}
use mathlib.Core.Path.{◌≡◌, refl}
use mathlib.Core.Logic.{◌≢◌}
use native.Mathlib.Omega.{arith}
use text.Mathlib.Text.{starts_with, ◌==◌}
use text.Mathlib.TextEquality.{eq_iff}
use enterprise_crm.Common.Tests.{eqb, leb, ltb, if◌then◌else◌}

abbrev pub in_range : ℕ → ℕ → ℕ → Bool
in_range lo hi n = leb lo n && leb n hi

-- The white space and line ends that `trim` removes.
unfoldable pub is_space : ℕ → Bool
is_space n =
    in_range 9 13 n
    || eqb n 32
    || eqb n 160
    || eqb n 5760
    || in_range 8192 8202 n
    || in_range 8232 8233 n
    || eqb n 8239
    || eqb n 8287
    || eqb n 12288
    || eqb n 65279

-- `s.trim() === ""`
unfoldable pub is_blank : String → Bool
unfolding is_space
is_blank [] = true
is_blank (c ∷ s) = is_space (code c) && is_blank s

unfoldable pub trim_start : String → String
unfolding is_space
trim_start [] = []
trim_start (c ∷ s) = elim (is_space (code c)) [ true ↦ trim_start s | false ↦ c ∷ s ]

unfoldable pub trim_end : String → String
unfolding is_space
trim_end [] = []
trim_end (c ∷ s) = let rest = trim_end s in if is_space (code c) && rest == "" then [] else c ∷ rest

unfoldable pub trim : String → String
unfolding trim_start trim_end
trim s = trim_end (trim_start s)

-- `s.includes(part)`
unfoldable pub includes : String → String → Bool
includes [] part = starts_with [] part
includes (c ∷ s) part = starts_with (c ∷ s) part || includes s part

-- The characters that `encodeURIComponent` leaves alone: letters, digits and - _ . ! ~ * ' ( )
unfoldable pub is_unreserved : ℕ → Bool
is_unreserved n =
    in_range b'a' b'z' n
    || in_range b'A' b'Z' n
    || in_range b'0' b'9' n
    || in_range b'\'' b'*' n
    || in_range b'-' b'.' n
    || eqb n b'!'
    || eqb n b'_'
    || eqb n b'~'

unfoldable pub digit_at : String → ℕ → Char
digit_at [] n = "0"
digit_at (c ∷ s) zero = c
digit_at (c ∷ s) (suc n) = digit_at s n

abbrev hex_digit : ℕ → Char
hex_digit = digit_at "0123456789ABCDEF"

-- One byte as `%XY`, in front of what follows.
unfoldable pub percent : ℕ → String → String
unfolding digit_at
percent b rest = "%" ∷ hex_digit (b / 16) ∷ hex_digit (b % 16) ∷ rest

-- The UTF-8 bytes of a code point, each as `%XY`.
unfoldable pub escape_utf8 : ℕ → String → String
escape_utf8 n rest =
    if ltb n 128
    then percent n rest
    else if ltb n 2048
    then percent (192 + n / 64) (percent (128 + n % 64) rest)
    else if ltb n 65536
    then percent (224 + n / 4096) (percent (128 + n / 64 % 64) (percent (128 + n % 64) rest))
    else percent (240 + n / 262144)
        (percent (128 + n / 4096 % 64) (percent (128 + n / 64 % 64) (percent (128 + n % 64) rest)))

unfoldable pub encode_uri_component : String → String
unfolding is_unreserved
encode_uri_component [] = []
encode_uri_component (c ∷ s) =
    let rest = encode_uri_component s in
    if is_unreserved (code c) then c ∷ rest else escape_utf8 (code c) rest

-- A character that neither ends a path segment nor begins a query or a fragment.
abbrev pub Inside : ℕ → Type 0
Inside n = (n ≢ b'/') × (n ≢ b'?') × (n ≢ b'#')

abbrev pub IsSegment : String → Type 0
IsSegment [] = Unit
IsSegment (c ∷ s) = Inside (code c) × IsSegment s

encode_sample : encode_uri_component "a/b é?" ≡ "a%2Fb%20%C3%A9%3F"
unfolding encode_uri_component escape_utf8 percent
encode_sample = refl

-- Two texts that the test tells apart are not equal.
pub ne_of_test : (s t : String) → (s == t) ≡ false → s ≢ t
ne_of_test s t h e = ground (arith, eq_iff s t)
