-- ===== src/Text.antt =====
-- The text helpers of main.cpp and socket/Dial.cpp (LowerAscii, TrimAscii), and the number
-- conversions of the C++ standard library that the module calls (`std::stoull`, `std::stoi`,
-- `strtoull`, `operator>>` into an int).
pub mod Numbers
pub mod Laws
use lua_xenetwork.Prelude.{
  ℕ, ◌+◌, Bool, true, false, ◌&&◌, ◌||◌, List, [], ◌∷◌, map, Bytes, leb, ◌==◌, if◌then◌else◌,
  is_empty,
}

-- `std::tolower` in the C locale.
unfoldable pub lower : ℕ → ℕ
lower c = if leb b'A' c && leb c b'Z' then c + 32 else c

unfoldable pub lower_ascii : Bytes → Bytes
unfolding lower
lower_ascii text = map lower text

-- The bytes of " \t\r\n".
abbrev pub is_blank : ℕ → Bool
is_blank c = c == b' ' || c == b'\t' || c == b'\r' || c == b'\n'

unfoldable pub trim_start : Bytes → Bytes
trim_start [] = []
trim_start (c ∷ s) = if is_blank c then trim_start s else c ∷ s

unfoldable pub trim_end : Bytes → Bytes
trim_end [] = []
trim_end (c ∷ s) = let rest = trim_end s in if is_blank c && is_empty rest then [] else c ∷ rest

unfoldable pub trim_ascii : Bytes → Bytes
unfolding trim_start trim_end
trim_ascii value = trim_end (trim_start value)
