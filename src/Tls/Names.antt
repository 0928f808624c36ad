-- ===== src/Tls/Names.antt =====
-- Matching a host name against a certificate's names (socket/TlsVerify.cpp, LowerAscii,
-- AsciiEqualsInsensitive and MatchesWildcard). A wide string is the list of its code units.
pub mod Wildcard
use lua_xenetwork.Prelude.{
  ℕ, ◌+◌, ◌-◌, ◌%◌, Bool, true, false, not, ◌&&◌, ◌||◌, List, [], ◌∷◌, Bytes, length, take, drop,
  is_empty, contains, ltb, leb, ◌==◌, if◌then◌else◌,
}
use lua_xenetwork.Text.{lower}

-- `LowerAscii(static_cast<char>(unit))`: the cast keeps the low byte.
abbrev pub narrow : ℕ → ℕ
narrow unit = lower (unit % 256)

unfoldable pub ascii_equals_insensitive : Bytes → Bytes → Bool
ascii_equals_insensitive [] [] = true
ascii_equals_insensitive (x ∷ xs) (y ∷ ys) = narrow x == narrow y && ascii_equals_insensitive xs ys
ascii_equals_insensitive _ _ = false

-- The tests behind the pattern's "*", on `suffix`, which starts with its dot.
unfoldable pub covers : Bytes → Bytes → Bool
covers host suffix =
    let cut_at = length host - length suffix in
    let label = take cut_at host in
    ltb (length suffix) (length host)
    && contains b'.' host
    && ascii_equals_insensitive (drop cut_at host) suffix
    && not (is_empty label || contains b'*' label)
    && not (contains b'.' label)

unfoldable pub matches_wildcard : Bytes → Bytes → Bool
matches_wildcard host (star ∷ dot ∷ unit ∷ rest) =
    star == b'*' && dot == b'.' && covers host (dot ∷ unit ∷ rest)
matches_wildcard host _ = false
