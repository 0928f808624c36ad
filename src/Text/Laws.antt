-- ===== src/Text/Laws.antt =====
-- Trimming and case folding.
use lua_xenetwork.Prelude.{ℕ, [], ◌∷◌, Bytes, ◌≡◌, refl, arith, length}
use lua_xenetwork.Text.{lower, lower_ascii}

lower-lower : (c : ℕ) → lower (lower c) ≡ lower c
unfolding lower
lower-lower c = ground arith

pub lower_ascii-lower_ascii : (s : Bytes) → lower_ascii (lower_ascii s) ≡ lower_ascii s
unfolding lower_ascii
lower_ascii-lower_ascii [] = refl
lower_ascii-lower_ascii (c ∷ s) = ground (arith, lower-lower c, lower_ascii-lower_ascii s)

pub length-lower_ascii : (s : Bytes) → length (lower_ascii s) ≡ length s
unfolding lower_ascii
length-lower_ascii [] = refl
length-lower_ascii (c ∷ s) = ground (arith, length-lower_ascii s)
