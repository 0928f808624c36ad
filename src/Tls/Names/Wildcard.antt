-- ===== src/Tls/Names/Wildcard.antt =====
-- A wildcard covers exactly one label (socket/TlsVerify.cpp, MatchesWildcard).
use lua_xenetwork.Prelude.{
  ℕ, ◌+◌, ◌-◌, ◌%◌, ◌≤◌, ◌<◌, leb, Bool, Bool-cases, inl, inr, true, false, ◌&&◌, [], ◌∷◌, ◌++◌,
  Bytes, length, take, drop, is_empty, contains, ltb, lt→ltb, ◌==◌, take-append-drop, length-append,
  take-length, drop-length, ◌≡◌, ◌↔◌, refl, sym, ap, ◌∙◌, arith,
}
use lua_xenetwork.Text.{lower}
use lua_xenetwork.Tls.Names.{narrow, ascii_equals_insensitive, covers, matches_wildcard}

-- The characters of two units are the same letter or the same other character: the code looks at the
-- low byte of a unit only.
pub data SameLetter (x y : ℕ) : Type 0 where
  same_byte : x % 256 ≡ y % 256 → SameLetter x y
  capital_small : 65 ≤ x % 256 → x % 256 ≤ 90 → y % 256 ≡ x % 256 + 32 → SameLetter x y
  small_capital : 65 ≤ y % 256 → y % 256 ≤ 90 → x % 256 ≡ y % 256 + 32 → SameLetter x y

-- The texts have the same letters, unit by unit.
pub data SameLetters : Bytes → Bytes → Type 0 where
  nil : SameLetters [] []
  cons :
      {x y : ℕ} {xs ys : Bytes} → SameLetter x y → SameLetters xs ys → SameLetters (x ∷ xs) (y ∷ ys)

narrow_complete : (x y : ℕ) → SameLetter x y → (narrow x == narrow y) ≡ true
unfolding lower
narrow_complete x y (same_byte e) = ground arith
narrow_complete x y (capital_small a b e) = ground arith
narrow_complete x y (small_capital a b e) = ground arith

narrow_sound : (x y : ℕ) → (narrow x == narrow y) ≡ true → SameLetter x y
unfolding lower
narrow_sound x y e = elim (Bool-cases (leb 65 (x % 256) && leb (x % 256) 90)) [
  | inl p ↦ elim (Bool-cases (leb 65 (y % 256) && leb (y % 256) 90)) [
    | inl q ↦ same_byte (ground arith)
    | inr q ↦ capital_small (ground arith) (ground arith) (ground arith)
  ]
  | inr p ↦ elim (Bool-cases (leb 65 (y % 256) && leb (y % 256) 90)) [
    | inl q ↦ small_capital (ground arith) (ground arith) (ground arith)
    | inr q ↦ same_byte (ground arith)
  ]
]

ascii_equals_complete : {x y : Bytes} → SameLetters x y → ascii_equals_insensitive x y ≡ true
unfolding ascii_equals_insensitive
ascii_equals_complete nil = refl
ascii_equals_complete (cons {x} {y} e s) = rw (narrow_complete x y e) (ascii_equals_complete s)

ascii_equals_sound : (x y : Bytes) → ascii_equals_insensitive x y ≡ true → SameLetters x y
unfolding ascii_equals_insensitive
ascii_equals_sound [] [] e = nil
ascii_equals_sound [] (y ∷ ys) e = absurd (cc)
ascii_equals_sound (x ∷ xs) [] e = absurd (cc)
ascii_equals_sound (x ∷ xs) (y ∷ ys) e =
    let first : (narrow x == narrow y) ≡ true =
      both (narrow x == narrow y) (ascii_equals_insensitive xs ys) e in
    let rest : ascii_equals_insensitive xs ys ≡ true =
      other (narrow x == narrow y) (ascii_equals_insensitive xs ys) e in
    cons (narrow_sound x y first) (ascii_equals_sound xs ys rest)
  where
    both : (a b : Bool) → (a && b) ≡ true → a ≡ true
    both true b e = refl
    both false b e = e

    other : (a b : Bool) → (a && b) ≡ true → b ≡ true
    other true b e = e
    other false b e = absurd (cc)

pub length-ascii_equals : (x y : Bytes) → ascii_equals_insensitive x y ≡ true → length x ≡ length y
unfolding ascii_equals_insensitive
length-ascii_equals [] [] e = refl
length-ascii_equals [] (y ∷ ys) e = absurd (cc)
length-ascii_equals (x ∷ xs) [] e = absurd (cc)
length-ascii_equals (x ∷ xs) (y ∷ ys) e = ground (arith, length-ascii_equals xs ys)

-- The host is one label and a domain, and the pattern is "*" and the letters of that domain.
pub record Covers (host suffix : Bytes) : Type 0 where
  pub label : Bytes
  pub domain : Bytes
  pub splits : host ≡ label ++ domain
  pub same : SameLetters domain suffix
  pub label_ne : is_empty label ≡ false
  pub one_label : contains b'.' label ≡ false
  pub no_star : contains b'*' label ≡ false
  pub dotted : contains b'.' host ≡ true

covers_sound : (host suffix : Bytes) → covers host suffix ≡ true → Covers host suffix
unfolding covers
covers_sound host suffix e = record {
  label = take (length host - length suffix) host;
  domain = drop (length host - length suffix) host;
  splits = sym (take-append-drop (length host - length suffix) host);
  same = ascii_equals_sound (drop (length host - length suffix) host) suffix (ground arith);
  label_ne = ground arith;
  one_label = ground arith;
  no_star = ground arith;
  dotted = ground arith;
}

is_empty-pos : (s : Bytes) → is_empty s ≡ false → 0 < length s
is_empty-pos [] e = absurd (cc)
is_empty-pos (c ∷ s) e = omega arith

covers_complete : (host suffix : Bytes) → Covers host suffix → covers host suffix ≡ true
unfolding covers
covers_complete host suffix c =
    let total : length host ≡ length c.label + length c.domain =
      ap {B = ℕ} length c.splits ∙ length-append c.label c.domain in
    let at_label : length host - length suffix ≡ length c.label =
      omega (arith, length-ascii_equals c.domain suffix (ascii_equals_complete c.same)) in
    let front : take (length host - length suffix) host ≡ c.label =
      ap (λ n. take n host) at_label
      ∙ ap (take (length c.label)) c.splits
      ∙ take-length c.label c.domain in
    let back : drop (length host - length suffix) host ≡ c.domain =
      ap (λ n. drop n host) at_label
      ∙ ap (drop (length c.label)) c.splits
      ∙ drop-length c.label c.domain in
    let longer : ltb (length suffix) (length host) ≡ true = lt→ltb _ _ (
      omega (
        arith,
        length-ascii_equals c.domain suffix (ascii_equals_complete c.same),
        is_empty-pos c.label c.label_ne,
      )) in
    rw (
      front,
      back,
      longer,
      c.dotted,
      ascii_equals_complete c.same,
      c.label_ne,
      c.no_star,
      c.one_label,
    )

-- A wildcard matches a host exactly when the pattern is "*." and a suffix that is not empty, and
-- the host is one label, not empty and with no "*", in front of that domain: the low bytes of the
-- units of the domain are those of the pattern's, but for the case of ASCII letters.
pub matches_wildcard_iff :
    (host suffix : Bytes)
    → (matches_wildcard host (b'*' ∷ b'.' ∷ suffix) ≡ true)
      ↔ ((is_empty suffix ≡ false) × Covers host (b'.' ∷ suffix))
unfolding matches_wildcard
matches_wildcard_iff host [] = (λ e. absurd (cc), λ p. absurd (cc p.0))
matches_wildcard_iff host (c ∷ s) =
    (λ e. (refl, covers_sound host (b'.' ∷ c ∷ s) e), λ p. covers_complete host (b'.' ∷ c ∷ s) p.1)

-- A pattern that does not begin with "*." covers no host.
pub matches_wildcard-no_star :
    (host : Bytes) (x y : ℕ) (rest : Bytes)
    → (x == b'*' && y == b'.') ≡ false
    → matches_wildcard host (x ∷ y ∷ rest) ≡ false
unfolding matches_wildcard
matches_wildcard-no_star host x y [] e = refl
matches_wildcard-no_star host x y (c ∷ s) e = ground arith
