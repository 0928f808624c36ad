-- ===== src/Text/Numbers.antt =====
-- The number conversions of the standard library, as ISO C describes `strtoull` and `strtol`:
-- white space, an optional sign, an optional 0x in base 16, then digits up to the first byte that
-- is none. `std::stoull` and `std::stoi` throw where there is no digit or the value does not fit.
use lua_xenetwork.Prelude.{
  ℕ, ◌+◌, ◌-◌, ◌*◌, ◌%◌, ◌^◌, Bool, true, false, ◌&&◌, ◌||◌, [], ◌∷◌, Option, none, some, Bytes,
  ltb, leb, ◌==◌, if◌then◌else◌, Result, ok, err, drop,
}

pub data NumberError : Type 0 where
  invalid_argument out_of_range : NumberError

unfoldable pub digit : ℕ → ℕ → Option ℕ
digit base c =
    let value =
      (if leb b'0' c && leb c b'9'
        then c - b'0'
        else if leb b'a' c && leb c b'z'
        then c - b'a' + 10
        else if leb b'A' c && leb c b'Z'
        then c - b'A' + 10
        else base) in
    if ltb value base then some value else none

abbrev pub is_space : ℕ → Bool
is_space c = c == 32 || (leb 9 c && leb c 13)

-- The value of the leading digits, and how many there are.
unfoldable pub read_digits : ℕ → ℕ → ℕ → Bytes → ℕ × ℕ
read_digits base value count [] = (value, count)
read_digits base value count (c ∷ s) = elim (digit base c) [
  | some d ↦ read_digits base (value * base + d) (count + 1) s
  | none ↦ (value, count)
]

unfoldable pub skip_spaces : Bytes → ℕ → Bytes × ℕ
skip_spaces [] used = ([], used)
skip_spaces (c ∷ s) used = if is_space c then skip_spaces s (used + 1) else (c ∷ s, used)

abbrev take_sign : Bytes → Bool × Bytes × ℕ
take_sign [] = (false, [], 0)
take_sign (c ∷ s) =
    if c == b'-' then (true, s, 1) else if c == b'+' then (false, s, 1) else (false, c ∷ s, 0)

-- Does `0x` stand here with a hexadecimal digit behind it?
unfoldable pub has_prefix : ℕ → Bytes → Bool
unfolding digit
has_prefix base (z ∷ x ∷ d ∷ s) =
    base == 16
    && z == b'0'
    && (x == b'x' || x == b'X')
    && (elim (digit 16 d) [ some v ↦ true | none ↦ false ])
has_prefix base _ = false

pub record Scan : Type 0 where
  pub negative : Bool
  pub value : ℕ
  pub digits : ℕ
  pub used : ℕ

unfoldable pub scan : ℕ → Bytes → Scan
unfolding digit read_digits skip_spaces has_prefix
scan base text =
    let (rest, spaces) = skip_spaces text 0 in
    let (negative, unsigned, signs) = take_sign rest in
    let prefix = (if has_prefix base unsigned then 2 else 0) in
    let (value, digits) = read_digits base 0 0 (drop prefix unsigned) in
    record {
      negative = negative;
      value = value;
      digits = digits;
      used = spaces + signs + prefix + digits;
    }

-- `std::stoull(text, &used, base)`: the value and `used`. A minus sign negates modulo 2^64.
unfoldable pub stoull : ℕ → Bytes → Result NumberError (ℕ × ℕ)
unfolding scan
stoull base text =
    let s = scan base text in
    if s.digits == 0
    then err invalid_argument
    else if leb (2 ^ 64) s.value
    then err out_of_range
    else ok (if s.negative then (2 ^ 64 - s.value) % 2 ^ 64 else s.value, s.used)

-- An `int`, by sign and magnitude.
pub record Int32 : Type 0 where
  pub negative : Bool
  pub magnitude : ℕ

abbrev fits_int : Scan → Bool
fits_int s = if s.negative then leb s.value (2 ^ 31) else ltb s.value (2 ^ 31)

-- `std::stoi(text)`: whatever follows the digits is ignored.
unfoldable pub stoi : Bytes → Result NumberError Int32
unfolding scan
stoi text =
    let s = scan 10 text in
    if s.digits == 0
    then err invalid_argument
    else if fits_int s
    then ok (record { negative = s.negative; magnitude = s.value })
    else err out_of_range
