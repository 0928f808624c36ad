-- ===== src/Server/Decimals.antt =====
-- A length that `std::to_string` prints is read back as a Content-Length (main.cpp, RequestBuilder and
-- ListenerContext::lua_Request).
use lua_xenetwork.Prelude.{
  ℕ, zero, suc, ◌+◌, ◌*◌, ◌/◌, ◌%◌, ◌≤◌, ◌<◌, true, false, ◌||◌, [], ◌∷◌, some, Bytes, ltb, leb,
  ◌==◌, ok, inl, inr, ◌≡◌, refl, sym, ap, ◌∙◌, Bool-cases, arith, ltb→lt, ltb→le,
}
use lua_xenetwork.Text.Numbers.{digit, is_space, read_digits, has_prefix, scan, skip_spaces}
use lua_xenetwork.Server.{read_content_length, judge_length, skip_blanks, max_body_bytes}
use lua_xenetwork.Server.Searches.{Without}
use lua_xenetwork.Server.Builders.{decimal, to_string}

digit-decimal : (d : ℕ) → d < 10 → digit 10 (d + 48) ≡ some d
unfolding digit
digit-decimal d h = ground arith

read_digits-step :
    (value count d : ℕ) (s : Bytes)
    → d < 10
    → read_digits 10 value count ((d + 48) ∷ s) ≡ read_digits 10 (value * 10 + d) (count + 1) s
unfolding read_digits
read_digits-step value count d s h = rw (read_digits, digit-decimal d h) refl

decimal-small : (fuel n : ℕ) (s : Bytes) → ltb n 10 ≡ true → decimal (suc fuel) n s ≡ (n + 48) ∷ s
unfolding decimal
decimal-small fuel n s q = rw q refl

decimal-large :
    (fuel n : ℕ) (s : Bytes)
    → ltb n 10 ≡ false
    → decimal (suc fuel) n s ≡ decimal fuel (n / 10) ((n % 10 + 48) ∷ s)
unfolding decimal
decimal-large fuel n s q = rw q refl

-- The printed digits are read first.
read_digits-decimal :
    (fuel n : ℕ) (s : Bytes)
    → n < fuel
    → (count : ℕ) × (0 < count) × (read_digits 10 0 0 (decimal fuel n s) ≡ read_digits 10 n count s)
read_digits-decimal zero n s h = absurd (omega arith)
read_digits-decimal (suc fuel) n s h = elim (Bool-cases (ltb n 10)) [
  | inl q ↦ (
    1,
    omega arith,
    ap (read_digits 10 0 0) (decimal-small fuel n s q)
        ∙ read_digits-step 0 0 n s (ltb→lt n 10 q)
        ∙ ap (λ v. read_digits 10 v 1 s) (omega arith),
  )
  | inr q ↦
      let (count, positive, e) =
        read_digits-decimal fuel (n / 10) ((n % 10 + 48) ∷ s) (omega (arith, ltb→le n 10 q)) in
      (
        count + 1,
        omega arith,
        ap (read_digits 10 0 0) (decimal-large fuel n s q)
            ∙ e
            ∙ read_digits-step (n / 10) count (n % 10) s (omega arith)
            ∙ ap (λ v. read_digits 10 v (count + 1) s) (omega arith),
      )
]

-- The first byte of a printed number is a digit.
decimal-first :
    (fuel n : ℕ) (s : Bytes)
    → n < fuel
    → (d : ℕ) × (rest : Bytes) × (d < 10) × (decimal fuel n s ≡ (d + 48) ∷ rest)
decimal-first zero n s h = absurd (omega arith)
decimal-first (suc fuel) n s h = elim (Bool-cases (ltb n 10)) [
  | inl q ↦ (n, s, ltb→lt n 10 q, decimal-small fuel n s q)
  | inr q ↦
      let (d, rest, small, e) =
        decimal-first fuel (n / 10) ((n % 10 + 48) ∷ s) (omega (arith, ltb→le n 10 q)) in
      (d, rest, small, decimal-large fuel n s q ∙ e)
]

decimal-Without : (fuel n : ℕ) (s : Bytes) → Without b'\r' s → Without b'\r' (decimal fuel n s)
unfolding decimal
decimal-Without zero n s h = h
decimal-Without (suc fuel) n s h = elim (Bool-cases (ltb n 10)) [
  | inl q ↦ rw q (digit_differs n, h)
  | inr q ↦ rw q (decimal-Without fuel (n / 10) ((n % 10 + 48) ∷ s) (digit_differs (n % 10), h))
]
  where
    digit_differs : (d : ℕ) → (b'\r' == d + 48) ≡ false
    digit_differs d = ground arith

has_prefix-ten : (s : Bytes) → has_prefix 10 s ≡ false
unfolding has_prefix
has_prefix-ten [] = refl
has_prefix-ten (x ∷ []) = refl
has_prefix-ten (x ∷ y ∷ []) = refl
has_prefix-ten (x ∷ y ∷ z ∷ s) = refl

skip_spaces-none : (c : ℕ) (s : Bytes) → is_space c ≡ false → skip_spaces (c ∷ s) 0 ≡ (c ∷ s, 0)
unfolding skip_spaces
skip_spaces-none c s h = rw h refl

-- A number that begins with a digit has no sign in front.
scan-digits :
    (c : ℕ) (s : Bytes)
    → is_space c ≡ false
    → (c == b'-') ≡ false
    → (c == b'+') ≡ false
    → (v : ℕ) (n : ℕ) → read_digits 10 0 0 (c ∷ s) ≡ (v, n)
    → scan 10 (c ∷ s) ≡ record { negative = false; value = v; digits = n; used = n }
unfolding scan
scan-digits c s h1 h2 h3 v n e =
    rw (scan, skip_spaces-none c s h1)
      (rw h2 (
        rw h3 (
          rw (has_prefix-ten (c ∷ s)) (
            rw e (
              ap (λ u. record { negative = false; value = v; digits = n; used = u })
                (omega arith))))))

skip_blanks-none :
    (c : ℕ) (s : Bytes) → (c == b' ' || c == b'\t') ≡ false → skip_blanks (b' ' ∷ c ∷ s) ≡ c ∷ s
unfolding skip_blanks
skip_blanks-none c s h = rw h refl

judge_length-ok :
    (n count : ℕ)
    → 0 < count
    → n ≤ max_body_bytes
    → judge_length (record { negative = false; value = n; digits = count; used = count }) ≡ ok n
unfolding judge_length
judge_length-ok n count positive h =
    let some_digits : (count == 0) ≡ false = ground arith in
    let no_overflow : leb 18446744073709551616 n ≡ false = ground arith in
    let within : ltb 67108864 n ≡ false = ground arith in
    rw some_digits (rw no_overflow (rw within refl))

read_content_length-digits :
    (c : ℕ) (s : Bytes) (n count : ℕ)
    → is_space c ≡ false
    → (c == b'-') ≡ false
    → (c == b'+') ≡ false
    → (c == b' ' || c == b'\t') ≡ false
    → read_digits 10 0 0 (c ∷ s) ≡ (n, count)
    → 0 < count
    → n ≤ max_body_bytes
    → read_content_length (b' ' ∷ c ∷ s) ≡ ok n
unfolding read_content_length
read_content_length-digits c s n count h1 h2 h3 h4 e positive h =
    ap (λ x. judge_length (scan 10 x)) (skip_blanks-none c s h4)
    ∙ ap judge_length (scan-digits c s h1 h2 h3 n count e)
    ∙ judge_length-ok n count positive h

digit_facts :
    (d : ℕ)
    → d < 10
    → (is_space (d + 48) ≡ false)
      × (((d + 48) == b'-') ≡ false)
      × (((d + 48) == b'+') ≡ false)
      × (((d + 48) == b' ' || (d + 48) == b'\t') ≡ false)
digit_facts d h = (ground arith, ground arith, ground arith, ground arith)

read_digits-to_string :
    (n : ℕ) → (count : ℕ) × (0 < count) × (read_digits 10 0 0 (to_string n) ≡ (n, count))
unfolding to_string read_digits
read_digits-to_string n = read_digits-decimal (suc n) n [] (omega arith)

to_string-first : (n : ℕ) → (d : ℕ) × (rest : Bytes) × (d < 10) × (to_string n ≡ (d + 48) ∷ rest)
unfolding to_string
to_string-first n = decimal-first (suc n) n [] (omega arith)

-- No carriage return is printed.
pub to_string-Without : (n : ℕ) → Without b'\r' (to_string n)
unfolding to_string
to_string-Without n = decimal-Without (suc n) n [] tt

pub read_content_length-to_string :
    (n : ℕ) → n ≤ max_body_bytes → read_content_length (b' ' ∷ to_string n) ≡ ok n
read_content_length-to_string n h =
    let (count, positive, e) = read_digits-to_string n in
    let (d, rest, small, first) = to_string-first n in
    let (h1, h2, h3, h4) = digit_facts d small in
    ap (λ x. read_content_length (b' ' ∷ x)) first
    ∙ read_content_length-digits (d + 48) rest n count h1 h2 h3 h4
        (ap (read_digits 10 0 0) (sym first) ∙ e) positive h
