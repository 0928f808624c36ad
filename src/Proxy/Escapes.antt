-- ===== src/Proxy/Escapes.antt =====
-- Percent escapes in a proxy's credentials (socket/Dial.cpp, PercentDecode).
use lua_xenetwork.Prelude.{
  ℕ, ◌+◌, ◌*◌, ◌≤◌, ◌<◌, ◌&&◌, leb, true, false, [], ◌∷◌, Option, none, some, Bytes, ◌==◌, Result,
  ok, err, ◌≡◌, ◌↔◌, refl, sym, ap, ◌∙◌, subst, arith, inl, inr, Bool-cases,
}
use lua_xenetwork.Proxy.Target.{DialCode, hex_digit, decode_escape, push, percent_decode}

-- The character is the hexadecimal digit of that value: "0" to "9", "a" to "f" or "A" to "F".
pub data IsHex (c h : ℕ) : Type 0 where
  decimal : h < 10 → c ≡ b'0' + h → IsHex c h
  small : 10 ≤ h → h < 16 → c + 10 ≡ b'a' + h → IsHex c h
  capital : 10 ≤ h → h < 16 → c + 10 ≡ b'A' + h → IsHex c h

hex_digit_complete : (c h : ℕ) → IsHex c h → hex_digit c ≡ some h
unfolding hex_digit
hex_digit_complete c h (decimal p q) = ground arith
hex_digit_complete c h (small p r q) = ground arith
hex_digit_complete c h (capital p r q) = ground arith

hex_digit_sound : (c h : ℕ) → hex_digit c ≡ some h → IsHex c h
unfolding hex_digit
hex_digit_sound c h e = elim (Bool-cases (leb b'0' c && leb c b'9')) [
  | inl y ↦ decimal (ground arith) (ground arith)
  | inr n ↦ elim (Bool-cases (leb b'a' c && leb c b'f')) [
    | inl y ↦ small (ground arith) (ground arith) (ground arith)
    | inr m ↦ elim (Bool-cases (leb b'A' c && leb c b'F')) [
      | inl y ↦ capital (ground arith) (ground arith) (ground arith)
      | inr k ↦ absurd (ground arith)
    ]
  ]
]

-- The text spells the value: a byte other than "%" stands for itself, and "%" with two hexadecimal
-- digits for the byte that they write.
pub data Encodes : Bytes → Bytes → Type 0 where
  nil : Encodes [] []
  plain : {c : ℕ} {v t : Bytes} → (c == b'%') ≡ false → Encodes v t → Encodes (c ∷ v) (c ∷ t)
  escaped :
      {x p a b h l : ℕ} {v t : Bytes}
      → (p == b'%') ≡ true
      → IsHex a h
      → IsHex b l
      → x ≡ h * 16 + l
      → Encodes v t
      → Encodes (x ∷ v) (p ∷ a ∷ b ∷ t)

percent_decode-plain :
    (c : ℕ) (t : Bytes) → (c == b'%') ≡ false → percent_decode (c ∷ t) ≡ push c (percent_decode t)
unfolding percent_decode push
percent_decode-plain c [] e = rw e
percent_decode-plain c (a ∷ []) e = rw e
percent_decode-plain c (a ∷ b ∷ s) e = rw e

percent_decode_complete : {v t : Bytes} → Encodes v t → percent_decode t ≡ ok v
unfolding push decode_escape
percent_decode_complete nil = unfold percent_decode in refl
percent_decode_complete (plain {c} {v} {t} e s) =
    percent_decode-plain c t e ∙ ap (push c) (percent_decode_complete s)
percent_decode_complete (escaped {x} {p} {a} {b} {h} {l} {v} {t} e high low q s) =
    let first : percent_decode (p ∷ a ∷ b ∷ t)
        ≡ decode_escape (hex_digit a) (hex_digit b) (percent_decode t) =
      unfold percent_decode in rw e in
    first
    ∙ rw (hex_digit_complete a h high, hex_digit_complete b l low, percent_decode_complete s)
        (ap (λ y. ok (y ∷ v)) (sym q))

push-eq-ok :
    (c : ℕ) (r : Result DialCode Bytes) {v : Bytes}
    → push c r ≡ ok v
    → (w : Bytes) × (r ≡ ok w) × (v ≡ c ∷ w)
unfolding push
push-eq-ok c (ok w) e = (w, refl, ground arith)
push-eq-ok c (err x) e = absurd (cc)

decode_escape-eq-ok :
    (a b : Option ℕ) (r : Result DialCode Bytes) {v : Bytes}
    → decode_escape a b r ≡ ok v
    → (h : ℕ) × (l : ℕ) × (w : Bytes) × (a ≡ some h)
      × (b ≡ some l)
      × (r ≡ ok w)
      × (v ≡ (h * 16 + l) ∷ w)
unfolding decode_escape
decode_escape-eq-ok (some h) (some l) (ok w) e = (h, l, w, refl, refl, refl, ground arith)
decode_escape-eq-ok (some h) (some l) (err x) e = absurd (cc)
decode_escape-eq-ok (some h) none r e = absurd (cc)
decode_escape-eq-ok none b r e = absurd (cc)

percent_decode_sound : (t v : Bytes) → percent_decode t ≡ ok v → Encodes v t
percent_decode_sound [] [] e = nil
percent_decode_sound [] (x ∷ v) e = absurd (unfold percent_decode in ground arith)
percent_decode_sound (c ∷ []) v e = elim (Bool-cases (c == b'%')) [
  | inl y ↦ absurd (unfold percent_decode in ground arith)
  | inr n ↦
      let (w, q, r) = push-eq-ok c (percent_decode []) (sym (percent_decode-plain c [] n) ∙ e) in
      subst (λ u. Encodes u (c ∷ [])) (sym r) (plain n (percent_decode_sound [] w q))
]
percent_decode_sound (c ∷ a ∷ []) v e = elim (Bool-cases (c == b'%')) [
  | inl y ↦ absurd (unfold percent_decode in ground arith)
  | inr n ↦
      let (w, q, r) =
        push-eq-ok c (percent_decode (a ∷ [])) (sym (percent_decode-plain c (a ∷ []) n) ∙ e) in
      subst (λ u. Encodes u (c ∷ a ∷ [])) (sym r) (plain n (percent_decode_sound (a ∷ []) w q))
]
percent_decode_sound (c ∷ a ∷ b ∷ s) v e = elim (Bool-cases (c == b'%')) [
  | inl y ↦
      let first : decode_escape (hex_digit a) (hex_digit b) (percent_decode s) ≡ ok v =
        (unfold percent_decode in rw y at e) in
      let (h, l, w, high, low, q, r) =
        decode_escape-eq-ok (hex_digit a) (hex_digit b) (percent_decode s) first in
      subst (λ u. Encodes u (c ∷ a ∷ b ∷ s)) (sym r)
        (escaped y (hex_digit_sound a h high) (hex_digit_sound b l low) refl
          (percent_decode_sound s w q))
  | inr n ↦
      let (w, q, r) =
        push-eq-ok c (percent_decode (a ∷ b ∷ s))
          (sym (percent_decode-plain c (a ∷ b ∷ s) n) ∙ e) in
      subst (λ u. Encodes u (c ∷ a ∷ b ∷ s)) (sym r)
        (plain n (percent_decode_sound (a ∷ b ∷ s) w q))
]

-- Decoding succeeds with a value exactly when the text spells that value.
pub percent_decode_iff : (t v : Bytes) → (percent_decode t ≡ ok v) ↔ Encodes v t
percent_decode_iff t v = (percent_decode_sound t v, percent_decode_complete)
