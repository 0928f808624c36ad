-- ===== src/Tls/Der/Bounds.antt =====
-- One element of a DER encoding is read inside its region (socket/TlsVerify.cpp, ReadTlv and IsOid).
use lua_xenetwork.Prelude.{
  ℕ, zero, suc, ◌+◌, ◌*◌, ◌/◌, ◌%◌, ◌≤◌, ◌<◌, Bool, true, false, ◌||◌, [], ◌∷◌, Option, none, some,
  Bytes, length, get_elem?-lt, ltb, ltb→le, ◌==◌, if◌then◌else◌, Result, ok, err, ◌>>=◌, ◌≡◌, refl,
  arith,
}
use lua_xenetwork.Tls.Der.{Fault, Tlv, byte_at, read_length, place, read_long, read_tlv, is_oid}

-- The reading ends without a fault, with a result of which `P` holds.
abbrev pub Safe : {A : Type 0} → (A → Type 0) → Result Fault A → Type 0
Safe P (ok a) = P a
Safe P (err e) = ⊥

abbrev pub Any : {A : Type 0} → A → Type 0
Any a = Unit {0}

pub bind-Safe :
    {A B : Type 0} (P : A → Type 0) (Q : B → Type 0) (m : Result Fault A) (f : A → Result Fault B)
    → Safe P m
    → ((a : A) → P a → Safe Q (f a))
    → Safe Q (m >>= f)
bind-Safe P Q (ok a) f s h = h a s
bind-Safe P Q (err e) f s h = s

pub if-Safe :
    {A : Type 0} (P : A → Type 0) (b : Bool) (m n : Result Fault A)
    → (b ≡ true → Safe P m)
    → (b ≡ false → Safe P n)
    → Safe P (if b then m else n)
if-Safe P true m n h k = h refl
if-Safe P false m n h k = k refl

pub byte_at-Safe : (der : Bytes) (i : ℕ) → i < length der → Safe Any (byte_at der i)
byte_at-Safe der i h = let (a, e) = get_elem?-lt der i h in rw e tt

-- A TLV read at `from` lies behind its header and within what was available.
abbrev pub Fits : ℕ → ℕ → Option Tlv → Type 0
Fits from available none = Unit {0}
Fits from available (some t) = (from + 2 ≤ t.content) × (t.content + t.size ≤ from + available)

place-Fits :
    (from available offset size : ℕ)
    → 1 ≤ offset
    → Fits from available (place from available offset size)
unfolding place
place-Fits from available offset size h = ground arith

read_length-Safe :
    (der : Bytes) (from count value : ℕ)
    → from + count ≤ length der
    → Safe Any (read_length der from count value)
unfolding read_length
read_length-Safe der from zero value h = tt
read_length-Safe der from (suc count) value h =
    bind-Safe Any Any (byte_at der from) _ (byte_at-Safe der from (omega arith))
      λ b _. read_length-Safe der (from + 1) count (value * 256 + b) (omega arith)

read_long-Safe :
    (der : Bytes) (from available count : ℕ)
    → from + available ≤ length der
    → Safe (Fits from available) (read_long der from available count)
unfolding read_long
read_long-Safe der from available count h =
    if-Safe (Fits from available) (count == 0 || ltb 4 count || ltb available (1 + count + 1)) _ _
      (λ _. tt)
      (λ e.
        bind-Safe Any (Fits from available) (read_length der (from + 2) count 0) _
          (read_length-Safe der (from + 2) count 0 (ground arith))
          λ size _. place-Fits from available (1 + count) size (omega arith))

-- `ReadTlv` on a region inside the certificate reads nothing outside of it, and the content that
-- it reports lies behind the two bytes of a header and within the region.
pub read_tlv-Safe :
    (der : Bytes) (from available : ℕ)
    → from + available ≤ length der
    → Safe (Fits from available) (read_tlv der from available)
unfolding read_tlv
read_tlv-Safe der from available h =
    if-Safe (Fits from available) (ltb available 2) _ _ (λ _. tt)
      (λ e.
        let room : 2 ≤ available = ltb→le available 2 e in
        bind-Safe Any (Fits from available) (byte_at der (from + 1)) _
          (byte_at-Safe der (from + 1) (omega arith))
          λ first _.
            if-Safe (Fits from available) ((first / 128) % 2 == 0) _ _
              (λ _. place-Fits from available 1 first (omega arith))
              (λ _. read_long-Safe der from available (first % 128) h))

pub is_oid-Safe :
    (der : Bytes) (from size : ℕ) (bs : Bytes)
    → from + size ≤ length der
    → Safe Any (is_oid der from size bs)
unfolding is_oid
is_oid-Safe der from size [] h = tt
is_oid-Safe der from zero (b ∷ bs) h = tt
is_oid-Safe der from (suc size) (b ∷ bs) h =
    bind-Safe Any Any (byte_at der from) _ (byte_at-Safe der from (omega arith)) λ x _.
      if-Safe Any (x == b) _ _ (λ _. is_oid-Safe der (from + 1) size bs (omega arith)) (λ _. tt)
