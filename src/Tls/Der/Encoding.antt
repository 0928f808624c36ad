-- ===== src/Tls/Der/Encoding.antt =====
-- Reading back what is encoded in DER (socket/TlsVerify.cpp, ReadTlv, ReadGeneralNames and
-- ReadSanExtension).
use lua_xenetwork.Prelude.{
  ℕ, zero, suc, ◌+◌, ◌-◌, ◌*◌, ◌/◌, ◌%◌, ◌≤◌, ◌<◌, if◌then◌else◌, ◌==◌, ◌||◌, Bool-cases, inl, inr,
  List, [], ◌∷◌, ◌++◌, some, Bytes, length, get_elem?, get_elem?-drop, drop, drop-drop, drop-length,
  length-append, append_assoc, All, ok, or_throw, ◌≡◌, refl, ap, ◌∙◌, arith,
}
use lua_xenetwork.Tls.Der.{
  out_of_bounds, byte_at, read_length, place, read_long, read_tlv, Names, move, walk, step_over,
  add_name, slice, ip_text, take_entry, read_entry,
}

-- The forms of a length of up to 65535 bytes.
pub data LengthBytes (n : ℕ) : Bytes → Type 0 where
  short : n < 128 → LengthBytes n (n ∷ [])
  one_byte : n < 256 → LengthBytes n (0x81 ∷ n ∷ [])
  two_bytes : n < 65536 → LengthBytes n (0x82 ∷ (n / 256) ∷ (n % 256) ∷ [])

pub byte_behind :
    (der s : Bytes) (from i k b : ℕ)
    → drop from der ≡ s
    → k ≡ from + i
    → get_elem? s i ≡ some b
    → byte_at der k ≡ ok b
byte_behind der s from i k b e q h =
    ap (λ o. or_throw o out_of_bounds)
      (get_elem?-drop der from i k q ∙ ap (λ t. get_elem? t i) e ∙ h)

place_fits :
    (from available offset size : ℕ)
    → offset + 1 + size ≤ available
    → place from available offset size ≡ some (record { content = from + offset + 1; size = size })
unfolding place
place_fits from available offset size h = ground arith

-- A TLV in any of these forms is read back: the content starts behind the header and has the
-- stated length.
pub read_tlv-encode :
    (der : Bytes) (from available tag : ℕ) (v len post : Bytes)
    → drop from der ≡ tag ∷ (len ++ (v ++ post))
    → LengthBytes (length v) len
    → 1 + length len + length v ≤ available
    → read_tlv der from available
      ≡ ok (some (record { content = from + length len + 1; size = length v }))
unfolding read_tlv read_long read_length
read_tlv-encode der from available tag v len post e (short h) room =
    let first = byte_behind der _ from 1 (from + 1) (length v) e refl refl in
    let placed = place_fits from available 1 (length v) (omega arith) in
    ground (arith, first, placed)
read_tlv-encode der from available tag v len post e (one_byte h) room =
    let first = byte_behind der _ from 1 (from + 1) 0x81 e refl refl in
    let second = byte_behind der _ from 2 (from + 2) (length v) e refl refl in
    let placed = place_fits from available 2 (length v) (omega arith) in
    ground (arith, first, second, placed)
read_tlv-encode der from available tag v len post e (two_bytes h) room =
    let first = byte_behind der _ from 1 (from + 1) 0x82 e refl refl in
    let high = byte_behind der _ from 2 (from + 2) (length v / 256) e refl refl in
    let low = byte_behind der _ from 3 (from + 2 + 1) (length v % 256) e (omega arith) refl in
    let whole : (0 * 256 + length v / 256) * 256 + length v % 256 ≡ length v = omega arith in
    let placed = place_fits from available 3 (length v) (omega arith) in
    ground (arith, first, high, low, whole, placed)

-- What follows a TLV's header, and what follows the TLV.
pub drop_header :
    (der : Bytes) (from tag : ℕ) (len rest : Bytes)
    → drop from der ≡ tag ∷ (len ++ rest)
    → drop (from + length len + 1) der ≡ rest
drop_header der from tag len rest e =
    drop-drop der from (length (tag ∷ len)) (from + length len + 1) (omega arith)
    ∙ ap (drop (length (tag ∷ len))) e
    ∙ drop-length (tag ∷ len) rest

-- An entry of a GeneralNames sequence.
pub record Entry : Type 0 where
  pub tag : ℕ
  pub len : Bytes
  pub value : Bytes

abbrev pub IsEntry : Entry → Type 0
IsEntry e = LengthBytes (length e.value) e.len

abbrev pub encode_entries : List Entry → Bytes
encode_entries [] = []
encode_entries (e ∷ es) = e.tag ∷ (e.len ++ (e.value ++ encode_entries es))

module _ (ntop : Bytes → Bytes) where
  -- What an entry with this content says: a dNSName's characters, the text of an iPAddress of four
  -- or sixteen bytes (an empty one of any other), or nothing.
  abbrev pub named : ℕ → Bytes → Names → Names
  named tag value names =
      if tag == 0x82
      then record names { dns_names = names.dns_names ++ value ∷ [] }
      else if tag == 0x87
      then record names {
        ip_names =
            names.ip_names
            ++ (if length value == 4 || length value == 16 then ntop value else []) ∷ [];
      }
      else names

  slice-encode :
      (der : Bytes) (from : ℕ) (value rest : Bytes)
      → drop from der ≡ value ++ rest
      → slice der from (length value) ≡ ok value
  unfolding slice
  slice-encode der from [] rest q = refl
  slice-encode der from (b ∷ value) rest q =
      let first : byte_at der from ≡ ok b = byte_behind der _ from 0 from b q (omega arith) refl in
      let behind : drop (from + 1) der ≡ value ++ rest =
        drop-drop der from 1 (from + 1) refl ∙ ap (drop 1) q in
      rw (first, slice-encode der (from + 1) value rest behind) refl

  ip_text-encode :
      (der : Bytes) (from : ℕ) (value rest : Bytes)
      → drop from der ≡ value ++ rest
      → ip_text ntop der (record { content = from; size = length value })
        ≡ ok (if length value == 4 || length value == 16 then ntop value else [])
  unfolding ip_text
  ip_text-encode der from value rest q =
      elim (Bool-cases (length value == 4 || length value == 16)) [
        | inl y ↦ rw (y, slice-encode der from value rest q) refl
        | inr n ↦ rw n refl
      ]

  add_name-encode :
      (der : Bytes) (from tag : ℕ) (value rest : Bytes) (names : Names)
      → drop from der ≡ value ++ rest
      → add_name ntop tag der (record { content = from; size = length value }) names
        ≡ ok (named tag value names)
  unfolding add_name
  add_name-encode der from tag value rest names q = elim (Bool-cases (tag == 0x82)) [
    | inl y ↦ rw (y, slice-encode der from value rest q) refl
    | inr n ↦ elim (Bool-cases (tag == 0x87)) [
      | inl y ↦ rw n (rw y (rw (ip_text-encode der from value rest q) refl))
      | inr m ↦ rw n (rw m refl)
    ]
  ]

  -- The names that the entries hold, in order.
  abbrev pub names_of : List Entry → Names → Names
  names_of [] names = names
  names_of (e ∷ es) names = names_of es (named e.tag e.value names)

  read_entry-encode :
      (der : Bytes) (from left : ℕ) (names : Names) (e : Entry) (rest : Bytes)
      → drop from der ≡ e.tag ∷ (e.len ++ (e.value ++ rest))
      → IsEntry e
      → 1 + length e.len + length e.value ≤ left
      → read_entry ntop der from left names
        ≡ ok (
            move
              (from + length e.len + 1 + length e.value)
              (left - (1 + length e.len + length e.value))
              (named e.tag e.value names))
  unfolding read_entry take_entry step_over
  read_entry-encode der from left names e rest q v room =
      let whole = read_tlv-encode der from left e.tag e.value e.len rest q v room in
      let tag : byte_at der from ≡ ok e.tag =
        byte_behind der _ from 0 from e.tag q (omega arith) refl in
      let behind = drop_header der from e.tag e.len (e.value ++ rest) q in
      let content = add_name-encode der (from + length e.len + 1) e.tag e.value rest names behind in
      let consumed : from + length e.len + 1 + length e.value - from
          ≡ 1 + length e.len + length e.value =
        omega arith in
      rw (whole, take_entry) (rw (tag, content, consumed) (ground arith))

  pub drop_value :
      (der : Bytes) (from : ℕ) (e : Entry) (rest : Bytes)
      → drop from der ≡ e.tag ∷ (e.len ++ (e.value ++ rest))
      → drop (from + length e.len + 1 + length e.value) der ≡ rest
  drop_value der from e rest q =
      drop-drop der (from + length e.len + 1) (length e.value) _ refl
      ∙ ap (drop (length e.value)) (drop_header der from e.tag e.len (e.value ++ rest) q)
      ∙ drop-length e.value rest

  pub walk_entries :
      (der : Bytes) (es : List Entry) (fuel from left : ℕ) (names : Names) (post : Bytes)
      → drop from der ≡ encode_entries es ++ post
      → left ≡ length (encode_entries es)
      → left ≤ fuel
      → All IsEntry es
      → walk (read_entry ntop der) fuel from left names ≡ ok (names_of es names)
  unfolding walk
  walk_entries der [] fuel from zero names post q l h v = refl
  walk_entries der [] fuel from (suc n) names post q l h v = absurd (omega arith)
  walk_entries der (e ∷ es) fuel from zero names post q l h v = absurd (omega arith)
  walk_entries der (e ∷ es) zero from (suc n) names post q l h v = absurd (omega arith)
  walk_entries der (e ∷ es) (suc fuel) from (suc n) names post q l h v =
      let regroup : drop from der ≡ e.tag ∷ (e.len ++ (e.value ++ (encode_entries es ++ post))) =
        q
        ∙ ap (◌∷◌ e.tag)
            (append_assoc e.len _ post ∙ ap (◌++◌ e.len) (append_assoc e.value _ post)) in
      let size : length (encode_entries (e ∷ es))
          ≡ 1 + length e.len + length e.value + length (encode_entries es) =
        omega (
          arith,
          length-append e.len (e.value ++ encode_entries es),
          length-append e.value (encode_entries es),
        ) in
      rw
        (
          read_entry-encode der from (suc n) names e (encode_entries es ++ post) regroup v.0
              (omega arith),
          walk,
        )
        (walk_entries der es fuel _ _ _ post (drop_value der from e _ regroup) (omega arith)
          (omega arith) v.1)
