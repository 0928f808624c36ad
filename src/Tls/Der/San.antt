-- ===== src/Tls/Der/San.antt =====
-- The subjectAltName extension, encoded with and without its `critical` flag
-- (socket/TlsVerify.cpp, ReadGeneralNames and ReadSanExtension).
use lua_xenetwork.Prelude.{
  ℕ, suc, ◌+◌, ◌-◌, ◌≤◌, Bool, true, false, ◌||◌, List, [], ◌∷◌, ◌++◌, Bytes, length, drop,
  drop-drop, length-append, append_assoc, All, ltb, ◌==◌, ok, ◌>>=◌, ◌≡◌, refl, ap, ◌∙◌, arith,
}
use lua_xenetwork.Tls.Der.{
  byte_at, is_oid, san_oid, Names, leave, walk, take_sequence, read_general_names, take_value,
  take_first, read_san, take_oid, take_extension, read_extension, read_san_extension, no_names,
}
use lua_xenetwork.Tls.Der.Encoding.{
  LengthBytes, short, read_tlv-encode, byte_behind, drop_header, Entry, IsEntry, encode_entries,
  names_of, walk_entries,
}

-- What stands in the extension behind its OID: the flag, if any, and the value.
abbrev pub san_value : Bytes → Bytes → Bytes → Bytes
san_value flag vlen value = flag ++ (0x04 ∷ (vlen ++ value))

abbrev pub san_body : Bytes → Bytes → Bytes → Bytes
san_body flag vlen value = 0x06 ∷ 0x03 ∷ 0x55 ∷ 0x1D ∷ 0x11 ∷ san_value flag vlen value

-- At `from`, with `left` bytes to read, stands a subjectAltName extension.
pub record SanAt (der : Bytes) (from left : ℕ) (len flag vlen value rest : Bytes) : Type 0 where
  pub stands : drop from der ≡ 0x30 ∷ (len ++ (san_body flag vlen value ++ rest))
  pub len_form : LengthBytes (length (san_body flag vlen value)) len
  pub value_form : LengthBytes (length value) vlen
  pub room : 1 + length len + length (san_body flag vlen value) ≤ left

-- The flag of an extension that is critical: the BOOLEAN TRUE.
abbrev pub critical : Bytes
critical = 0x01 ∷ 0x01 ∷ 0xFF ∷ []

module _ (ntop : Bytes → Bytes) (der : Bytes) where
  -- A GeneralNames sequence is read back: the names of its entries, in order.
  pub read_general_names-encode :
      (from available : ℕ) (names : Names) (len : Bytes) (es : List Entry) (post : Bytes)
      → drop from der ≡ 0x30 ∷ (len ++ (encode_entries es ++ post))
      → LengthBytes (length (encode_entries es)) len
      → 1 + length len + length (encode_entries es) ≤ available
      → All IsEntry es
      → read_general_names ntop der from available names ≡ ok (names_of ntop es names)
  unfolding read_general_names take_sequence
  read_general_names-encode from available names len es post q l room v =
      let whole = read_tlv-encode der from available 0x30 (encode_entries es) len post q l room in
      let tag : byte_at der from ≡ ok 0x30 =
        byte_behind der _ from 0 from 0x30 q (omega arith) refl in
      rw (whole, take_sequence)
        (rw tag (
          walk_entries ntop der es _ _ _ names post
            (drop_header der from 0x30 len (encode_entries es ++ post) q) refl (omega arith) v))

  module _ (from left : ℕ) (a : Bool × Names) (len flag vlen value rest : Bytes) where
    abbrev next : ℕ
    next = from + length len + 1 + 1 + 1 + 3

    is_oid-san :
        (c : ℕ) (s : Bytes) → drop c der ≡ 0x55 ∷ 0x1D ∷ 0x11 ∷ s → is_oid der c 3 san_oid ≡ ok true
    unfolding is_oid
    is_oid-san c s q =
        let b0 : byte_at der c ≡ ok 0x55 = byte_behind der _ c 0 c 0x55 q (omega arith) refl in
        let b1 : byte_at der (c + 1) ≡ ok 0x1D = byte_behind der _ c 1 (c + 1) 0x1D q refl refl in
        let b2 : byte_at der (c + 1 + 1) ≡ ok 0x11 =
          byte_behind der _ c 2 (c + 1 + 1) 0x11 q (omega arith) refl in
        ground (arith, b0, b1, b2)

    read_extension-san :
        drop from der ≡ 0x30 ∷ (len ++ (san_body flag vlen value ++ rest))
        → LengthBytes (length (san_body flag vlen value)) len
        → 1 + length len + length (san_body flag vlen value) ≤ left
        → read_extension ntop der from left a ≡ (
            read_san ntop der next (from + length len + 1 + length (san_body flag vlen value)) a.1
            >>= λ r. ok (leave r))
    unfolding read_extension take_extension take_oid
    read_extension-san q l room =
        let c = from + length len + 1 in
        let whole =
          read_tlv-encode der from left 0x30 (san_body flag vlen value) len rest q l room in
        let inside : drop c der ≡ san_body flag vlen value ++ rest =
          drop_header der from 0x30 len (san_body flag vlen value ++ rest) q in
        let oid =
          read_tlv-encode der c (length (san_body flag vlen value)) 0x06 (0x55 ∷ 0x1D ∷ 0x11 ∷ [])
            (3 ∷ []) (san_value flag vlen value ++ rest) inside (short (omega arith))
            (omega arith) in
        let hit =
          is_oid-san (c + 1 + 1) (san_value flag vlen value ++ rest)
            (drop_header der c 0x06 (3 ∷ []) _ inside) in
        let fits : ((c + length (san_body flag vlen value) - from == 0)
              || ltb left (c + length (san_body flag vlen value) - from))
            ≡ false =
          ground arith in
        rw (whole, take_extension) (rw (fits, oid, take_oid) (rw hit))

    -- Where the value of the extension starts.
    next-drop :
        drop from der ≡ 0x30 ∷ (len ++ (san_body flag vlen value ++ rest))
        → drop next der ≡ san_value flag vlen value ++ rest
    next-drop q =
        let inside : drop (from + length len + 1) der ≡ san_body flag vlen value ++ rest =
          drop_header der from 0x30 len (san_body flag vlen value ++ rest) q in
        drop-drop der (from + length len + 1) 5 next (omega arith) ∙ ap (drop 5) inside

  read_san-found :
      (from left : ℕ) (names : Names) (len vlen glen rest : Bytes) (es : List Entry)
      → SanAt der from left len [] vlen (0x30 ∷ (glen ++ encode_entries es)) rest
      → LengthBytes (length (encode_entries es)) glen
      → All IsEntry es
      → (n end : ℕ) → n ≡ from + length len + 1 + 1 + 1 + 3
      → end ≡ from + length len + 1 + length (san_body [] vlen (0x30 ∷ (glen ++ encode_entries es)))
      → drop n der ≡ san_value [] vlen (0x30 ∷ (glen ++ encode_entries es)) ++ rest
      → read_san ntop der n end names ≡ ok (true, names_of ntop es names)
  unfolding read_san take_first take_value
  read_san-found from left names len vlen glen rest es s g v n end en ee q =
      let value = 0x30 ∷ (glen ++ encode_entries es) in
      let regroup : drop n der ≡ 0x04 ∷ (vlen ++ (value ++ rest)) =
        q ∙ ap (◌∷◌ 0x04) (append_assoc vlen value rest) in
      let sized = length-append vlen value in
      let whole =
        read_tlv-encode der n (end - n) 0x04 value vlen rest regroup s.value_form (omega arith) in
      let inside : drop (n + length vlen + 1) der ≡ value ++ rest =
        drop_header der n 0x04 vlen (value ++ rest) regroup in
      let mark : byte_at der (n + length vlen + 1) ≡ ok 0x30 =
        byte_behind der _ (n + length vlen + 1) 0 (n + length vlen + 1) 0x30 inside (omega arith)
          refl in
      let tag : byte_at der n ≡ ok 0x04 = byte_behind der _ n 0 n 0x04 regroup (omega arith) refl in
      let found =
        read_general_names-encode (n + length vlen + 1) (length value) names glen es rest
          (inside ∙ ap (◌∷◌ 0x30) (append_assoc glen (encode_entries es) rest)) g
          (omega (arith, length-append glen (encode_entries es))) v in
      rw (whole, take_first) (rw mark (rw (whole, take_value) (rw (tag, found))))

  -- A subjectAltName extension in front of the others, encoded as DER encodes one that is not
  -- critical, is found, and its names are read in order.
  pub read_san_extension-found :
      (from left : ℕ) (len vlen glen rest : Bytes) (es : List Entry)
      → SanAt der from (suc left) len [] vlen (0x30 ∷ (glen ++ encode_entries es)) rest
      → LengthBytes (length (encode_entries es)) glen
      → All IsEntry es
      → read_san_extension ntop der from (suc left) ≡ ok (true, names_of ntop es no_names)
  unfolding read_san_extension walk
  read_san_extension-found from left len vlen glen rest es s g v =
      let value = 0x30 ∷ (glen ++ encode_entries es) in
      rw
        (
          read_extension-san from (suc left) (false, no_names) len [] vlen value rest s.stands
              s.len_form s.room,
          walk,
        )
        (rw (
          read_san-found from (suc left) no_names len vlen glen rest es s g v _ _ refl refl
            (next-drop from (suc left) (false, no_names) len [] vlen value rest s.stands)))

  read_san-missed :
      (from left : ℕ) (names : Names) (len vlen value rest : Bytes)
      → SanAt der from left len critical vlen value rest
      → (n end : ℕ) → n ≡ from + length len + 1 + 1 + 1 + 3
      → end ≡ from + length len + 1 + length (san_body critical vlen value)
      → drop n der ≡ san_value critical vlen value ++ rest
      → read_san ntop der n end names ≡ ok (false, names)
  unfolding read_san take_first take_value
  read_san-missed from left names len vlen value rest s n end en ee q =
      let flag =
        read_tlv-encode der n (end - n) 0x01 (0xFF ∷ []) (1 ∷ []) ((0x04 ∷ (vlen ++ value)) ++ rest)
          q (short (omega arith)) (omega arith) in
      let inside : drop (n + 1 + 1) der ≡ 0xFF ∷ ((0x04 ∷ (vlen ++ value)) ++ rest) =
        drop_header der n 0x01 (1 ∷ []) _ q in
      let mark : byte_at der (n + 1 + 1) ≡ ok 0xFF =
        byte_behind der _ (n + 1 + 1) 0 (n + 1 + 1) 0xFF inside (omega arith) refl in
      let tag : byte_at der n ≡ ok 0x01 = byte_behind der _ n 0 n 0x01 q (omega arith) refl in
      rw (flag, take_first) (rw mark (rw (flag, take_value) (rw tag)))

  -- The same extension with the flag that marks it critical, `01 01 FF`, is not found, whatever
  -- names it holds: the flag is recognised by its value and not by its tag.
  pub read_san_extension-critical :
      (from left : ℕ) (len vlen value rest : Bytes)
      → SanAt der from (suc left) len critical vlen value rest
      → read_san_extension ntop der from (suc left) ≡ ok (false, no_names)
  unfolding read_san_extension walk
  read_san_extension-critical from left len vlen value rest s =
      rw
        (
          read_extension-san from (suc left) (false, no_names) len critical vlen value rest s.stands
              s.len_form s.room,
          walk,
        )
        (rw (
          read_san-missed from (suc left) no_names len vlen value rest s _ _ refl refl
            (next-drop from (suc left) (false, no_names) len critical vlen value rest s.stands)))
