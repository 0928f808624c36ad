-- ===== src/Tls/Der.antt =====
-- Reading the subject alternative names out of a certificate's DER (socket/TlsVerify.cpp, ReadTlv
-- to ReadAltNames). A pointer is an offset into the encoded bytes, and a read outside of them is a
-- fault. The trace text is not modelled. `inet_ntop` is the parameter `ntop`.
pub mod Bounds
pub mod Walks
pub mod Encoding
pub mod San
use lua_xenetwork.Prelude.{
  ℕ, zero, suc, ◌+◌, ◌-◌, ◌*◌, ◌/◌, ◌%◌, Bool, true, false, not, ◌&&◌, ◌||◌, List, [], ◌∷◌, ◌++◌,
  Option, none, some, Bytes, length, get_elem?, take, drop, ltb, leb, ◌==◌, if◌then◌else◌, Result,
  ok, err, ◌>>=◌, or_throw,
}

pub data Fault : Type 0 where
  out_of_bounds out_of_fuel : Fault

-- `struct Tlv`, where `ok` is the `some` of an option.
pub record Tlv : Type 0 where
  pub content : ℕ
  pub size : ℕ

abbrev pub byte_at : Bytes → ℕ → Result Fault ℕ
byte_at der i = or_throw (get_elem? der i) out_of_bounds

-- The long form's bytes, most significant first; four at most, so a `size_t` holds the value.
unfoldable pub read_length : Bytes → ℕ → ℕ → ℕ → Result Fault ℕ
read_length der from zero value = ok value
read_length der from (suc count) value = do
  b ← byte_at der from
  read_length der (from + 1) count (value * 256 + b)

-- The content starts `offset + 1` bytes behind the tag; it has to fit.
unfoldable pub place : ℕ → ℕ → ℕ → ℕ → Option Tlv
place from available offset size =
    if ltb available (offset + 1 + size)
    then none
    else some (record { content = from + offset + 1; size = size })

unfoldable pub read_long : Bytes → ℕ → ℕ → ℕ → Result Fault (Option Tlv)
read_long der from available count =
    if count == 0 || ltb 4 count || ltb available (1 + count + 1)
    then ok none
    else read_length der (from + 2) count 0 >>= λ size. ok (place from available (1 + count) size)

-- `first & 0x80` asks for the long form, and `first & 0x7F` counts its bytes.
unfoldable pub read_tlv : Bytes → ℕ → ℕ → Result Fault (Option Tlv)
read_tlv der from available =
    if ltb available 2
    then ok none
    else byte_at der (from + 1) >>= λ first.
        if (first / 128) % 2 == 0
        then ok (place from available 1 first)
        else read_long der from available (first % 128)

-- Does the content start with these bytes?
unfoldable pub is_oid : Bytes → ℕ → ℕ → Bytes → Result Fault Bool
is_oid der from size [] = ok true
is_oid der from zero (b ∷ bs) = ok false
is_oid der from (suc size) (b ∷ bs) = do
  x ← byte_at der from
  if x == b then is_oid der (from + 1) size bs else ok false

-- 2.5.29.17
abbrev pub san_oid : Bytes
san_oid = 0x55 ∷ 0x1D ∷ 0x11 ∷ []

pub record Names : Type 0 where
  pub dns_names : List Bytes
  pub ip_names : List Bytes

abbrev pub no_names : Names
no_names = record { dns_names = []; ip_names = [] }

-- The bytes of a content, read one after the other.
unfoldable pub slice : Bytes → ℕ → ℕ → Result Fault Bytes
slice der from zero = ok []
slice der from (suc size) = do b ← byte_at der from; rest ← slice der (from + 1) size; ok (b ∷ rest)

-- What a round of one of the three loops does: leave it, or go on at a cursor with bytes left.
pub data Walk (A : Type 0) : Type 0 where
  leave : A → Walk A
  move : ℕ → ℕ → A → Walk A

-- `while (left > 0) { … cursor = content + size; left -= consumed; }`. A round that goes on has
-- consumed a byte, so `left` is fuel enough.
unfoldable pub walk :
    {A : Type 0} → (ℕ → ℕ → A → Result Fault (Walk A)) → ℕ → ℕ → ℕ → A → Result Fault A
walk body fuel cursor zero a = ok a
walk body zero cursor (suc n) a = err out_of_fuel
walk body (suc fuel) cursor (suc n) a = body cursor (suc n) a >>= λ w. elim w [
  | leave b ↦ ok b
  | move cursor' left b ↦ walk body fuel cursor' left b
]

-- Behind an entry, unless it has no size or is longer than what is left.
unfoldable pub step_over : {A : Type 0} → ℕ → ℕ → Tlv → A → A → Walk A
step_over cursor left e stop a =
    let consumed = e.content + e.size - cursor in
    if consumed == 0 || ltb left consumed
    then leave stop
    else move (e.content + e.size) (left - consumed) a

module _ (ntop : Bytes → Bytes) where
  -- `IpText`: 4 or 16 bytes as text, anything else as an empty one.
  unfoldable pub ip_text : Bytes → Tlv → Result Fault Bytes
  unfolding slice
  ip_text der e =
      if e.size == 4 || e.size == 16
      then (slice der e.content e.size >>= λ raw. ok (ntop raw))
      else ok []

  -- What one entry adds: a dNSName, an iPAddress, or nothing.
  unfoldable pub add_name : ℕ → Bytes → Tlv → Names → Result Fault Names
  unfolding slice ip_text
  add_name tag der e names =
      if tag == 0x82
      then (slice der e.content e.size >>= λ name.
          ok (record names { dns_names = names.dns_names ++ name ∷ [] }))
      else if tag == 0x87
      then (ip_text der e >>= λ text. ok (record names { ip_names = names.ip_names ++ text ∷ [] }))
      else ok names

  unfoldable pub take_entry : Bytes → ℕ → ℕ → Names → Option Tlv → Result Fault (Walk Names)
  take_entry der cursor left names none = ok (leave names)
  take_entry der cursor left names (some e) = byte_at der cursor >>= λ tag.
      add_name tag der e names >>= λ found. ok (step_over cursor left e names found)

  unfoldable pub read_entry : Bytes → ℕ → ℕ → Names → Result Fault (Walk Names)
  read_entry der cursor left names =
      read_tlv der cursor left >>= λ e. take_entry der cursor left names e

  unfoldable pub take_sequence : Bytes → ℕ → Names → Option Tlv → Result Fault Names
  take_sequence der from names none = ok names
  take_sequence der from names (some s) = byte_at der from >>= λ tag.
      if tag == 0x30 then walk (read_entry der) s.size s.content s.size names else ok names

  unfoldable pub read_general_names : Bytes → ℕ → ℕ → Names → Result Fault Names
  read_general_names der from available names =
      read_tlv der from available >>= λ s. take_sequence der from names s

  -- Of the subjectAltName extension, `value` starting at `start`.
  unfoldable pub take_value : Bytes → ℕ → Names → Option Tlv → Result Fault (Bool × Names)
  take_value der start names none = ok (false, names)
  take_value der start names (some v) = byte_at der start >>= λ tag.
      if tag == 0x04
      then read_general_names der v.content v.size names >>= (λ found. ok (true, found))
      else ok (false, names)

  -- `first` stands behind the OID at `next`; it is skipped if it is the BOOLEAN.
  unfoldable pub take_first : Bytes → ℕ → ℕ → Names → Option Tlv → Result Fault (Bool × Names)
  take_first der next end names none = ok (false, names)
  take_first der next end names (some f) = byte_at der f.content >>= λ b.
      let start = (if b == 0x01 then f.content + f.size else next) in
      read_tlv der start (end - start) >>= λ v. take_value der start names v

  -- The subjectAltName extension, from behind its OID up to its end.
  unfoldable pub read_san : Bytes → ℕ → ℕ → Names → Result Fault (Bool × Names)
  read_san der next end names =
      read_tlv der next (end - next) >>= λ f. take_first der next end names f

  unfoldable pub take_oid :
      Bytes → ℕ → ℕ → Bool × Names → Tlv → Option Tlv → Result Fault (Walk (Bool × Names))
  take_oid der cursor left a x none = ok (leave (false, a.1))
  take_oid der cursor left a x (some o) = is_oid der o.content o.size san_oid >>= λ hit.
      if hit
      then read_san der (o.content + o.size) (x.content + x.size) a.1 >>= (λ r. ok (leave r))
      else ok (step_over cursor left x (false, a.1) a)

  unfoldable pub take_extension :
      Bytes → ℕ → ℕ → Bool × Names → Option Tlv → Result Fault (Walk (Bool × Names))
  take_extension der cursor left a none = ok (leave (false, a.1))
  take_extension der cursor left a (some x) =
      if x.content + x.size - cursor == 0 || ltb left (x.content + x.size - cursor)
      then ok (leave (false, a.1))
      else read_tlv der x.content x.size >>= (λ o. take_oid der cursor left a x o)

  unfoldable pub read_extension : Bytes → ℕ → ℕ → Bool × Names → Result Fault (Walk (Bool × Names))
  read_extension der cursor left a =
      read_tlv der cursor left >>= λ x. take_extension der cursor left a x

  unfoldable pub read_san_extension : Bytes → ℕ → ℕ → Result Fault (Bool × Names)
  read_san_extension der from available =
      walk (read_extension der) available from available (false, no_names)

  unfoldable pub take_extensions : Bytes → Option Tlv → Result Fault (Walk (Bool × Names))
  take_extensions der none = ok (leave (false, no_names))
  take_extensions der (some x) = read_san_extension der x.content x.size >>= λ r. ok (leave r)

  unfoldable pub take_field :
      Bytes → ℕ → ℕ → Bool × Names → Option Tlv → Result Fault (Walk (Bool × Names))
  take_field der cursor left a none = ok (leave (false, no_names))
  take_field der cursor left a (some f) =
      if f.content + f.size - cursor == 0 || ltb left (f.content + f.size - cursor)
      then ok (leave (false, no_names))
      else byte_at der cursor >>= λ tag.
          if tag == 0xA3
          then read_tlv der f.content f.size >>= (λ x. take_extensions der x)
          else ok (step_over cursor left f (false, no_names) a)

  -- A field of the TBSCertificate; the extensions are the one with the tag [3].
  unfoldable pub read_field : Bytes → ℕ → ℕ → Bool × Names → Result Fault (Walk (Bool × Names))
  read_field der cursor left a = read_tlv der cursor left >>= λ f. take_field der cursor left a f

  unfoldable pub take_tbs : Bytes → Option Tlv → Result Fault (Bool × Names)
  take_tbs der none = ok (false, no_names)
  take_tbs der (some t) = walk (read_field der) t.size t.content t.size (false, no_names)

  unfoldable pub take_outer : Bytes → Option Tlv → Result Fault (Bool × Names)
  take_outer der none = ok (false, no_names)
  take_outer der (some o) = read_tlv der o.content o.size >>= λ t. take_tbs der t

  -- Whether a subjectAltName was found, and the names.
  unfoldable pub read_alt_names : Bytes → Result Fault (Bool × Names)
  read_alt_names der = read_tlv der 0 (length der) >>= λ o. take_outer der o
