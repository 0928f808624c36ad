-- ===== src/Tls/Der/Walks.antt =====
-- The walk over a certificate reads inside it and ends (socket/TlsVerify.cpp, ReadGeneralNames to
-- ReadAltNames).
use lua_xenetwork.Prelude.{
  ℕ, zero, suc, ◌+◌, ◌-◌, ◌≤◌, ◌<◌, Bool, true, false, ◌||◌, Option, none, some, Bytes, length, ltb,
  ◌==◌, if◌then◌else◌, Result, ok, err, ◌>>=◌, ◌≡◌, refl, ap, ◌∙◌, arith,
}
use lua_xenetwork.Tls.Der.{
  Fault, Tlv, byte_at, read_tlv, is_oid, san_oid, Names, Walk, leave, move, walk, step_over,
  add_name, slice, ip_text, take_entry, read_entry, take_sequence, read_general_names, take_value,
  take_first, read_san, take_oid, take_extension, read_extension, read_san_extension,
  take_extensions, take_field, read_field, take_tbs, take_outer, read_alt_names, no_names,
}
use lua_xenetwork.Tls.Der.Bounds.{
  Safe, Any, Fits, bind-Safe, if-Safe, byte_at-Safe, is_oid-Safe, read_tlv-Safe,
}

-- A round goes on with fewer bytes left, and no further than before.
abbrev Moves : {A : Type 0} → ℕ → ℕ → Walk A → Type 0
Moves cursor left (leave a) = Unit {0}
Moves cursor left (move c l a) = (c + l ≤ cursor + left) × (l < left)

walk-Safe :
    {A : Type 0} (bound : ℕ) (body : ℕ → ℕ → A → Result Fault (Walk A))
    → ((cursor left : ℕ) (a : A)
        → cursor + left ≤ bound
        → Safe (Moves cursor left) (body cursor left a))
    → (fuel cursor left : ℕ) (a : A) → left ≤ fuel
    → cursor + left ≤ bound
    → Safe Any (walk body fuel cursor left a)
unfolding walk
walk-Safe bound body round fuel cursor zero a h k = tt
walk-Safe bound body round zero cursor (suc n) a h k = absurd (omega arith)
walk-Safe {A = A} bound body round (suc fuel) cursor (suc n) a h k =
    bind-Safe (Moves cursor (suc n)) Any (body cursor (suc n) a) _ (round cursor (suc n) a k)
      (λ w m. go w m (walk-Safe bound body round fuel))
  where
    go :
        (w : Walk A)
        → Moves cursor (suc n) w
        → ((c l : ℕ) (b : A) → l ≤ fuel → c + l ≤ bound → Safe Any (walk body fuel c l b))
        → Safe Any (elim w [ leave b ↦ ok b | move c l b ↦ walk body fuel c l b ])
    go (leave b) m ih = tt
    go (move c l b) m ih = ih c l b (omega arith) (omega arith)

step_over-Moves :
    {A : Type 0} (cursor left : ℕ) (e : Tlv) (stop a : A)
    → Fits cursor left (some e)
    → Moves cursor left (step_over cursor left e stop a)
unfolding step_over
step_over-Moves cursor left e stop a f = ground arith

slice-Safe :
    (der : Bytes) (from size : ℕ) → from + size ≤ length der → Safe Any (slice der from size)
unfolding slice
slice-Safe der from zero h = tt
slice-Safe der from (suc size) h =
    bind-Safe Any Any (byte_at der from) _ (byte_at-Safe der from (omega arith)) λ b _.
      bind-Safe Any Any (slice der (from + 1) size) _ (slice-Safe der (from + 1) size (omega arith))
        (λ rest _. tt)

module _ (ntop : Bytes → Bytes) (der : Bytes) where
  ip_text-Safe : (e : Tlv) → e.content + e.size ≤ length der → Safe Any (ip_text ntop der e)
  unfolding ip_text
  ip_text-Safe e h =
      if-Safe Any (e.size == 4 || e.size == 16) _ _
        (λ _.
          bind-Safe Any Any (slice der e.content e.size) _ (slice-Safe der e.content e.size h)
            (λ _ _. tt))
        (λ _. tt)

  -- The content of a name is read inside the certificate.
  add_name-Safe :
      (tag : ℕ) (e : Tlv) (names : Names)
      → e.content + e.size ≤ length der
      → Safe Any (add_name ntop tag der e names)
  unfolding add_name
  add_name-Safe tag e names h =
      if-Safe Any (tag == 0x82) _ _
        (λ _.
          bind-Safe Any Any (slice der e.content e.size) _ (slice-Safe der e.content e.size h)
            (λ _ _. tt))
        (λ _.
          if-Safe Any (tag == 0x87) _ _
            (λ _. bind-Safe Any Any (ip_text ntop der e) _ (ip_text-Safe e h) (λ _ _. tt))
            (λ _. tt))

  take_entry-Safe :
      (cursor left : ℕ) (names : Names) (e : Option Tlv)
      → cursor + left ≤ length der
      → Fits cursor left e
      → Safe (Moves cursor left) (take_entry ntop der cursor left names e)
  unfolding take_entry
  take_entry-Safe cursor left names none h f = tt
  take_entry-Safe cursor left names (some e) h f =
      bind-Safe Any (Moves cursor left) (byte_at der cursor) _
        (byte_at-Safe der cursor (omega arith))
        λ tag _.
          bind-Safe Any (Moves cursor left) (add_name ntop tag der e names) _
            (add_name-Safe tag e names (omega arith))
            λ found _. step_over-Moves cursor left e names found f

  read_entry-Safe :
      (cursor left : ℕ) (names : Names)
      → cursor + left ≤ length der
      → Safe (Moves cursor left) (read_entry ntop der cursor left names)
  unfolding read_entry
  read_entry-Safe cursor left names h =
      bind-Safe (Fits cursor left) (Moves cursor left) (read_tlv der cursor left) _
        (read_tlv-Safe der cursor left h) λ e f. take_entry-Safe cursor left names e h f

  take_sequence-Safe :
      (from available : ℕ) (names : Names) (s : Option Tlv)
      → from + available ≤ length der
      → Fits from available s
      → Safe Any (take_sequence ntop der from names s)
  unfolding take_sequence
  take_sequence-Safe from available names none h f = tt
  take_sequence-Safe from available names (some s) h f =
      bind-Safe Any Any (byte_at der from) _ (byte_at-Safe der from (omega arith)) λ tag _.
        if-Safe Any (tag == 0x30) _ _
          (λ _.
            walk-Safe (length der) (read_entry ntop der) read_entry-Safe s.size s.content s.size
              names (omega arith) (omega arith))
          (λ _. tt)

  -- The names of a subjectAltName's value are read inside the certificate, to the end.
  pub read_general_names-Safe :
      (from available : ℕ) (names : Names)
      → from + available ≤ length der
      → Safe Any (read_general_names ntop der from available names)
  unfolding read_general_names
  read_general_names-Safe from available names h =
      bind-Safe (Fits from available) Any (read_tlv der from available) _
        (read_tlv-Safe der from available h) λ s f. take_sequence-Safe from available names s h f

  take_value-Safe :
      (start available : ℕ) (names : Names) (v : Option Tlv)
      → start + available ≤ length der
      → Fits start available v
      → Safe Any (take_value ntop der start names v)
  unfolding take_value
  take_value-Safe start available names none h f = tt
  take_value-Safe start available names (some v) h f =
      bind-Safe Any Any (byte_at der start) _ (byte_at-Safe der start (omega arith)) λ tag _.
        if-Safe Any (tag == 0x04) _ _
          (λ _.
            bind-Safe Any Any (read_general_names ntop der v.content v.size names) _
              (read_general_names-Safe v.content v.size names (omega arith)) (λ _ _. tt))
          (λ _. tt)

  read_value-Safe :
      (start end : ℕ) (names : Names)
      → start ≤ end
      → end ≤ length der
      → Safe Any (read_tlv der start (end - start) >>= λ v. take_value ntop der start names v)
  read_value-Safe start end names h k =
      bind-Safe (Fits start (end - start)) Any (read_tlv der start (end - start)) _
        (read_tlv-Safe der start (end - start) (omega arith))
        λ v f. take_value-Safe start (end - start) names v (omega arith) f

  skip_flag :
      (b : Bool) (next end : ℕ) (f : Tlv)
      → next ≤ end
      → f.content + f.size ≤ end
      → (if b then f.content + f.size else next) ≤ end
  skip_flag true next end f h k = k
  skip_flag false next end f h k = h

  -- `first.content[0]` needs a byte behind the extension when the value is empty.
  take_first-Safe :
      (next end : ℕ) (names : Names) (f : Option Tlv)
      → next ≤ end
      → end < length der
      → Fits next (end - next) f
      → Safe Any (take_first ntop der next end names f)
  unfolding take_first
  take_first-Safe next end names none h k f = tt
  take_first-Safe next end names (some x) h k f =
      bind-Safe Any Any (byte_at der x.content) _ (byte_at-Safe der x.content (omega arith)) λ b _.
        read_value-Safe (if b == 0x01 then x.content + x.size else next) end names
          (skip_flag (b == 0x01) next end x h (omega arith)) (omega arith)

  read_san-Safe :
      (next end : ℕ) (names : Names)
      → next ≤ end
      → end < length der
      → Safe Any (read_san ntop der next end names)
  unfolding read_san
  read_san-Safe next end names h k =
      bind-Safe (Fits next (end - next)) Any (read_tlv der next (end - next)) _
        (read_tlv-Safe der next (end - next) (omega arith))
        λ x f. take_first-Safe next end names x h k f

  take_oid-Safe :
      (cursor left : ℕ) (a : Bool × Names) (x : Tlv) (o : Option Tlv)
      → cursor + left < length der
      → Fits cursor left (some x)
      → Fits x.content x.size o
      → Safe (Moves cursor left) (take_oid ntop der cursor left a x o)
  unfolding take_oid
  take_oid-Safe cursor left a x none h f g = tt
  take_oid-Safe cursor left a x (some o) h f g =
      bind-Safe Any (Moves cursor left) (is_oid der o.content o.size san_oid) _
        (is_oid-Safe der o.content o.size san_oid (omega arith))
        λ hit _.
          if-Safe (Moves cursor left) hit _ _
            (λ _.
              bind-Safe Any (Moves cursor left)
                (read_san ntop der (o.content + o.size) (x.content + x.size) a.1) _
                (read_san-Safe (o.content + o.size) (x.content + x.size) a.1 (omega arith)
                  (omega arith))
                (λ _ _. tt))
            (λ _. step_over-Moves cursor left x (false, a.1) a f)

  take_extension-Safe :
      (cursor left : ℕ) (a : Bool × Names) (x : Option Tlv)
      → cursor + left < length der
      → Fits cursor left x
      → Safe (Moves cursor left) (take_extension ntop der cursor left a x)
  unfolding take_extension
  take_extension-Safe cursor left a none h f = tt
  take_extension-Safe cursor left a (some x) h f =
      if-Safe (Moves cursor left)
        (x.content + x.size - cursor == 0 || ltb left (x.content + x.size - cursor))
        (ok (leave (false, a.1))) _ (λ _. tt)
        (λ _.
          bind-Safe (Fits x.content x.size) (Moves cursor left) (read_tlv der x.content x.size) _
            (read_tlv-Safe der x.content x.size (omega arith))
            λ o g. take_oid-Safe cursor left a x o h f g)

  read_extension-Safe :
      (bound : ℕ) (cursor left : ℕ) (a : Bool × Names)
      → bound < length der
      → cursor + left ≤ bound
      → Safe (Moves cursor left) (read_extension ntop der cursor left a)
  unfolding read_extension
  read_extension-Safe bound cursor left a h k =
      bind-Safe (Fits cursor left) (Moves cursor left) (read_tlv der cursor left) _
        (read_tlv-Safe der cursor left (omega arith))
        λ x f. take_extension-Safe cursor left a x (omega arith) f

  read_san_extension-Safe :
      (from available : ℕ)
      → from + available < length der
      → Safe Any (read_san_extension ntop der from available)
  unfolding read_san_extension
  read_san_extension-Safe from available h =
      walk-Safe (from + available) (read_extension ntop der)
        (λ c l a k. read_extension-Safe (from + available) c l a h k) available from available
        (false, no_names) (omega arith) (omega arith)

  take_extensions-Safe :
      (cursor left from available : ℕ) (x : Option Tlv)
      → from + available < length der
      → Fits from available x
      → Safe (Moves cursor left) (take_extensions ntop der x)
  unfolding take_extensions
  take_extensions-Safe cursor left from available none h f = tt
  take_extensions-Safe cursor left from available (some x) h f =
      bind-Safe Any (Moves cursor left) (read_san_extension ntop der x.content x.size) _
        (read_san_extension-Safe x.content x.size (omega arith)) (λ _ _. tt)

  take_field-Safe :
      (cursor left : ℕ) (a : Bool × Names) (f : Option Tlv)
      → cursor + left < length der
      → Fits cursor left f
      → Safe (Moves cursor left) (take_field ntop der cursor left a f)
  unfolding take_field
  take_field-Safe cursor left a none h k = tt
  take_field-Safe cursor left a (some f) h k =
      if-Safe (Moves cursor left)
        (f.content + f.size - cursor == 0 || ltb left (f.content + f.size - cursor))
        (ok (leave (false, no_names))) _ (λ _. tt)
        (λ _.
          bind-Safe Any (Moves cursor left) (byte_at der cursor) _
            (byte_at-Safe der cursor (omega arith))
            λ tag _.
              if-Safe (Moves cursor left) (tag == 0xA3) _ _
                (λ _.
                  bind-Safe (Fits f.content f.size) (Moves cursor left)
                    (read_tlv der f.content f.size) _
                    (read_tlv-Safe der f.content f.size (omega arith))
                    λ x g. take_extensions-Safe cursor left f.content f.size x (omega arith) g)
                (λ _. step_over-Moves cursor left f (false, no_names) a k))

  read_field-Safe :
      (bound cursor left : ℕ) (a : Bool × Names)
      → bound < length der
      → cursor + left ≤ bound
      → Safe (Moves cursor left) (read_field ntop der cursor left a)
  unfolding read_field
  read_field-Safe bound cursor left a h k =
      bind-Safe (Fits cursor left) (Moves cursor left) (read_tlv der cursor left) _
        (read_tlv-Safe der cursor left (omega arith))
        λ f g. take_field-Safe cursor left a f (omega arith) g

  -- The TBSCertificate ends before the encoded bytes do, as it does where a signature follows.
  abbrev pub SignatureFollows : Type 0
  SignatureFollows =
      (o t : Tlv)
      → read_tlv der 0 (length der) ≡ ok (some o)
      → read_tlv der o.content o.size ≡ ok (some t)
      → t.content + t.size < length der

  take_tbs-Safe :
      (t : Option Tlv)
      → ((x : Tlv) → t ≡ some x → x.content + x.size < length der)
      → Safe Any (take_tbs ntop der t)
  unfolding take_tbs
  take_tbs-Safe none h = tt
  take_tbs-Safe (some x) h =
      walk-Safe (x.content + x.size) (read_field ntop der)
        (λ c l a k. read_field-Safe (x.content + x.size) c l a (h x refl) k) x.size x.content x.size
        (false, no_names) (omega arith) (omega arith)

  take_outer-Safe :
      (o : Option Tlv)
      → ((x : Tlv) → o ≡ some x → x.content + x.size ≤ length der)
      → ((x t : Tlv)
          → o ≡ some x
          → read_tlv der x.content x.size ≡ ok (some t)
          → t.content + t.size < length der)
      → Safe Any (take_outer ntop der o)
  unfolding take_outer
  take_outer-Safe none h k = tt
  take_outer-Safe (some x) h k =
      go (read_tlv der x.content x.size) refl (read_tlv-Safe der x.content x.size (h x refl))
    where
      go :
          (r : Result Fault (Option Tlv))
          → read_tlv der x.content x.size ≡ r
          → Safe (Fits x.content x.size) r
          → Safe Any (read_tlv der x.content x.size >>= λ t. take_tbs ntop der t)
      go (err e) q s = absurd s
      go (ok t) q s = rw q (take_tbs-Safe t (λ y e. k x y refl (q ∙ ap ok e)))

  -- The whole walk over a certificate whose TBSCertificate is followed by something ends, and
  -- reads no byte outside of the certificate, whatever its bytes are.
  pub read_alt_names-Safe : SignatureFollows → Safe Any (read_alt_names ntop der)
  unfolding read_alt_names
  read_alt_names-Safe h =
      go (read_tlv der 0 (length der)) refl (read_tlv-Safe der 0 (length der) (omega arith))
    where
      go :
          (r : Result Fault (Option Tlv))
          → read_tlv der 0 (length der) ≡ r
          → Safe (Fits 0 (length der)) r
          → Safe Any (read_tlv der 0 (length der) >>= λ o. take_outer ntop der o)
      go (err e) q s = absurd s
      go (ok none) q s = rw q (take_outer-Safe none (λ y e. absurd (cc)) (λ y t e. absurd (cc)))
      go (ok (some o)) q s =
          rw q
            (take_outer-Safe (some o) (λ y e. ground (arith, s)) (λ y t e p. h y t (q ∙ ap ok e) p))
