-- ===== src/Tls/Client/Stream.antt =====
-- The stream that a peer writes, as records, and the state of a client in the middle of it
-- (socket/SSLClient.cpp, CSSLClient::RecvPartialEncrypted).
use lua_xenetwork.Prelude.{
  ℕ, suc, ◌+◌, ◌-◌, ◌≤◌, ◌<◌, true, false, List, [], ◌∷◌, ◌++◌, Option, none, some, Bytes, length,
  take, drop, flatten, is_empty, ltb, leb, ◌==◌, All, inl, inr, ◌⊎◌, ◌≡◌, refl, sym, ap, ◌∙◌,
  length-append, take-append, drop-append, take-length, drop-length, take-append-drop, Bool-cases,
  arith,
}
use lua_xenetwork.Proxy.Wire.{Incoming}
use lua_xenetwork.Proxy.Wire.Exact.{pending}
use lua_xenetwork.Proxy.Wire.Enough.{HoldBytes}
use lua_xenetwork.Tls.Client.{
  Package, incomplete_message, message, Client, first_status, keep_extra, make_room, read_size,
}

-- The most that a record of TLS carries.
abbrev pub record_limit : ℕ
record_limit = 16384

-- What a peer writes for a plaintext, and its context after it.
pub record Peer (S : Type 0) : Type 0 where
  pub sealed : S → Bytes → Bytes
  pub after : S → S

-- `cbBuffer` of the extra buffer, which there is only if bytes follow the message.
abbrev pub extra_of : Bytes → Option ℕ
extra_of [] = none
extra_of (b ∷ rest) = some (suc (length rest))

-- A record that is not empty and not too long.
abbrev pub IsCarried : Bytes → Type 0
IsCarried p = (is_empty p ≡ false) × (length p ≤ record_limit)

module _ {S : Type 0} where
  abbrev pub sealed_all : Peer S → S → List Bytes → Bytes
  sealed_all peer s [] = []
  sealed_all peer s (p ∷ ps) = peer.sealed s p ++ sealed_all peer (peer.after s) ps

  -- The documented behaviour of DecryptMessage on a stream of such records: a part of a record is an
  -- incomplete message, a whole one gives its data and the number of bytes behind it. A record fits
  -- the read buffer.
  pub record Opens (sspi : Package S) (peer : Peer S) : Type 0 where
    pub part :
        (s : S) (p : Bytes) (n : ℕ)
        → length p ≤ record_limit
        → n < length (peer.sealed s p)
        → sspi.decrypt_message s (take n (peer.sealed s p)) ≡ incomplete_message
    pub whole :
        (s : S) (p rest : Bytes)
        → length p ≤ record_limit
        → sspi.decrypt_message s (peer.sealed s p ++ rest)
          ≡ message (some p) (extra_of rest) (peer.after s)
    pub fits : (s : S) (p : Bytes) → length p ≤ record_limit → length (peer.sealed s p) ≤ read_size
    pub is_some : (s : S) (p : Bytes) → 0 < length (peer.sealed s p)

  -- A client that still has `text` to hand out: what it stored, and records of which a part is in the
  -- read buffer and the rest arrives.
  pub record Holds (peer : Peer S) (text : Bytes) (c : Client S) (i : Incoming) : Type 0 where
    pub records : List Bytes
    pub carried : All IsCarried records
    pub encrypting : c.encrypting ≡ true
    pub room : c.before + length c.cipher ≤ read_size
    pub hold : HoldBytes i
    pub stream : c.cipher ++ pending i ≡ sealed_all peer c.context records
    pub text_eq : text ≡ c.plain ++ flatten records

  -- The same where nothing is stored and the record `b ∷ p` is in front.
  pub record Faces (peer : Peer S) (b : ℕ) (p : Bytes) (ps : List Bytes) (c : Client S)
      (i : Incoming) : Type 0 where
    pub fits : length (b ∷ p) ≤ record_limit
    pub encrypting : c.encrypting ≡ true
    pub clear : c.plain ≡ []
    pub room : c.before + length c.cipher ≤ read_size
    pub stream :
        c.cipher ++ pending i
        ≡ peer.sealed c.context (b ∷ p) ++ sealed_all peer (peer.after c.context) ps
    pub hold : HoldBytes i
    pub carried : All IsCarried ps

-- Two ways to cut a text: the first cut is behind the second, or in front of it.
pub cuts_compared :
    (a b c d : Bytes)
    → a ++ b ≡ c ++ d
    → ((rest : Bytes) × (a ≡ c ++ rest) × (rest ++ b ≡ d))
      ⊎ ((length a < length c) × (a ≡ take (length a) c))
cuts_compared a b c d e = elim (Bool-cases (leb (length c) (length a))) [
  | inl q ↦
      let fits : length c ≤ length a = ground arith in
      let front : take (length c) a ≡ c =
        sym (take-append (length c) a b fits) ∙ ap (take (length c)) e ∙ take-length c d in
      inl (
        drop (length c) a,
        sym (take-append-drop (length c) a) ∙ ap (λ x. x ++ drop (length c) a) front,
        sym (drop-append (length c) a b fits) ∙ ap (drop (length c)) e ∙ drop-length c d,
      )
  | inr q ↦
      let short : length a < length c = ground arith in
      inr (
        short,
        sym (take-length a b) ∙ ap (take (length a)) e ∙ take-append (length a) c d (omega arith),
      )
]

module _ {S : Type 0} (sspi : Package S) (peer : Peer S) (opens : Opens sspi peer) where
  pub first_status-part :
      (c : Client S) (p : Bytes)
      → length p ≤ record_limit
      → length c.cipher < length (peer.sealed c.context p)
      → c.cipher ≡ take (length c.cipher) (peer.sealed c.context p)
      → first_status sspi c ≡ incomplete_message
  unfolding first_status
  first_status-part c p h short e = elim (Bool-cases (is_empty c.cipher)) [
    | inl q ↦ rw q refl
    | inr q ↦
        rw q
          (ap (sspi.decrypt_message c.context) e ∙ opens.part c.context p (length c.cipher) h short)
  ]

  pub first_status-whole :
      (c : Client S) (p rest : Bytes)
      → length p ≤ record_limit
      → c.cipher ≡ peer.sealed c.context p ++ rest
      → first_status sspi c ≡ message (some p) (extra_of rest) (peer.after c.context)
  unfolding first_status
  first_status-whole c p rest h e = elim (Bool-cases (is_empty c.cipher)) [
    | inl q ↦ absurd (
        empty_impossible c.cipher q (
          omega (
            arith,
            ap {B = ℕ} length e,
            length-append (peer.sealed c.context p) rest,
            opens.is_some c.context p,
          )))
    | inr q ↦ rw q (ap (sspi.decrypt_message c.context) e ∙ opens.whole c.context p rest h)
  ]
    where
      empty_impossible : (x : Bytes) → is_empty x ≡ true → 0 < length x → ⊥
      empty_impossible [] e h = omega arith
      empty_impossible (b ∷ x) e h = absurd (cc)

module _ {S : Type 0} where
  -- The bytes behind a message are kept.
  pub keep_extra-Holds :
      (peer : Peer S) (front rest : Bytes) (ps : List Bytes) (c : Client S) (i : Incoming)
      → c.encrypting ≡ true
      → c.before + length c.cipher ≤ read_size
      → c.cipher ≡ front ++ rest
      → rest ++ pending i ≡ sealed_all peer c.context ps
      → HoldBytes i
      → All IsCarried ps
      → Holds peer (c.plain ++ flatten ps) (keep_extra (extra_of rest) c) i
  unfolding keep_extra
  keep_extra-Holds peer front [] ps c i on fits e k h v = record {
    records = ps;
    carried = v;
    encrypting = on;
    room = omega arith;
    hold = h;
    stream = k;
    text_eq = refl;
  }
  keep_extra-Holds peer front (b ∷ rest) ps c i on fits e k h v =
      let sizes = length-append front (b ∷ rest) in
      let total = ap {B = ℕ} length e in
      let at : length c.cipher - suc (length rest) ≡ length front = omega arith in
      let kept : drop (length c.cipher - suc (length rest)) c.cipher ≡ b ∷ rest =
        ap (λ n. drop n c.cipher) at ∙ ap (drop (length front)) e ∙ drop-length front (b ∷ rest) in
      record {
        records = ps;
        carried = v;
        encrypting = on;
        room = omega (arith, ap {B = ℕ} length kept);
        hold = h;
        stream = ap (λ x. x ++ pending i) kept ∙ k;
        text_eq = refl;
      }

  -- The room that a round of the loop finds, which is not empty unless a message of the size of the
  -- whole buffer is not a full one.
  pub record Spare (c : Client S) : Type 0 where
    pub free : ℕ
    pub before : ℕ
    pub made : make_room c ≡ some (suc free, record c { before = before })
    pub bound : before + length c.cipher + suc free ≤ read_size

  pub make_room-Spare :
      (c : Client S)
      → c.before + length c.cipher ≤ read_size
      → length c.cipher < read_size
      → Spare c
  unfolding make_room
  make_room-Spare c fits short = elim (Bool-cases (read_size - length c.cipher - c.before == 0)) [
    | inl q ↦
        let full : (read_size - length c.cipher - c.before) ≡ 0 = ground arith in
        let some_before : ltb 0 c.before ≡ true = ground arith in
        record {
          free = c.before - 1;
          before = 0;
          made =
              (let same : suc (c.before - 1) ≡ c.before = omega arith in
                rw q (rw some_before (rw same refl)));
          bound = omega arith;
        }
    | inr q ↦
        let open_end : (0 < read_size - length c.cipher - c.before) = ground arith in
        record {
          free = read_size - length c.cipher - c.before - 1;
          before = c.before;
          made =
              (let same : suc (read_size - length c.cipher - c.before - 1)
                    ≡ read_size - length c.cipher - c.before =
                  omega arith in
                rw q (rw same refl));
          bound = omega arith;
        }
  ]
