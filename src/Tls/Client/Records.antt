-- ===== src/Tls/Client/Records.antt =====
-- The records that CSSLClient::Send writes (socket/SSLClient.cpp).
use lua_xenetwork.Prelude.{
  ℕ, ◌+◌, ◌≤◌, true, false, List, [], ◌∷◌, ◌++◌, some, Bytes, length, flatten, is_empty, All,
  All-append, ok, ◌≡◌, refl, sym, ap, ◌∙◌, append_assoc,
}
use lua_xenetwork.Tls.Client.{Package, Client, max_extra_size}
use lua_xenetwork.Tls.Client.Stream.{Peer, sealed_all}
use lua_xenetwork.Tls.Client.Sending.{Sent, sent, int_of, max_chunk}

module _ {S : Type 0} where
  abbrev pub records_of : Peer S → S → List Bytes → List Bytes
  records_of peer s [] = []
  records_of peer s (p ∷ ps) = peer.sealed s p ∷ records_of peer (peer.after s) ps

  abbrev pub after_all : Peer S → S → List Bytes → S
  after_all peer s [] = s
  after_all peer s (p ∷ ps) = after_all peer (peer.after s) ps

  pub flatten-records_of :
      (peer : Peer S) (s : S) (ps : List Bytes)
      → flatten (records_of peer s ps) ≡ sealed_all peer s ps
  flatten-records_of peer s [] = refl
  flatten-records_of peer s (p ∷ ps) =
      ap (λ x. peer.sealed s p ++ x) (flatten-records_of peer (peer.after s) ps)

  -- What the sender relies on: EncryptMessage makes a record of any text that is not longer than the
  -- limit, header and trailer fit the write buffer's margin, and the socket's Send does not fail.
  pub record Seals (sspi : Package S) (peer : Peer S) : Type 0 where
    pub seal :
        (s : S) (p : Bytes)
        → length p ≤ max_chunk sspi
        → sspi.encrypt_message s p ≡ ok (peer.sealed s p, peer.after s)
    pub margin : sspi.header + sspi.trailer ≤ max_extra_size
    pub reports :
        (before : List Bytes) (data_sent : Bytes)
        → (n : ℕ) × (sspi.socket_send before data_sent ≡ some n)

  -- A part of a text that one record carries.
  abbrev pub IsPiece : Package S → Bytes → Type 0
  IsPiece sspi p = (is_empty p ≡ false) × (length p ≤ max_chunk sspi)

  -- A text was sent: its pieces are together the text, the socket was given their records, in order,
  -- and the count that is returned is `n`.
  pub record Sends (sspi : Package S) (peer : Peer S) (text : Bytes) (n : ℕ) (c : Client S)
      (r : Sent × Client S) : Type 0 where
    pub pieces : List Bytes
    pub join : flatten pieces ≡ text
    pub sizes : All (IsPiece sspi) pieces
    pub count : r.0 ≡ sent (int_of n)
    pub written_eq : r.1.written ≡ c.written ++ records_of peer c.context pieces
    pub context_eq : r.1.context ≡ after_all peer c.context pieces
    pub encrypting : r.1.encrypting ≡ true

flatten-append : (xs ys : List Bytes) → flatten (xs ++ ys) ≡ flatten xs ++ flatten ys
flatten-append [] ys = refl
flatten-append (x ∷ xs) ys =
    ap (λ z. x ++ z) (flatten-append xs ys) ∙ sym (append_assoc x (flatten xs) (flatten ys))

module _ {S : Type 0} (peer : Peer S) where
  records_of-append :
      (s : S) (ps qs : List Bytes)
      → records_of peer s (ps ++ qs)
        ≡ records_of peer s ps ++ records_of peer (after_all peer s ps) qs
  records_of-append s [] qs = refl
  records_of-append s (p ∷ ps) qs =
      ap (◌∷◌ (peer.sealed s p)) (records_of-append (peer.after s) ps qs)

  after_all-append :
      (s : S) (ps qs : List Bytes)
      → after_all peer s (ps ++ qs) ≡ after_all peer (after_all peer s ps) qs
  after_all-append s [] qs = refl
  after_all-append s (p ∷ ps) qs = after_all-append (peer.after s) ps qs

  -- Two texts, one sent after the other.
  pub Sends-append :
      (sspi : Package S) (text rest : Bytes) (m n : ℕ) (c c2 : Client S) (a : Sent)
      (r : Sent × Client S)
      → Sends sspi peer text m c (a, c2)
      → Sends sspi peer rest n c2 r
      → Sends sspi peer (text ++ rest) n c r
  Sends-append sspi text rest m n c c2 a r x y = record {
    pieces = x.pieces ++ y.pieces;
    join =
        (flatten-append x.pieces y.pieces
          ∙ ap (λ z. z ++ flatten y.pieces) x.join
          ∙ ap (λ z. text ++ z) y.join);
    sizes = All-append (IsPiece sspi) x.pieces y.pieces x.sizes y.sizes;
    count = y.count;
    written_eq =
        (y.written_eq
          ∙ ap (λ z. z ++ records_of peer c2.context y.pieces) x.written_eq
          ∙ append_assoc c.written (records_of peer c.context x.pieces)
              (records_of peer c2.context y.pieces)
          ∙ ap
              (λ s. c.written ++ (records_of peer c.context x.pieces ++ records_of peer s y.pieces))
              x.context_eq
          ∙ ap (λ z. c.written ++ z) (sym (records_of-append c.context x.pieces y.pieces)));
    context_eq =
        (y.context_eq
          ∙ ap (λ s. after_all peer s y.pieces) x.context_eq
          ∙ sym (after_all-append c.context x.pieces y.pieces));
    encrypting = y.encrypting;
  }
