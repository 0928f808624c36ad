-- ===== src/Tls/Client/Receiving.antt =====
-- What CSSLClient::Recv hands out of a peer's stream (socket/SSLClient.cpp).
use lua_xenetwork.Prelude.{
  ℕ, zero, suc, ◌+◌, ◌-◌, ◌≤◌, ◌<◌, true, false, List, [], ◌∷◌, ◌++◌, some, Bytes, length, take,
  drop, flatten, is_empty, leb, All, inl, inr, ◌≡◌, refl, sym, ap, ◌∙◌, subst, append_assoc,
  length-append, length-take, take-append-drop, Bool-cases, arith,
}
use lua_xenetwork.Proxy.Wire.{Incoming, Read, recv_partial}
use lua_xenetwork.Proxy.Wire.Exact.{pending}
use lua_xenetwork.Proxy.Wire.Enough.{HoldBytes, Gets, recv_partial-Gets}
use lua_xenetwork.Tls.Client.{
  Package, Client, Outcome, first_status, keep_extra, read_size, hand_out, receive_more,
  decrypt_next, decrypt_loop,
}
use lua_xenetwork.Tls.Client.Stream.{
  Peer, Opens, Holds, Faces, IsCarried, sealed_all, extra_of, record_limit, cuts_compared,
  first_status-part, first_status-whole, keep_extra-Holds, Spare, make_room-Spare,
}

module _ {S : Type 0} (peer : Peer S) where
  -- A read of at most `len` bytes of the text gave some of it, and the client has the rest.
  pub record Gives (text : Bytes) (len : ℕ) (o : Outcome S) : Type 0 where
    pub first : ℕ
    pub others : Bytes
    pub rest : Bytes
    pub answer_eq : o.answer ≡ some (first ∷ others)
    pub size : length (first ∷ others) ≤ len
    pub split : text ≡ (first ∷ others) ++ rest
    pub state : Holds peer rest o.client o.incoming

  -- A message's data is handed out as far as it is asked for.
  hand_out-Gives :
      (len b : ℕ) (p front rest : Bytes) (ps : List Bytes) (c : Client S) (i : Incoming)
      → length (b ∷ p) ≤ record_limit
      → c.encrypting ≡ true
      → c.plain ≡ []
      → c.before + length c.cipher ≤ read_size
      → c.cipher ≡ front ++ rest
      → rest ++ pending i ≡ sealed_all peer c.context ps
      → HoldBytes i
      → All IsCarried ps
      → Gives ((b ∷ p) ++ flatten ps) (suc len) (hand_out (suc len) (b ∷ p) (extra_of rest) c i)
  unfolding hand_out
  hand_out-Gives len b p front rest ps c i fits on clear room e k h v =
      let state = keep_extra-Holds peer front rest ps c i on room e k h v in
      let stored = drop len p in
      let partly =
        keep_extra-Holds peer front rest ps (record c { plain = stored }) i on room e k h v in
      elim (Bool-cases (leb (length (b ∷ p)) (suc len))) [
        | inl q ↦ rw q record {
          first = b;
          others = p;
          rest = flatten ps;
          answer_eq = refl;
          size = ground arith;
          split = refl;
          state =
              subst (λ x. Holds peer (x ++ flatten ps) (keep_extra (extra_of rest) c) i) clear
                state;
        }
        | inr q ↦
            let small : leb (length (b ∷ p) - suc len) 32000 ≡ true = ground arith in
            rw q (
              rw small record {
                first = b;
                others = take len p;
                rest = stored ++ flatten ps;
                answer_eq = refl;
                size = omega (arith, length-take len p);
                split =
                    (ap (λ x. (b ∷ x) ++ flatten ps) (sym (take-append-drop len p))
                      ∙ append_assoc (b ∷ take len p) stored (flatten ps));
                state = partly;
              })
      ]

  append-some : (xs : Bytes) (b : ℕ) (ys : Bytes) → is_empty (xs ++ (b ∷ ys)) ≡ false
  append-some [] b ys = refl
  append-some (x ∷ xs) b ys = refl

  module _ (sspi : Package S) (opens : Opens sspi peer) where
    first_status-some :
        (c : Client S)
        → is_empty c.cipher ≡ false
        → first_status sspi c ≡ sspi.decrypt_message c.context c.cipher
    unfolding first_status
    first_status-some c e = rw e refl

    -- A round that received bytes of the record, when the rounds after it give the text.
    decrypt_next-Gives :
        (fuel len b : ℕ) (p : Bytes) (ps : List Bytes) (c : Client S) (i : Incoming)
        (r : Read × Incoming)
        → (room : Spare c) → Faces peer b p ps c i
        → Gets (suc room.free) (pending i) r
        → ((c2 : Client S) (rest : Incoming)
            → length (pending rest) < length (pending i)
            → Faces peer b p ps c2 rest
            → Gives
                ((b ∷ p) ++ flatten ps)
                (suc len)
                (decrypt_loop sspi fuel (suc len) (first_status sspi c2) c2 rest))
        → Gives ((b ∷ p) ++ flatten ps) (suc len) (
            decrypt_next sspi r
              (record c { before = room.before })
              (decrypt_loop sspi fuel (suc len)))
    unfolding decrypt_next
    decrypt_next-Gives fuel len b p ps c i r room f got again =
        let longer = c.cipher ++ (got.first ∷ got.others) in
        let c2 = record c { before = room.before; cipher = longer; last_error = 0 } in
        let same : first_status sspi c2 ≡ sspi.decrypt_message c.context longer =
          first_status-some c2 (append-some c.cipher got.first got.others) in
        rw got.result (
          subst
            (λ status.
              Gives ((b ∷ p) ++ flatten ps) (suc len)
                (decrypt_loop sspi fuel (suc len) status c2 got.rest))
            same
            (again c2 got.rest
              (omega (
                arith,
                length-append (got.first ∷ got.others) (pending got.rest),
                ap {B = ℕ} length got.all_eq,
              ))
              record {
                fits = f.fits;
                encrypting = f.encrypting;
                clear = f.clear;
                room =
                    omega (
                      arith,
                      length-append c.cipher (got.first ∷ got.others),
                      room.bound,
                      got.size,
                    );
                stream =
                    (append_assoc c.cipher (got.first ∷ got.others) (pending got.rest)
                      ∙ ap (λ x. c.cipher ++ x) (sym got.all_eq)
                      ∙ f.stream);
                hold = got.hold;
                carried = f.carried;
              }))

    pub decrypt_loop-Gives :
        (fuel len b : ℕ) (p : Bytes) (ps : List Bytes) (c : Client S) (i : Incoming)
        → length (pending i) < fuel
        → Faces peer b p ps c i
        → Gives
            ((b ∷ p) ++ flatten ps)
            (suc len)
            (decrypt_loop sspi fuel (suc len) (first_status sspi c) c i)
    unfolding decrypt_loop receive_more
    decrypt_loop-Gives zero len b p ps c i enough f = absurd (omega arith)
    decrypt_loop-Gives (suc fuel) len b p ps c i enough f =
        elim (cuts_compared c.cipher (pending i) (peer.sealed c.context (b ∷ p))
          (sealed_all peer (peer.after c.context) ps) f.stream) [
            | inl (rest, e1, e2) ↦
                rw (first_status-whole sspi peer opens c (b ∷ p) rest f.fits e1) (
                  hand_out-Gives len b p (peer.sealed c.context (b ∷ p)) rest ps
                    (record c { context = peer.after c.context }) i f.fits f.encrypting f.clear
                    f.room e1 e2 f.hold f.carried)
            | inr (short, e1) ↦
                let made =
                  make_room-Spare c f.room (omega (arith, opens.fits c.context (b ∷ p) f.fits)) in
                rw (first_status-part sspi peer opens c (b ∷ p) f.fits short e1) (
                  rw made.made (
                    decrypt_next-Gives fuel len b p ps c i (recv_partial (suc made.free) i) made f
                      (recv_partial-Gets made.free i f.hold (
                        omega (
                          arith,
                          ap {B = ℕ} length f.stream,
                          length-append c.cipher (pending i),
                          length-append (peer.sealed c.context (b ∷ p))
                              (sealed_all peer (peer.after c.context) ps),
                          short,
                        )))
                      (λ c2 rest less g.
                        decrypt_loop-Gives fuel len b p ps c2 rest (omega arith) g)))
          ]
