-- ===== src/Tls/Client/Delivery.antt =====
-- CSSLClient::Send writes the records of a text (socket/SSLClient.cpp).
use lua_xenetwork.Prelude.{
  ℕ, zero, suc, ◌+◌, ◌-◌, ◌≤◌, ◌<◌, ◌%◌, true, false, [], ◌∷◌, ◌++◌, Bytes, length, take, drop, ltb,
  leb, ◌==◌, ◌||◌, le→ltb, ltb→le, inl, inr, ◌≡◌, refl, sym, ap, ◌∙◌, subst, append-nil,
  length-take, length-drop, Bool-cases, arith,
}
use lua_xenetwork.Tls.Client.{Package, Client}
use lua_xenetwork.Tls.Client.Stream.{Peer}
use lua_xenetwork.Tls.Client.Sending.{
  Sent, sent, send_error, aborted, int_of, nonpositive, max_chunk, write_room, write, write_sealed,
  send_record, send_chunk, count_chunk, send_chunks, send,
}
use lua_xenetwork.Tls.Client.Records.{Seals, Sends, Sends-append}

sent-inj : {m n : ℕ} → sent m ≡ sent n → m ≡ n
sent-inj e = cc

small_int : (n : ℕ) → n ≤ 16000 → n % 4294967296 ≡ n
small_int n h = omega arith

positive_int : (n : ℕ) → 0 < n → n ≤ 16000 → (n == 0 || leb 2147483648 n) ≡ false
positive_int n h k = ground arith

take-drop :
    {b : ℕ} (k : ℕ) (text : Bytes)
    → (b ∷ take k text) ++ drop (length (b ∷ take k text)) (b ∷ text) ≡ b ∷ text
take-drop {b} zero text = refl
take-drop {b} (suc k) [] = refl
take-drop {b} (suc k) (c ∷ text) = ap (◌∷◌ b) (take-drop k text)

module _ {S : Type 0} (sspi : Package S) (peer : Peer S) (seals : Seals sspi peer) where
  pub max_chunk-bounds : (0 < max_chunk sspi) × (max_chunk sspi ≤ 16000)
  unfolding max_chunk
  max_chunk-bounds = elim (Bool-cases (sspi.maximum_message == 0)) [
    | inl q ↦ rw q (omega arith, omega arith)
    | inr q ↦ rw q (ground arith, ground arith)
  ]

  write_room-margin : 16000 ≤ write_room sspi
  unfolding write_room
  write_room-margin =
      let few : sspi.header + sspi.trailer ≤ 50 = seals.margin in
      let same : (sspi.header + sspi.trailer) % 18446744073709551616 ≡ sspi.header + sspi.trailer =
        omega arith in
      rw same (omega arith)

  write-sent :
      (text data_sent : Bytes) (c : Client S)
      → write sspi text data_sent c ≡ sent (int_of (length text))
  unfolding write
  write-sent text data_sent c =
      let reported = seals.reports c.written data_sent in rw (write, reported.1) refl

  send_record-Sends :
      (b : ℕ) (text : Bytes) (c : Client S)
      → c.encrypting ≡ true
      → length (b ∷ text) ≤ max_chunk sspi
      → Sends sspi peer (b ∷ text) (length (b ∷ text)) c (send_record sspi (b ∷ text) c)
  unfolding send_record write_sealed
  send_record-Sends b text c on h =
      let fits : ltb (write_room sspi) (length (b ∷ text)) ≡ false =
        le→ltb _ _ (omega (arith, write_room-margin, max_chunk-bounds.1)) in
      rw fits (
        rw (seals.seal c.context (b ∷ text) h) (record {
          pieces = (b ∷ text) ∷ [];
          join = append-nil (b ∷ text);
          sizes = ((refl, h), tt);
          count = write-sent (b ∷ text) (peer.sealed c.context (b ∷ text)) c;
          written_eq = refl;
          context_eq = refl;
          encrypting = on;
        }))

  send_chunk-send_record :
      (text : Bytes) (c : Client S)
      → c.encrypting ≡ true
      → send_chunk sspi text c ≡ send_record sspi text c
  unfolding send_chunk
  send_chunk-send_record text c on = rw on refl

  -- A chunk was sent, and the rest after it.
  count_chunk-Sends :
      (b : ℕ) (text rest : Bytes) (n : ℕ) (c : Client S) (r : Sent × Client S)
      (again : ℕ → Client S → Sent × Client S)
      → length (b ∷ text) ≤ max_chunk sspi
      → Sends sspi peer (b ∷ text) (length (b ∷ text)) c r
      → ((c2 : Client S)
          → c2.encrypting ≡ true
          → Sends sspi peer rest n c2 (again (length (b ∷ text)) c2))
      → Sends sspi peer ((b ∷ text) ++ rest) n c (count_chunk sspi r again)
  unfolding count_chunk int_of nonpositive
  count_chunk-Sends b text rest n c (send_error, c2) again h first later =
      let count = first.count in absurd (cc)
  count_chunk-Sends b text rest n c (aborted, c2) again h first later =
      let count = first.count in absurd (cc)
  count_chunk-Sends b text rest n c (sent m, c2) again h first later =
      let small = max_chunk-bounds.1 in
      let same : m ≡ length (b ∷ text) =
        sent-inj first.count ∙ small_int (length (b ∷ text)) (omega arith) in
      let positive : (m == 0 || leb 2147483648 m) ≡ false =
        positive_int m (omega arith) (omega arith) in
      let then_rest = later c2 first.encrypting in
      rw positive (
        subst (λ k. Sends sspi peer ((b ∷ text) ++ rest) n c (again k c2)) (sym same)
          (Sends-append peer sspi (b ∷ text) rest (length (b ∷ text)) n c c2 (sent m) _ first
            then_rest))

  send_chunk-Sends :
      (b : ℕ) (text : Bytes) (c : Client S)
      → c.encrypting ≡ true
      → length (b ∷ text) ≤ max_chunk sspi
      → Sends sspi peer (b ∷ text) (length (b ∷ text)) c (send_chunk sspi (b ∷ text) c)
  send_chunk-Sends b text c on h =
      subst (Sends sspi peer (b ∷ text) (length (b ∷ text)) c)
        (sym (send_chunk-send_record (b ∷ text) c on)) (send_record-Sends b text c on h)

  send_chunks-Sends :
      (fuel total : ℕ) (text : Bytes) (c : Client S)
      → length text ≤ fuel
      → c.encrypting ≡ true
      → Sends sspi peer text (total + length text) c (send_chunks sspi fuel total text c)
  unfolding send_chunks
  send_chunks-Sends fuel total [] c enough on = record {
    pieces = [];
    join = refl;
    sizes = tt;
    count = ap (λ n. sent (int_of n)) (omega arith);
    written_eq = sym (append-nil c.written);
    context_eq = refl;
    encrypting = on;
  }
  send_chunks-Sends zero total (b ∷ text) c enough on = absurd (omega arith)
  send_chunks-Sends (suc fuel) total (b ∷ text) c enough on =
      let k = max_chunk sspi - 1 in
      let at : max_chunk sspi ≡ suc k = omega (arith, max_chunk-bounds.0) in
      let first = length (b ∷ take k text) in
      let taken = length-take k text in
      let dropped = length-drop first (b ∷ text) in
      let rest = drop first (b ∷ text) in
      let joined : (b ∷ take k text) ++ rest ≡ b ∷ text = take-drop k text in
      rw at (
        subst
          (λ x. Sends sspi peer x (total + length (b ∷ text)) c (
            count_chunk sspi (send_chunk sspi (b ∷ take k text) c)
              (λ n c2. send_chunks sspi fuel (total + n) (drop n (b ∷ text)) c2)))
          joined
          (count_chunk-Sends b (take k text) rest (total + length (b ∷ text)) c
            (send_chunk sspi (b ∷ take k text) c)
            (λ n c2. send_chunks sspi fuel (total + n) (drop n (b ∷ text)) c2)
            (omega (arith, taken, at))
            (send_chunk-Sends b (take k text) c on (omega (arith, taken, at)))
            (λ c2 on2.
              subst (λ n. Sends sspi peer rest n c2 (send_chunks sspi fuel (total + first) rest c2))
                (omega (arith, taken, dropped))
                (send_chunks-Sends fuel (total + first) rest c2 (omega (arith, dropped, enough))
                  on2))))

  send-send_chunks :
      (text : Bytes) (c : Client S)
      → c.encrypting ≡ true
      → ltb (max_chunk sspi) (length text) ≡ true
      → send sspi text c ≡ send_chunks sspi (length text) 0 text c
  unfolding send
  send-send_chunks text c on long = rw on (rw long refl)

  send-send_record :
      (text : Bytes) (c : Client S)
      → c.encrypting ≡ true
      → ltb (max_chunk sspi) (length text) ≡ false
      → send sspi text c ≡ send_record sspi text c
  unfolding send
  send-send_record text c on long = rw on (rw long refl)

  -- Where EncryptMessage seals every text up to the limit, header and trailer are together at most 50
  -- bytes, and the socket's Send reports some count: Send of a text that is not empty returns the
  -- text's length as an int, and gave the socket, in order, the records of pieces that are together
  -- the text, each with a byte at least and none longer than the limit, whatever counts were reported.
  pub send-Sends :
      (b : ℕ) (text : Bytes) (c : Client S)
      → c.encrypting ≡ true
      → Sends sspi peer (b ∷ text) (length (b ∷ text)) c (send sspi (b ∷ text) c)
  send-Sends b text c on = elim (Bool-cases (ltb (max_chunk sspi) (length (b ∷ text)))) [
    | inl q ↦
        subst (Sends sspi peer (b ∷ text) (length (b ∷ text)) c)
          (sym (send-send_chunks (b ∷ text) c on q))
          (subst
            (λ n.
              Sends sspi peer (b ∷ text) n c (send_chunks sspi (length (b ∷ text)) 0 (b ∷ text) c))
            (omega arith) (send_chunks-Sends (length (b ∷ text)) 0 (b ∷ text) c (omega arith) on))
    | inr q ↦
        subst (Sends sspi peer (b ∷ text) (length (b ∷ text)) c)
          (sym (send-send_record (b ∷ text) c on q)) (send_record-Sends b text c on (ltb→le _ _ q))
  ]
