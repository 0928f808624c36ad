-- ===== src/Tls/Client/Reads.antt =====
-- Successive calls of CSSLClient::Recv (socket/SSLClient.cpp) as reads of a stream of bytes.
use lua_xenetwork.Prelude.{
  ℕ, zero, suc, ◌≤◌, ◌<◌, true, false, List, [], ◌∷◌, ◌++◌, Option, none, some, Bytes, map, length,
  take, drop, flatten, is_empty, leb, All, inl, inr, ◌⊎◌, ◌≡◌, refl, sym, ap, ◌∙◌, subst,
  append_assoc, length-take, take-append-drop, Bool-cases, arith,
}
use lua_xenetwork.Proxy.Wire.{Incoming, closed, failed, arrives, recv_partial}
use lua_xenetwork.Proxy.Wire.Exact.{pending}
use lua_xenetwork.Tls.Client.{
  Package, file_not_encrypted, Client, Outcome, first_status, receive_more, decrypt_next,
  decrypt_loop, recv_partial_encrypted, recv_stored, recv,
}
use lua_xenetwork.Tls.Client.Stream.{Peer, Opens, Holds, IsCarried, sealed_all, make_room-Spare}
use lua_xenetwork.Tls.Client.Receiving.{Gives, decrypt_loop-Gives}

-- The abstract stream: reads of at most so many bytes of a text, and their answers. Each gives some
-- of the text while there is any. Behind the text there is an end, behind which reads fail, or a
-- read fails.
pub data Run : Bytes → List ℕ → List (Option Bytes) → Type 0 where
  stop : {text : Bytes} → Run text [] []
  piece :
      {b : ℕ} {bytes rest : Bytes} {len : ℕ} {lens : List ℕ} {answers : List (Option Bytes)}
      → length (b ∷ bytes) ≤ len
      → Run rest lens answers
      → Run ((b ∷ bytes) ++ rest) (len ∷ lens) (some (b ∷ bytes) ∷ answers)
  ended : {len : ℕ} {lens : List ℕ} → Run [] (len ∷ lens) (some [] ∷ map (λ n. none) lens)
  lost :
      {len : ℕ} {lens : List ℕ} {answers : List (Option Bytes)}
      → Run [] lens answers
      → Run [] (len ∷ lens) (none ∷ answers)

Run-first :
    {text same : Bytes} {lens : List ℕ} {answer given : Option Bytes}
    {answers : List (Option Bytes)}
    → text ≡ same
    → answer ≡ given
    → Run same lens (given ∷ answers)
    → Run text lens (answer ∷ answers)
Run-first {text} {same} {lens} {answer} {given} {answers} e1 e2 run =
    subst (λ x. Run x lens (answer ∷ answers)) (sym e1)
      (subst (λ x. Run same lens (x ∷ answers)) (sym e2) run)

module _ {S : Type 0} (sspi : Package S) where
  -- One call after another, by the lengths that the caller asks for.
  unfoldable pub recv_all : List ℕ → Client S → Incoming → List (Option Bytes)
  unfolding recv
  recv_all [] c i = []
  recv_all (len ∷ lens) c i =
      let o = recv sspi len c i in o.answer ∷ recv_all lens o.client o.incoming

  -- A client that has ended fails.
  recv_all-ended :
      (lens : List ℕ) (c : Client S) (i : Incoming)
      → c.plain ≡ []
      → c.encrypting ≡ false
      → recv_all lens c i ≡ map (λ n. none) lens
  unfolding recv_all recv
  recv_all-ended [] c i e1 e2 = refl
  recv_all-ended (len ∷ lens) c i e1 e2 = rw e1 (
      rw e2 (
        ap (◌∷◌ none) (
          recv_all-ended lens
            (record c { plain = []; encrypting = false; last_error = file_not_encrypted }) i refl
            refl)))

  module _ (peer : Peer S) (opens : Opens sspi peer) where
    restored :
        (p text : Bytes) (c : Client S) (i : Incoming) (h : Holds peer text c i)
        → Holds peer (p ++ flatten h.records) (record c { plain = p }) i
    restored p text c i h = record {
      records = h.records;
      carried = h.carried;
      encrypting = h.encrypting;
      room = h.room;
      hold = h.hold;
      stream = h.stream;
      text_eq = refl;
    }

    recv_stored-Gives :
        (len b : ℕ) (p : Bytes) (text : Bytes) (c : Client S) (i : Incoming)
        → c.plain ≡ b ∷ p
        → Holds peer text c i
        → Gives peer text (suc len) (recv_stored sspi (suc len) (b ∷ p) c i)
    unfolding recv_stored
    recv_stored-Gives len b p text c i e h = elim (Bool-cases (leb (length (b ∷ p)) (suc len))) [
      | inl q ↦ rw q record {
        first = b;
        others = p;
        rest = flatten h.records;
        answer_eq = refl;
        size = ground arith;
        split = h.text_eq ∙ ap (λ x. x ++ flatten h.records) e;
        state = restored [] text c i h;
      }
      | inr q ↦ rw q record {
        first = b;
        others = take len p;
        rest = drop len p ++ flatten h.records;
        answer_eq = refl;
        size = omega (arith, length-take len p);
        split =
            (h.text_eq
              ∙ ap (λ x. x ++ flatten h.records) e
              ∙ ap (λ x. (b ∷ x) ++ flatten h.records) (sym (take-append-drop len p))
              ∙ append_assoc (b ∷ take len p) (drop len p) (flatten h.records));
        state = restored (drop len p) text c i h;
      }
    ]

    -- Nothing is left: the peer ended, or the read fails and nothing changed.
    abbrev AtEnd : Outcome S → Type 0
    AtEnd o =
        ((o.answer ≡ some []) × (o.client.plain ≡ []) × (o.client.encrypting ≡ false))
        ⊎ ((o.answer ≡ none) × Holds peer [] o.client o.incoming)

    nothing_left : (x y : Bytes) → x ++ y ≡ [] → (x ≡ []) × (y ≡ [])
    nothing_left [] y e = (refl, e)
    nothing_left (b ∷ x) y e = absurd (cc)

    recv_partial_encrypted-AtEnd :
        (len : ℕ) (text : Bytes) (c : Client S) (i : Incoming) (h : Holds peer text c i)
        → c.plain ≡ []
        → c.cipher ≡ []
        → pending i ≡ []
        → h.records ≡ []
        → AtEnd (recv_partial_encrypted sspi (suc len) c i)
    unfolding recv_partial_encrypted decrypt_loop first_status receive_more decrypt_next
        recv_partial
    recv_partial_encrypted-AtEnd len text c (arrives [] rest) h e1 e2 e3 e4 = absurd (cc)
    recv_partial_encrypted-AtEnd len text c (arrives (b ∷ bytes) rest) h e1 e2 e3 e4 = absurd (cc)
    recv_partial_encrypted-AtEnd len text c closed h e1 e2 e3 e4 =
        let made = make_room-Spare c h.room (omega (arith, ap {B = ℕ} length e2)) in
        rw (ap is_empty e2) (rw made.made (inl (refl, e1, refl)))
    recv_partial_encrypted-AtEnd len text c (failed timed_out) h e1 e2 e3 e4 =
        let made = make_room-Spare c h.room (omega (arith, ap {B = ℕ} length e2)) in
        rw (ap is_empty e2) (
          rw made.made (
            inr (
              refl,
              record {
                records = [];
                carried = tt;
                encrypting = h.encrypting;
                room = omega (arith, made.bound);
                hold = tt;
                stream = ap (λ x. x ++ []) e2;
                text_eq = ap (λ x. x ++ []) (sym e1);
              },
            )))

    recv-stored :
        (len b : ℕ) (p : Bytes) (c : Client S) (i : Incoming)
        → c.plain ≡ b ∷ p
        → recv sspi len c i ≡ recv_stored sspi len (b ∷ p) c i
    unfolding recv
    recv-stored len b p c i e = rw e refl

    recv-recv_partial_encrypted :
        (len : ℕ) (c : Client S) (i : Incoming)
        → c.plain ≡ []
        → c.encrypting ≡ true
        → recv sspi len c i ≡ recv_partial_encrypted sspi len c i
    unfolding recv
    recv-recv_partial_encrypted len c i e1 e2 = rw e1 (rw e2 refl)

    recv_partial_encrypted-cases :
        (len : ℕ) (text : Bytes) (c : Client S) (i : Incoming) (h : Holds peer text c i)
        → c.plain ≡ []
        → (records : List Bytes) → h.records ≡ records
        → ((text ≡ []) × AtEnd (recv_partial_encrypted sspi (suc len) c i))
          ⊎ Gives peer text (suc len) (recv_partial_encrypted sspi (suc len) c i)
    unfolding recv_partial_encrypted
    recv_partial_encrypted-cases len text c i h e [] e2 =
        let none_left =
          nothing_left c.cipher (pending i) (h.stream ∙ ap (sealed_all peer c.context) e2) in
        inl (
          h.text_eq ∙ ap (λ x. x ++ flatten h.records) e ∙ ap flatten e2,
          recv_partial_encrypted-AtEnd len text c i h e none_left.0 none_left.1 e2,
        )
    recv_partial_encrypted-cases len text c i h e ([] ∷ ps) e2 =
        let carried = subst (All IsCarried) e2 h.carried in absurd (cc)
    recv_partial_encrypted-cases len text c i h e ((b ∷ p) ∷ ps) e2 =
        let carried = subst (All IsCarried) e2 h.carried in
        inr (
          subst (λ x. Gives peer x (suc len) (recv_partial_encrypted sspi (suc len) c i))
            (sym (h.text_eq ∙ ap (λ x. x ++ flatten h.records) e ∙ ap flatten e2))
            (decrypt_loop-Gives peer sspi opens (suc (length (pending i))) len b p ps c i
              (omega arith)
              record {
                fits = carried.0.1;
                encrypting = h.encrypting;
                clear = e;
                room = h.room;
                stream = h.stream ∙ ap (sealed_all peer c.context) e2;
                hold = h.hold;
                carried = carried.1;
              }))

    recv-cases :
        (len : ℕ) (text : Bytes) (c : Client S) (i : Incoming)
        → Holds peer text c i
        → ((text ≡ []) × AtEnd (recv sspi (suc len) c i))
          ⊎ Gives peer text (suc len) (recv sspi (suc len) c i)
    recv-cases len text c i h = go c.plain refl
      where
        go :
            (plain : Bytes)
            → c.plain ≡ plain
            → ((text ≡ []) × AtEnd (recv sspi (suc len) c i))
              ⊎ Gives peer text (suc len) (recv sspi (suc len) c i)
        go [] e =
            subst (λ o. ((text ≡ []) × AtEnd o) ⊎ Gives peer text (suc len) o)
              (sym (recv-recv_partial_encrypted (suc len) c i e h.encrypting))
              (recv_partial_encrypted-cases len text c i h e h.records refl)
        go (b ∷ p) e =
            subst (λ o. ((text ≡ []) × AtEnd o) ⊎ Gives peer text (suc len) o)
              (sym (recv-stored (suc len) b p c i e)) (inr (recv_stored-Gives len b p text c i e h))

    -- Where DecryptMessage opens the peer's records, of which none is empty, and every portion that arrives
    -- holds a byte: successive calls of Recv, for a byte or more each, are reads of the stream of
    -- the plaintext that is left. Each returns some of it, in order, and no more than was asked for,
    -- while there is any, however the ciphertext is cut into portions; only behind the last byte does a
    -- call return 0 or an error.
    pub recv_all-Run :
        (lens : List ℕ) (text : Bytes) (c : Client S) (i : Incoming)
        → All (λ len. 0 < len) lens
        → Holds peer text c i
        → Run text lens (recv_all lens c i)
    unfolding recv_all
    recv_all-Run [] text c i positive h = stop
    recv_all-Run (zero ∷ lens) text c i positive h = absurd (omega (arith, positive.0))
    recv_all-Run (suc len ∷ lens) text c i positive h =
        let o = recv sspi (suc len) c i in
        elim (recv-cases len text c i h) [
          | inr g ↦
              Run-first g.split g.answer_eq
                (piece g.size (recv_all-Run lens g.rest o.client o.incoming positive.1 g.state))
          | inl (e, inl (e1, e2, e3)) ↦ Run-first e e1 (
              subst (λ x. Run [] (suc len ∷ lens) (some [] ∷ x))
                (sym (recv_all-ended lens o.client o.incoming e2 e3)) ended)
          | inl (e, inr (e1, h2)) ↦
              Run-first e e1 (lost (recv_all-Run lens [] o.client o.incoming positive.1 h2))
        ]
