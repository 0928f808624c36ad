-- ===== src/Proxy/Wire/Exact.antt =====
-- What the reads and writes of the handshake leave behind (socket/Dial.cpp, SendAll and RecvExact).
use lua_xenetwork.Prelude.{
  ℕ, zero, suc, ◌-◌, not, [], ◌∷◌, ◌++◌, Bytes, length, take, drop, is_empty, leb, ◌==◌,
  if◌then◌else◌, Result, ok, err, >>=-eq-ok, throw_if-eq-ok, ok-inj, take-append-drop, append_assoc,
  append-nil, Bool-cases, inl, inr, ◌≡◌, refl, sym, ap, ◌∙◌, subst, arith,
}
use lua_xenetwork.Timeouts.{remaining, TimeoutError}
use lua_xenetwork.Proxy.Target.{proxy_protocol_error, proxy_closed}
use lua_xenetwork.Proxy.Wire.{
  Incoming, closed, failed, arrives, Read, socket_error, received, recv_partial, joined, recv_next,
  recv, Link, Socket, timed, arm, all_sent, send_all, judge, recv_exact,
}

-- The bytes that are still to be read.
abbrev pub pending : Incoming → Bytes
pending closed = []
pending (failed timed_out) = []
pending (arrives bytes rest) = bytes ++ pending rest

-- A step that sends and reads: what was sent after it, and what is left to read.
pub record Exchange (out inn : Bytes) (s t : Socket) : Type 0 where
  pub out_eq : t.sent ≡ s.sent ++ out
  pub inn_eq : pending s.incoming ≡ inn ++ pending t.incoming

pub Exchange-trans :
    {o1 i1 o2 i2 : Bytes} {s t u : Socket}
    → Exchange o1 i1 s t
    → Exchange o2 i2 t u
    → Exchange (o1 ++ o2) (i1 ++ i2) s u
Exchange-trans {o1} {i1} {o2} {i2} {s} {t} {u} p q = record {
  out_eq = q.out_eq ∙ ap (λ x. x ++ o2) p.out_eq ∙ append_assoc s.sent o1 o2;
  inn_eq = p.inn_eq ∙ ap (λ x. i1 ++ x) q.inn_eq ∙ sym (append_assoc i1 i2 (pending u.incoming));
}

-- What a read gives out is what it takes from the pending bytes.
abbrev pub Keeps : Bytes → Read × Incoming → Type 0
Keeps all (received bytes, rest) = all ≡ bytes ++ pending rest
Keeps all (socket_error timed_out, rest) = Unit

pub recv_partial-Keeps : (len : ℕ) (i : Incoming) → Keeps (pending i) (recv_partial len i)
unfolding recv_partial
recv_partial-Keeps len closed = refl
recv_partial-Keeps len (failed b) = tt
recv_partial-Keeps len (arrives bytes rest) =
    ap (λ x. x ++ pending rest) (sym (take-append-drop len bytes))
    ∙ append_assoc (take len bytes) (drop len bytes) (pending rest)
    ∙ ap (λ x. take len bytes ++ x) (kept (drop len bytes))
  where
    kept :
        (left : Bytes)
        → left ++ pending rest ≡ pending (if is_empty left then rest else arrives left rest)
    kept [] = refl
    kept (c ∷ left) = refl

joined-Keeps :
    (bytes : Bytes) (rest : Incoming) (r : Read × Incoming)
    → Keeps (pending rest) r
    → Keeps (bytes ++ pending rest) (joined bytes r)
unfolding joined
joined-Keeps bytes rest (received more, last) k =
    ap (λ x. bytes ++ x) k ∙ sym (append_assoc bytes more (pending last))
joined-Keeps bytes rest (socket_error b, last) k = tt

recv_next-Keeps :
    (all : Bytes) (r : Read × Incoming) (again : ℕ → Incoming → Read × Incoming)
    → Keeps all r
    → ((n : ℕ) (rest : Incoming) → Keeps (pending rest) (again n rest))
    → Keeps all (recv_next r again)
unfolding recv_next
recv_next-Keeps all (socket_error b, rest) again k h = tt
recv_next-Keeps all (received [], rest) again k h = k
recv_next-Keeps all (received (c ∷ bytes), rest) again k h =
    subst (λ x. Keeps x (joined (c ∷ bytes) (again (length (c ∷ bytes)) rest))) (sym k)
      (joined-Keeps (c ∷ bytes) rest _ (h (length (c ∷ bytes)) rest))

recv-Keeps : (fuel len : ℕ) (i : Incoming) → Keeps (pending i) (recv fuel len i)
unfolding recv
recv-Keeps zero len i = refl
recv-Keeps (suc fuel) len i = elim (Bool-cases (leb len 0)) [
  | inl q ↦ rw q refl
  | inr q ↦ rw q (
      recv_next-Keeps (pending i) (recv_partial len i) (λ n rest. recv fuel (len - n) rest)
        (recv_partial-Keeps len i) (λ n rest. recv-Keeps fuel (len - n) rest))
]

pub arm-Exchange :
    (link : Link) (s : Socket) {t : Socket}
    → arm link s ≡ ok t
    → (t.sent ≡ s.sent) × (t.incoming ≡ s.incoming)
unfolding arm timed
arm-Exchange link s {t} e =
    go (remaining link.connect_timeout_ms link.total_timeout_ms (link.elapsed s.armed)) e
  where
    after : Socket
    after = record { armed = suc s.armed; sent = s.sent; incoming = s.incoming }

    go :
        (r : Result TimeoutError ℕ)
        → timed r (ok after) ≡ ok t
        → (t.sent ≡ s.sent) × (t.incoming ≡ s.incoming)
    go (ok left) e = (ap (λ x. x.sent) (sym (ok-inj e)), ap (λ x. x.incoming) (sym (ok-inj e)))
    go (err x) e = absurd (cc)

pub send_all-Exchange :
    (link : Link) (bytes : Bytes) (s : Socket) {t : Socket}
    → send_all link bytes s ≡ ok t
    → Exchange bytes [] s t
unfolding send_all
send_all-Exchange link bytes s {t} e =
    let (t1, e1, e2) = >>=-eq-ok (arm link s) _ e in
    let (q, e3) =
      throw_if-eq-ok (not (all_sent bytes (link.send s.armed bytes))) proxy_protocol_error _ e2 in
    let (same_sent, same_incoming) = arm-Exchange link s e1 in
    subst (λ x. Exchange bytes [] s x) (ok-inj e3)
      (record { out_eq = ap (λ x. x ++ bytes) same_sent; inn_eq = ap pending (sym same_incoming) })

-- What was read is exactly as long as was asked for, and what is pending after it is what followed
-- it.
pub recv_exact-Exchange :
    (link : Link) (count : ℕ) (s : Socket) {bytes : Bytes} {t : Socket}
    → recv_exact link count s ≡ ok (bytes, t)
    → (length bytes ≡ count) × Exchange [] bytes s t
unfolding recv_exact judge
recv_exact-Exchange link zero s {bytes} {t} e =
    let same : (([], s) ≡ (bytes, t)) = ok-inj e in
    subst (λ x. (length x.0 ≡ 0) × Exchange [] x.0 s x.1) same
      (refl, record { out_eq = sym (append-nil s.sent); inn_eq = refl })
recv_exact-Exchange link (suc n) s {bytes} {t} e =
    let (t1, e1, e2) = >>=-eq-ok (arm link s) _ e in
    let (same_sent, same_incoming) = arm-Exchange link s e1 in
    go t1 same_sent same_incoming (recv (suc n) (suc n) t1.incoming)
      (recv-Keeps (suc n) (suc n) t1.incoming) e2
  where
    go :
        (t1 : Socket)
        → t1.sent ≡ s.sent
        → t1.incoming ≡ s.incoming
        → (r : Read × Incoming) → Keeps (pending t1.incoming) r
        → judge (suc n) t1 r ≡ ok (bytes, t)
        → (length bytes ≡ suc n) × Exchange [] bytes s t
    go t1 q1 q2 (socket_error b, rest) k e = absurd (cc)
    go t1 q1 q2 (received got, rest) k e =
        let (q, e3) = throw_if-eq-ok (not (length got == suc n)) proxy_closed _ e in
        let sized : length got ≡ suc n = ground arith in
        subst (λ x. (length x.0 ≡ suc n) × Exchange [] x.0 s x.1) (ok-inj e3)
          (
            sized,
            record { out_eq = q1 ∙ sym (append-nil s.sent); inn_eq = ap pending (sym q2) ∙ k },
          )
