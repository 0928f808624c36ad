-- ===== src/Dial/Outcome.antt =====
-- What holds of a dial that returns (socket/Dial.cpp, Dial).
use lua_xenetwork.Prelude.{
  ◌≤◌, inl, inr, sym, Bool-cases, Bool, true, false, not, ◌&&◌, List, Option, none, some, Bytes,
  is_empty, if◌then◌else◌, Result, ok, err, >>=-eq-ok, ok-inj, ◌≡◌, refl, ap, ◌∙◌, subst, arith,
}
use lua_xenetwork.Tls.Der.{Fault}
use lua_xenetwork.Tls.Verifier.{
  Code, Verifier, Certificate, Platform, fail, load_roots, verifier, sni_name, check,
}
use lua_xenetwork.Tls.Verifier.Trust.{IsTrusted, check-IsTrusted}
use lua_xenetwork.Proxy.Target.{DialCode, ProxyTarget}
use lua_xenetwork.Proxy.Request.{IsWellBehaved}
use lua_xenetwork.Proxy.Validity.{IsUsable}
use lua_xenetwork.Proxy.Wire.{Socket, arm}
use lua_xenetwork.Proxy.Wire.Exact.{arm-Exchange}
use lua_xenetwork.Proxy.Handshake.{socks5_handshake}
use lua_xenetwork.Proxy.Handshake.Sound.{Completed, socks5_handshake-Completed}
use lua_xenetwork.Dial.{
  DialOptions, proxy_connect_refused, World, DialedConnection, plain, secured, tls_no_certificate,
  as_coded, as_faulted, reach, verifier_of, initialize, conclude, secure, dial,
}

as_coded-eq-ok : {A : Type 0} (r : Result DialCode A) {x : A} → as_coded r ≡ ok x → r ≡ ok x
as_coded-eq-ok (ok y) e = ap ok (ok-inj e)
as_coded-eq-ok (err y) e = absurd (cc)

as_faulted-eq-ok : {A : Type 0} (r : Result Fault A) {x : A} → as_faulted r ≡ ok x → r ≡ ok x
as_faulted-eq-ok (ok y) e = ap ok (ok-inj e)
as_faulted-eq-ok (err y) e = absurd (cc)

-- A verifier that is new: what it was made with, and that nothing was checked yet.
abbrev IsNew : Bool → Verifier → Type 0
IsNew tls_verify v = (v.verify ≡ tls_verify) × (v.checked ≡ false)

if-IsNew : (b c : Bool) (x y : Verifier) → IsNew b x → IsNew b y → IsNew b (if c then x else y)
if-IsNew b true x y p q = p
if-IsNew b false x y p q = q

fail-IsNew : (b : Bool) (v : Verifier) (c : Code) → IsNew b v → IsNew b (fail v c)
unfolding fail
fail-IsNew b v c h = if-IsNew b v.failed _ _ h h

load_roots-IsNew :
    (b : Bool) (v : Verifier) (opened : Bool) (file : Option (List Bytes))
    → IsNew b v
    → IsNew b (load_roots v opened file)
unfolding load_roots
load_roots-IsNew b v false file h = fail-IsNew b _ _ h
load_roots-IsNew b v true none h = fail-IsNew b _ _ h
load_roots-IsNew b v true (some hashes) h = if-IsNew b _ _ _ (fail-IsNew b _ _ h) h

verifier-IsNew :
    (host ca_file : Bytes) (b opened : Bool) (file : Option (List Bytes))
    → IsNew b (verifier host ca_file b opened file)
unfolding verifier
verifier-IsNew host ca_file b opened file =
    if-IsNew b (b && not (is_empty ca_file)) _ _ (load_roots-IsNew b _ opened file (refl, refl))
      (refl, refl)

-- The hook was called with a certificate that the verifier has grounds to trust.
pub record Presented (p : Platform) (v : Verifier) (presented : Option (Option Certificate))
    : Type 0 where
  pub certificate : Certificate
  pub is_presented : presented ≡ some (some certificate)
  pub trusted : IsTrusted p v certificate

and_true : (a b : Bool) → (a && b) ≡ true → a ≡ true
and_true true b e = refl
and_true false b e = e

check-nothing :
    (p : Platform) (v : Verifier) {w : Verifier}
    → v.verify ≡ true
    → check p v none ≡ ok (w, true)
    → ⊥
unfolding check
check-nothing p v h e = ground arith

initialize-Presented :
    (p : Platform) (v : Verifier) (presented : Option (Option Certificate)) (breaks : Bool)
    {x : Verifier}
    → IsNew true v
    → initialize p v presented breaks ≡ ok (x, true)
    → x.checked ≡ true
    → Presented p v presented
unfolding initialize
initialize-Presented p v none breaks {x} new e h =
    let same : v ≡ x = ap (λ r. r.0) (ok-inj e) in absurd (cc)
initialize-Presented p v (some none) breaks {x} new e h =
    let (r, checked, e1) = >>=-eq-ok (check p v none) _ e in
    absurd (
      check-nothing p v {w = r.0} new.0
        (checked ∙ ap (λ b. ok (r.0, b)) (and_true r.1 (not breaks) (ap (λ t. t.1) (ok-inj e1)))))
initialize-Presented p v (some (some c)) breaks {x} new e h =
    let (r, checked, e1) = >>=-eq-ok (check p v (some c)) _ e in
    record {
      certificate = c;
      is_presented = refl;
      trusted =
          (check-IsTrusted p v c {w = r.0} new.0 (
            checked
            ∙ ap (λ b. ok (r.0, b)) (and_true r.1 (not breaks) (ap (λ t. t.1) (ok-inj e1))))).1;
    }

conclude_facts :
    (s : Socket) (r : Verifier × Bool) {d : DialedConnection}
    → conclude true s r ≡ ok d
    → (r.1 ≡ true) × (r.0.checked ≡ true)
unfolding conclude
conclude_facts s (v, false) e = absurd (cc)
conclude_facts s (v, true) e = (refl, ground arith)

secure-Presented :
    (w : World) (o : DialOptions) (s : Socket) {d : DialedConnection}
    → o.tls_verify ≡ true
    → secure w o true s ≡ ok d
    → Presented w.platform (verifier_of w o) w.presented
unfolding secure
secure-Presented w o s {d} on e =
    let (t, _, e1) = >>=-eq-ok (as_coded (arm w.link s)) _ e in
    let (r, begun, e2) =
      >>=-eq-ok (as_faulted (initialize w.platform (verifier_of w o) w.presented w.breaks)) _ e1 in
    let (good, checked) = conclude_facts t r (subst (λ b. conclude b t r ≡ ok d) on e2) in
    let new =
      verifier-IsNew (sni_name o.host o.sni) o.ca_file o.tls_verify w.store_opened w.ca_roots in
    initialize-Presented w.platform (verifier_of w o) w.presented w.breaks {x = r.0}
      (new.0 ∙ on, new.1) (as_faulted-eq-ok _ begun ∙ ap (λ b. ok (r.0, b)) good) checked

reach-Completed :
    (w : World) (o : DialOptions) (proxy : ProxyTarget) (s : Socket) {t : Socket}
    → IsWellBehaved w.resolver
    → IsUsable proxy
    → o.port ≤ 65535
    → reach w o (some proxy) s ≡ ok t
    → Completed w.resolver proxy o.host o.port s t
unfolding reach
reach-Completed w o proxy s {t} well usable fits e = go (w.connects proxy.host proxy.port) e
  where
    go :
        (b : Bool)
        → (if b
            then as_coded (socks5_handshake w.link w.resolver proxy o.host o.port s)
            else err proxy_connect_refused)
          ≡ ok t
        → Completed w.resolver proxy o.host o.port s t
    go true e =
        socks5_handshake-Completed w.link w.resolver proxy o.host o.port s well usable fits
          (as_coded-eq-ok _ e)
    go false e = absurd (cc)

-- A TLS connection that is returned with verification on was made with a certificate that the
-- verifier of the dialled name trusts; no certificate at all is an error.
pub dial-Presented :
    (w : World) (o : DialOptions) (s : Socket) {d : DialedConnection}
    → o.ssl ≡ true
    → o.tls_verify ≡ true
    → dial w o s ≡ ok d
    → Presented w.platform (verifier_of w o) w.presented
unfolding dial
dial-Presented w o s {d} tls on e =
    let (t, _, e1) = >>=-eq-ok (as_coded (arm w.link s)) _ e in
    let (u, _, e2) = >>=-eq-ok (reach w o o.proxy t) _ e1 in
    secure-Presented w o u on (subst (λ b. secure w o b u ≡ ok d) tls e2)

-- The socket of a dialled connection.
abbrev pub socket_of : DialedConnection → Socket
socket_of (plain s) = s
socket_of (secured s) = s

-- What one socket has sent and can still receive is what another has.
abbrev pub Agree : Socket → Socket → Type 0
Agree s t = (t.sent ≡ s.sent) × (t.incoming ≡ s.incoming)

conclude-socket :
    (tls_verify : Bool) (s : Socket) (r : Verifier × Bool) {d : DialedConnection}
    → conclude tls_verify s r ≡ ok d
    → socket_of d ≡ s
unfolding conclude
conclude-socket b s (v, false) e = absurd (cc)
conclude-socket true s (v, true) e = go v.checked e
  where
    go :
        (c : Bool) {d : DialedConnection}
        → (if not c then err tls_no_certificate else ok (secured s)) ≡ ok d
        → socket_of d ≡ s
    go true e = ap socket_of (sym (ok-inj e))
    go false e = absurd (cc)
conclude-socket false s (v, true) e = ap socket_of (sym (ok-inj e))

secure-Agree :
    (w : World) (o : DialOptions) (ssl : Bool) (s : Socket) {d : DialedConnection}
    → secure w o ssl s ≡ ok d
    → Agree s (socket_of d)
unfolding secure
secure-Agree w o false s e =
    let same = ap socket_of (ok-inj e) in
    (ap (λ t. t.sent) (sym same), ap (λ t. t.incoming) (sym same))
secure-Agree w o true s e =
    let (t, armed, e1) = >>=-eq-ok (as_coded (arm w.link s)) _ e in
    let (r, _, e2) =
      >>=-eq-ok (as_faulted (initialize w.platform (verifier_of w o) w.presented w.breaks)) _ e1 in
    subst (Agree s) (sym (conclude-socket o.tls_verify t r e2))
      (arm-Exchange w.link s (as_coded-eq-ok _ armed))

-- What a dial through a proxy has done with its socket in front of the TLS handshake.
pub record Tunnelled (w : World) (o : DialOptions) (proxy : ProxyTarget) (s : Socket)
    (d : DialedConnection) : Type 0 where
  pub before : Socket
  pub after : Socket
  pub connected : w.connects proxy.host proxy.port ≡ true
  pub starts : Agree s before
  pub completed : Completed w.resolver proxy o.host o.port before after
  pub ends : Agree after (socket_of d)

reach-connects :
    (w : World) (o : DialOptions) (proxy : ProxyTarget) (s : Socket) {t : Socket}
    → reach w o (some proxy) s ≡ ok t
    → w.connects proxy.host proxy.port ≡ true
unfolding reach
reach-connects w o proxy s {t} e = elim (Bool-cases (w.connects proxy.host proxy.port)) [
  | inl q ↦ q
  | inr q ↦
      let refused : err proxy_connect_refused ≡ ok t =
        subst
          (λ b.
            (if b
              then as_coded (socks5_handshake w.link w.resolver proxy o.host o.port s)
              else err proxy_connect_refused)
            ≡ ok t)
          q e in
      absurd (cc)
]

-- A dial with a usable proxy, a port of 16 bits and a platform that is well-behaved that returns a
-- connection has connected to the proxy's address, and what
-- the connection's socket has sent and received in front of the TLS handshake, from the dial on, is
-- the proxy's completed handshake for the target: no dial with a proxy goes around it.
pub dial-Completed :
    (w : World) (o : DialOptions) (proxy : ProxyTarget) (s : Socket) {d : DialedConnection}
    → IsWellBehaved w.resolver
    → IsUsable proxy
    → o.port ≤ 65535
    → o.proxy ≡ some proxy
    → dial w o s ≡ ok d
    → Tunnelled w o proxy s d
unfolding dial
dial-Completed w o proxy s {d} well usable fits through e =
    let (t, armed, e1) = >>=-eq-ok (as_coded (arm w.link s)) _ e in
    let (u, reached, e2) = >>=-eq-ok (reach w o o.proxy t) _ e1 in
    let proxied : reach w o (some proxy) t ≡ ok u =
      subst (λ p. reach w o p t ≡ ok u) through reached in
    record {
      before = t;
      after = u;
      connected = reach-connects w o proxy t proxied;
      starts = arm-Exchange w.link s (as_coded-eq-ok _ armed);
      completed = reach-Completed w o proxy t well usable fits proxied;
      ends = secure-Agree w o o.ssl u e2;
    }
