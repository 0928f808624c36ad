-- ===== src/Proxy/Handshake/Sound.antt =====
-- What a handshake that returns has exchanged (socket/Dial.cpp, Socks5Handshake).
use lua_xenetwork.Prelude.{
  ℕ, ◌+◌, ◌≤◌, ◌<◌, Bool, some, true, false, not, [], ◌∷◌, ◌++◌, Bytes, length, length-append, ◌==◌,
  ok, >>=-eq-ok, throw_if-eq-ok, ok-inj, append-nil, ◌≡◌, refl, sym, ap, ◌∙◌, inl, inr, Bool-cases,
  subst, arith,
}
use lua_xenetwork.Proxy.Target.{ProxyTarget, proxy_protocol_error}
use lua_xenetwork.Proxy.Request.{
  Resolver, connect_request, read_request, domain, IsWellBehaved, Local, connect_request-remote,
  connect_request-Local,
}
use lua_xenetwork.Proxy.Validity.{IsUsable}
use lua_xenetwork.Proxy.Wire.{Link, Socket, send_all, recv_exact}
use lua_xenetwork.Proxy.Wire.Exact.{
  Exchange, Exchange-trans, send_all-Exchange, recv_exact-Exchange,
}
use lua_xenetwork.Proxy.Replies.{
  reply_code, IsBound, bound_ipv4, bound_ipv6, bound_name, IsReply, success,
}
use lua_xenetwork.Proxy.Handshake.{
  greeting, negotiate, authenticate, read_header, read_name_length, address_length, read_bound,
  connect, socks5_handshake,
}
use lua_xenetwork.Proxy.Handshake.Auth.{
  IsMethod, IsMethodList, greeting-IsMethodList, IsLogin, asked-IsLogin, asked, verdict,
  negotiate-Exchange, authenticate-Exchange,
}

abbrev IsHeader : ℕ → Bytes → Type 0
IsHeader kind h = (reserved : ℕ) × (h ≡ 0x05 ∷ 0x00 ∷ reserved ∷ kind ∷ [])

read_header_lem : (h : Bytes) {kind : ℕ} → read_header h ≡ ok kind → IsHeader kind h
unfolding read_header
read_header_lem [] e = absurd (cc)
read_header_lem (v ∷ []) e = absurd (cc)
read_header_lem (v ∷ c ∷ []) e = absurd (cc)
read_header_lem (v ∷ c ∷ r ∷ []) e = absurd (cc)
read_header_lem (v ∷ c ∷ r ∷ k ∷ []) {kind} e =
    let (q1, e1) = throw_if-eq-ok (not (v == 0x05)) proxy_protocol_error _ e in
    let (q2, e2) = throw_if-eq-ok (not (c == 0x00)) (reply_code c) _ e1 in
    let version : v ≡ 5 = ground arith in
    let code : c ≡ 0 = ground arith in
    (
      r,
      ap (λ x. x ∷ c ∷ r ∷ k ∷ []) version
          ∙ ap (λ x. 0x05 ∷ x ∷ r ∷ k ∷ []) code
          ∙ ap (λ x. 0x05 ∷ 0x00 ∷ r ∷ x ∷ []) (ok-inj e2),
    )
read_header_lem (v ∷ c ∷ r ∷ k ∷ x ∷ t) e = absurd (cc)

-- The octets that hold the length of a bound address of this kind, if it is `n`.
data Sizes : ℕ → Bytes → ℕ → Type 0 where
  four : Sizes 0x01 [] 4
  sixteen : Sizes 0x04 [] 16
  named : (n : ℕ) → 0 < n → Sizes 0x03 (n ∷ []) n

read_name_length_lem :
    (l : Bytes) (s : Socket) {n : ℕ} {t : Socket}
    → read_name_length l s ≡ ok (n, t)
    → (l ≡ n ∷ []) × (0 < n) × (s ≡ t)
unfolding read_name_length
read_name_length_lem [] s e = absurd (cc)
read_name_length_lem (m ∷ []) s {n} {t} e =
    let (q, e1) = throw_if-eq-ok (m == 0) proxy_protocol_error _ e in
    let positive : 0 < m = ground arith in
    subst (λ x. (m ∷ [] ≡ x.0 ∷ []) × (0 < x.0) × (s ≡ x.1)) (ok-inj e1) (refl, positive, refl)
read_name_length_lem (m ∷ x ∷ r) s e = absurd (cc)

Exchange-refl : (s : Socket) → Exchange [] [] s s
Exchange-refl s = record { out_eq = sym (append-nil s.sent); inn_eq = refl }

-- What is known of the address's size, for a kind that has one.
abbrev Sized : Socket → ℕ → ℕ × Socket → Type 0
Sized s kind x = (octets : Bytes) × Sizes kind octets x.0 × Exchange [] octets s x.1

named-Sized :
    (link : Link) (s : Socket) {n : ℕ} {t : Socket}
    → address_length link 0x03 s ≡ ok (n, t)
    → Sized s 0x03 (n, t)
unfolding address_length
named-Sized link s {n} {t} e =
    let (l, got, e1) = >>=-eq-ok (recv_exact link 1 s) _ e in
    let (shape, positive, same) = read_name_length_lem l.0 l.1 e1 in
    let (_, read) = recv_exact-Exchange link 1 s got in
    (
      n ∷ [],
      named n positive,
      subst (λ x. Exchange [] (n ∷ []) s x) same (subst (λ x. Exchange [] x s l.1) shape read),
    )

address_length-Sizes :
    (link : Link) (kind : ℕ) (s : Socket) {n : ℕ} {t : Socket}
    → address_length link kind s ≡ ok (n, t)
    → Sized s kind (n, t)
unfolding address_length
address_length-Sizes link kind s {n} {t} e = elim (Bool-cases (kind == 0x01)) [
  | inl q ↦
      let k : kind ≡ 0x01 = ground arith in
      let e1 : ok (4, s) ≡ ok (n, t) = subst (λ x. address_length link x s ≡ ok (n, t)) k e in
      subst (λ x. Sized s x (n, t)) (sym k)
        (subst (λ x. Sized s 0x01 x) (ok-inj e1) ([], four, Exchange-refl s))
  | inr q1 ↦ elim (Bool-cases (kind == 0x04)) [
    | inl q ↦
        let k : kind ≡ 0x04 = ground arith in
        let e1 : ok (16, s) ≡ ok (n, t) = subst (λ x. address_length link x s ≡ ok (n, t)) k e in
        subst (λ x. Sized s x (n, t)) (sym k)
          (subst (λ x. Sized s 0x04 x) (ok-inj e1) ([], sixteen, Exchange-refl s))
    | inr q4 ↦ elim (Bool-cases (kind == 0x03)) [
      | inl q ↦
          let k : kind ≡ 0x03 = ground arith in
          subst (λ x. Sized s x (n, t)) (sym k)
            (named-Sized link s (subst (λ x. address_length link x s ≡ ok (n, t)) k e))
      | inr q3 ↦ absurd (ground arith)
    ]
  ]
]

read_bound-Exchange :
    (link : Link) (n : ℕ) (s : Socket) {t : Socket}
    → read_bound link n s ≡ ok t
    → (bound : Bytes) × (length bound ≡ n + 2) × Exchange [] bound s t
unfolding read_bound
read_bound-Exchange link n s e =
    let (a, got, e1) = >>=-eq-ok (recv_exact link n s) _ e in
    let (p, last, e2) = >>=-eq-ok (recv_exact link 2 a.1) _ e1 in
    let (size, read) = recv_exact-Exchange link n s got in
    let (two, end) = recv_exact-Exchange link 2 a.1 last in
    (
      a.0 ++ p.0,
      length-append a.0 p.0 ∙ omega arith,
      subst (λ x. Exchange [] (a.0 ++ p.0) s x) (ok-inj e2) (Exchange-trans read end),
    )

Sizes-IsBound :
    {kind n : ℕ} {octets : Bytes} (bound : Bytes)
    → Sizes kind octets n
    → length bound ≡ n + 2
    → IsBound kind (octets ++ bound)
Sizes-IsBound bound four h = bound_ipv4 bound h
Sizes-IsBound bound sixteen h = bound_ipv6 bound h
Sizes-IsBound bound (named n positive) h = bound_name n bound positive h

connect-Exchange :
    (link : Link) (request : Bytes) (s : Socket) {t : Socket}
    → connect link request s ≡ ok t
    → (reply : Bytes) × IsReply reply × Exchange request reply s t
unfolding connect
connect-Exchange link request s {t} e =
    let (t1, sent, e1) = >>=-eq-ok (send_all link request s) _ e in
    let (h, got, e2) = >>=-eq-ok (recv_exact link 4 t1) _ e1 in
    let (kind, header, e3) = >>=-eq-ok (read_header h.0) _ e2 in
    let (sized, measured, e4) = >>=-eq-ok (address_length link kind h.1) _ e3 in
    let (reserved, shape) = read_header_lem h.0 header in
    let (octets, size, read2) = address_length-Sizes link kind h.1 measured in
    let (bound, enough, read3) = read_bound-Exchange link sized.0 sized.1 e4 in
    let (_, read1) = recv_exact-Exchange link 4 t1 got in
    let whole : Exchange (request ++ []) (h.0 ++ (octets ++ bound)) s t =
      Exchange-trans (send_all-Exchange link request s sent)
        (Exchange-trans read1 (Exchange-trans read2 read3)) in
    (
      0x05 ∷ 0x00 ∷ reserved ∷ kind ∷ (octets ++ bound),
      success reserved kind (octets ++ bound) (Sizes-IsBound bound size enough),
      subst (λ x. Exchange x (0x05 ∷ 0x00 ∷ reserved ∷ kind ∷ (octets ++ bound)) s t)
          (append-nil request)
          (subst (λ x. Exchange (request ++ []) (x ++ (octets ++ bound)) s t) shape whole),
    )

-- What the request says to a reader of RFC 1928: the target's own name, or an address of it, and
-- the port.
pub data Requests (r : Resolver) (host : Bytes) (port : ℕ) : Bool → Bytes → Type 0 where
  by_name :
      {request : Bytes}
      → read_request request ≡ some (domain (r.utf8 host) port)
      → Requests r host port true request
  by_address :
      {request : Bytes}
      → Local r host port (read_request request)
      → Requests r host port false request

connect_request-Requests :
    (r : Resolver) (remote_dns : Bool) (host : Bytes) (port : ℕ) {request : Bytes}
    → IsWellBehaved r
    → port ≤ 65535
    → connect_request r remote_dns host port ≡ ok request
    → Requests r host port remote_dns request
connect_request-Requests r true host port w h e = by_name (connect_request-remote r host port h e)
connect_request-Requests r false host port w h e =
    by_address (connect_request-Local r host port w h e)

-- The whole exchange of a handshake that returns.
pub record Completed (r : Resolver) (target : ProxyTarget) (host : Bytes) (port : ℕ) (s t : Socket)
    : Type 0 where
  pub method : ℕ
  pub method_list : Bytes
  pub message : Bytes
  pub request : Bytes
  pub reply : Bytes
  pub listed : IsMethodList target.has_credentials method_list
  pub method_known : IsMethod method
  pub logged_in : IsLogin target (method == 0x02) message
  pub requested : Requests r host port target.remote_dns request
  pub reply_whole : IsReply reply
  pub exchange :
      Exchange
        (method_list ++ (message ++ request))
        ((0x05 ∷ method ∷ []) ++ (verdict (method == 0x02) ++ reply))
        s
        t

-- A handshake that returns, for a usable proxy, a port of 16 bits and a platform that is
-- well-behaved, has sent RFC 1928's list
-- of the methods 0 and, beside credentials, 2; then, exactly when the proxy chose method 2, a message
-- that RFC 1929 reads as the user name and password (which may be empty, against the RFC); then a
-- CONNECT request that RFC 1928 reads as the target's name or its address, and its port. It has read
-- the proxy's choice, a successful verdict exactly when it sent the credentials, and one whole
-- successful reply with its bound address and port, and no byte after it.
pub socks5_handshake-Completed :
    (link : Link) (r : Resolver) (target : ProxyTarget) (host : Bytes) (port : ℕ) (s : Socket)
    {t : Socket}
    → IsWellBehaved r
    → IsUsable target
    → port ≤ 65535
    → socks5_handshake link r target host port s ≡ ok t
    → Completed r target host port s t
unfolding socks5_handshake
socks5_handshake-Completed link r target host port s {t} w u h e =
    let (chosen, m, e1) = >>=-eq-ok (negotiate link target.has_credentials s) _ e in
    let (t1, a, e2) = >>=-eq-ok (authenticate link target (chosen.0 == 0x02) chosen.1) _ e1 in
    let (request, q, e3) = >>=-eq-ok (connect_request r target.remote_dns host port) _ e2 in
    let (known, x1) = negotiate-Exchange link target.has_credentials s m in
    let (given, x2) = authenticate-Exchange link target (chosen.0 == 0x02) chosen.1 a in
    let (reply, whole, x3) = connect-Exchange link request t1 e3 in
    record {
      method = chosen.0;
      method_list = greeting target.has_credentials;
      message = asked target (chosen.0 == 0x02);
      request = request;
      reply = reply;
      listed = greeting-IsMethodList target.has_credentials;
      method_known = known;
      logged_in = asked-IsLogin target (chosen.0 == 0x02) u.user_le u.password_le given;
      requested = connect_request-Requests r target.remote_dns host port w h q;
      reply_whole = whole;
      exchange = Exchange-trans x1 (Exchange-trans x2 x3);
    }
