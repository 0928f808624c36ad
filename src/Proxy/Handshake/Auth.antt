-- ===== src/Proxy/Handshake/Auth.antt =====
-- The negotiation and the authentication of a handshake (socket/Dial.cpp, Socks5Handshake).
use lua_xenetwork.Prelude.{
  ℕ, ◌%◌, ◌≤◌, Option, none, some, length, take, drop, take-length, drop-length, if◌then◌else◌,
  Bool, true, false, not, ◌&&◌, [], ◌∷◌, ◌++◌, Bytes, ◌==◌, ok, >>=-eq-ok, throw_if-eq-ok, ok-inj,
  append-nil, ◌≡◌, refl, sym, ap, ◌∙◌, ◌⊎◌, subst, arith,
}
use lua_xenetwork.Proxy.Target.{
  ProxyTarget, proxy_protocol_error, proxy_no_acceptable_auth, proxy_auth_failed,
}
use lua_xenetwork.Proxy.Wire.{Link, Socket, send_all, recv_exact}
use lua_xenetwork.Proxy.Wire.Exact.{
  Exchange, Exchange-trans, send_all-Exchange, recv_exact-Exchange,
}
use lua_xenetwork.Proxy.Handshake.{
  greeting, read_choice, negotiate, authentication, read_verdict, authenticate,
}

-- The methods that go on: none, or user name and password.
abbrev pub IsMethod : ℕ → Type 0
IsMethod method = (method ≡ 0x00) ⊎ (method ≡ 0x02)

read_choice_lem :
    (c : Bytes) {method : ℕ}
    → read_choice c ≡ ok method
    → (c ≡ 0x05 ∷ method ∷ []) × IsMethod method
unfolding read_choice
read_choice_lem [] e = absurd (cc)
read_choice_lem (v ∷ []) e = absurd (cc)
read_choice_lem (v ∷ m ∷ []) {method} e =
    let (q1, e1) = throw_if-eq-ok (not (v == 0x05)) proxy_protocol_error _ e in
    let (q2, e2) = throw_if-eq-ok (m == 0xFF) proxy_no_acceptable_auth _ e1 in
    let (q3, e3) =
      throw_if-eq-ok (not (m == 0x00) && not (m == 0x02)) proxy_no_acceptable_auth _ e2 in
    let version : v ≡ 5 = ground arith in
    let known : IsMethod m = ground arith in
    subst (λ x. (v ∷ m ∷ [] ≡ 0x05 ∷ x ∷ []) × IsMethod x) (ok-inj e3)
      (ap (λ x. x ∷ m ∷ []) version, known)
read_choice_lem (v ∷ m ∷ x ∷ r) e = absurd (cc)

-- The method list of RFC 1928, section 3: version 5, the number of methods, and the methods, which
-- are 0 (no authentication) and, beside credentials, 2 (user name and password).
pub data IsMethodList : Bool → Bytes → Type 0 where
  none_only : IsMethodList false (5 ∷ 1 ∷ 0 ∷ [])
  with_password : IsMethodList true (5 ∷ 2 ∷ 0 ∷ 2 ∷ [])

pub greeting-IsMethodList : (has : Bool) → IsMethodList has (greeting has)
unfolding greeting
greeting-IsMethodList true = with_password
greeting-IsMethodList false = none_only

-- What an RFC 1929 server reads out of a message: the user name and the password, each behind an
-- octet with its length, and nothing after them. Unlike the RFC it takes a length of 0.
abbrev read_password : Bytes → Bytes → Option (Bytes × Bytes)
read_password user [] = none
read_password user (n ∷ password) = if length password == n then some (user, password) else none

abbrev pub read_login : Bytes → Option (Bytes × Bytes)
read_login (version ∷ n ∷ rest) =
    if version == 1 then read_password (take n rest) (drop n rest) else none
read_login _ = none

-- The message by which a server with this choice is asked.
pub data IsLogin (target : ProxyTarget) : Bool → Bytes → Type 0 where
  no_login : IsLogin target false []
  login :
      {message : Bytes}
      → target.has_credentials ≡ true
      → read_login message ≡ some (target.user, target.password)
      → IsLogin target true message

authentication-read :
    (target : ProxyTarget)
    → length target.user ≤ 255
    → length target.password ≤ 255
    → read_login (authentication target) ≡ some (target.user, target.password)
unfolding authentication
authentication-read target h k =
    let user_octet : length target.user % 256 ≡ length target.user = omega arith in
    let password_octet : length target.password % 256 ≡ length target.password = omega arith in
    let matched : (length target.password == length target.password) ≡ true = ground arith in
    rw
      (
        user_octet,
        password_octet,
        take-length target.user (length target.password ∷ target.password),
        drop-length target.user (length target.password ∷ target.password),
        matched,
      )
      refl

pub negotiate-Exchange :
    (link : Link) (has : Bool) (s : Socket) {method : ℕ} {t : Socket}
    → negotiate link has s ≡ ok (method, t)
    → IsMethod method × Exchange (greeting has) (0x05 ∷ method ∷ []) s t
unfolding negotiate
negotiate-Exchange link has s {method} {t} e =
    let (t1, sent, e1) = >>=-eq-ok (send_all link (greeting has) s) _ e in
    let (c, got, e2) = >>=-eq-ok (recv_exact link 2 t1) _ e1 in
    let (m, chosen, e3) = >>=-eq-ok (read_choice c.0) _ e2 in
    let (shape, known) = read_choice_lem c.0 chosen in
    let (_, read) = recv_exact-Exchange link 2 t1 got in
    subst (λ x. IsMethod x.0 × Exchange (greeting has) (0x05 ∷ x.0 ∷ []) s x.1) (ok-inj e3)
      (
        known,
        subst (λ x. Exchange x (0x05 ∷ m ∷ []) s c.1) (append-nil (greeting has))
            (subst (λ x. Exchange (greeting has ++ []) x s c.1) shape
              (Exchange-trans (send_all-Exchange link (greeting has) s sent) read)),
      )

-- What the authentication adds to the two directions, when the proxy asked for it.
abbrev pub asked : ProxyTarget → Bool → Bytes
asked target true = authentication target
asked target false = []

abbrev pub verdict : Bool → Bytes
verdict true = 0x01 ∷ 0x00 ∷ []
verdict false = []

read_verdict_lem :
    (v : Bytes) (s : Socket) {t : Socket}
    → read_verdict v s ≡ ok t
    → (v ≡ 0x01 ∷ 0x00 ∷ []) × (s ≡ t)
unfolding read_verdict
read_verdict_lem [] s e = absurd (cc)
read_verdict_lem (v ∷ []) s e = absurd (cc)
read_verdict_lem (v ∷ m ∷ []) s {t} e =
    let (q1, e1) = throw_if-eq-ok (not (v == 0x01)) proxy_protocol_error _ e in
    let (q2, e2) = throw_if-eq-ok (not (m == 0x00)) proxy_auth_failed _ e1 in
    let version : v ≡ 1 = ground arith in
    let status : m ≡ 0 = ground arith in
    (ap (λ x. x ∷ m ∷ []) version ∙ ap (λ x. 0x01 ∷ x ∷ []) status, ok-inj e2)
read_verdict_lem (v ∷ m ∷ x ∷ r) s e = absurd (cc)

pub authenticate-Exchange :
    (link : Link) (target : ProxyTarget) (chosen : Bool) (s : Socket) {t : Socket}
    → authenticate link target chosen s ≡ ok t
    → (chosen ≡ true → target.has_credentials ≡ true)
      × Exchange (asked target chosen) (verdict chosen) s t
unfolding authenticate
authenticate-Exchange link target false s {t} e = (
  λ h. absurd (cc),
  subst (λ x. Exchange [] [] s x) (ok-inj e)
      (record { out_eq = sym (append-nil s.sent); inn_eq = refl }),
)
authenticate-Exchange link target true s {t} e =
    let (q, e0) = throw_if-eq-ok (not target.has_credentials) proxy_no_acceptable_auth _ e in
    let (t1, sent, e1) = >>=-eq-ok (send_all link (authentication target) s) _ e0 in
    let (v, got, e2) = >>=-eq-ok (recv_exact link 2 t1) _ e1 in
    let (shape, same) = read_verdict_lem v.0 v.1 e2 in
    let (_, read) = recv_exact-Exchange link 2 t1 got in
    let given : target.has_credentials ≡ true = ground arith in
    (
      λ h. given,
      subst (λ x. Exchange (authentication target) (0x01 ∷ 0x00 ∷ []) s x) same
          (subst (λ x. Exchange x (0x01 ∷ 0x00 ∷ []) s v.1) (append-nil (authentication target))
            (subst (λ x. Exchange (authentication target ++ []) x s v.1) shape
              (Exchange-trans (send_all-Exchange link (authentication target) s sent) read))),
    )

pub asked-IsLogin :
    (target : ProxyTarget) (chosen : Bool)
    → length target.user ≤ 255
    → length target.password ≤ 255
    → (chosen ≡ true → target.has_credentials ≡ true)
    → IsLogin target chosen (asked target chosen)
asked-IsLogin target false h k given = no_login
asked-IsLogin target true h k given = login (given refl) (authentication-read target h k)
