-- ===== src/Proxy/Validity.antt =====
-- What a proxy URL that is accepted says (socket/Dial.cpp, ParseProxyUrl).
use lua_xenetwork.Prelude.{
  ℕ, ◌≤◌, ◌<◌, true, false, ◌||◌, [], ◌∷◌, Bytes, length, is_empty, contains, cut, ltb, ◌==◌,
  Result, ok, throw_if, or_throw, ◌>>=◌, ◌>>◌, >>=-eq-ok, throw_if-eq-ok, Option-cases, inl, inr,
  ◌≡◌, subst, arith,
}
use lua_xenetwork.Proxy.Target.{
  DialCode, proxy_url_invalid, ProxyTarget, Credentials, no_credentials, percent_decode,
  read_credentials, take_userinfo, take_scheme, take_authority, check_port, read_port,
  parse_proxy_url, split_userinfo,
}

-- What the handshake relies on: a port that fits, and lengths that fit one octet each. A password
-- may be empty, also beside a user name.
pub record IsUsable (t : ProxyTarget) : Type 0 where
  pub port_pos : 0 < t.port
  pub port_le : t.port ≤ 65535
  pub user_le : length t.user ≤ 255
  pub password_le : length t.password ≤ 255
  pub user_ne : t.has_credentials ≡ true → 0 < length t.user

record IsBounded (c : Credentials) : Type 0 where
  user_le : length c.user ≤ 255
  password_le : length c.password ≤ 255
  user_ne : c.given ≡ true → 0 < length c.user

is_empty-pos : (s : Bytes) → is_empty s ≡ false → 0 < length s
is_empty-pos [] e = absurd (cc)
is_empty-pos (c ∷ s) e = omega arith

read_credentials-IsBounded :
    (userinfo : Bytes) {c : Credentials} → read_credentials userinfo ≡ ok c → IsBounded c
unfolding read_credentials
read_credentials-IsBounded userinfo {c} e =
    let (user, p, e1) = >>=-eq-ok (percent_decode (split_userinfo userinfo).0) _ e in
    let (password, q, e2) = >>=-eq-ok (percent_decode (split_userinfo userinfo).1) _ e1 in
    let (fits, e3) =
      throw_if-eq-ok (is_empty user || ltb 255 (length user) || ltb 255 (length password))
        proxy_url_invalid _ e2 in
    go user password fits e3
  where
    go :
        (user password : Bytes)
        → (is_empty user || ltb 255 (length user) || ltb 255 (length password)) ≡ false
        → ◌≡◌ {A = Result DialCode Credentials}
            (ok (record { user = user; password = password; given = true }))
            (ok c)
        → IsBounded c
    go user password fits e = ground (arith, is_empty-pos user)

take_userinfo-IsBounded :
    (rest : Bytes) {c : Credentials} {after : Bytes}
    → take_userinfo rest ≡ ok (c, after)
    → IsBounded c
unfolding take_userinfo
take_userinfo-IsBounded rest {c} {after} e = elim (Option-cases (cut (b'@' ∷ []) rest)) [
  | inl q ↦
      let same : c ≡ no_credentials = ground arith in
      rw same
        (record { user_le = omega arith; password_le = omega arith; user_ne = λ h. absurd (cc) })
  | inr ((userinfo, tail), q) ↦
      let branch : (throw_if (contains b'@' tail) proxy_url_invalid
            >> (read_credentials userinfo >>= λ x. ok (x, tail)))
          ≡ ok (c, after) =
        rw (q, take_userinfo) at e in
      let (once, e1) = throw_if-eq-ok (contains b'@' tail) proxy_url_invalid _ branch in
      let (x, read, e2) = >>=-eq-ok (read_credentials userinfo) _ e1 in
      let same : x ≡ c = ground arith in
      subst IsBounded same (read_credentials-IsBounded userinfo read)
]

check_port_bounds :
    (authority text : Bytes) {port : ℕ}
    → check_port authority text ≡ ok port
    → (0 < port) × (port ≤ 65535)
unfolding check_port
check_port_bounds authority text e =
    let (sized, e1) = throw_if-eq-ok (is_empty text || ltb 5 (length text)) proxy_url_invalid _ e in
    let (port, read, e2) = >>=-eq-ok (or_throw (read_port 0 text) proxy_url_invalid) _ e1 in
    let (fits, e3) =
      throw_if-eq-ok (is_empty authority || port == 0 || ltb 65535 port) proxy_url_invalid _ e2 in
    ground arith

-- A URL that is accepted gives a port from 1 to 65535, a user name and a password of at most 255
-- bytes each, and a user name that is not empty where there are credentials.
pub parse_proxy_url-IsUsable :
    (widen : Bytes → Bytes) (url : Bytes) {t : ProxyTarget}
    → parse_proxy_url widen url ≡ ok t
    → IsUsable t
unfolding parse_proxy_url
parse_proxy_url-IsUsable widen url {t} e =
    let ((remote_dns, rest), p, e1) =
      >>=-eq-ok (or_throw (take_scheme url) proxy_url_invalid) _ e in
    let ((credentials, after), q, e2) = >>=-eq-ok (take_userinfo rest) _ e1 in
    let ((authority, text), r, e3) = >>=-eq-ok (take_authority after) _ e2 in
    let (port, s, e4) = >>=-eq-ok (check_port authority text) _ e3 in
    let bounded = take_userinfo-IsBounded rest q in
    let bounds = check_port_bounds authority text s in ground arith
