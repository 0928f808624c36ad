-- ===== src/Http/Url.antt =====
-- The URL of a request (main.cpp, ParseHttpUrl).
use lua_xenetwork.Prelude.{
  ℕ, ◌≤◌, ◌<◌, Bool, true, false, not, ◌||◌, [], ◌∷◌, Option, none, some, Bytes, codes, is_empty,
  contains, cut, cut_last, strip_prefix, ltb, ◌==◌, if◌then◌else◌, Result, ok, err, throw_if,
  or_throw, ◌>>=◌, ◌>>◌, >>=-eq-ok, throw_if-eq-ok, ok-inj, ◌≡◌, refl, subst, arith,
}
use lua_xenetwork.Text.Numbers.{NumberError, Int32, stoi}

pub data UrlError : Type 0 where
  bad_scheme bad_brackets bad_authority bad_host_or_port : UrlError
  bad_port : NumberError → UrlError

pub record ParsedHttpUrl : Type 0 where
  pub host : Bytes
  pub path : Bytes
  pub port : ℕ
  pub ssl : Bool

-- Whether the scheme is https, and what follows it.
unfoldable pub read_scheme : Bytes → Option Bytes → Option Bytes → Option (Bool × Bytes)
read_scheme url (some rest) https = some (false, rest)
read_scheme url none (some rest) = some (true, rest)
read_scheme url none none = none

-- The authority, and the path from its slash on.
unfoldable pub split_path : Bytes → Option (Bytes × Bytes) → Bytes × Bytes
split_path url none = (url, b'/' ∷ [])
split_path url (some (authority, rest)) = (authority, b'/' ∷ rest)

unfoldable pub as_port : Result NumberError Int32 → Result UrlError Int32
as_port (ok n) = ok n
as_port (err e) = err (bad_port e)

unfoldable pub read_bracketed : Int32 → Option (Bytes × Bytes) → Result UrlError (Bytes × Int32)
read_bracketed standard none = err bad_brackets
read_bracketed standard (some (host, [])) = ok (host, standard)
read_bracketed standard (some (host, c ∷ port)) = do
  throw_if (not (c == b':')) bad_authority
  n ← as_port (stoi port)
  ok (host, n)

-- A port is read behind the only colon.
unfoldable pub read_plain : Int32 → Bytes → Option (Bytes × Bytes) → Result UrlError (Bytes × Int32)
read_plain standard authority none = ok (authority, standard)
read_plain standard authority (some (host, port)) =
    if contains b':' host
    then ok (authority, standard)
    else as_port (stoi port) >>= λ n. ok (host, n)

unfoldable pub read_authority : Int32 → Bytes → Result UrlError (Bytes × Int32)
read_authority standard [] = ok ([], standard)
read_authority standard (c ∷ s) =
    if c == b'['
    then read_bracketed standard (cut (b']' ∷ []) s)
    else read_plain standard (c ∷ s) (cut_last b':' (c ∷ s))

abbrev standard_port : Bool → Int32
standard_port ssl = record { negative = false; magnitude = if ssl then 443 else 80 }

unfoldable pub check_url : Bool → Bytes → Bytes × Int32 → Result UrlError ParsedHttpUrl
check_url ssl path (host, n) = do
  throw_if (is_empty host || (n.negative || n.magnitude == 0) || ltb 65535 n.magnitude)
      bad_host_or_port
  ok (record { host = host; path = path; port = n.magnitude; ssl = ssl })

unfoldable pub parse_http_url : Bytes → Result UrlError ParsedHttpUrl
parse_http_url url = do
  scheme ←
      or_throw
        (read_scheme url (strip_prefix (codes "http://") url) (strip_prefix (codes "https://") url))
        bad_scheme
  let target = split_path scheme.1 (cut (b'/' ∷ []) scheme.1)
  authority ← read_authority (standard_port scheme.0) target.0
  check_url scheme.0 target.1 authority

-- What a request relies on.
pub record IsRequestable (p : ParsedHttpUrl) : Type 0 where
  pub host_some : is_empty p.host ≡ false
  pub port_pos : 0 < p.port
  pub port_le : p.port ≤ 65535
  pub path_absolute : (rest : Bytes) × (p.path ≡ b'/' ∷ rest)

split_path-slash :
    (url : Bytes) (o : Option (Bytes × Bytes))
    → (rest : Bytes) × ((split_path url o).1 ≡ b'/' ∷ rest)
unfolding split_path
split_path-slash url none = ([], refl)
split_path-slash url (some (authority, rest)) = (rest, refl)

check_url-IsRequestable :
    (ssl : Bool) (path : Bytes) (a : Bytes × Int32) {p : ParsedHttpUrl}
    → (rest : Bytes) × (path ≡ b'/' ∷ rest)
    → check_url ssl path a ≡ ok p
    → IsRequestable p
unfolding check_url
check_url-IsRequestable ssl path (host, n) {p} slash e =
    let (fits, e1) =
      throw_if-eq-ok (is_empty host || (n.negative || n.magnitude == 0) || ltb 65535 n.magnitude)
        bad_host_or_port _ e in
    let some_host : is_empty host ≡ false = ground arith in
    let low : 0 < n.magnitude = ground arith in
    let high : n.magnitude ≤ 65535 = ground arith in
    subst IsRequestable (ok-inj e1)
      (record { host_some = some_host; port_pos = low; port_le = high; path_absolute = slash })

-- A URL that is accepted names a host, a port from 1 to 65535 and a path that starts with a slash,
-- whatever the port's text is.
pub parse_http_url-IsRequestable :
    (url : Bytes) {p : ParsedHttpUrl} → parse_http_url url ≡ ok p → IsRequestable p
unfolding parse_http_url
parse_http_url-IsRequestable url {p} e =
    let (scheme, _, e1) =
      >>=-eq-ok
        (or_throw
          (read_scheme url (strip_prefix (codes "http://") url)
            (strip_prefix (codes "https://") url))
          bad_scheme)
        _ e in
    let parts : Bytes × Bytes = split_path scheme.1 (cut (b'/' ∷ []) scheme.1) in
    let (a, _, e2) = >>=-eq-ok (read_authority (standard_port scheme.0) parts.0) _ e1 in
    check_url-IsRequestable scheme.0 parts.1 a
      (split_path-slash scheme.1 (cut (b'/' ∷ []) scheme.1)) e2
