-- ===== src/Proxy/Target.antt =====
-- `struct ProxyTarget`, the error codes of a dial, PercentDecode and ParseProxyUrl
-- (socket/Dial.h and socket/Dial.cpp). The texts of the errors are not modelled, and
-- `MultiByteToWideChar` is the parameter `widen`.
use lua_xenetwork.Prelude.{
  ℕ, ◌+◌, ◌-◌, ◌*◌, Bool, true, false, ◌&&◌, ◌||◌, [], ◌∷◌, Option, none, some, Bytes, codes,
  length, drop, is_empty, contains, cut, cut_last, strip_prefix, ltb, leb, ◌==◌, if◌then◌else◌,
  Result, ok, err, throw_if, or_throw, ◌>>=◌, ◌>>◌,
}
use lua_xenetwork.Text.{lower_ascii}

pub record ProxyTarget : Type 0 where
  pub host : Bytes
  pub port : ℕ
  pub remote_dns : Bool
  pub user : Bytes
  pub password : Bytes
  pub has_credentials : Bool

-- The codes of `DialError` that a proxy's URL and handshake throw.
pub data DialCode : Type 0 where
  timeout proxy_url_invalid proxy_protocol_error proxy_timeout proxy_closed : DialCode
  proxy_no_acceptable_auth proxy_auth_failed proxy_target_name_invalid : DialCode
  proxy_dns_failed proxy_general_failure proxy_not_allowed : DialCode
  proxy_network_unreachable proxy_host_unreachable proxy_target_refused : DialCode
  proxy_ttl_expired proxy_command_unsupported proxy_address_type_unsupported : DialCode
  proxy_reply_unknown : DialCode

-- `HexDigit`; -1 is `none`.
unfoldable pub hex_digit : ℕ → Option ℕ
hex_digit c =
    if leb b'0' c && leb c b'9'
    then some (c - b'0')
    else if leb b'a' c && leb c b'f'
    then some (c - b'a' + 10)
    else if leb b'A' c && leb c b'F'
    then some (c - b'A' + 10)
    else none

-- One escaped byte in front of the decoded rest.
unfoldable pub decode_escape : Option ℕ → Option ℕ → Result DialCode Bytes → Result DialCode Bytes
decode_escape (some high) (some low) (ok rest) = ok ((high * 16 + low) ∷ rest)
decode_escape (some high) (some low) (err e) = err e
decode_escape (some high) none rest = err proxy_url_invalid
decode_escape none low rest = err proxy_url_invalid

unfoldable pub push : ℕ → Result DialCode Bytes → Result DialCode Bytes
push c (ok rest) = ok (c ∷ rest)
push c (err e) = err e

unfoldable pub percent_decode : Bytes → Result DialCode Bytes
unfolding hex_digit decode_escape push
percent_decode [] = ok []
percent_decode (c ∷ []) = if c == b'%' then err proxy_url_invalid else ok (c ∷ [])
percent_decode (c ∷ a ∷ []) =
    let rest = push c (percent_decode (a ∷ [])) in if c == b'%' then err proxy_url_invalid else rest
percent_decode (c ∷ a ∷ b ∷ s) =
    let escaped = decode_escape (hex_digit a) (hex_digit b) (percent_decode s) in
    let plain = push c (percent_decode (a ∷ b ∷ s)) in if c == b'%' then escaped else plain

-- The scheme: whether the proxy resolves names, and what follows.
unfoldable pub take_scheme : Bytes → Option (Bool × Bytes)
unfolding lower_ascii strip_prefix
take_scheme url = elim (strip_prefix (codes "socks5h://") (lower_ascii url)) [
  | some _ ↦ some (true, drop 10 url)
  | none ↦ elim (strip_prefix (codes "socks5://") (lower_ascii url)) [
    | some _ ↦ some (false, drop 9 url)
    | none ↦ none
  ]
]

pub record Credentials : Type 0 where
  pub user : Bytes
  pub password : Bytes
  pub given : Bool

abbrev pub no_credentials : Credentials
no_credentials = record { user = []; password = []; given = false }

-- The user name and the password at the first colon; with no colon the password is empty.
abbrev pub split_userinfo : Bytes → Bytes × Bytes
split_userinfo userinfo = elim (cut (b':' ∷ []) userinfo) [
  | none ↦ (userinfo, [])
  | some (a, b) ↦ (a, b)
]

unfoldable pub read_credentials : Bytes → Result DialCode Credentials
read_credentials userinfo = do
  user ← percent_decode (split_userinfo userinfo).0
  password ← percent_decode (split_userinfo userinfo).1
  throw_if (is_empty user || ltb 255 (length user) || ltb 255 (length password)) proxy_url_invalid
  ok (record { user = user; password = password; given = true })

-- What stands before an "@" is read as credentials.
unfoldable pub take_userinfo : Bytes → Result DialCode (Credentials × Bytes)
take_userinfo rest = elim (cut (b'@' ∷ []) rest) [
  | none ↦ ok (no_credentials, rest)
  | some (userinfo, after) ↦
      throw_if (contains b'@' after) proxy_url_invalid
      >> (read_credentials userinfo >>= λ c. ok (c, after))
]

-- The host, and the text from the port's colon on.
unfoldable pub take_bracketed : Bytes → Result DialCode (Bytes × Bytes)
take_bracketed inside = elim (cut (b']' ∷ []) inside) [
  | none ↦ err proxy_url_invalid
  | some (authority, []) ↦ err proxy_url_invalid
  | some (authority, c ∷ port) ↦ if c == b':' then ok (authority, port) else err proxy_url_invalid
]

abbrev or_bad_url : Option (Bytes × Bytes) → Result DialCode (Bytes × Bytes)
or_bad_url o = or_throw o proxy_url_invalid

-- The host, and the port's text.
unfoldable pub take_authority : Bytes → Result DialCode (Bytes × Bytes)
take_authority [] = err proxy_url_invalid
take_authority (c ∷ s) = if c == b'[' then take_bracketed s else or_bad_url (cut_last b':' (c ∷ s))

-- The digits' value; `none` at any other byte.
unfoldable pub read_port : ℕ → Bytes → Option ℕ
read_port value [] = some value
read_port value (c ∷ s) =
    if ltb c b'0' || ltb b'9' c then none else read_port (value * 10 + (c - b'0')) s

unfoldable pub check_port : Bytes → Bytes → Result DialCode ℕ
check_port authority text = do
  throw_if (is_empty text || ltb 5 (length text)) proxy_url_invalid
  port ← or_throw (read_port 0 text) proxy_url_invalid
  throw_if (is_empty authority || port == 0 || ltb 65535 port) proxy_url_invalid
  ok port

unfoldable pub parse_proxy_url : (Bytes → Bytes) → Bytes → Result DialCode ProxyTarget
parse_proxy_url widen url = do
  (remote_dns, rest) ← or_throw (take_scheme url) proxy_url_invalid
  (credentials, after) ← take_userinfo rest
  (authority, port_text) ← take_authority after
  port ← check_port authority port_text
  ok (record {
    host = widen authority;
    port = port;
    remote_dns = remote_dns;
    user = credentials.user;
    password = credentials.password;
    has_credentials = credentials.given;
  })
