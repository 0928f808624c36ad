-- ===== src/Proxy/Handshake.antt =====
-- The exchange with a SOCKS5 proxy (socket/Dial.cpp, Socks5Handshake): the choice of a method, the
-- RFC 1929 authentication, and the CONNECT with its whole reply.
pub mod Auth
pub mod Sound
use lua_xenetwork.Prelude.{
  ℕ, ◌%◌, Bool, true, false, not, ◌&&◌, List, [], ◌∷◌, ◌++◌, Bytes, length, ◌==◌, if◌then◌else◌,
  Result, ok, err, throw_if, ◌>>=◌, ◌>>◌,
}
use lua_xenetwork.Proxy.Target.{
  DialCode, ProxyTarget, proxy_protocol_error, proxy_no_acceptable_auth, proxy_auth_failed,
  proxy_closed,
}
use lua_xenetwork.Proxy.Request.{Resolver, connect_request}
use lua_xenetwork.Proxy.Wire.{Link, Socket, send_all, recv_exact}
use lua_xenetwork.Proxy.Replies.{reply_code}

-- The method list: no authentication, and a user name with a password if there are some.
unfoldable pub greeting : Bool → Bytes
greeting true = 0x05 ∷ 0x02 ∷ 0x00 ∷ 0x02 ∷ []
greeting false = 0x05 ∷ 0x01 ∷ 0x00 ∷ []

-- The method that the proxy's two octets choose. RecvExact never gives any other number of octets.
unfoldable pub read_choice : Bytes → Result DialCode ℕ
read_choice (version ∷ method ∷ []) = do
  throw_if (not (version == 0x05)) proxy_protocol_error
  throw_if (method == 0xFF) proxy_no_acceptable_auth
  throw_if (not (method == 0x00) && not (method == 0x02)) proxy_no_acceptable_auth
  ok method
read_choice _ = err proxy_closed

unfoldable pub negotiate : Link → Bool → Socket → Result DialCode (ℕ × Socket)
negotiate link has_credentials s = do
  t ← send_all link (greeting has_credentials) s
  choice ← recv_exact link 2 t
  method ← read_choice choice.0
  ok (method, choice.1)

unfoldable pub authentication : ProxyTarget → Bytes
authentication target =
    0x01
    ∷ (length target.user % 256)
    ∷ (target.user ++ ((length target.password % 256) ∷ target.password))

unfoldable pub read_verdict : Bytes → Socket → Result DialCode Socket
read_verdict (version ∷ status ∷ []) s = do
  throw_if (not (version == 0x01)) proxy_protocol_error
  throw_if (not (status == 0x00)) proxy_auth_failed
  ok s
read_verdict _ s = err proxy_closed

-- RFC 1929, only when the proxy picked it.
unfoldable pub authenticate : Link → ProxyTarget → Bool → Socket → Result DialCode Socket
authenticate link target false s = ok s
authenticate link target true s = do
  throw_if (not target.has_credentials) proxy_no_acceptable_auth
  t ← send_all link (authentication target) s
  verdict ← recv_exact link 2 t
  read_verdict verdict.0 verdict.1

-- The kind of the bound address, from the header of a reply.
unfoldable pub read_header : Bytes → Result DialCode ℕ
read_header (version ∷ code ∷ reserved ∷ kind ∷ []) = do
  throw_if (not (version == 0x05)) proxy_protocol_error
  throw_if (not (code == 0x00)) (reply_code code)
  ok kind
read_header _ = err proxy_closed

unfoldable pub read_name_length : Bytes → Socket → Result DialCode (ℕ × Socket)
read_name_length (n ∷ []) s = do throw_if (n == 0) proxy_protocol_error; ok (n, s)
read_name_length _ s = err proxy_closed

-- How long the bound address is. A name's length is one more octet.
unfoldable pub address_length : Link → ℕ → Socket → Result DialCode (ℕ × Socket)
address_length link kind s =
    if kind == 0x01
    then ok (4, s)
    else if kind == 0x04
    then ok (16, s)
    else if kind == 0x03
    then (recv_exact link 1 s >>= λ l. read_name_length l.0 l.1)
    else err proxy_protocol_error

unfoldable pub read_bound : Link → ℕ → Socket → Result DialCode Socket
read_bound link n s = do
  address ← recv_exact link n s
  port ← recv_exact link 2 address.1
  ok port.1

unfoldable pub connect : Link → Bytes → Socket → Result DialCode Socket
connect link request s = do
  t ← send_all link request s
  header ← recv_exact link 4 t
  kind ← read_header header.0
  sized ← address_length link kind header.1
  read_bound link sized.0 sized.1

unfoldable pub socks5_handshake :
    Link → Resolver → ProxyTarget → Bytes → ℕ → Socket → Result DialCode Socket
socks5_handshake link r target host port s = do
  chosen ← negotiate link target.has_credentials s
  t ← authenticate link target (chosen.0 == 0x02) chosen.1
  request ← connect_request r target.remote_dns host port
  connect link request t
