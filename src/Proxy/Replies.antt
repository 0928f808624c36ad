-- ===== src/Proxy/Replies.antt =====
-- The reply codes of a SOCKS5 CONNECT (socket/Dial.cpp, ReplyCode) and the shape of a whole reply
-- (RFC 1928, section 6).
use lua_xenetwork.Prelude.{ℕ, ◌+◌, ◌<◌, ◌∷◌, Bytes, length, ◌==◌, if◌then◌else◌, ◌≡◌}
use lua_xenetwork.Proxy.Target.{
  DialCode, proxy_general_failure, proxy_not_allowed, proxy_network_unreachable,
  proxy_host_unreachable, proxy_target_refused, proxy_ttl_expired, proxy_command_unsupported,
  proxy_address_type_unsupported, proxy_reply_unknown,
}

unfoldable pub reply_code : ℕ → DialCode
reply_code code =
    if code == 0x01
    then proxy_general_failure
    else if code == 0x02
    then proxy_not_allowed
    else if code == 0x03
    then proxy_network_unreachable
    else if code == 0x04
    then proxy_host_unreachable
    else if code == 0x05
    then proxy_target_refused
    else if code == 0x06
    then proxy_ttl_expired
    else if code == 0x07
    then proxy_command_unsupported
    else if code == 0x08
    then proxy_address_type_unsupported
    else proxy_reply_unknown

-- What follows the four octets of a reply's header, by the kind of its bound address: the address
-- (after its length, for a name) and the two octets of a port.
pub data IsBound : ℕ → Bytes → Type 0 where
  bound_ipv4 : (rest : Bytes) → length rest ≡ 6 → IsBound 0x01 rest
  bound_ipv6 : (rest : Bytes) → length rest ≡ 18 → IsBound 0x04 rest
  bound_name : (n : ℕ) (rest : Bytes) → 0 < n → length rest ≡ n + 2 → IsBound 0x03 (n ∷ rest)

-- A reply that reports success.
pub data IsReply : Bytes → Type 0 where
  success :
      (reserved kind : ℕ) (bound : Bytes)
      → IsBound kind bound
      → IsReply (0x05 ∷ 0x00 ∷ reserved ∷ kind ∷ bound)
