-- ===== src/Dial.antt =====
-- Reaching a server (socket/Dial.cpp, Dial): the connection, the proxy, and the TLS handshake with
-- the verifier as its hook. Connecting and the rest of the TLS handshake are answers of the `World`.
pub mod Outcome
use lua_xenetwork.Prelude.{
  ℕ, Bool, true, false, not, ◌&&◌, List, Option, none, some, Bytes, if◌then◌else◌, Result, ok, err,
  ◌>>=◌,
}
use lua_xenetwork.Tls.Der.{Fault}
use lua_xenetwork.Tls.Verifier.{
  Code, Verifier, Certificate, Platform, verifier, sni_name, check, passed,
}
use lua_xenetwork.Proxy.Target.{DialCode, ProxyTarget}
use lua_xenetwork.Proxy.Request.{Resolver}
use lua_xenetwork.Proxy.Wire.{Link, Socket, arm}
use lua_xenetwork.Proxy.Handshake.{socks5_handshake}

pub record DialOptions : Type 0 where
  pub host : Bytes
  pub port : ℕ
  pub ssl : Bool
  pub sni : Bytes
  pub proxy : Option ProxyTarget
  pub ca_file : Bytes
  pub tls_verify : Bool

-- The codes of the errors; a fault of the certificate's reading is kept apart.
pub data DialError : Type 0 where
  coded : DialCode → DialError
  proxy_connect_refused connect_failed tls_handshake_failed tls_no_certificate : DialError
  refused : Option Code → DialError
  faulted : Fault → DialError

-- The times and sends of the socket, the resolver, the certificate platform, whether `Connect`
-- succeeds, the file of roots, the certificate that the TLS handshake hands to the hook (nothing if
-- it never does), and whether that handshake fails for a reason of its own.
pub record World : Type 0 where
  pub link : Link
  pub resolver : Resolver
  pub platform : Platform
  pub connects : Bytes → ℕ → Bool
  pub store_opened : Bool
  pub ca_roots : Option (List Bytes)
  pub presented : Option (Option Certificate)
  pub breaks : Bool

pub data DialedConnection : Type 0 where
  plain secured : Socket → DialedConnection

abbrev pub as_coded : {A : Type 0} → Result DialCode A → Result DialError A
as_coded (ok x) = ok x
as_coded (err e) = err (coded e)

abbrev pub as_faulted : {A : Type 0} → Result Fault A → Result DialError A
as_faulted (ok x) = ok x
as_faulted (err e) = err (faulted e)

-- A proxy is dialled instead of the target; there is no way around it.
unfoldable pub reach : World → DialOptions → Option ProxyTarget → Socket → Result DialError Socket
reach w o none s = if w.connects o.host o.port then ok s else err connect_failed
reach w o (some proxy) s =
    if w.connects proxy.host proxy.port
    then as_coded (socks5_handshake w.link w.resolver proxy o.host o.port s)
    else err proxy_connect_refused

abbrev pub verifier_of : World → DialOptions → Verifier
verifier_of w o = verifier (sni_name o.host o.sni) o.ca_file o.tls_verify w.store_opened w.ca_roots

-- The TLS handshake as seen by the verifier: its hook is given one certificate, or none, and when it
-- refuses that the handshake fails.
unfoldable pub initialize :
    Platform → Verifier → Option (Option Certificate) → Bool → Result Fault (Verifier × Bool)
initialize p v none breaks = ok (v, not breaks)
initialize p v (some certificate) breaks =
    check p v certificate >>= λ r. ok (r.0, r.1 && not breaks)

unfoldable pub conclude : Bool → Socket → Verifier × Bool → Result DialError DialedConnection
conclude tls_verify s (v, false) =
    err (if v.checked && not (passed v) then refused v.code else tls_handshake_failed)
conclude tls_verify s (v, true) =
    if tls_verify && not v.checked then err tls_no_certificate else ok (secured s)

unfoldable pub secure : World → DialOptions → Bool → Socket → Result DialError DialedConnection
secure w o false s = ok (plain s)
secure w o true s = do
  t ← as_coded (arm w.link s)
  r ← as_faulted (initialize w.platform (verifier_of w o) w.presented w.breaks)
  conclude o.tls_verify t r

unfoldable pub dial : World → DialOptions → Socket → Result DialError DialedConnection
dial w o s = do t ← as_coded (arm w.link s); u ← reach w o o.proxy t; secure w o o.ssl u
