-- ===== src/Options.antt =====
-- The options of a request (main.cpp, HttpRequestOptions, ReadRequestOptions and the readers of a
-- field). A field is what the Lua API answers of it; an integer is the bits of a `long long` or of an
-- `int`.
pub mod Bounds
use lua_xenetwork.Prelude.{
  ℕ, ◌+◌, ◌-◌, ◌*◌, ◌%◌, ◌^◌, Bool, true, false, [], Option, none, some, Bytes, codes, is_empty,
  ltb, ◌==◌, if◌then◌else◌, Result, ok, err, ◌>>=◌,
}
use lua_xenetwork.Proxy.Target.{DialCode, ProxyTarget, parse_proxy_url}
use lua_xenetwork.Server.Builders.{c_str}

-- What lua_isnumber and lua_tointeger, lua_isboolean and lua_toboolean, and lua_isstring and
-- lua_tostring answer of a field.
pub record Field : Type 0 where
  pub number : Option ℕ
  pub boolean : Option Bool
  pub text : Option Bytes

-- The table of options by its fields, or nothing where the argument is no table.
abbrev pub Table : Type 0
Table = Option (Bytes → Field)

pub record HttpRequestOptions : Type 0 where
  pub connect_timeout_ms : ℕ
  pub send_timeout_ms : ℕ
  pub receive_timeout_ms : ℕ
  pub total_timeout_ms : ℕ
  pub max_response_bytes : ℕ
  pub buffer_size : ℕ
  pub return_response : Bool
  pub ssl : Option Bool
  pub sni : Bytes
  pub ca_file : Bytes
  pub tls_verify : Bool
  pub tls_check_revocation : Bool
  pub proxy : Option ProxyTarget

-- The initializers of the struct.
abbrev pub default_options : HttpRequestOptions
default_options = record {
  connect_timeout_ms = 30000;
  send_timeout_ms = 60000;
  receive_timeout_ms = 300000;
  total_timeout_ms = 0;
  max_response_bytes = 64 * 1024 * 1024;
  buffer_size = 16384;
  return_response = false;
  ssl = none;
  sni = [];
  ca_file = [];
  tls_verify = true;
  tls_check_revocation = true;
  proxy = none;
}

-- `HttpRequestOptions::UseSsl`.
unfoldable pub use_ssl : HttpRequestOptions → ℕ → Bool
use_ssl options port = elim options.ssl [ none ↦ port == 443 | some given ↦ given ]

-- `static_cast<int>` of the bits of a `long long`.
unfoldable pub to_int : ℕ → ℕ
to_int n = n % 2 ^ 32

-- `a < b` as signed integers whose sign bit is worth `half`.
unfoldable pub signed_less : ℕ → ℕ → ℕ → Bool
signed_less half a b = ltb ((a + half) % (2 * half)) ((b + half) % (2 * half))

unfoldable pub signed_max : ℕ → ℕ → ℕ → ℕ
unfolding signed_less
signed_max half a b = if signed_less half a b then b else a

-- `std::clamp<long long>`.
unfoldable pub clamp : ℕ → ℕ → ℕ → ℕ
unfolding signed_less
clamp n low high =
    if signed_less (2 ^ 63) n low then low else if signed_less (2 ^ 63) high n then high else n

abbrev pub int_half : ℕ
int_half = 2 ^ 31

-- `RequestInteger`, `RequestBoolean`, `RequestOptionalBoolean` and `RequestString` of a table.
unfoldable pub request_integer : (Bytes → Field) → Bytes → ℕ → ℕ
request_integer fields name fallback = elim (fields name).number [
  | none ↦ fallback
  | some n ↦ n % 2 ^ 64
]

unfoldable pub request_boolean : (Bytes → Field) → Bytes → Bool → Bool
request_boolean fields name fallback = elim (fields name).boolean [ none ↦ fallback | some b ↦ b ]

unfoldable pub request_optional_boolean : (Bytes → Field) → Bytes → Option Bool
request_optional_boolean fields name = (fields name).boolean

unfoldable pub request_string : (Bytes → Field) → Bytes → Bytes
request_string fields name = elim (fields name).text [ none ↦ [] | some text ↦ c_str text ]

-- An `int` option: the field, or the value so far, which is not negative.
unfoldable pub read_int : (Bytes → Field) → Bytes → ℕ → ℕ
read_int fields name fallback = to_int (request_integer fields name fallback)

-- The value so far as a `long long`: the sign of an `int` is extended.
unfoldable pub extend : ℕ → ℕ
extend n = if ltb n int_half then n else n + 2 ^ 64 - 2 ^ 32

unfoldable pub read_receive_timeout : (Bytes → Field) → ℕ
read_receive_timeout fields =
    let first = read_int fields (codes "receive_timeout_ms") 300000 in
    let second = read_int fields (codes "read_timeout_ms") (extend first) in
    read_int fields (codes "timeout_ms") (extend second)

-- A proxy that is given is read; a malformed URL is an error.
unfoldable pub read_proxy : (Bytes → Bytes) → Bytes → Result DialCode (Option ProxyTarget)
read_proxy widen url =
    if is_empty url then ok none else (parse_proxy_url widen url >>= λ target. ok (some target))

unfoldable pub read_sni : (Bytes → Bytes) → Bytes → Bytes
read_sni widen sni = if is_empty sni then [] else widen sni

unfoldable pub options_of :
    (Bytes → Bytes) → (Bytes → Field) → Option ProxyTarget → HttpRequestOptions
options_of widen fields proxy = record {
  connect_timeout_ms =
      signed_max int_half 1000 (read_int fields (codes "connect_timeout_ms") 30000);
  send_timeout_ms = signed_max int_half 1000 (read_int fields (codes "send_timeout_ms") 60000);
  receive_timeout_ms = signed_max int_half 1000 (read_receive_timeout fields);
  total_timeout_ms = signed_max int_half 0 (read_int fields (codes "total_timeout_ms") 0);
  max_response_bytes =
      signed_max (2 ^ 63) 1
        (request_integer fields (codes "max_response_bytes") (64 * 1024 * 1024));
  buffer_size = clamp (request_integer fields (codes "buffer_size") 16384) 1024 (1024 * 1024);
  return_response = request_boolean fields (codes "return_response") false;
  ssl = request_optional_boolean fields (codes "ssl");
  sni = read_sni widen (request_string fields (codes "sni"));
  ca_file = request_string fields (codes "ca_file");
  tls_verify = request_boolean fields (codes "tls_verify") true;
  tls_check_revocation = request_boolean fields (codes "tls_revoke") true;
  proxy = proxy;
}

-- `ReadRequestOptions`; `widen` is utf8_decode_lua.
unfoldable pub read_request_options : (Bytes → Bytes) → Table → Result DialCode HttpRequestOptions
read_request_options widen none = ok default_options
read_request_options widen (some fields) = do
  proxy ← read_proxy widen (request_string fields (codes "proxy"))
  ok (options_of widen fields proxy)
