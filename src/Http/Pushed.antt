-- ===== src/Http/Pushed.antt =====
-- What Lua is given of a response (main.cpp, PushResponse), and the Host header of a request (main.cpp,
-- HttpHostHeader). The table of headers is an association list; `elapsed_ms` is left out.
use lua_xenetwork.Prelude.{
  ℕ, Bool, ◌&&◌, ◌||◌, not, List, [], ◌∷◌, ◌++◌, Option, none, some, Bytes, codes, contains, equal,
  ltb, leb, ◌==◌, if◌then◌else◌,
}
use lua_xenetwork.Http.Headers.{Response}
use lua_xenetwork.Http.Url.{ParsedHttpUrl}
use lua_xenetwork.Server.Builders.{c_str, to_string}

-- `lua_setfield` behind `lua_getfield`: a header that is there already is joined to its first value.
unfoldable pub join_header : Bytes → Bytes → List (Bytes × Bytes) → List (Bytes × Bytes)
join_header key value [] = (key, value) ∷ []
join_header key value ((name, prior) ∷ rest) =
    let more = join_header key value rest in
    if equal name key
    then (name, c_str prior ++ (codes ", " ++ value)) ∷ rest
    else (name, prior) ∷ more

unfoldable pub join_headers : List (Bytes × Bytes) → List (Bytes × Bytes) → List (Bytes × Bytes)
join_headers table [] = table
join_headers table ((key, value) ∷ rest) = join_headers (join_header (c_str key) value table) rest

pub record PushedResponse : Type 0 where
  pub body : Option Bytes
  pub status : ℕ
  pub success : Bool
  pub version : Bytes
  pub reason : Bytes
  pub raw_headers : Bytes
  pub bytes_received : ℕ
  pub headers : List (Bytes × Bytes)
  pub header_list : List (Bytes × Bytes)

unfoldable pub push_response : Response → Bool → PushedResponse
push_response r include_body = record {
  body = if include_body then some r.body else none;
  status = r.status;
  success = leb 200 r.status && ltb r.status 300;
  version = r.version;
  reason = r.reason;
  raw_headers = r.raw_headers;
  bytes_received = r.bytes_received;
  headers = join_headers [] r.headers;
  header_list = r.headers;
}

abbrev bracketed : Bytes → Bytes
bracketed host = if contains b':' host then codes "[" ++ (host ++ codes "]") else host

unfoldable pub http_host_header : ParsedHttpUrl → Bytes
http_host_header target =
    if (target.ssl && target.port == 443) || (not target.ssl && target.port == 80)
    then bracketed target.host
    else bracketed target.host ++ (codes ":" ++ to_string target.port)
