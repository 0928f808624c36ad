-- ===== src/Server/Builders.antt =====
-- The texts of requests and responses that Lua tables describe (main.cpp, RequestBuilder,
-- ResponseBuilder and ListenerContext::lua_Build). Fields are strings or are not given; a table of
-- headers is its pairs in the order of lua_next.
use lua_xenetwork.Prelude.{
  ℕ, zero, suc, ◌+◌, ◌/◌, ◌%◌, List, [], ◌∷◌, ◌++◌, Option, none, some, Bytes, codes, length,
  is_empty, ltb, ◌==◌, if◌then◌else◌,
}
use lua_xenetwork.Http.Chunk.{crlf}

-- What `lua_tostring` gives as a C string.
unfoldable pub c_str : Bytes → Bytes
c_str [] = []
c_str (c ∷ s) = let rest = c_str s in if c == 0 then [] else c ∷ rest

-- The decimal digits of a number, in front of a text.
unfoldable pub decimal : ℕ → ℕ → Bytes → Bytes
decimal zero n s = s
decimal (suc fuel) n s =
    let more = decimal fuel (n / 10) ((n % 10 + b'0') ∷ s) in
    if ltb n 10 then (n + b'0') ∷ s else more

-- `std::to_string`: a number has no more digits than its value and one.
unfoldable pub to_string : ℕ → Bytes
unfolding decimal
to_string n = decimal (suc n) n []

pub data HeadersField : Type 0 where
  no_headers : HeadersField
  header_text : Bytes → HeadersField
  header_table : List (Bytes × Bytes) → HeadersField

pub record RequestTable : Type 0 where
  pub method : Option Bytes
  pub path : Option Bytes
  pub version : Option Bytes
  pub headers : HeadersField
  pub body : Option Bytes

abbrev pub given_or : Option Bytes → Bytes → Bytes
given_or none standard = standard
given_or (some text) standard = text

abbrev pub header_line : Bytes × Bytes → Bytes
header_line (key, value) = c_str key ++ (codes ": " ++ (c_str value ++ crlf))

abbrev pub header_lines_of : List (Bytes × Bytes) → Bytes
header_lines_of [] = []
header_lines_of (entry ∷ rest) = header_line entry ++ header_lines_of rest

-- A space behind what is there, if something is.
abbrev pub spaced : Bytes → Bytes
spaced request = if is_empty request then request else request ++ codes " "

abbrev pub method_part : Option Bytes → Bytes
method_part none = codes "GET "
method_part (some method) = spaced (c_str method)

abbrev pub path_part : Bytes → Option Bytes → Bytes
path_part request none = request ++ codes "/ "
path_part request (some path) = spaced (request ++ c_str path)

abbrev pub version_part : Option Bytes → Bytes
version_part none = codes "HTTP/1.1\r\n"
version_part (some version) = c_str version ++ crlf

abbrev pub headers_part : HeadersField → Bytes
headers_part no_headers = codes "Accept: */*\r\n"
headers_part (header_text text) = c_str text ++ crlf
headers_part (header_table entries) = header_lines_of entries

abbrev pub body_part : Option Bytes → Bytes
body_part none = crlf
body_part (some body) =
    codes "Content-Length: " ++ (to_string (length body) ++ (codes "\r\n\r\n" ++ body))

-- `RequestBuilder` of a table.
unfoldable pub build_request : Bytes → RequestTable → Bytes
build_request host t =
    path_part (method_part t.method) t.path
    ++ (version_part t.version
        ++ (codes "Host: " ++ (host ++ (crlf ++ (headers_part t.headers ++ body_part t.body)))))

pub data RequestArgument : Type 0 where
  request_text : Bytes → RequestArgument
  request_table : RequestTable → RequestArgument

unfoldable pub request_builder : Bytes → RequestArgument → Bytes
unfolding build_request c_str
request_builder host (request_text text) = c_str text
request_builder host (request_table t) = build_request host t

-- `status` is given by its digits when it is a number.
pub record ResponseTable : Type 0 where
  pub version : Option Bytes
  pub status : Option Bytes
  pub reason : Option Bytes
  pub headers : Option (List (Bytes × Bytes))
  pub body : Option Bytes

abbrev table_part : Option (List (Bytes × Bytes)) → Bytes
table_part none = []
table_part (some entries) = header_lines_of entries

abbrev pub c_str_or : Option Bytes → Bytes → Bytes
c_str_or none standard = standard
c_str_or (some text) standard = c_str text

unfoldable pub response_builder : ResponseTable → Bytes
unfolding c_str to_string
response_builder t =
    c_str_or t.version (codes "HTTP/1.1")
    ++ (codes " "
        ++ (given_or t.status (codes "200")
            ++ (codes " "
                ++ (c_str_or t.reason (codes "OK")
                    ++ (crlf ++ (table_part t.headers ++ body_part t.body))))))

pub data BuildArgument : Type 0 where
  build_table : ResponseTable → BuildArgument
  build_text : Bytes → BuildArgument
  build_other : BuildArgument

-- `lua_Build`.
unfoldable pub lua_build : BuildArgument → Bytes
unfolding response_builder c_str to_string
lua_build (build_table t) = response_builder t
lua_build (build_text text) =
    codes "HTTP/1.1 200 OK\r\nContent-Length: "
    ++ (to_string (length text) ++ (codes "\r\n\r\n" ++ c_str text))
lua_build build_other = codes "HTTP/1.1 500 Internal Server Error\r\nContent-Length: 0\r\n\r\n"
