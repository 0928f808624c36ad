-- ===== src/Tests/OfOptions.antt =====
-- Options that are read (main.cpp, ReadRequestOptions).
use lua_xenetwork.Prelude.{
  true, false, [], none, some, Bytes, codes, equal, if◌then◌else◌, ok, ◌≡◌, refl,
}
use lua_xenetwork.Server.Builders.{c_str}
use lua_xenetwork.Options.{
  Field, HttpRequestOptions, to_int, signed_less, signed_max, clamp, request_integer,
  request_boolean, request_optional_boolean, request_string, read_int, extend, read_receive_timeout,
  read_proxy, read_sni, options_of, read_request_options, use_ssl,
}
use lua_xenetwork.Options.Bounds.{IsReadable, read_request_options-IsReadable}

-- Every number is -1, but the buffer has 4 GiB.
abbrev fields : Bytes → Field
fields name = record {
  number = some (if equal name (codes "buffer_size") then 4294967296 else 18446744073709551615);
  boolean = none;
  text = none;
}

abbrev clamped : HttpRequestOptions
clamped = record {
  connect_timeout_ms = 1000;
  send_timeout_ms = 1000;
  receive_timeout_ms = 1000;
  total_timeout_ms = 0;
  max_response_bytes = 1;
  buffer_size = 1048576;
  return_response = false;
  ssl = none;
  sni = [];
  ca_file = [];
  tls_verify = true;
  tls_check_revocation = true;
  proxy = none;
}

read_request_options_run : read_request_options (λ text. text) (some fields) ≡ ok clamped
unfolding read_request_options read_proxy request_string options_of signed_max signed_less read_int
    to_int request_integer equal read_receive_timeout extend clamp request_boolean
    request_optional_boolean read_sni c_str
read_request_options_run = refl

read_request_options-IsReadable_example : IsReadable clamped
read_request_options-IsReadable_example =
    read_request_options-IsReadable (λ text. text) (some fields) read_request_options_run

use_ssl_run : use_ssl clamped 443 ≡ true
unfolding use_ssl
use_ssl_run = refl
