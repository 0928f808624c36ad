-- ===== src/Tests/OfHttp.antt =====
-- Concrete runs of the response's parts.
use lua_xenetwork.Http.Pushed.{join_header, join_headers, http_host_header}
use lua_xenetwork.Server.Builders.{c_str, to_string, decimal}
use lua_xenetwork.Prelude.{
  ok, true, false, List, [], ◌∷◌, ◌++◌, codes, flatten, ◌≡◌, refl, arith, cut, strip_prefix, equal,
  contains,
}
use lua_xenetwork.Timeouts.{remaining}
use lua_xenetwork.Text.{lower, lower_ascii, trim_start, trim_end, trim_ascii}
use lua_xenetwork.Text.Numbers.{digit, read_digits, skip_spaces, has_prefix, scan, stoull, stoi}
use lua_xenetwork.Http.Chunk.{without_extension, decoder, parse_size, feed, feed_all, fed}
use lua_xenetwork.Http.Chunk.Split.{feed_all-flatten}
use lua_xenetwork.Http.Chunk.Frames.{Frame, payloads, IsFrame, IsLast, done, feed_all-encode}
use lua_xenetwork.Http.Headers.{
  Response, read_word, read_line, read_status_line, refuses_status, header_lines, lines,
  read_headers, parse_response_headers, find_header,
}
use lua_xenetwork.Http.Transfer.{
  Options, Turn, bytes, Callbacks, returned, receive_response, is_head, run, take_turn,
  take_received, take_bytes, take_pending, delimit, take_body, take_counted, append_body,
  append_all, finish, read_length,
}
use lua_xenetwork.Http.Url.{
  ParsedHttpUrl, read_scheme, split_path, as_port, read_bracketed, read_authority, check_url,
  parse_http_url, IsRequestable, parse_http_url-IsRequestable,
}
use lua_xenetwork.Http.Transfer.Complete.{IsComplete, receive_response-IsComplete}

feed_all-flatten_example :
    feed_all (decoder 100) (codes "3\r" ∷ codes "\nab" ∷ codes "c\r\n0\r\n" ∷ [])
    ≡ feed (decoder 100) (codes "3\r" ++ flatten (codes "\nab" ∷ codes "c\r\n0\r\n" ∷ []))
feed_all-flatten_example =
    feed_all-flatten (decoder 100) (codes "3\r") (codes "\nab" ∷ codes "c\r\n0\r\n" ∷ [])
      (omega arith)

abbrev frames : List Frame
frames =
    record { size_line = codes "3"; payload = codes "abc" }
    ∷ record { size_line = codes "01;x"; payload = codes "d" }
    ∷ []

three-IsFrame : IsFrame 100 (record { size_line = codes "3"; payload = codes "abc" })
unfolding cut parse_size strip_prefix trim_ascii trim_start trim_end without_extension stoull scan
    read_digits skip_spaces has_prefix digit
three-IsFrame = record {
  one_line = λ s. refl;
  states_size = refl;
  not_last = omega arith;
  within = omega arith;
}

one-IsFrame : IsFrame 100 (record { size_line = codes "01;x"; payload = codes "d" })
unfolding cut parse_size strip_prefix trim_ascii trim_start trim_end without_extension stoull scan
    read_digits skip_spaces has_prefix digit
one-IsFrame = record {
  one_line = λ s. refl;
  states_size = refl;
  not_last = omega arith;
  within = omega arith;
}

zero-IsLast : IsLast (codes "0")
unfolding cut parse_size strip_prefix trim_ascii trim_start trim_end without_extension stoull scan
    read_digits skip_spaces has_prefix digit
zero-IsLast = record { one_line = λ s. refl; states_zero = refl }

feed_all-encode_example :
    feed_all (decoder 100) (codes "3\r" ∷ codes "\nabc\r\n01;x\r\nd\r\n0\r\nrest" ∷ [])
    ≡ fed (payloads frames) (done 100 (codes "rest"))
feed_all-encode_example =
    feed_all-encode 100 frames (codes "0") (codes "rest") (codes "3\r")
      (codes "\nabc\r\n01;x\r\nd\r\n0\r\nrest" ∷ []) (three-IsFrame, (one-IsFrame, tt)) zero-IsLast
      refl (omega arith)

abbrev options : Options
options = record { receive_timeout_ms = 1000; total_timeout_ms = 0; max_response_bytes = 100 }

abbrev go_on : Callbacks
go_on = record { on_headers = λ response. true; on_chunk = λ before chunk. true }

abbrev turns : List Turn
turns =
    record {
      cancel = false;
      elapsed = 0;
      received = bytes (codes "HTTP/1.1 200 OK\r\nContent-Length: 2\r\n\r\nh");
    }
    ∷ record { cancel = false; elapsed = 0; received = bytes (codes "i") }
    ∷ []

abbrev response : Response
response = record {
  body = codes "hi";
  raw_headers = codes "HTTP/1.1 200 OK\r\nContent-Length: 2";
  version = codes "HTTP/1.1";
  reason = codes "OK";
  headers = (codes "content-length", codes "2") ∷ [];
  status = 200;
  bytes_received = 40;
}

response_run : receive_response options go_on (codes "GET / HTTP/1.1") turns ≡ returned response
unfolding receive_response run take_turn take_received take_bytes take_pending delimit take_body
    take_counted append_body append_all finish parse_response_headers read_headers lines
    header_lines refuses_status read_status_line read_line read_word find_header read_length
    remaining lower_ascii lower equal cut strip_prefix trim_ascii trim_start trim_end
    without_extension stoull scan read_digits skip_spaces has_prefix digit stoi
response_run = refl

receive_response-IsComplete_example : IsComplete options (is_head (codes "GET / HTTP/1.1")) response
receive_response-IsComplete_example =
    receive_response-IsComplete options go_on (codes "GET / HTTP/1.1") turns response_run

abbrev site : ParsedHttpUrl
site = record { host = codes "::1"; path = codes "/a?b"; port = 8080; ssl = true }

site_parsed : parse_http_url (codes "https://[::1]:8080/a?b") ≡ ok site
unfolding parse_http_url check_url read_scheme split_path read_authority read_bracketed as_port stoi
    scan read_digits skip_spaces has_prefix digit cut strip_prefix
site_parsed = refl

parse_http_url-IsRequestable_example : IsRequestable site
parse_http_url-IsRequestable_example =
    parse_http_url-IsRequestable (codes "https://[::1]:8080/a?b") site_parsed

-- Headers of one name are joined, and a port that is not the scheme's own is stated.
join_headers_run :
    join_headers [] ((codes "a", codes "1") ∷ (codes "b", codes "2") ∷ (codes "a", codes "3") ∷ [])
    ≡ (codes "a", codes "1, 3") ∷ (codes "b", codes "2") ∷ []
unfolding join_headers join_header c_str equal
join_headers_run = refl

http_host_header_run :
    http_host_header (record { host = codes "::1"; path = codes "/"; port = 8443; ssl = true })
    ≡ codes "[::1]:8443"
unfolding http_host_header contains to_string decimal
http_host_header_run = refl
