-- ===== src/Tests/OfServer.antt =====
-- Runs of the server's request reader (main.cpp, ListenerContext::lua_Request and RequestBuilder).
use lua_xenetwork.Prelude.{
  List, [], ◌∷◌, ◌++◌, none, some, Bytes, codes, flatten, cut, strip_prefix, equal, ok, ◌≡◌, refl,
  arith,
}
use lua_xenetwork.Text.{lower_ascii, lower}
use lua_xenetwork.Http.Headers.{lines}
use lua_xenetwork.Server.{lua_request, find, header_block, header_boundary}
use lua_xenetwork.Server.Builders.{
  c_str, decimal, to_string, header_table, RequestTable, request_table, build_request,
  request_builder, build_text, lua_build,
}
use lua_xenetwork.Server.Fields.{names_length, length_lines}
use lua_xenetwork.Server.RoundTrip.{IsMessage, request_read}
use lua_xenetwork.Server.Building.{message_of, lua_request-request_builder}
use lua_xenetwork.Server.Headerless.{header_block-headerless}
use lua_xenetwork.Http.Chunk.{crlf}

abbrev table : RequestTable
table = record {
  method = some (codes "POST");
  path = some (codes "/a?b");
  version = none;
  headers = header_table ((codes "X", codes "1") ∷ []);
  body = some (codes "hi");
}

abbrev portions : List Bytes
portions =
    codes "POST /a?b HTTP/1.1\r"
    ∷ codes "\nHost: h\r\nX: 1\r\nContent-Length: 2\r\n\r\nh"
    ∷ codes "i"
    ∷ []

request_builder_run : flatten portions ≡ request_builder (codes "h") (request_table table)
unfolding request_builder build_request c_str to_string decimal
request_builder_run = refl

-- A text with a zero byte is cut off, and its full length stated.
lua_build_run :
    lua_build (build_text (b'a' ∷ 0 ∷ b'b' ∷ []))
    ≡ codes "HTTP/1.1 200 OK\r\nContent-Length: 3\r\n\r\na"
unfolding lua_build c_str to_string decimal
lua_build_run = refl

table-IsMessage : IsMessage (message_of (codes "h") table)
unfolding c_str to_string decimal length_lines names_length cut strip_prefix equal lower_ascii lower
table-IsMessage = record {
  some_method = refl;
  method_word = (refl, (refl, (refl, (refl, tt))));
  target_word = (refl, (refl, (refl, (refl, tt))));
  one_line = (
    refl,
    (
      refl,
      (
        refl,
        (
          refl,
          (
            refl,
            (
              refl,
              (
                refl,
                (
                  refl,
                  (
                    refl,
                    (refl, (refl, (refl, (refl, (refl, (refl, (refl, (refl, (refl, tt))))))))),
                  ),
                ),
              ),
            ),
          ),
        ),
      ),
    ),
  );
  header_lines = (
    (refl, (refl, (refl, (refl, (refl, (refl, (refl, (refl, tt)))))))),
    (
      (refl, (refl, (refl, (refl, (refl, tt))))),
      (
        (
          refl,
          (
            refl,
            (
              refl,
              (
                refl,
                (
                  refl,
                  (
                    refl,
                    (
                      refl,
                      (
                        refl,
                        (
                          refl,
                          (
                            refl,
                            (refl, (refl, (refl, (refl, (refl, (refl, (refl, (refl, tt)))))))),
                          ),
                        ),
                      ),
                    ),
                  ),
                ),
              ),
            ),
          ),
        ),
        tt,
      ),
    ),
  );
  no_length = (refl, (refl, tt));
  head_fits = omega arith;
  body_fits = omega arith;
}

lua_request-request_builder_example :
    lua_request (record { recv_buffer = []; answers = portions })
    ≡ ok (
        some (
          request_read (message_of (codes "h") table),
          record { recv_buffer = request_builder (codes "h") (request_table table); answers = [] },
        ))
lua_request-request_builder_example =
    lua_request-request_builder (codes "h") table portions table-IsMessage
      (refl, (refl, (refl, tt))) request_builder_run

header_block-headerless_example :
    (find crlf (codes "GET / 1" ++ (header_boundary ++ codes "A: b")) ≡ some 7)
    × (find header_boundary (codes "GET / 1" ++ (header_boundary ++ codes "A: b")) ≡ some 7)
    × (lines (header_block (codes "GET / 1" ++ (header_boundary ++ codes "A: b")) 7 7)
        ≡ [] ∷ lines (codes "A: b"))
header_block-headerless_example =
    header_block-headerless (codes "GET / 1") (codes "A: b")
      (refl, (refl, (refl, (refl, (refl, (refl, (refl, tt))))))) (omega arith)
