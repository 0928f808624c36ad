-- ===== src/Tests/OfDial.antt =====
-- A concrete dial, through a proxy and with TLS.
use lua_xenetwork.Prelude.{
  ℕ, Bool, true, false, [], ◌∷◌, some, Bytes, codes, equal, ok, ◌≡◌, refl, arith,
}
use lua_xenetwork.Text.{lower}
use lua_xenetwork.Timeouts.{remaining}
use lua_xenetwork.Tls.Der.{
  place, read_long, read_tlv, is_oid, walk, step_over, ip_text, add_name, take_entry, read_entry,
  take_sequence, read_general_names, take_value, take_first, read_san, take_oid, take_extension,
  read_extension, read_san_extension, take_extensions, take_field, read_field, take_tbs, take_outer,
  read_alt_names,
}
use lua_xenetwork.Tls.Names.{ascii_equals_insensitive, covers, matches_wildcard}
use lua_xenetwork.Tls.Verifier.{
  sni_name, fail, usable, load_roots, verifier, mem_text, rooted, policy_fails, verify_chain,
  any_dns, name_matches, verify_name, check,
}
use lua_xenetwork.Proxy.Request.{request_address, connect_request}
use lua_xenetwork.Proxy.Wire.{
  arrives, closed, Socket, recv_partial, joined, recv_next, recv, timed, arm, all_sent, send_all,
  judge, recv_exact,
}
use lua_xenetwork.Proxy.Handshake.{
  greeting, read_choice, negotiate, authentication, read_verdict, authenticate, read_header,
  read_name_length, address_length, read_bound, connect, socks5_handshake,
}
use lua_xenetwork.Dial.{
  DialOptions, World, secured, verifier_of, reach, initialize, conclude, secure, dial,
}
use lua_xenetwork.Dial.Outcome.{Presented, Tunnelled, dial-Presented, dial-Completed}
use lua_xenetwork.Tests.OfProxy.{
  target, platform, link, before, sent_bytes, platform-IsWellBehaved, target-IsUsable,
}
use lua_xenetwork.Tests.OfTls.{presented, names_only}

abbrev options : DialOptions
options = record {
  host = codes "x";
  port = 443;
  ssl = true;
  sni = codes "A";
  proxy = some target;
  ca_file = codes "ca.pem";
  tls_verify = true;
}

abbrev always : Bytes → ℕ → Bool
always _ _ = true

abbrev world : World
world = record {
  link = link;
  resolver = platform;
  platform = names_only;
  connects = always;
  store_opened = true;
  ca_roots = some ((1 ∷ []) ∷ []);
  presented = some (some presented);
  breaks = false;
}

abbrev tunnel : Socket
tunnel = record { armed = 11; sent = sent_bytes; incoming = arrives (72 ∷ []) closed }

dial_run : dial world options before ≡ ok (secured tunnel)
unfolding dial secure conclude initialize reach verifier load_roots usable fail sni_name check
    verify_chain verify_name name_matches any_dns rooted mem_text policy_fails equal read_alt_names
    take_outer take_tbs read_field take_field take_extensions read_san_extension read_extension
    take_extension take_oid read_san take_first take_value read_general_names take_sequence
    read_entry take_entry add_name ip_text walk step_over is_oid read_tlv read_long place
    ascii_equals_insensitive matches_wildcard covers lower socks5_handshake negotiate authenticate
    connect read_choice greeting authentication read_verdict read_header read_name_length
    address_length read_bound send_all all_sent recv_exact judge arm timed remaining recv recv_next
    joined recv_partial connect_request request_address
dial_run = refl

dial-Presented_example : Presented world.platform (verifier_of world options) world.presented
dial-Presented_example = dial-Presented world options before refl refl dial_run

dial-Completed_example : Tunnelled world options target before (secured tunnel)
dial-Completed_example =
    dial-Completed world options target before platform-IsWellBehaved target-IsUsable (omega arith)
      refl dial_run
