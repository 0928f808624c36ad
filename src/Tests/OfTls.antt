-- ===== src/Tests/OfTls.antt =====
-- Concrete runs of the certificate's checks.
use lua_xenetwork.Prelude.{
  suc, equal, subst, ◌+◌, ◌<◌, true, false, List, [], ◌∷◌, ◌++◌, Option, none, some, Bytes, codes,
  is_empty, Result, ok, ◌≡◌, refl, ◌↔◌, arith,
}
use lua_xenetwork.Text.{lower}
use lua_xenetwork.Tls.Der.{
  Tlv, no_names, read_length, place, read_long, read_tlv, is_oid, walk, step_over, ip_text,
  add_name, take_entry, read_entry, take_sequence, read_general_names, take_value, take_first,
  read_san, take_oid, take_extension, read_extension, read_san_extension, take_extensions,
  take_field, read_field, take_tbs, take_outer, read_alt_names, Fault,
}
use lua_xenetwork.Tls.Der.Bounds.{Safe, Any, Fits, read_tlv-Safe}
use lua_xenetwork.Tls.Der.Walks.{SignatureFollows, read_alt_names-Safe}
use lua_xenetwork.Tls.Der.Encoding.{short, read_tlv-encode, Entry, encode_entries, names_of}
use lua_xenetwork.Tls.Der.San.{
  SanAt, san_body, critical, read_san_extension-found, read_san_extension-critical,
}
use lua_xenetwork.Tls.Names.{ascii_equals_insensitive, covers, matches_wildcard}
use lua_xenetwork.Tls.Names.Wildcard.{Covers, matches_wildcard_iff}
use lua_xenetwork.Tls.Verifier.{
  Verifier, TrustStatus, ChainContext, Certificate, Platform, fail, mem_text, rooted, policy_fails,
  verify_chain, any_dns, name_matches, verify_name, check,
}
use lua_xenetwork.Tls.Verifier.Trust.{IsTrusted, check-IsTrusted}

matches_wildcard_iff_example :
    (matches_wildcard (codes "a.example") (b'*' ∷ b'.' ∷ codes "example") ≡ true)
    ↔ ((is_empty (codes "example") ≡ false) × Covers (codes "a.example") (b'.' ∷ codes "example"))
matches_wildcard_iff_example = matches_wildcard_iff (codes "a.example") (codes "example")

abbrev octet_string : Bytes
octet_string = 0x04 ∷ 0x02 ∷ 7 ∷ 8 ∷ 9 ∷ []

read_tlv-Safe_example : Safe (Fits 0 5) (read_tlv octet_string 0 5)
read_tlv-Safe_example = read_tlv-Safe octet_string 0 5 (omega arith)

abbrev content : Tlv
content = record { content = 2; size = 2 }

read_tlv-encode_example : read_tlv octet_string 0 5 ≡ ok (some content)
read_tlv-encode_example =
    read_tlv-encode octet_string 0 5 0x04 (7 ∷ 8 ∷ []) (2 ∷ []) (9 ∷ []) refl (short (omega arith))
      (omega arith)

-- `inet_ntop` here names every address alike.
abbrev ntop : Bytes → Bytes
ntop _ = codes "127.0.0.1"

abbrev entries : List Entry
entries =
    record { tag = 0x82; len = 1 ∷ []; value = b'a' ∷ [] }
    ∷ record { tag = 0x87; len = 4 ∷ []; value = 127 ∷ 0 ∷ 0 ∷ 1 ∷ [] }
    ∷ []

abbrev general_names : Bytes
general_names = 0x30 ∷ 9 ∷ encode_entries entries

abbrev san : Bytes
san = 0x30 ∷ 18 ∷ san_body [] (11 ∷ []) general_names

san-SanAt : SanAt san 0 (suc 19) (18 ∷ []) [] (11 ∷ []) general_names []
san-SanAt = record {
  stands = refl;
  len_form = short (omega arith);
  value_form = short (omega arith);
  room = omega arith;
}

read_san_extension-found_example :
    read_san_extension ntop san 0 (suc 19) ≡ ok (true, names_of ntop entries no_names)
read_san_extension-found_example =
    read_san_extension-found ntop san 0 19 (18 ∷ []) (11 ∷ []) (9 ∷ []) [] entries san-SanAt
      (short (omega arith)) (short (omega arith), (short (omega arith), tt))

abbrev critical_san : Bytes
critical_san = 0x30 ∷ 21 ∷ san_body critical (11 ∷ []) general_names

critical_san-SanAt : SanAt critical_san 0 (suc 22) (21 ∷ []) critical (11 ∷ []) general_names []
critical_san-SanAt = record {
  stands = refl;
  len_form = short (omega arith);
  value_form = short (omega arith);
  room = omega arith;
}

read_san_extension-critical_example :
    read_san_extension ntop critical_san 0 (suc 22) ≡ ok (false, no_names)
read_san_extension-critical_example =
    read_san_extension-critical ntop critical_san 0 22 (21 ∷ []) (11 ∷ []) general_names []
      critical_san-SanAt

-- A certificate: its TBSCertificate has a serial number and the extensions, and a signature follows.
abbrev extensions : Bytes
extensions = 0xA3 ∷ 22 ∷ 0x30 ∷ 20 ∷ san

abbrev certificate : Bytes
certificate = 0x30 ∷ 31 ∷ 0x30 ∷ 27 ∷ 0x02 ∷ 1 ∷ 5 ∷ (extensions ++ (0x03 ∷ 0 ∷ []))

abbrev outer : Tlv
outer = record { content = 2; size = 31 }

abbrev tbs : Tlv
tbs = record { content = 4; size = 27 }

outer_read : read_tlv certificate 0 33 ≡ ok (some outer)
unfolding read_tlv read_long place
outer_read = refl

tbs_read : read_tlv certificate 2 31 ≡ ok (some tbs)
unfolding read_tlv read_long place
tbs_read = refl

read_unique :
    {r : Result Fault (Option Tlv)} {x y : Tlv} → r ≡ ok (some x) → r ≡ ok (some y) → x ≡ y
read_unique p q = cc

abbrev Follows : Tlv → Type 0
Follows o =
    (t : Tlv) → read_tlv certificate o.content o.size ≡ ok (some t) → t.content + t.size < 33

follows : Follows outer
follows t q = subst (λ t. t.content + t.size < 33) (read_unique tbs_read q) (omega arith)

certificate-SignatureFollows : SignatureFollows ntop certificate
certificate-SignatureFollows o t p q = subst Follows (read_unique outer_read p) follows t q

read_alt_names-Safe_example : Safe Any (read_alt_names ntop certificate)
read_alt_names-Safe_example = read_alt_names-Safe ntop certificate certificate-SignatureFollows

-- A chain that ends at the one root that was loaded.
abbrev status : TrustStatus
status = record {
  not_time_valid = false;
  revoked = false;
  untrusted_root = true;
  revocation_unknown = true;
  offline_revocation = false;
  other = false;
}

abbrev chain : ChainContext
chain = record { status = status; ends = (1 ∷ []) ∷ []; policy_error = some 0 }

abbrev pub presented : Certificate
presented = record { encoded = certificate; chain = some chain; common_name = none }

abbrev no_literal : Bytes → Bytes
no_literal _ = []

abbrev local : Bytes → Bytes
local _ = codes "127.0.0.1"

abbrev pub names_only : Platform
names_only = record { ntop = ntop; canonical_ip = no_literal }

abbrev literals : Platform
literals = record { ntop = ntop; canonical_ip = local }

abbrev unchecked : Verifier
unchecked = record {
  host = codes "A";
  verify = true;
  exclusive = true;
  checked = false;
  failed = false;
  code = none;
  root_hashes = (1 ∷ []) ∷ [];
}

abbrev accepting : Verifier
accepting = record unchecked { checked = true }

check_run : check names_only unchecked (some presented) ≡ ok (accepting, true)
unfolding check verify_chain verify_name name_matches any_dns rooted mem_text policy_fails fail
    equal read_alt_names take_outer take_tbs read_field take_field take_extensions
    read_san_extension read_extension take_extension take_oid read_san take_first take_value
    read_general_names take_sequence read_entry take_entry add_name ip_text walk step_over is_oid
    read_tlv read_long read_length place ascii_equals_insensitive matches_wildcard covers lower
check_run = refl

check-IsTrusted_example : (unchecked.failed ≡ false) × IsTrusted names_only unchecked presented
check-IsTrusted_example = check-IsTrusted names_only unchecked presented refl check_run
