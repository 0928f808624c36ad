-- ===== src/Tls/Verifier.antt =====
-- The certificate verifier (socket/TlsVerify.cpp, class CertificateVerifier, and SniName). What
-- the Windows chain engine, the certificate store and `inet_pton` answer is the environment; the
-- decisions over the answers are the code's. The texts of the messages are not modelled.
pub mod Trust
use lua_xenetwork.Prelude.{
  ℕ, Bool, true, false, not, ◌&&◌, ◌||◌, List, [], ◌∷◌, ◌++◌, Option, none, some, Bytes, is_empty,
  equal, ◌==◌, if◌then◌else◌, cut, Result, ok, err, ◌>>=◌,
}
use lua_xenetwork.Tls.Der.{Fault, Names, read_alt_names}
use lua_xenetwork.Tls.Names.{ascii_equals_insensitive, matches_wildcard}

pub data Code : Type 0 where
  tls_ca_unreadable tls_no_certificate tls_chain_failed tls_untrusted_root : Code
  tls_expired tls_revoked tls_policy_failed tls_name_mismatch : Code

pub record Verifier : Type 0 where
  pub host : Bytes
  pub verify : Bool
  pub exclusive : Bool
  pub checked : Bool
  pub failed : Bool
  pub code : Option Code
  pub root_hashes : List Bytes

-- `dwErrorStatus`, by the bits that the code looks at; `other` is whether any further bit is set.
pub record TrustStatus : Type 0 where
  pub not_time_valid : Bool
  pub revoked : Bool
  pub untrusted_root : Bool
  pub revocation_unknown : Bool
  pub offline_revocation : Bool
  pub other : Bool

-- The chains that the engine built: their status, the hash of the last certificate of each (empty
-- where there is none), and the SSL policy's error (`none` if it could not be evaluated).
pub record ChainContext : Type 0 where
  pub status : TrustStatus
  pub ends : List Bytes
  pub policy_error : Option ℕ

-- A certificate with what the platform says of it.
pub record Certificate : Type 0 where
  pub encoded : Bytes
  pub chain : Option ChainContext
  pub common_name : Option Bytes

-- `inet_ntop`, and the canonical text of an IP literal (empty for any other name).
pub record Platform : Type 0 where
  pub ntop : Bytes → Bytes
  pub canonical_ip : Bytes → Bytes

-- `SniName`.
unfoldable pub sni_name : Bytes → Bytes → Bytes
sni_name host sni = if is_empty sni then host else sni

-- `Fail`: the first reason is kept.
unfoldable pub fail : Verifier → Code → Verifier
fail v code = if v.failed then v else record v { failed = true; code = some code }

-- Hashes that are not empty.
unfoldable pub usable : List Bytes → List Bytes
usable [] = []
usable (h ∷ hs) = if is_empty h then usable hs else h ∷ usable hs

abbrev no_hashes : List Bytes → Bool
no_hashes [] = true
no_hashes (h ∷ hs) = false

-- `LoadRoots`, on whether the store opened and on the hashes of the file's certificates (`none`
-- if the file could not be read).
unfoldable pub load_roots : Verifier → Bool → Option (List Bytes) → Verifier
load_roots v false file = fail (record v { exclusive = true }) tls_ca_unreadable
load_roots v true none = fail (record v { exclusive = true }) tls_ca_unreadable
load_roots v true (some hashes) =
    let loaded = record v { exclusive = true; root_hashes = v.root_hashes ++ usable hashes } in
    if no_hashes loaded.root_hashes then fail loaded tls_ca_unreadable else loaded

-- The constructor.
unfoldable pub verifier : Bytes → Bytes → Bool → Bool → Option (List Bytes) → Verifier
verifier host ca_file verify store_opened file =
    let v : Verifier = record {
      host = host;
      verify = verify;
      exclusive = false;
      checked = false;
      failed = false;
      code = none;
      root_hashes = [];
    } in
    if verify && not (is_empty ca_file) then load_roots v store_opened file else v

unfoldable pub mem_text : Bytes → List Bytes → Bool
mem_text h [] = false
mem_text h (x ∷ xs) = equal x h || mem_text h xs

-- Does one of the chains end at a certificate of the file?
unfoldable pub rooted : List Bytes → List Bytes → Bool
rooted roots [] = false
rooted roots (h ∷ hs) = (not (is_empty h) && mem_text h roots) || rooted roots hs

-- `status` after the soft bits are dropped, and the untrusted root where the file decided it.
abbrev pub hard_status : Bool → TrustStatus → Bool
hard_status exclusive s =
    s.not_time_valid || s.revoked || (s.untrusted_root && not exclusive) || s.other

abbrev pub status_code : TrustStatus → Code
status_code s =
    if s.not_time_valid then tls_expired else if s.revoked then tls_revoked else tls_untrusted_root

-- TRUST_E_CERTUNTRUSTEDROOT
abbrev pub untrusted_root_error : ℕ
untrusted_root_error = 0x800B0109

-- Is the policy's answer a failure?
unfoldable pub policy_fails : Bool → Option ℕ → Bool
policy_fails exclusive none = true
policy_fails exclusive (some e) = not (e == 0) && not (exclusive && e == untrusted_root_error)

-- `VerifyChain`: the verifier, and whether the chain is accepted.
unfoldable pub verify_chain : Verifier → Option ChainContext → Verifier × Bool
verify_chain v none = (fail v tls_chain_failed, false)
verify_chain v (some c) =
    if v.exclusive && not (rooted v.root_hashes c.ends)
    then (fail v tls_untrusted_root, false)
    else if hard_status v.exclusive c.status
    then (fail v (status_code c.status), false)
    else if policy_fails v.exclusive c.policy_error
    then (fail v tls_policy_failed, false)
    else (v, true)

unfoldable pub any_dns : Bytes → List Bytes → Bool
any_dns host [] = false
any_dns host (name ∷ names) =
    ascii_equals_insensitive name host || matches_wildcard host name || any_dns host names

-- Up to the first comma.
unfoldable pub first_part : Bytes → Bytes
first_part name = elim (cut (b',' ∷ []) name) [ none ↦ name | some (a, _) ↦ a ]

abbrev no_names : List Bytes → Bool
no_names [] = true
no_names (n ∷ ns) = false

unfoldable pub matches_common_name : Bytes → Option Bytes → Bool
matches_common_name host none = false
matches_common_name host (some name) = ascii_equals_insensitive (first_part name) host

-- What `VerifyName` decides over the names of the certificate.
unfoldable pub name_matches : Platform → Bytes → Names → Option Bytes → Bool
name_matches p host names common_name =
    if not (is_empty (p.canonical_ip host))
    then mem_text (p.canonical_ip host) names.ip_names
    else any_dns host names.dns_names
      || (no_names names.dns_names && matches_common_name host common_name)

-- `VerifyName`. A read outside of the certificate is a fault.
unfoldable pub verify_name : Platform → Verifier → Certificate → Result Fault (Verifier × Bool)
verify_name p v c = read_alt_names p.ntop c.encoded >>= λ found.
    if name_matches p v.host found.1 c.common_name
    then ok (v, true)
    else ok (fail v tls_name_mismatch, false)

abbrev pub then_name : Platform → Certificate → Verifier × Bool → Result Fault (Verifier × Bool)
then_name p c (v, true) = verify_name p v c
then_name p c (v, false) = ok (v, false)

-- `Check`, on the certificate that the peer presented.
unfoldable pub check : Platform → Verifier → Option Certificate → Result Fault (Verifier × Bool)
check p v c =
    let w = record v { checked = true } in
    if not v.verify then ok (w, true) else if v.failed then ok (w, false) else elim c [
      | none ↦ ok (fail w tls_no_certificate, false)
      | some cert ↦ then_name p cert (verify_chain w cert.chain)
    ]

-- `Passed`.
abbrev pub passed : Verifier → Bool
passed v = v.checked && not v.failed
