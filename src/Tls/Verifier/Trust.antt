-- ===== src/Tls/Verifier/Trust.antt =====
-- What an accepted certificate is known to satisfy (socket/TlsVerify.cpp, CertificateVerifier).
use lua_xenetwork.Prelude.{
  Bool, true, false, not, ◌&&◌, Option, none, some, Bytes, is_empty, ok, >>=-eq-ok, ◌≡◌, refl, sym,
  ap, ◌∙◌, arith, inl, inr, Bool-cases,
}
use lua_xenetwork.Tls.Der.{Names, read_alt_names}
use lua_xenetwork.Tls.Verifier.{
  Verifier, TrustStatus, ChainContext, Certificate, Platform, fail, mem_text, rooted, hard_status,
  policy_fails, verify_chain, name_matches, verify_name, then_name, check, passed,
}

-- The verifier's three grounds: the chain has no fault that counts and ends at an accepted root,
-- the policy agrees, and one of the certificate's names is the host's.
pub record IsTrusted (p : Platform) (v : Verifier) (c : Certificate) : Type 0 where
  pub context : ChainContext
  pub built : c.chain ≡ some context
  pub in_time : context.status.not_time_valid ≡ false
  pub not_revoked : context.status.revoked ≡ false
  pub no_other : context.status.other ≡ false
  pub root :
      (v.exclusive ≡ true → rooted v.root_hashes context.ends ≡ true)
      × (v.exclusive ≡ false → context.status.untrusted_root ≡ false)
  pub policy : policy_fails v.exclusive context.policy_error ≡ false
  pub found : Bool × Names
  pub read : read_alt_names p.ntop c.encoded ≡ ok found
  pub named : name_matches p v.host found.1 c.common_name ≡ true

verify_name_facts :
    (p : Platform) (v : Verifier) (c : Certificate) {w : Verifier}
    → verify_name p v c ≡ ok (w, true)
    → (found : Bool × Names) × (read_alt_names p.ntop c.encoded ≡ ok found)
      × (name_matches p v.host found.1 c.common_name ≡ true)
      × (w ≡ v)
unfolding verify_name
verify_name_facts p v c {w} e =
    let (found, read, rest) = >>=-eq-ok (read_alt_names p.ntop c.encoded) _ e in
    (found, read, ground arith, ground arith)

hard_status_facts :
    (exclusive : Bool) (s : TrustStatus)
    → hard_status exclusive s ≡ false
    → (s.not_time_valid ≡ false)
      × (s.revoked ≡ false)
      × (s.other ≡ false)
      × (exclusive ≡ false → s.untrusted_root ≡ false)
hard_status_facts exclusive s e = (ground arith, ground arith, ground arith, λ x. ground arith)

then_name_facts :
    (p : Platform) (c : Certificate) (r : Verifier × Bool) {w : Verifier}
    → then_name p c r ≡ ok (w, true)
    → (r.1 ≡ true) × (verify_name p r.0 c ≡ ok (w, true))
then_name_facts p c (v, true) e = (refl, e)
then_name_facts p c (v, false) e = absurd (cc)

check_facts :
    (p : Platform) (v : Verifier) (c : Certificate) {w : Verifier}
    → v.verify ≡ true
    → check p v (some c) ≡ ok (w, true)
    → (v.failed ≡ false)
      × (then_name p c (verify_chain (record v { checked = true }) c.chain) ≡ ok (w, true))
unfolding check
check_facts p v c h e = (ground arith, ground arith)

chain_facts :
    (v : Verifier) (o : Option ChainContext)
    → (verify_chain v o).1 ≡ true
    → (x : ChainContext) × (o ≡ some x)
      × ((verify_chain v o).0 ≡ v)
      × ((v.exclusive && not (rooted v.root_hashes x.ends)) ≡ false)
      × (hard_status v.exclusive x.status ≡ false)
      × (policy_fails v.exclusive x.policy_error ≡ false)
unfolding verify_chain
chain_facts v none e = absurd (cc)
chain_facts v (some x) e = (x, refl, ground arith, ground arith, ground arith, ground arith)

-- A verifier that verifies and answers true has been given a certificate that it has grounds to
-- trust, and its roots had been loaded.
pub check-IsTrusted :
    (p : Platform) (v : Verifier) (c : Certificate) {w : Verifier}
    → v.verify ≡ true
    → check p v (some c) ≡ ok (w, true)
    → (v.failed ≡ false) × IsTrusted p v c
check-IsTrusted p v c {w} h e =
    let u = record v { checked = true } in
    let (loaded, step) = check_facts p v c h e in
    let (accepted, rest) = then_name_facts p c (verify_chain u c.chain) step in
    let (x, built, kept, root, status, policy) = chain_facts u c.chain accepted in
    let (found, read, named, _) = verify_name_facts p (verify_chain u c.chain).0 c rest in
    let (in_time, not_revoked, no_other, our_root) =
      hard_status_facts v.exclusive x.status status in
    (
      loaded,
      record {
        context = x;
        built = built;
        in_time = in_time;
        not_revoked = not_revoked;
        no_other = no_other;
        root = (λ t. ground arith, our_root);
        policy = policy;
        found = found;
        read = read;
        named =
            ap (λ (y : Verifier). name_matches p y.host found.1 c.common_name) (sym kept) ∙ named;
      },
    )

chain-passed :
    (v : Verifier) (o : Option ChainContext)
    → v.checked ≡ true
    → v.failed ≡ false
    → (passed (verify_chain v o).0 ≡ (verify_chain v o).1)
      × ((verify_chain v o).1 ≡ true → (verify_chain v o).0 ≡ v)
unfolding verify_chain fail
chain-passed v none h k = (ground arith, λ e. absurd (cc))
chain-passed v (some x) h k = (ground arith, λ e. ground arith)

name-passed :
    (p : Platform) (v : Verifier) (c : Certificate) {w : Verifier} {b : Bool}
    → v.checked ≡ true
    → v.failed ≡ false
    → verify_name p v c ≡ ok (w, b)
    → passed w ≡ b
unfolding verify_name fail
name-passed p v c {w} {b} h k e =
    let (found, read, rest) = >>=-eq-ok (read_alt_names p.ntop c.encoded) _ e in ground arith

then-passed :
    (p : Platform) (c : Certificate) (v : Verifier) (r : Verifier × Bool) {w : Verifier} {b : Bool}
    → v.checked ≡ true
    → v.failed ≡ false
    → passed r.0 ≡ r.1
    → (r.1 ≡ true → r.0 ≡ v)
    → then_name p c r ≡ ok (w, b)
    → passed w ≡ b
then-passed p c v (u, true) {w} {b} h k l m e =
    name-passed p u c {w = w} {b = b} (ap (λ (x : Verifier). x.checked) (m refl) ∙ h)
      (ap (λ (x : Verifier). x.failed) (m refl) ∙ k) e
then-passed p c v (u, false) h k l m e = ground arith

-- On a verifier that has not failed, `Passed` says what `Check` returned.
pub passed-check :
    (p : Platform) (v : Verifier) (c : Option Certificate) {w : Verifier} {b : Bool}
    → v.failed ≡ false
    → check p v c ≡ ok (w, b)
    → passed w ≡ b
unfolding check fail
passed-check p v none h e = ground arith
passed-check p v (some c) {w} {b} h e = elim (Bool-cases v.verify) [
  | inr off ↦ ground arith
  | inl on ↦
      let u = record v { checked = true } in
      let (l, m) = chain-passed u c.chain refl h in
      then-passed p c u (verify_chain u c.chain) {w = w} {b = b} refl h l m (ground arith)
]

-- A host that is an IP literal is accepted only for an iPAddress entry with its canonical text:
-- DNS names and the common name do not count.
pub name_matches-ip :
    (p : Platform) (host : Bytes) (names : Names) (common_name : Option Bytes)
    → is_empty (p.canonical_ip host) ≡ false
    → name_matches p host names common_name ≡ mem_text (p.canonical_ip host) names.ip_names
unfolding name_matches
name_matches-ip p host names common_name h = rw h
