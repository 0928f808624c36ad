-- ===== src/Proxy/Request.antt =====
-- The CONNECT request of the SOCKS5 handshake (socket/Dial.cpp, ConnectRequest). `WideCharToMultiByte`, `InetPtonW` and `GetAddrInfoW` are the resolver's answers.
use lua_xenetwork.Prelude.{
  ℕ, ◌+◌, ◌*◌, ◌/◌, ◌%◌, ◌≤◌, Bool, true, false, ◌&&◌, ◌||◌, List, [], ◌∷◌, ◌++◌, Option, none, All,
  some, Bytes, length, take, drop, is_empty, ltb, ◌==◌, if◌then◌else◌, Result, ok, throw_if,
  or_throw, ◌>>=◌, ◌>>◌, >>=-eq-ok, throw_if-eq-ok, or_throw-eq-ok, ok-inj, take-length,
  drop-length, ◌≡◌, refl, sym, ap, ◌∙◌, ◌⊎◌, inl, inr, subst, arith,
}
use lua_xenetwork.Proxy.Addresses.{
  Family, inet, inet6, at_end, skips, takes, AddrInfo, first_address, resolve_locally, Search,
  Holds, first_address-Search,
}
use lua_xenetwork.Proxy.Target.{DialCode, proxy_target_name_invalid, proxy_dns_failed}

-- What the platform answers for the target host: its UTF-8 text, the four bytes of an IPv4
-- literal, and the addresses of the name.
pub record Resolver : Type 0 where
  pub utf8 : Bytes → Bytes
  pub inet_pton : Bytes → Option Bytes
  pub get_addr_info : Bytes → List AddrInfo

-- The type octet of a resolved address.
abbrev pub address_type : Bytes → ℕ
address_type address = if length address == 4 then 0x01 else 0x04

-- The address of a literal, or else the one that the name resolves to.
unfoldable pub local_address : Option Bytes → List AddrInfo → Result DialCode Bytes
local_address (some v4) results = ok (0x01 ∷ v4)
local_address none results = do
  resolved ← or_throw (resolve_locally results) proxy_dns_failed
  ok (address_type resolved ∷ resolved)

unfoldable pub request_address : Resolver → Bool → Bytes → Result DialCode Bytes
request_address r true host = do
  throw_if (is_empty (r.utf8 host) || ltb 255 (length (r.utf8 host))) proxy_target_name_invalid
  ok (0x03 ∷ (length (r.utf8 host) % 256) ∷ r.utf8 host)
request_address r false host = local_address (r.inet_pton host) (r.get_addr_info host)

-- `(port >> 8) & 0xFF` and `port & 0xFF`.
abbrev pub port_bytes : ℕ → Bytes
port_bytes port = ((port / 256) % 256) ∷ (port % 256) ∷ []

unfoldable pub connect_request : Resolver → Bool → Bytes → ℕ → Result DialCode Bytes
connect_request r remote_dns host port = do
  address ← request_address r remote_dns host
  ok (0x05 ∷ 0x01 ∷ 0x00 ∷ (address ++ port_bytes port))

-- RFC 1928, section 4: what a server reads out of a request.
pub data Destination : Type 0 where
  ipv4 domain ipv6 : Bytes → ℕ → Destination

abbrev read_port : Bytes → Option ℕ
read_port (high ∷ low ∷ []) = some (high * 256 + low)
read_port _ = none

abbrev to_port : (ℕ → Destination) → Option ℕ → Option Destination
to_port make (some port) = some (make port)
to_port make none = none

abbrev with_port : (Bytes → ℕ → Destination) → ℕ → Bytes → Option Destination
with_port make n s = to_port (make (take n s)) (read_port (drop n s))

abbrev read_address : ℕ → Bytes → Option Destination
read_address kind s =
    if kind == 1
    then with_port ipv4 4 s
    else if kind == 4
    then with_port ipv6 16 s
    else if kind == 3
    then (elim s [ [] ↦ none | n ∷ rest ↦ with_port domain n rest ])
    else none

abbrev pub read_request : Bytes → Option Destination
read_request (version ∷ command ∷ reserved ∷ kind ∷ s) =
    if version == 5 && command == 1 && reserved == 0 then read_address kind s else none
read_request _ = none

-- The platform answers IPv4 literals with four bytes, and the addresses that it lists hold the four
-- or sixteen bytes of their family.
pub record IsWellBehaved (r : Resolver) : Type 0 where
  pub pton_four : (host v4 : Bytes) → r.inet_pton host ≡ some v4 → length v4 ≡ 4
  pub holds_four : (host : Bytes) → All (Holds inet 4) (r.get_addr_info host)
  pub holds_sixteen : (host : Bytes) → All (Holds inet6 16) (r.get_addr_info host)

port_bytes-read : (port : ℕ) → port ≤ 65535 → read_port (port_bytes port) ≡ some port
port_bytes-read port h = ap some (omega arith)

with_port_lem :
    (make : Bytes → ℕ → Destination) (n port : ℕ) (s : Bytes)
    → length s ≡ n
    → port ≤ 65535
    → with_port make n (s ++ port_bytes port) ≡ some (make s port)
with_port_lem make n port s e h =
    subst (λ k. with_port make k (s ++ port_bytes port) ≡ some (make s port)) e
      (ap (λ t. to_port (make t) (read_port (drop (length s) (s ++ port_bytes port))))
          (take-length s (port_bytes port))
        ∙ ap (λ t. to_port (make s) (read_port t)) (drop-length s (port_bytes port))
        ∙ ap (to_port (make s)) (port_bytes-read port h))

-- What the resolved address is: the first IPv4 address in the list, or the first IPv6 address of a
-- list without one.
pub data Chosen (results : List AddrInfo) (port : ℕ) : Option Destination → Type 0 where
  version_4 :
      {a : Bytes} → Search inet 4 results (some a) → Chosen results port (some (ipv4 a port))
  version_6 :
      {a : Bytes}
      → Search inet 4 results none
      → Search inet6 16 results (some a)
      → Chosen results port (some (ipv6 a port))

-- What a socks5 request carries: the literal's address, or the resolved one of a name.
abbrev pub Local : Resolver → Bytes → ℕ → Option Destination → Type 0
Local r host port d =
    ((v4 : Bytes) × (r.inet_pton host ≡ some v4) × (d ≡ some (ipv4 v4 port)))
    ⊎ ((r.inet_pton host ≡ none) × Chosen (r.get_addr_info host) port d)

request_address-remote :
    (r : Resolver) (host : Bytes) {a : Bytes}
    → request_address r true host ≡ ok a
    → (a ≡ 0x03 ∷ length (r.utf8 host) ∷ r.utf8 host) × (length (r.utf8 host) ≤ 255)
unfolding request_address
request_address-remote r host {a} e =
    let (fits, e1) =
      throw_if-eq-ok (is_empty (r.utf8 host) || ltb 255 (length (r.utf8 host)))
        proxy_target_name_invalid _ e in
    let short : length (r.utf8 host) ≤ 255 = ground arith in
    let octet : length (r.utf8 host) % 256 ≡ length (r.utf8 host) = omega arith in
    (sym (ok-inj e1) ∙ ap (λ n. 0x03 ∷ n ∷ r.utf8 host) octet, short)

-- With remote DNS the server reads the host's own name out of the request, and the port.
pub connect_request-remote :
    (r : Resolver) (host : Bytes) (port : ℕ) {request : Bytes}
    → port ≤ 65535
    → connect_request r true host port ≡ ok request
    → read_request request ≡ some (domain (r.utf8 host) port)
unfolding connect_request
connect_request-remote r host port {request} h e =
    let (a, ea, er) = >>=-eq-ok (request_address r true host) _ e in
    let (shape, short) = request_address-remote r host ea in
    subst (λ q. read_request q ≡ some (domain (r.utf8 host) port)) (ok-inj er)
      (subst
        (λ a.
          read_request (0x05 ∷ 0x01 ∷ 0x00 ∷ (a ++ port_bytes port))
          ≡ some (domain (r.utf8 host) port))
        (sym shape) (with_port_lem domain (length (r.utf8 host)) port (r.utf8 host) refl h))

abbrev LocalAddress : Resolver → Bytes → Bytes → Type 0
LocalAddress r host a =
    ((v4 : Bytes) × (r.inet_pton host ≡ some v4) × (a ≡ 0x01 ∷ v4))
    ⊎ ((x : Bytes) × (r.inet_pton host ≡ none)
        × (resolve_locally (r.get_addr_info host) ≡ some x)
        × (a ≡ address_type x ∷ x))

local_address-LocalAddress :
    (r : Resolver) (host : Bytes) (literal : Option Bytes) {a : Bytes}
    → r.inet_pton host ≡ literal
    → local_address literal (r.get_addr_info host) ≡ ok a
    → LocalAddress r host a
unfolding local_address
local_address-LocalAddress r host (some v4) q e = inl (v4, q, sym (ok-inj e))
local_address-LocalAddress r host none q e =
    let (x, found, e1) =
      >>=-eq-ok (or_throw (resolve_locally (r.get_addr_info host)) proxy_dns_failed) _ e in
    inr (
      x,
      q,
      or_throw-eq-ok (resolve_locally (r.get_addr_info host)) proxy_dns_failed found,
      sym (ok-inj e1),
    )

request_address-local :
    (r : Resolver) (host : Bytes) {a : Bytes}
    → request_address r false host ≡ ok a
    → LocalAddress r host a
unfolding request_address
request_address-local r host e = local_address-LocalAddress r host (r.inet_pton host) refl e

abbrev HasLength : ℕ → Option Bytes → Type 0
HasLength size none = Unit
HasLength size (some a) = length a ≡ size

Search-HasLength :
    {family : Family} {size : ℕ} {results : List AddrInfo} {found : Option Bytes}
    → Search family size results found
    → HasLength size found
Search-HasLength at_end = tt
Search-HasLength (skips why s) = Search-HasLength s
Search-HasLength (takes address more f l q n) = n

read_address-four :
    (x : Bytes) (port : ℕ)
    → length x ≡ 4
    → port ≤ 65535
    → read_address (address_type x) (x ++ port_bytes port) ≡ some (ipv4 x port)
read_address-four x port e h = rw e (with_port_lem ipv4 4 port x e h)

read_address-sixteen :
    (x : Bytes) (port : ℕ)
    → length x ≡ 16
    → port ≤ 65535
    → read_address (address_type x) (x ++ port_bytes port) ≡ some (ipv6 x port)
read_address-sixteen x port e h = rw e (with_port_lem ipv6 16 port x e h)

resolve_locally-Chosen :
    (results : List AddrInfo) (port : ℕ) {x : Bytes}
    → All (Holds inet 4) results
    → All (Holds inet6 16) results
    → port ≤ 65535
    → resolve_locally results ≡ some x
    → Chosen results port (read_address (address_type x) (x ++ port_bytes port))
unfolding resolve_locally
resolve_locally-Chosen results port {x} four sixteen h e =
    go (first_address inet 4 results) (first_address inet6 16 results)
      (first_address-Search inet 4 results four) (first_address-Search inet6 16 results sixteen) e
  where
    go :
        (a b : Option Bytes)
        → Search inet 4 results a
        → Search inet6 16 results b
        → (elim a [ some address ↦ some address | none ↦ b ]) ≡ some x
        → Chosen results port (read_address (address_type x) (x ++ port_bytes port))
    go (some y) b s t q =
        subst (λ d. Chosen results port d)
          (sym (read_address-four x port (subst (HasLength 4) q (Search-HasLength s)) h))
          (version_4 (subst (Search inet 4 results) q s))
    go none b s t q =
        subst (λ d. Chosen results port d)
          (sym (read_address-sixteen x port (subst (HasLength 16) q (Search-HasLength t)) h))
          (version_6 s (subst (Search inet6 16 results) q t))

-- Without remote DNS, for a port of 16 bits and a platform that is well-behaved, a server reads the
-- port and the address of an IPv4 literal, or else the one that was resolved here: the first IPv4
-- address that the platform lists, or the first IPv6 address when no IPv4 address is listed.
pub connect_request-Local :
    (r : Resolver) (host : Bytes) (port : ℕ) {request : Bytes}
    → IsWellBehaved r
    → port ≤ 65535
    → connect_request r false host port ≡ ok request
    → Local r host port (read_request request)
unfolding connect_request
connect_request-Local r host port {request} w h e =
    let (a, ea, er) = >>=-eq-ok (request_address r false host) _ e in
    subst (λ q. Local r host port (read_request q)) (ok-inj er)
      (go a (request_address-local r host ea))
  where
    encoded : Bytes → Bytes
    encoded a = 0x05 ∷ 0x01 ∷ 0x00 ∷ (a ++ port_bytes port)

    go : (a : Bytes) → LocalAddress r host a → Local r host port (read_request (encoded a))
    go a (inl (v4, q, shape)) = inl (
      v4,
      q,
      ap (λ a. read_request (encoded a)) shape
          ∙ with_port_lem ipv4 4 port v4 (w.pton_four host v4 q) h,
    )
    go a (inr (x, q, found, shape)) = inr (
      q,
      subst (λ a. Chosen (r.get_addr_info host) port (read_request (encoded a))) (sym shape)
          (resolve_locally-Chosen (r.get_addr_info host) port (w.holds_four host)
            (w.holds_sixteen host) h found),
    )
