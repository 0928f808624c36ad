-- ===== src/Proxy/Addresses.antt =====
-- The addresses that a target resolves to for the proxy (socket/Dial.cpp, ResolveLocally). The list
-- of `GetAddrInfoW` is an argument.
use lua_xenetwork.Prelude.{
  ℕ, ◌≤◌, ◌<◌, Bool, true, false, not, ◌||◌, List, [], ◌∷◌, ◌++◌, Option, none, some, Bytes, length,
  take, drop, length-take, take-append-drop, ltb, ltb→lt, ltb→le, if◌then◌else◌, All, ◌⊎◌, inl, inr,
  ◌≡◌, refl, sym, ap, ◌∙◌, subst, Bool-cases, Option-cases, arith,
}

-- One of the addresses that `GetAddrInfoW` lists: whether it is AF_INET or AF_INET6 (or neither),
-- the length of its `sockaddr`, and the bytes from the address field of that family on, if
-- `ai_addr` is not null.
pub data Family : Type 0 where
  inet inet6 other_family : Family

pub record AddrInfo : Type 0 where
  pub family : Family
  pub addrlen : ℕ
  pub address : Option Bytes

unfoldable pub same_family : Family → Family → Bool
same_family inet inet = true
same_family inet6 inet6 = true
same_family other_family other_family = true
same_family _ _ = false

-- One pass over the list: the first address of the family that is there and long enough.
unfoldable pub first_address : Family → ℕ → List AddrInfo → Option Bytes
unfolding same_family
first_address family wanted [] = none
first_address family wanted (entry ∷ rest) =
    let later = first_address family wanted rest in
    elim entry.address [
      | none ↦ later
      | some address ↦
          if not (same_family entry.family family) || ltb entry.addrlen wanted
          then later
          else some (take wanted address)
    ]

-- `ResolveLocally`: an AF_INET address if there is one, else an AF_INET6 address.
unfoldable pub resolve_locally : List AddrInfo → Option Bytes
unfolding first_address
resolve_locally results = elim (first_address inet 4 results) [
  | some address ↦ some address
  | none ↦ first_address inet6 16 results
]

-- What is found by looking for an address of a family and a size: the first bytes of the first
-- entry of that family with an address and a length that is enough, or nothing when none is.
pub data Search (family : Family) (size : ℕ) : List AddrInfo → Option Bytes → Type 0 where
  at_end : Search family size [] none
  skips :
      {entry : AddrInfo} {rest : List AddrInfo} {found : Option Bytes}
      → (¬ (entry.family ≡ family)) ⊎ (entry.address ≡ none) ⊎ (entry.addrlen < size)
      → Search family size rest found
      → Search family size (entry ∷ rest) found
  takes :
      {entry : AddrInfo} {rest : List AddrInfo} (address more : Bytes)
      → entry.family ≡ family
      → size ≤ entry.addrlen
      → entry.address ≡ some (address ++ more)
      → length address ≡ size
      → Search family size (entry ∷ rest) (some address)

-- An entry of the family holds the family's bytes where its address is.
abbrev pub Holds : Family → ℕ → AddrInfo → Type 0
Holds family size entry =
    (bytes : Bytes) → entry.family ≡ family → entry.address ≡ some bytes → size ≤ length bytes

same_family-true : (a b : Family) → same_family a b ≡ true → a ≡ b
unfolding same_family
same_family-true inet inet e = refl
same_family-true inet6 inet6 e = refl
same_family-true other_family other_family e = refl
same_family-true inet inet6 e = absurd (cc)
same_family-true inet other_family e = absurd (cc)
same_family-true inet6 inet e = absurd (cc)
same_family-true inet6 other_family e = absurd (cc)
same_family-true other_family inet e = absurd (cc)
same_family-true other_family inet6 e = absurd (cc)

same_family_refl : (a : Family) → same_family a a ≡ true
unfolding same_family
same_family_refl inet = refl
same_family_refl inet6 = refl
same_family_refl other_family = refl

same_family-false : (a b : Family) → same_family a b ≡ false → ¬ (a ≡ b)
same_family-false a b e q =
    let same : same_family a b ≡ true =
      subst (λ x. same_family a x ≡ true) q (same_family_refl a) in
    absurd (cc)

length-take_le : (n : ℕ) (s : Bytes) → n ≤ length s → length (take n s) ≡ n
length-take_le n s h = omega (arith, length-take n s)

pub first_address-Search :
    (family : Family) (size : ℕ) (results : List AddrInfo)
    → All (Holds family size) results
    → Search family size results (first_address family size results)
unfolding first_address
first_address-Search family size [] h = at_end
first_address-Search family size (entry ∷ rest) h = elim (Option-cases entry.address) [
  | inl q ↦
      let same : first_address family size (entry ∷ rest) ≡ first_address family size rest =
        rw q refl in
      subst (Search family size (entry ∷ rest)) (sym same)
        (skips (inr (inl q)) (first_address-Search family size rest h.1))
  | inr (bytes, q) ↦ elim (Bool-cases (same_family entry.family family)) [
    | inr f ↦
        let same : first_address family size (entry ∷ rest) ≡ first_address family size rest =
          rw q (rw f refl) in
        subst (Search family size (entry ∷ rest)) (sym same) (
          skips (inl (same_family-false entry.family family f))
            (first_address-Search family size rest h.1))
    | inl f ↦ elim (Bool-cases (ltb entry.addrlen size)) [
      | inl l ↦
          let same : first_address family size (entry ∷ rest) ≡ first_address family size rest =
            rw q (rw f (rw l refl)) in
          subst (Search family size (entry ∷ rest)) (sym same) (
            skips (inr (inr (ltb→lt entry.addrlen size l)))
              (first_address-Search family size rest h.1))
      | inr l ↦
          let same : first_address family size (entry ∷ rest) ≡ some (take size bytes) =
            rw q (rw f (rw l refl)) in
          let kind = same_family-true entry.family family f in
          subst (Search family size (entry ∷ rest)) (sym same) (
            takes (take size bytes) (drop size bytes) kind (ltb→le entry.addrlen size l)
              (q ∙ ap some (sym (take-append-drop size bytes)))
              (length-take_le size bytes (h.0 bytes kind q)))
    ]
  ]
]
