-- ===== src/Proxy/Wire/Enough.antt =====
-- A read whose bytes arrive returns them (socket/BaseSock.cpp, CBaseSock::Recv).
use lua_xenetwork.Prelude.{
  ℕ, zero, suc, ◌+◌, ◌-◌, ◌≤◌, ◌<◌, false, [], ◌∷◌, ◌++◌, Bytes, length, take, drop, is_empty,
  length-append, length-take, length-drop, leb, if◌then◌else◌, ◌≡◌, refl, ap, arith,
}
use lua_xenetwork.Proxy.Wire.{
  Incoming, closed, failed, arrives, Read, received, recv_partial, joined, recv_next, recv,
}
use lua_xenetwork.Proxy.Wire.Exact.{pending, recv_partial-Keeps}

-- Every portion that arrives holds a byte.
abbrev pub HoldBytes : Incoming → Type 0
HoldBytes closed = Unit
HoldBytes (failed timed_out) = Unit
HoldBytes (arrives bytes rest) = (is_empty bytes ≡ false) × HoldBytes rest

-- A read of `len` bytes returned them, and what it leaves arrives as before.
pub record Returns (len : ℕ) (r : Read × Incoming) : Type 0 where
  pub bytes : Bytes
  pub rest : Incoming
  pub result : r ≡ (received bytes, rest)
  pub whole : length bytes ≡ len
  pub hold : HoldBytes rest

left_over :
    (bytes : Bytes) (rest : Incoming)
    → HoldBytes rest
    → HoldBytes (if is_empty bytes then rest else arrives bytes rest)
      × (length (pending (if is_empty bytes then rest else arrives bytes rest))
          ≡ length bytes + length (pending rest))
left_over [] rest h = (h, omega arith)
left_over (c ∷ bytes) rest h = ((refl, h), length-append (c ∷ bytes) (pending rest))

joined-Returns :
    (first : Bytes) (len all : ℕ) (r : Read × Incoming)
    → Returns len r
    → length first + len ≡ all
    → Returns all (joined first r)
unfolding joined
joined-Returns first len all r p e = record {
  bytes = first ++ p.bytes;
  rest = p.rest;
  result = ap (joined first) p.result;
  whole = omega (arith, length-append first p.bytes, p.whole, e);
  hold = p.hold;
}

-- When as many bytes as are asked for arrive before the end, in portions that are not empty, the
-- loop returns that many, and as many rounds as bytes are enough.
pub recv-Returns :
    (fuel len : ℕ) (i : Incoming)
    → len ≤ fuel
    → HoldBytes i
    → len ≤ length (pending i)
    → Returns len (recv fuel len i)
unfolding recv recv_partial recv_next
recv-Returns zero zero i h b k = record {
  bytes = [];
  rest = i;
  result = refl;
  whole = refl;
  hold = b;
}
recv-Returns zero (suc len) i h b k = absurd (omega arith)
recv-Returns (suc fuel) zero i h b k = record {
  bytes = [];
  rest = i;
  result = refl;
  whole = refl;
  hold = b;
}
recv-Returns (suc fuel) (suc len) closed h b k = absurd (omega arith)
recv-Returns (suc fuel) (suc len) (failed t) h b k = absurd (omega arith)
recv-Returns (suc fuel) (suc len) (arrives [] rest) h b k = absurd (cc)
recv-Returns (suc fuel) (suc len) (arrives (c ∷ bytes) rest) h b k =
    let (held, size) = left_over (drop len bytes) rest b.1 in
    let taken = length-take len bytes in
    let dropped = length-drop len bytes in
    let both = length-append (c ∷ bytes) (pending rest) in
    let missing : leb (suc len) 0 ≡ false = ground arith in
    rw missing (
      joined-Returns (c ∷ take len bytes) (suc len - length (c ∷ take len bytes)) (suc len) _
        (recv-Returns fuel (suc len - length (c ∷ take len bytes))
          (if is_empty (drop len bytes) then rest else arrives (drop len bytes) rest) (omega arith)
          held (omega (arith, size, taken, dropped, both, k)))
        (omega (arith, taken)))

-- What one read of at most `len` bytes gets where something arrives.
pub record Gets (len : ℕ) (all : Bytes) (r : Read × Incoming) : Type 0 where
  pub first : ℕ
  pub others : Bytes
  pub rest : Incoming
  pub result : r ≡ (received (first ∷ others), rest)
  pub size : length (first ∷ others) ≤ len
  pub hold : HoldBytes rest
  pub all_eq : all ≡ (first ∷ others) ++ pending rest

recv_partial-Gets_some :
    (len b : ℕ) (bytes : Bytes) (rest : Incoming)
    → HoldBytes rest
    → Gets (suc len) (b ∷ bytes ++ pending rest) (recv_partial (suc len) (arrives (b ∷ bytes) rest))
unfolding recv_partial
recv_partial-Gets_some len b bytes rest h = record {
  first = b;
  others = take len bytes;
  rest = (if is_empty (drop len bytes) then rest else arrives (drop len bytes) rest);
  result = refl;
  size = omega (arith, length-take len bytes);
  hold = (left_over (drop len bytes) rest h).0;
  all_eq = recv_partial-Keeps (suc len) (arrives (b ∷ bytes) rest);
}

pub recv_partial-Gets :
    (len : ℕ) (i : Incoming)
    → HoldBytes i
    → 0 < length (pending i)
    → Gets (suc len) (pending i) (recv_partial (suc len) i)
recv_partial-Gets len closed h some_bytes = absurd (omega arith)
recv_partial-Gets len (failed timed_out) h some_bytes = absurd (omega arith)
recv_partial-Gets len (arrives [] rest) h some_bytes = absurd (cc)
recv_partial-Gets len (arrives (b ∷ bytes) rest) h some_bytes =
    recv_partial-Gets_some len b bytes rest h.1
