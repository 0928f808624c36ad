-- ===== src/Tls/Client/Rounds.antt =====
-- The rounds of CSSLClient::RecvPartialEncrypted (socket/SSLClient.cpp), whatever DecryptMessage does.
use lua_xenetwork.Prelude.{
  ℕ, zero, suc, ◌+◌, ◌<◌, [], ◌∷◌, Option, none, some, length, ◌≡◌, refl, ap, length-append, arith,
}
use lua_xenetwork.Proxy.Wire.{Incoming, Read, socket_error, received, recv_partial}
use lua_xenetwork.Proxy.Wire.Exact.{pending, Keeps, recv_partial-Keeps}
use lua_xenetwork.Tls.Client.{
  Package, Client, Decrypted, incomplete_message, message, context_expired, decrypt_error, Outcome,
  make_room, receive_more, decrypt_next, decrypt_loop, first_status, recv_partial_encrypted,
}

module _ {S : Type 0} (sspi : Package S) where
  -- Two ways to go on agree wherever less is left to read.
  abbrev Agree : Incoming → (again also : Decrypted S → Client S → Incoming → Outcome S) → Type 0
  Agree i again also =
      (status : Decrypted S) (c : Client S) (rest : Incoming)
      → length (pending rest) < length (pending i)
      → again status c rest ≡ also status c rest

  decrypt_next-Agree :
      (r : Read × Incoming) (c : Client S) (i : Incoming)
      (again also : Decrypted S → Client S → Incoming → Outcome S)
      → Keeps (pending i) r
      → Agree i again also
      → decrypt_next sspi r c again ≡ decrypt_next sspi r c also
  unfolding decrypt_next
  decrypt_next-Agree (socket_error timed_out, rest) c i again also k h = refl
  decrypt_next-Agree (received [], rest) c i again also k h = refl
  decrypt_next-Agree (received (b ∷ bytes), rest) c i again also k h =
      h _ _ rest (omega (arith, ap {B = ℕ} length k, length-append (b ∷ bytes) (pending rest)))

  receive_more-Agree :
      (made : Option (ℕ × Client S)) (c : Client S) (i : Incoming)
      (again also : Decrypted S → Client S → Incoming → Outcome S)
      → Agree i again also
      → receive_more sspi made c i again ≡ receive_more sspi made c i also
  unfolding receive_more
  receive_more-Agree none c i again also h = refl
  receive_more-Agree (some (free, moved)) c i again also h =
      decrypt_next-Agree (recv_partial free i) moved i again also (recv_partial-Keeps free i) h

  decrypt_loop-enough :
      (fuel more len : ℕ) (status : Decrypted S) (c : Client S) (i : Incoming)
      → length (pending i) < fuel
      → decrypt_loop sspi fuel len status c i ≡ decrypt_loop sspi (fuel + more) len status c i
  unfolding decrypt_loop
  decrypt_loop-enough zero more len status c i h = absurd (omega arith)
  decrypt_loop-enough (suc fuel) more len incomplete_message c i h =
      let same : suc fuel + more ≡ suc (fuel + more) = omega arith in
      rw same (
        receive_more-Agree (make_room c) c i _ _
          (λ status c2 rest less. decrypt_loop-enough fuel more len status c2 rest (omega arith)))
  decrypt_loop-enough (suc fuel) more len context_expired c i h =
      let same : suc fuel + more ≡ suc (fuel + more) = omega arith in rw same refl
  decrypt_loop-enough (suc fuel) more len (decrypt_error status) c i h =
      let same : suc fuel + more ≡ suc (fuel + more) = omega arith in rw same refl
  decrypt_loop-enough (suc fuel) more len (message none extra context) c i h =
      let same : suc fuel + more ≡ suc (fuel + more) = omega arith in rw same refl
  decrypt_loop-enough (suc fuel) more len (message (some bytes) extra context) c i h =
      let same : suc fuel + more ≡ suc (fuel + more) = omega arith in rw same refl

  -- Whatever DecryptMessage answers, the loop of RecvPartialEncrypted needs no more rounds than bytes
  -- arrive, and one: with more rounds the result is the same.
  pub recv_partial_encrypted-enough :
      (more len : ℕ) (c : Client S) (i : Incoming)
      → recv_partial_encrypted sspi len c i
        ≡ decrypt_loop sspi (suc (length (pending i)) + more) len (first_status sspi c) c i
  unfolding recv_partial_encrypted
  recv_partial_encrypted-enough more len c i =
      decrypt_loop-enough (suc (length (pending i))) more len (first_status sspi c) c i
        (omega arith)
