-- ===== src/Tests/OfClient.antt =====
-- Runs of the TLS client (socket/SSLClient.cpp) on a security package whose records are the length of
-- the text and the text.
use lua_xenetwork.Prelude.{
  ℕ, zero, suc, ◌≤◌, ◌<◌, true, false, [], ◌∷◌, ◌++◌, some, Bytes, codes, length, take, drop,
  flatten, leb, if◌then◌else◌, ok, ◌≡◌, refl, ap, sym, take-length, drop-length, length-append,
  length-take, le→leb, arith,
}
use lua_xenetwork.Proxy.Wire.{Incoming, closed, arrives}
use lua_xenetwork.Tls.Client.{
  Package, Decrypted, incomplete_message, message, Client, recv_partial_encrypted, decrypt_loop,
  first_status,
}
use lua_xenetwork.Tls.Client.Stream.{Peer, Opens, extra_of, record_limit}
use lua_xenetwork.Tls.Client.Reads.{Run, recv_all, recv_all-Run}
use lua_xenetwork.Tls.Client.Rounds.{recv_partial_encrypted-enough}
use lua_xenetwork.Tls.Client.Sending.{send}
use lua_xenetwork.Tls.Client.Records.{Seals, Sends}
use lua_xenetwork.Tls.Client.Delivery.{send-Sends}
use lua_xenetwork.Tls.Client.EndToEnd.{data_of, send-recv_all}

abbrev peer : Peer ℕ
peer = record { sealed = λ s p. length p ∷ p; after = λ s. suc s }

abbrev open_record : ℕ → Bytes → Decrypted ℕ
open_record s [] = incomplete_message
open_record s (n ∷ bytes) =
    if leb n (length bytes)
    then message (some (take n bytes)) (extra_of (drop n bytes)) (suc s)
    else incomplete_message

-- The socket reports that it sent one byte of each record.
abbrev sspi : Package ℕ
sspi = record {
  header = 1;
  trailer = 0;
  maximum_message = 5;
  decrypt_message = open_record;
  encrypt_message = λ s p. ok (length p ∷ p, suc s);
  socket_send = λ before data_sent. some 1;
}

opens : Opens sspi peer
opens = record {
  part = part;
  whole = whole;
  fits = λ s p h. omega arith;
  is_some = λ s p. omega arith;
}
  where
    part :
        (s : ℕ) (p : Bytes) (n : ℕ)
        → length p ≤ record_limit
        → n < suc (length p)
        → open_record s (take n (length p ∷ p)) ≡ incomplete_message
    part s p zero h k = refl
    part s p (suc n) h k =
        let taken = length-take n p in
        let short : leb (length p) (length (take n p)) ≡ false = ground arith in rw short refl

    whole :
        (s : ℕ) (p rest : Bytes)
        → length p ≤ record_limit
        → open_record s (length p ∷ (p ++ rest)) ≡ message (some p) (extra_of rest) (suc s)
    whole s p rest h =
        let all : leb (length p) (length (p ++ rest)) ≡ true =
          le→leb _ _ (omega (arith, length-append p rest)) in
        rw all (rw (take-length p rest) (rw (drop-length p rest) refl))

seals : Seals sspi peer
seals = record {
  seal = λ s p h. refl;
  margin = omega arith;
  reports = λ before data_sent. (1, refl);
}

abbrev client : Client ℕ
client = record {
  encrypting = true;
  plain = [];
  before = 0;
  cipher = [];
  context = 7;
  written = [];
  last_error = 0;
}

abbrev first_read : Client ℕ
first_read = record client { cipher = 5 ∷ codes "He" }

-- A record of which two bytes are in the buffer, and one that arrives with the rest of it.
abbrev in_portions : Incoming
in_portions =
    arrives (codes "l") (arrives (codes "lo" ++ (2 ∷ codes "!")) (arrives (codes "!") closed))

recv_all-Run_example :
    Run
      (codes "Hello!!")
      (3 ∷ 3 ∷ 1 ∷ 9 ∷ 9 ∷ [])
      (recv_all sspi (3 ∷ 3 ∷ 1 ∷ 9 ∷ 9 ∷ []) first_read in_portions)
recv_all-Run_example =
    recv_all-Run sspi peer opens (3 ∷ 3 ∷ 1 ∷ 9 ∷ 9 ∷ []) (codes "Hello!!") first_read in_portions
      (omega arith, (omega arith, (omega arith, (omega arith, (omega arith, tt)))))
      record {
        records = codes "Hello" ∷ codes "!!" ∷ [];
        carried = ((refl, omega arith), ((refl, omega arith), tt));
        encrypting = refl;
        room = omega arith;
        hold = (refl, (refl, (refl, tt)));
        stream = refl;
        text_eq = refl;
      }

recv_partial_encrypted-enough_example :
    recv_partial_encrypted sspi 3 first_read in_portions
    ≡ decrypt_loop sspi 107 3 (first_status sspi first_read) first_read in_portions
recv_partial_encrypted-enough_example =
    recv_partial_encrypted-enough sspi 100 3 first_read in_portions

send-Sends_example : Sends sspi peer (codes "Hello!!") 7 client (send sspi (codes "Hello!!") client)
send-Sends_example = send-Sends sspi peer seals b'H' (codes "ello!!") client refl

send_run :
    (send sspi (codes "Hello!!") client).1.written ≡ (5 ∷ codes "Hello") ∷ (2 ∷ codes "!!") ∷ []
unfolding send
send_run = refl

abbrev of_sent : Incoming
of_sent = arrives (5 ∷ codes "Hell") (arrives (codes "o" ++ (2 ∷ codes "!!")) closed)

send-recv_all_example :
    data_of (recv_all sspi (4 ∷ 4 ∷ 4 ∷ 4 ∷ 4 ∷ 4 ∷ 4 ∷ []) client of_sent) ≡ codes "Hello!!"
send-recv_all_example =
    send-recv_all sspi peer seals sspi opens b'H' (codes "ello!!") client client of_sent
      (4 ∷ 4 ∷ 4 ∷ 4 ∷ 4 ∷ 4 ∷ 4 ∷ []) refl refl
      record {
        encrypting = refl;
        no_plain = refl;
        no_cipher = refl;
        at_start = refl;
        same_context = refl;
      }
      (refl, (refl, tt)) (ap (λ x. flatten x) (sym send_run))
      (
        omega arith,
        (
          omega arith,
          (omega arith, (omega arith, (omega arith, (omega arith, (omega arith, tt))))),
        ),
      )
      (omega arith)
