-- ===== src/Tls/Client/EndToEnd.antt =====
-- What one CSSLClient sends arrives at another (socket/SSLClient.cpp, Send and Recv).
use lua_xenetwork.Prelude.{
  ℕ, ◌≤◌, ◌<◌, true, List, [], ◌∷◌, ◌++◌, Option, none, some, Bytes, map, length, flatten, All, ◌≡◌,
  refl, sym, ap, ◌∙◌, length-append, arith,
}
use lua_xenetwork.Proxy.Wire.{Incoming}
use lua_xenetwork.Proxy.Wire.Exact.{pending}
use lua_xenetwork.Proxy.Wire.Enough.{HoldBytes}
use lua_xenetwork.Tls.Client.{Package, Client}
use lua_xenetwork.Tls.Client.Stream.{Peer, Opens, Holds, IsCarried, sealed_all}
use lua_xenetwork.Tls.Client.Reads.{Run, stop, piece, ended, lost, recv_all, recv_all-Run}
use lua_xenetwork.Tls.Client.Sending.{Sent, send}
use lua_xenetwork.Tls.Client.Records.{Seals, IsPiece, Sends, records_of, flatten-records_of}
use lua_xenetwork.Tls.Client.Delivery.{send-Sends, max_chunk-bounds}

-- The bytes of the answers.
abbrev pub data_of : List (Option Bytes) → Bytes
data_of [] = []
data_of (none ∷ answers) = data_of answers
data_of (some bytes ∷ answers) = bytes ++ data_of answers

data_of-fails : (lens : List ℕ) → data_of (map (λ n. none) lens) ≡ []
data_of-fails [] = refl
data_of-fails (len ∷ lens) = data_of-fails lens

-- As many reads as bytes get the whole text.
pub Run-data_of :
    {text : Bytes} {lens : List ℕ} {answers : List (Option Bytes)}
    → Run text lens answers
    → length text ≤ length lens
    → data_of answers ≡ text
Run-data_of {text = []} stop h = refl
Run-data_of {text = b ∷ text} stop h = absurd (omega arith)
Run-data_of (piece {b} {bytes} {rest} size run) h =
    ap (λ x. (b ∷ bytes) ++ x) (Run-data_of run (omega (arith, length-append (b ∷ bytes) rest)))
Run-data_of (ended {len} {lens}) h = data_of-fails lens
Run-data_of (lost run) h = Run-data_of run (omega arith)

-- A client behind the handshake, with nothing in its buffers.
pub record IsFresh {S : Type 0} (context : S) (c : Client S) : Type 0 where
  pub encrypting : c.encrypting ≡ true
  pub no_plain : c.plain ≡ []
  pub no_cipher : c.cipher ≡ []
  pub at_start : c.before ≡ 0
  pub same_context : c.context ≡ context

module _ {S : Type 0} (sspi : Package S) (peer : Peer S) (seals : Seals sspi peer) where
  IsPiece-IsCarried : (ps : List Bytes) → All (IsPiece sspi) ps → All IsCarried ps
  IsPiece-IsCarried [] h = tt
  IsPiece-IsCarried (p ∷ ps) h = (
    (h.0.0, omega (arith, h.0.1, (max_chunk-bounds sspi peer seals).1)),
    IsPiece-IsCarried ps h.1,
  )

  sent_Holds :
      (text : Bytes) (n : ℕ) (c d : Client S) (r : Sent × Client S) (i : Incoming)
      → Sends sspi peer text n c r
      → c.written ≡ []
      → IsFresh c.context d
      → HoldBytes i
      → pending i ≡ flatten r.1.written
      → Holds peer text d i
  sent_Holds text n c d r i s none_before fresh hold e = record {
    records = s.pieces;
    carried = IsPiece-IsCarried s.pieces s.sizes;
    encrypting = fresh.encrypting;
    room = omega (arith, ap {B = ℕ} length fresh.no_cipher, fresh.at_start);
    hold = hold;
    stream =
        (ap (λ x. x ++ pending i) fresh.no_cipher
          ∙ e
          ∙ ap flatten s.written_eq
          ∙ ap (λ x. flatten (x ++ records_of peer c.context s.pieces)) none_before
          ∙ flatten-records_of peer c.context s.pieces
          ∙ ap (λ x. sealed_all peer x s.pieces) (sym fresh.same_context));
    text_eq = sym s.join ∙ ap (λ x. x ++ flatten s.pieces) (sym fresh.no_plain);
  }

  -- What one client sends is what another reads: under the conditions of Send and of Recv, a text that
  -- is not empty and that a client sent first is, when its records arrive in any portions that are not
  -- empty, what as many calls of Recv as it has bytes return together, whatever positive lengths the
  -- calls ask for.
  pub send-recv_all :
      (sspi2 : Package S)
      → Opens sspi2 peer
      → (b : ℕ) (text : Bytes) (c d : Client S) (i : Incoming) (lens : List ℕ) → c.encrypting ≡ true
      → c.written ≡ []
      → IsFresh c.context d
      → HoldBytes i
      → pending i ≡ flatten (send sspi (b ∷ text) c).1.written
      → All (λ len. 0 < len) lens
      → length (b ∷ text) ≤ length lens
      → data_of (recv_all sspi2 lens d i) ≡ b ∷ text
  send-recv_all sspi2 opens b text c d i lens on none_before fresh hold e positive many =
      Run-data_of
        (recv_all-Run sspi2 peer opens lens (b ∷ text) d i positive (
          sent_Holds (b ∷ text) (length (b ∷ text)) c d (send sspi (b ∷ text) c) i
            (send-Sends sspi peer seals b text c on) none_before fresh hold e))
        many
