-- ===== src/Dialog/Tests.antt =====
-- internal/dialog.go: the theorems on a dialog that shakes hands and receives two packets, and a test of
-- the state in which nothing is given back.
use fabrica_net.Base.{ℕ, true, false, none, some, List, [], ◌∷◌, pos, ◌≡◌, refl}
use fabrica_net.Session.{Cipher, with_aes, Session, default_session, decrypt}
use fabrica_net.Dialog.{
  Dialog, new_dialog, Answers, Turn, takes_default, takes_done, start, stop, receive_loop, decodes,
  delivers, frees, turn, closes_received, closes_conn,
}
use fabrica_net.Dialog.Receiving.{Frees, receive_loop-Frees}
use fabrica_net.Dialog.Starting.{AuthedBy, start-AuthedBy}

-- It puts a byte in front, and takes one away.
abbrev cipher : Cipher
cipher = record {
  encrypt_aes = λ p. some (0 ∷ p);
  decrypt_aes = λ p. elim p [ [] ↦ none | b ∷ rest ↦ some rest ];
}

abbrev session : Session
session = record (default_session (pos 0)) { cryptor = with_aes cipher }

abbrev answers : Answers
answers = record {
  handshake_pack = λ id. some (1 ∷ []);
  encoded = λ p. true;
  decoded = some (2 ∷ [], 5);
  auth = λ p. (some session, true);
}

abbrev packet : List ℕ → ℕ → Turn
packet p buf = record { choice = takes_default; decoded = some (p, buf); chan_closed = false }

abbrev cancelled : Turn
cancelled = record { choice = takes_done; decoded = none; chan_closed = false }

abbrev turns : List Turn
turns = packet (0 ∷ 7 ∷ []) 3 ∷ packet (0 ∷ 8 ∷ []) 4 ∷ cancelled ∷ []

start-AuthedBy_example :
    AuthedBy answers
      (new_dialog 100 (pos 1) (pos 0))
      (start answers (new_dialog 100 (pos 1) (pos 0)))
unfolding new_dialog
start-AuthedBy_example = start-AuthedBy answers (new_dialog 100 (pos 1) (pos 0)) refl

receive_loop-Frees_example :
    Frees [] (receive_loop (some session) turns []).0 (receive_loop (some session) turns []).1
receive_loop-Frees_example = receive_loop-Frees (some session) turns []

-- The trace of the loop: two buffers are held until it ends.
receives :
    (receive_loop (some session) turns []).1
    ≡ decodes (0 ∷ 7 ∷ []) 3
      ∷ delivers (7 ∷ [])
      ∷ decodes (0 ∷ 8 ∷ []) 4
      ∷ delivers (8 ∷ [])
      ∷ frees 4
      ∷ frees 3
      ∷ []
unfolding receive_loop turn decrypt
receives = refl

-- A second `stop` does nothing, and after the first a send is refused.
stops_once :
    (d : Dialog)
    → let (err, d', t) = stop true (record d { stopping = false }) in
      ((t ≡ closes_received ∷ closes_conn ∷ []) × ((stop true d').2 ≡ []))
unfolding stop
stops_once d = (refl, refl)
