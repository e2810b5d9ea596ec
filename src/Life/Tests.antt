-- ===== src/Life/Tests.antt =====
-- internal/worker.go: the theorems on a worker at a connection that delivers one packet.
use fabrica_net.Base.{true, none, some, [], ◌∷◌, pos, ◌≡◌, refl}
use fabrica_net.Session.{Session, default_session}
use fabrica_net.Life.{Answers, start, handshake, after_decode}
use fabrica_net.Life.Traces.{ShakesHands, connected_shook_hands}

abbrev fresh : Session
fresh = record (default_session (pos 0)) { uid = pos 0 }

-- Everything succeeds; the service echoes.
abbrev answers : Answers
answers = record {
  deadline = true;
  decoded = some (7 ∷ 8 ∷ [], 3);
  auth = λ p. some (p, fresh);
  encoded = λ p. true;
  remote_addr = 127 ∷ [];
  on_connected = λ s. true;
  handled = λ s p. true;
  write_filter = λ p. some p;
}

connects : (start answers fresh).1.1 ≡ true
unfolding start handshake after_decode
connects = refl

connected_shook_hands_example :
    ((start answers fresh).0 ≡ none) × ShakesHands answers (start answers fresh).1.0 × (true ≡ true)
connected_shook_hands_example = connected_shook_hands answers fresh connects
