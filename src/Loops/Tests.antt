-- ===== src/Loops/Tests.antt =====
-- internal/worker.go: the theorems on the loops at concrete runs, and the push that panics.
use fabrica_net.Base.{ℕ, true, false, none, some, List, [], ◌∷◌, map, pos, ◌≡◌, refl}
use fabrica_net.Session.{Cipher, with_aes, Session, default_session, encrypt, decrypt}
use fabrica_net.Life.{Answers}
use fabrica_net.Loops.{ReadTurn, reads, read_done, send_loop, sends}
use fabrica_net.Loops.Sending.{encoded_packs, arriving, Carries, send_loop-delivered}
use fabrica_net.Loops.Closing.{
  Channel, new_channel, Steps, stay, ◌then_step◌, passes, begins_stop, closes, panics, refused,
  drained_never_panics,
}
use fabrica_net.Dialog.{receive_loop}
use fabrica_net.Dialog.Receiving.{delivered}

-- It puts a byte in front, and takes one away.
abbrev cipher : Cipher
cipher = record {
  encrypt_aes = λ p. some (0 ∷ p);
  decrypt_aes = λ p. elim p [ [] ↦ none | b ∷ rest ↦ some rest ];
}

abbrev session : Session
session = record (default_session (pos 0)) { cryptor = with_aes cipher }

abbrev answers : Answers
answers = record {
  deadline = true;
  decoded = some (7 ∷ 8 ∷ [], 3);
  auth = λ p. some (p, session);
  encoded = λ p. true;
  remote_addr = 127 ∷ [];
  on_connected = λ s. true;
  handled = λ s p. true;
  write_filter = λ p. some p;
}

abbrev turns : List ReadTurn
turns = reads false answers ∷ reads false answers ∷ read_done ∷ []

abbrev packs : List (List ℕ)
packs = (1 ∷ []) ∷ (2 ∷ 3 ∷ []) ∷ []

carries : (p : List ℕ) → Carries session session p
unfolding encrypt decrypt
carries p = (0 ∷ p, refl, refl)

send_loop-delivered_example :
    let sent = send_loop session (map (λ q. sends q answers) packs) in
    let r = receive_loop (some session) (arriving 0 (encoded_packs sent.1)) [] in
    (sent.0 ≡ none) × (r.0 ≡ none) × (delivered r.1 ≡ packs)
send_loop-delivered_example =
    send_loop-delivered answers session session packs (λ q. refl) (λ q. refl) carries

abbrev stopping : Channel
stopping = record { stopping = true; closed = false; passed = 0; queue = []; panicked = false }

abbrev closed : Channel
closed = record stopping { closed = true }

stops : Steps new_channel stopping
unfolding new_channel
stops = stay new_channel then_step begins_stop new_channel refl

refuses : Steps stopping closed
refuses = (stay stopping then_step closes stopping refl refl) then_step refused closed refl

drained_never_panics_example : (false ≡ false) × (closed.passed ≡ 0)
drained_never_panics_example = drained_never_panics stops refuses refl refl refl

-- A push that passed its test before the stop, and sends behind it.
panicked : Steps new_channel (record closed { panicked = true })
unfolding new_channel
panicked =
    let passed = record new_channel { passed = 1 } in
    let stopped = record passed { stopping = true } in
    (((stay new_channel then_step passes new_channel refl) then_step begins_stop passed refl)
      then_step closes stopped refl refl)
    then_step panics (record stopped { closed = true }) 0 refl refl
