-- ===== src/Frame/Ws/Tests.antt =====
-- websocket/frame/codec.go on two messages, and the theorem there.
use fabrica_net.Base.{
  ℕ, true, some, List, [], ◌∷◌, ◌++◌, length, ◌≡◌, refl, arith, ap, sym, some_inj,
}
use mathlib.Core.List.{append-nil}
use fabrica_net.Frame.{Reader, put_int32}
use fabrica_net.Frame.Reading.{stream}
use fabrica_net.Frame.Samples.{counting}
use fabrica_net.Frame.Ws.{MessageWriter, MessageReader, Next, failed, message, encode}
use fabrica_net.Frame.Ws.Messages.{Sends, sends, sent_all, Receives, message_transfer}

abbrev Sent : Type 0
Sent = List (ℕ × List ℕ)

-- A connection that takes every message.
abbrev out : MessageWriter
out = record {
  Conn = Sent;
  Writer = Sent × (ℕ × List ℕ);
  messages = λ c. c;
  before = λ w. w.0;
  draft = λ w. w.1;
  next_writer = λ c mt. some (c, (mt, []));
  write = λ w bs. (some (length bs), (w.0, (w.1.0, w.1.1 ++ bs)));
  close = λ w. (true, w.0 ++ w.1 ∷ []);
  next_writer_lem =
      λ c mt w e. (ap (λ x. x.0) (sym (some_inj e)), ap (λ x. x.1) (sym (some_inj e)));
  write_lem = λ w bs n e. (sym (some_inj e), refl, refl);
  close_lem = λ w e. refl;
}

abbrev next_of : Sent → Next Sent
next_of [] = failed true []
next_of ((mt, body) ∷ rest) = message mt (record { buffered = body; incoming = [] }) rest

next_of-first :
    (c : Sent) (mt : ℕ) (body : List ℕ) (rest : Sent)
    → c ≡ (mt, body) ∷ rest
    → (r : Reader) × (c' : Sent) × (next_of c ≡ message mt r c') × (stream r ≡ body) × (c' ≡ rest)
next_of-first c mt body rest e =
    (record { buffered = body; incoming = [] }, rest, ap next_of e, append-nil body, refl)

abbrev input : MessageReader
input = record {
  Conn = Sent;
  inbox = λ c. c;
  next_reader = next_of;
  next_reader_lem = next_of-first;
}

abbrev two_messages : Sent
two_messages = (2, 0 ∷ 0 ∷ 0 ∷ 2 ∷ 7 ∷ 8 ∷ []) ∷ (2, 0 ∷ 0 ∷ 0 ∷ 1 ∷ 9 ∷ []) ∷ []

both_sent : Sends out [] ((7 ∷ 8 ∷ []) ∷ (9 ∷ []) ∷ []) two_messages
unfolding encode put_int32
both_sent = sends refl (sends refl sent_all)

message_transfer_example :
    (u : Sent) × Receives counting input 0 two_messages ((7 ∷ 8 ∷ []) ∷ (9 ∷ []) ∷ []) u × (u ≡ [])
message_transfer_example =
    message_transfer out counting input ((7 ∷ 8 ∷ []) ∷ (9 ∷ []) ∷ []) [] [] two_messages 0
      two_messages ((omega arith, omega arith), ((omega arith, omega arith), tt)) refl both_sent
      refl
