-- ===== src/Frame/Tcp/Tests.antt =====
-- tcp/frame/codec.go on small streams, and the theorems there.
use fabrica_net.Base.{[], ◌∷◌, ◌≡◌, refl, arith}
use fabrica_net.Frame.{Reader, put_int32, get_int32, read_full, read_full_from, read_pack_failed}
use fabrica_net.Frame.Samples.{Out, write_out, flush_out, open_writer, counting, fresh, in_chunks}
use fabrica_net.Frame.Prefix.{refuses}
use fabrica_net.Frame.Reading.{stream}
use fabrica_net.Frame.Tcp.{decode, decode_len, decode_body, encode, decode_error}
use fabrica_net.Frame.Tcp.Stream.{Sends, sends, sent_all, Receives, transfer}

abbrev after_two : Out
after_two = record { done = 0 ∷ 0 ∷ 0 ∷ 2 ∷ 7 ∷ 8 ∷ 0 ∷ 0 ∷ 0 ∷ 1 ∷ 9 ∷ []; waiting = [] }

two_sent : Sends open_writer fresh ((7 ∷ 8 ∷ []) ∷ (9 ∷ []) ∷ []) after_two
unfolding encode write_out flush_out put_int32
two_sent = sends refl (sends refl sent_all)

transfer_example :
    (t : Reader) × Receives counting 0 in_chunks ((7 ∷ 8 ∷ []) ∷ (9 ∷ []) ∷ []) t
    × (stream t ≡ 5 ∷ [])
transfer_example =
    transfer open_writer counting ((7 ∷ 8 ∷ []) ∷ (9 ∷ []) ∷ []) (5 ∷ []) fresh after_two 0
      in_chunks (omega arith) refl refl two_sent refl

-- A pack of two bytes, of which the stream has one: the buffer goes back.
abbrev cut_short : Reader
cut_short = record { buffered = 0 ∷ 0 ∷ 0 ∷ 2 ∷ 7 ∷ []; incoming = [] }

cut_short_result : decode counting 3 cut_short ≡ decode_error read_pack_failed 3
unfolding decode read_full read_full_from get_int32 decode_len decode_body refuses
cut_short_result = refl

abbrev empty_frame : Reader
empty_frame = record { buffered = 0 ∷ 0 ∷ 0 ∷ 0 ∷ []; incoming = [] }
