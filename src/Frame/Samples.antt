-- ===== src/Frame/Samples.antt =====
-- Connections and a pool to try the codecs on.
use fabrica_net.Base.{ℕ, ◌+◌, ◌-◌, Option, some, List, [], ◌∷◌, ◌++◌, length, ◌≡◌, refl, arith}
use mathlib.Core.List.{append_assoc}
use fabrica_net.Frame.{Reader, BufferPool, BufferedWriter}

-- A connection that takes everything.
pub record Out : Type 0 where
  pub done : List ℕ
  pub waiting : List ℕ

unfoldable pub write_out : Out → List ℕ → Out
write_out w bs = record w { waiting = w.waiting ++ bs }

unfoldable pub flush_out : Out → Out
flush_out w = record { done = w.done ++ w.waiting; waiting = [] }

pub write_holds :
    (w : Out) (bs : List ℕ) (n : ℕ) (w' : Out)
    → ◌≡◌ {A = Option (ℕ × Out)} (some (length bs, write_out w bs)) (some (n, w'))
    → (n ≡ length bs) × (w'.done ++ w'.waiting ≡ (w.done ++ w.waiting) ++ bs)
unfolding write_out
write_holds w bs n w' e = ground (arith, append_assoc w.done w.waiting bs)

pub flush_holds :
    (w w' : Out)
    → some (flush_out w) ≡ some w'
    → (w'.done ≡ w.done ++ w.waiting) × (w'.waiting ≡ [])
unfolding flush_out
flush_holds w w' e = ground arith

abbrev pub open_writer : BufferedWriter
open_writer = record {
  Writer = Out;
  sent = λ w. w.done;
  pending = λ w. w.waiting;
  write = λ w bs. some (length bs, write_out w bs);
  flush = λ w. some (flush_out w);
  write_lem = write_holds;
  flush_lem = flush_holds;
}

-- A pool that counts its outstanding buffers; a buffer is its length.
abbrev pub counting : BufferPool
counting = record {
  State = ℕ;
  Buffer = ℕ;
  len = λ b. b;
  cap_of = λ b. b;
  alloc = λ s n. (n, s + 1);
  free = λ s b. s - 1;
  len-alloc = λ s n h. refl;
}

abbrev pub fresh : Out
fresh = record { done = []; waiting = [] }

-- Two frames in three chunks, and one more byte.
abbrev pub in_chunks : Reader
in_chunks = record {
  buffered = [];
  incoming = (0 ∷ 0 ∷ []) ∷ (0 ∷ 2 ∷ 7 ∷ 8 ∷ 0 ∷ 0 ∷ 0 ∷ []) ∷ (1 ∷ 9 ∷ 5 ∷ []) ∷ [];
}
