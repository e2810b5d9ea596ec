-- ===== src/Frame/Ws/Conn.antt =====
-- websocket/wsconn/conn.go: a gorilla connection as a `net.Conn`. `NextReader` of gorilla gives the next
-- message and discards what is left of the one before; the messages to come are a list.
use fabrica_net.Base.{
  ℕ, ◌+◌, ◌≤◌, ◌<◌, Bool, true, false, Option, none, some, List, [], ◌∷◌, ◌++◌, ◌==◌, if◌then◌else◌,
  take, length, length-take, length-append, ◌⊎◌, inl, inr, arith,
}
use fabrica_net.Frame.Ws.{MessageWriter, message_type}

pub data ConnError : Type 0 where
  next_reader_failed invalid_frame_type : ConnError
  next_writer_failed write_failed writer_close_failed : ConnError
  write_message_failed close_failed set_deadline_failed : ConnError

abbrev pub Messages : Type 0
Messages = List (ℕ × List ℕ)

-- `Read`, of so many bytes that the message's reader gives, and the messages that are left.
pub read : ℕ → Messages → (ConnError ⊎ List ℕ) × Messages
read n [] = (inl next_reader_failed, [])
read n ((mt, bs) ∷ ms) =
    (if mt == message_type then inr (take n bs) else inl invalid_frame_type, ms)

-- `Write`: the error of the deferred `Close` is joined.
module _ (gorilla : MessageWriter) where
  open gorilla use {Conn, Writer, next_writer, close}

  abbrev pub written : Option ℕ × Writer → Option ℕ × List ConnError × Conn
  written (o, w) =
      let (closed, c) = close w in
      (
        o,
        elim o [ none ↦ write_failed ∷ [] | some n ↦ [] ]
            ++ (if closed then [] else writer_close_failed ∷ []),
        c,
      )

  pub write : Conn → List ℕ → Option ℕ × List ConnError × Conn
  write c bs = elim (next_writer c message_type) [
    | none ↦ (none, next_writer_failed ∷ [], c)
    | some w ↦ written (gorilla.write w bs)
  ]

-- `Close`: a close message is written, and then the connection is closed whatever came of that.
pub close : (writes closes : Bool) → List ConnError
close writes closes =
    (if writes then [] else write_message_failed ∷ []) ++ (if closes then [] else close_failed ∷ [])

-- `SetDeadline`: whether the second of the two is tried, and the error.
pub set_deadline : (read_ok write_ok : Bool) → Option ConnError × Bool
set_deadline read_ok write_ok =
    if read_ok
    then (if write_ok then none else some set_deadline_failed, true)
    else (some set_deadline_failed, false)

-- Reads one after the other, each of at most so many bytes: the bytes got up to the first error.
pub reads : List ℕ → Messages → List ℕ
unfolding read
reads [] ms = []
reads (n ∷ ns) ms =
    let (r, ms') = read n ms in
    let rest = reads ns ms' in elim r [ inl err ↦ [] | inr bs ↦ bs ++ rest ]

abbrev pub binary : List (List ℕ) → Messages
binary [] = []
binary (bs ∷ bss) = (message_type, bs) ∷ binary bss

abbrev pub total : List (List ℕ) → ℕ
total [] = 0
total (bs ∷ bss) = length bs + total bss

abbrev pub sizes : ℕ → List (List ℕ) → List ℕ
sizes n [] = []
sizes n (bs ∷ bss) = n ∷ sizes n bss

reads-at_most :
    (n : ℕ) (bss : List (List ℕ)) → length (reads (sizes n bss) (binary bss)) ≤ total bss
unfolding reads read
reads-at_most n [] = omega arith
reads-at_most n (bs ∷ bss) =
    let ih = reads-at_most n bss in
    let e = length-append (take n bs) (reads (sizes n bss) (binary bss)) in
    let t = length-take n bs in omega arith

-- A read for every message that is sent, with a buffer shorter than the first of them, loses bytes.
pub reads-lose :
    (n : ℕ) (bs : List ℕ) (bss : List (List ℕ))
    → n < length bs
    → length (reads (sizes n (bs ∷ bss)) (binary (bs ∷ bss))) < total (bs ∷ bss)
unfolding reads read
reads-lose n bs bss h =
    let ih = reads-at_most n bss in
    let e = length-append (take n bs) (reads (sizes n bss) (binary bss)) in
    let t = length-take n bs in omega arith
