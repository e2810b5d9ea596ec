-- ===== src/Frame/Ws.antt =====
-- websocket/frame/codec.go: the WebSocket codec, which puts each frame into a message of its own.
pub mod Messages
pub mod Conn
mod Tests
use fabrica_net.Base.{
  ℕ, Bool, true, false, Option, none, some, List, [], ◌∷◌, ◌++◌, ◌==◌, not, if◌then◌else◌, length,
  ◌≡◌, ◌⊎◌,
}
use fabrica_net.Frame.{
  FrameError, write_len_failed, write_pack_failed, short_write, int32_of, put_int32, Reader,
  BufferPool,
}
use fabrica_net.Frame.Reading.{stream}
use fabrica_net.Frame.Tcp.{Decoded, pack, decode_error}
use fabrica_net.Frame.Tcp

-- `wsconn.MessageType`, websocket.BinaryMessage.
abbrev pub message_type : ℕ
message_type = 2

pub data WsError : Type 0 where
  next_writer_failed close_failed : WsError
  unexpected_close connection_closed invalid_frame_type : WsError
  frame_error : FrameError → WsError

-- The writing side of a gorilla connection: `messages` are those that it has sent; a writer has the
-- connection's and the bytes of its own. A write that fails leaves the writer.
pub record MessageWriter : Type 1 where
  pub Conn : Type 0
  pub Writer : Type 0
  pub messages : Conn → List (ℕ × List ℕ)
  pub before : Writer → List (ℕ × List ℕ)
  pub draft : Writer → ℕ × List ℕ
  pub next_writer : Conn → ℕ → Option Writer
  pub write : Writer → List ℕ → Option ℕ × Writer
  pub close : Writer → Bool × Conn  -- whether it succeeded
  pub next_writer_lem :
      (c : Conn) (mt : ℕ) (w : Writer)
      → next_writer c mt ≡ some w
      → (before w ≡ messages c) × (draft w ≡ (mt, []))
  pub write_lem :
      (w : Writer) (bs : List ℕ) (n : ℕ)
      → (write w bs).0 ≡ some n
      → (n ≡ length bs)
        × (before (write w bs).1 ≡ before w)
        × (draft (write w bs).1 ≡ ((draft w).0, (draft w).1 ++ bs))
  pub close_lem :
      (w : Writer) → (close w).0 ≡ true → messages (close w).1 ≡ before w ++ draft w ∷ []

module _ (gorilla : MessageWriter) where
  open gorilla use {Conn, Writer, next_writer, write, close}

  -- The deferred `Close`, whose error is joined to `err`. No errors at all are `nil`.
  abbrev pub close_after : Writer → List WsError → List WsError × Conn
  close_after w errs =
      let (closed, c) = close w in (if closed then errs else errs ++ close_failed ∷ [], c)

  abbrev pub write_pack : List ℕ → Option ℕ × Writer → List WsError × Conn
  write_pack p (none, w) = close_after w (frame_error write_pack_failed ∷ [])
  write_pack p (some n, w) =
      close_after w (if not (n == length p) then frame_error short_write ∷ [] else [])

  abbrev pub write_len : List ℕ → Option ℕ × Writer → List WsError × Conn
  write_len p (none, w) = close_after w (frame_error write_len_failed ∷ [])
  write_len p (some n, w) = write_pack p (write w p)

  pub encode : Conn → List ℕ → List WsError × Conn
  encode c p = elim (next_writer c message_type) [
    | none ↦ (next_writer_failed ∷ [], c)
    | some w ↦ write_len p (write w (put_int32 (int32_of (length p))))
  ]

-- The reading side. `inbox` are the messages that are still to come, the next one first; what was left
-- unread of the last message is gone.
pub data Next (Conn : Type 0) : Type 0 where
  failed : (unexpected : Bool) → Conn → Next Conn
  message : (mt : ℕ) → Reader → Conn → Next Conn

pub record MessageReader : Type 1 where
  pub Conn : Type 0
  pub inbox : Conn → List (ℕ × List ℕ)
  pub next_reader : Conn → Next Conn
  pub next_reader_lem :
      (c : Conn) (mt : ℕ) (body : List ℕ) (rest : List (ℕ × List ℕ))
      → inbox c ≡ (mt, body) ∷ rest
      → (r : Reader) × (c' : Conn) × (next_reader c ≡ message mt r c')
        × (stream r ≡ body)
        × (inbox c' ≡ rest)

pub data Unpacked (State Buffer Conn : Type 0) : Type 0 where
  unpacked : List ℕ → Buffer → State → Conn → Unpacked State Buffer Conn
  unpack_error : WsError → State → Conn → Unpacked State Buffer Conn

module _ (pool : BufferPool) (gorilla : MessageReader) where
  open pool use {State, Buffer}
  open gorilla use {Conn, next_reader}

  abbrev pub unpacked_from : Conn → Decoded State Buffer → Unpacked State Buffer Conn
  unpacked_from c (pack p buf s r) = unpacked p buf s c
  unpacked_from c (decode_error e s) = unpack_error (frame_error e) s c

  -- From the length on, `Decode` does on the message what the TCP `Decode` does on the connection,
  -- statement by statement.
  pub decode : State → Conn → Unpacked State Buffer Conn
  decode s c = elim (next_reader c) [
    | failed true c' ↦ unpack_error unexpected_close s c'
    | failed false c' ↦ unpack_error connection_closed s c'
    | message mt r c' ↦
        let result = unpacked_from c' (Tcp.decode pool s r) in
        if not (mt == message_type) then unpack_error invalid_frame_type s c' else result
  ]
