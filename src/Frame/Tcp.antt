-- ===== src/Frame/Tcp.antt =====
-- tcp/frame/codec.go: `Encode` and `Decode` of the TCP codec.
pub mod Stream
pub mod Buffers
mod Tests
use fabrica_net.Base.{
  ℕ, ◌≤◌, ◌<◌, true, false, none, some, List, [], ◌∷◌, ◌++◌, ℤ, pos, pos_part, ltb, ◌==◌, not,
  if◌then◌else◌, length, ◌≡◌,
}
use fabrica_net.Frame.{
  int32_of, put_int32, get_int32, Reader, read_full, FrameError, read_len_failed, invalid_pack_len,
  read_pack_failed, short_read, write_len_failed, write_pack_failed, short_write, flush_failed,
  BufferPool, BufferedWriter,
}
use fabrica_net.Frame.Prefix.{refuses}

-- An error leaves the connection as it is; its owner closes it.
pub data Written {ℓ} (W : Type ℓ) : Type ℓ where
  written : W → Written W
  write_error : FrameError → Written W

module _ (bufio : BufferedWriter) where
  open bufio use {Writer, write, flush}

  abbrev pub finish : Writer → Written Writer
  finish w = elim (flush w) [ none ↦ write_error flush_failed | some w' ↦ written w' ]

  unfoldable pub encode : Writer → List ℕ → Written Writer
  encode w pack = elim (write w (put_int32 (int32_of (length pack)))) [
    | none ↦ write_error write_len_failed
    | some (_, w') ↦ elim (write w' pack) [
      | none ↦ write_error write_pack_failed
      | some (n, w'') ↦ if not (n == length pack) then write_error short_write else finish w''
    ]
  ]

-- What `Decode` leaves: the pool, and on success the pack with the buffer that holds it (which `free`
-- gives back) and the reader.
pub data Decoded (State Buffer : Type 0) : Type 0 where
  pack : List ℕ → Buffer → State → Reader → Decoded State Buffer
  decode_error : FrameError → State → Decoded State Buffer

module _ (pool : BufferPool) where
  open pool use {State, Buffer, len, alloc, free}

  -- `io.ReadFull(c.r, buf)` and what follows it; on an error the deferred `free` runs.
  unfoldable pub decode_body : State → Buffer → ℕ → Reader → Decoded State Buffer
  decode_body s buf n r = elim (read_full (len buf) r) [
    | none ↦ decode_error read_pack_failed (free s buf)
    | some (bytes, r') ↦
        if ltb (length bytes) n then decode_error short_read (free s buf) else pack bytes buf s r'
  ]

  unfoldable pub decode_len : State → ℤ → Reader → Decoded State Buffer
  unfolding decode_body
  decode_len s n r =
      if refuses n
      then decode_error invalid_pack_len s
      else let (buf, s') = alloc s (pos_part n) in decode_body s' buf (pos_part n) r

  unfoldable pub decode : State → Reader → Decoded State Buffer
  unfolding decode_len
  decode s r = elim (read_full 4 r) [
    | none ↦ decode_error read_len_failed s
    | some (header, r') ↦ decode_len s (get_int32 header) r'
  ]
