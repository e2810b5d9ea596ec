-- ===== src/Frame/Tcp/Buffers.antt =====
-- tcp/frame/codec.go, `Decode`: what becomes of the pool's buffer on every path, and which frames it
-- refuses that `Encode` writes.
use fabrica_net.Base.{ℕ, ◌≤◌, ◌<◌, false, List, ℤ, pos_part, length, ◌≡◌, arith}
use fabrica_net.Frame.{
  max_pack_size, read_len_failed, invalid_pack_len, read_pack_failed, BufferPool,
}
use fabrica_net.Frame.Prefix.{refuses}
use fabrica_net.Frame.Tcp.{Decoded, pack, decode_error}

-- What passes the test is a size from 1 to `MaxPackSize`.
pub asked : (n : ℤ) → refuses n ≡ false → (0 < pos_part n) × (pos_part n ≤ max_pack_size)
unfolding refuses
asked n e = ground arith

module _ (pool : BufferPool) where
  open pool use {State, Buffer, len, alloc, free, len-alloc}

  -- `n` bytes were asked of the pool.
  abbrev Asked : ℕ → Type 0
  Asked n = (0 < n) × (n ≤ max_pack_size)

  abbrev pub Accounts : State → Decoded State Buffer → Type 0
  Accounts s (pack p buf s' r) =
      (n : ℕ) × Asked n × (buf ≡ (alloc s n).0) × (s' ≡ (alloc s n).1) × (length p ≡ n)
  Accounts s (decode_error read_len_failed s') = s' ≡ s
  Accounts s (decode_error invalid_pack_len s') = s' ≡ s
  Accounts s (decode_error read_pack_failed s') =
      (n : ℕ) × Asked n × (s' ≡ free (alloc s n).1 (alloc s n).0)
  Accounts s other = ⊥
