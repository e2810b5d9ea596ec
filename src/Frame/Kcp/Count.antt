-- ===== src/Frame/Kcp/Count.antt =====
-- kcp/frame/codec.go and kcp/frame/stats.go: what the counters count.
use fabrica_net.Base.{
  ℕ, ◌≤◌, ◌<◌, ℤ, pos_part, ◌==◌, length, Option-cases, Bool-cases, inl, inr, ◌≡◌, refl, ◌∙◌,
}
use fabrica_net.Frame.{max_pack_size, get_int32, Reader, read_full, BufferPool, read_pack_failed}
use fabrica_net.Frame.Prefix.{refuses}
use fabrica_net.Frame.Reading.{read_full-length}
use fabrica_net.Frame.Tcp.{Decoded, pack, decode_error}
use fabrica_net.Frame.Tcp.Buffers.{asked}
use fabrica_net.Frame.Kcp.{
  CodecStats, count_decode, count_bytes_in, count_pool, decode_failed, decode, decode_len,
  decode_body,
}

module _ (pool : BufferPool) where
  open pool use {State, Buffer, len, cap_of, alloc, free, len-alloc}

  -- The counters after a `Decode` in the state `s` of the pool, by what it returned.
  abbrev pub Counts : CodecStats → State → Decoded State Buffer → CodecStats → Type 0
  Counts c s (pack p buf s' r) c' =
      c' ≡ count_pool (count_bytes_in (count_decode c) (length p)) (cap_of buf == length p)
  Counts c s (decode_error read_pack_failed s') c' =
      (n : ℕ) × (0 < n)
      × (n ≤ max_pack_size)
      × (c'
          ≡ decode_failed
              (count_pool (count_bytes_in (count_decode c) n) (cap_of (alloc s n).0 == n)))
  Counts c s (decode_error e s') c' = c' ≡ decode_failed (count_decode c)

  body-Counts :
      (c : CodecStats) (s : State) (n : ℕ) (r : Reader)
      → 0 < n
      → n ≤ max_pack_size
      → let d =
          decode_body pool
            (count_pool (count_bytes_in (count_decode c) n) (cap_of (alloc s n).0 == n))
            (alloc s n).1
            (alloc s n).0
            r in
        Counts c s d.0 d.1
  unfolding decode_body
  body-Counts c s n r h k = elim (Option-cases (read_full (len (alloc s n).0) r)) [
    | inl e ↦ rw (e, decode_body) (n, h, k, refl)
    | inr ((bytes, r'), e) ↦
        let size : length bytes ≡ n = read_full-length _ r e ∙ len-alloc s n h in
        rw (e, decode_body, size) refl
  ]

  len-Counts :
      (c : CodecStats) (s : State) (n : ℤ) (r : Reader)
      → let d = decode_len pool (count_decode c) s n r in Counts c s d.0 d.1
  unfolding decode_len
  len-Counts c s n r = elim (Bool-cases (refuses n)) [
    | inl e ↦ rw (e, decode_len) refl
    | inr e ↦ rw (e, decode_len) (body-Counts c s (pos_part n) r (asked n e).0 (asked n e).1)
  ]

  -- Each `Decode` counts itself once, and once more as an error if and only if it returns one; the bytes
  -- of the announced length are counted once it is accepted, and with them a pool hit if the buffer's
  -- capacity is just the announced length and a pool miss otherwise.
  pub decode-Counts :
      (c : CodecStats) (s : State) (r : Reader) → let d = decode pool c s r in Counts c s d.0 d.1
  unfolding decode
  decode-Counts c s r = elim (Option-cases (read_full 4 r)) [
    | inl e ↦ rw (e, decode) refl
    | inr ((header, r'), e) ↦ rw (e, decode) (len-Counts c s (get_int32 header) r')
  ]
