-- ===== src/Frame/Kcp.antt =====
-- kcp/frame/codec.go and kcp/frame/stats.go: the KCP codec and the counters that it keeps.
pub mod Agree
pub mod Count
mod Tests
use fabrica_net.Base.{
  ℕ, ◌+◌, ◌%◌, ◌^◌, ◌<◌, Bool, true, false, none, some, List, ℤ, pos_part, ◌==◌, if◌then◌else◌,
  length,
}
use fabrica_net.Frame.{
  int32_of, put_int32, get_int32, Reader, read_full, read_len_failed, invalid_pack_len,
  read_pack_failed, write_len_failed, write_pack_failed, flush_failed, BufferPool, BufferedWriter,
}
use fabrica_net.Frame.Prefix.{refuses}
use fabrica_net.Frame.Tcp.{Written, written, write_error, Decoded, pack, decode_error}

-- Each an `atomic.Uint64`.
pub record CodecStats : Type 0 where
  pub total_encodes : ℕ
  pub total_decodes : ℕ
  pub total_bytes_in : ℕ
  pub total_bytes_out : ℕ
  pub encode_errors : ℕ
  pub decode_errors : ℕ
  pub pool_hits : ℕ
  pub pool_misses : ℕ

-- `Add` on a counter.
abbrev pub add64 : ℕ → ℕ → ℕ
add64 a b = (a + b) % 2 ^ 64

pub reset_codec_stats : CodecStats
reset_codec_stats = record {
  total_encodes = 0;
  total_decodes = 0;
  total_bytes_in = 0;
  total_bytes_out = 0;
  encode_errors = 0;
  decode_errors = 0;
  pool_hits = 0;
  pool_misses = 0;
}

abbrev pub encode_failed : CodecStats → CodecStats
encode_failed c = record c { encode_errors = add64 c.encode_errors 1 }

abbrev pub decode_failed : CodecStats → CodecStats
decode_failed c = record c { decode_errors = add64 c.decode_errors 1 }

abbrev pub count_encode : CodecStats → ℕ → CodecStats
count_encode c n = record c {
  total_encodes = add64 c.total_encodes 1;
  total_bytes_out = add64 c.total_bytes_out n;
}

abbrev pub count_decode : CodecStats → CodecStats
count_decode c = record c { total_decodes = add64 c.total_decodes 1 }

abbrev pub count_bytes_in : CodecStats → ℕ → CodecStats
count_bytes_in c n = record c { total_bytes_in = add64 c.total_bytes_in n }

-- `cap(buf) == int(length)` counts as a hit.
abbrev pub count_pool : CodecStats → Bool → CodecStats
count_pool c true = record c { pool_hits = add64 c.pool_hits 1 }
count_pool c false = record c { pool_misses = add64 c.pool_misses 1 }

module _ (bufio : BufferedWriter) where
  open bufio use {Writer, write, flush}

  pub encode : CodecStats → Writer → List ℕ → Written Writer × CodecStats
  encode c w p =
      let c' = count_encode c (length p) in
      elim (write w (put_int32 (int32_of (length p)))) [
        | none ↦ (write_error write_len_failed, encode_failed c')
        | some (_, w') ↦ elim (write w' p) [
          | none ↦ (write_error write_pack_failed, encode_failed c')
          | some (_, w'') ↦ elim (flush w'') [
            | none ↦ (write_error flush_failed, encode_failed c')
            | some out ↦ (written out, c')
          ]
        ]
      ]

module _ (pool : BufferPool) where
  open pool use {State, Buffer, len, cap_of, alloc, free}

  -- `io.ReadFull`; on an error the deferred function counts and frees.
  pub decode_body : CodecStats → State → Buffer → Reader → Decoded State Buffer × CodecStats
  decode_body c s buf r = elim (read_full (len buf) r) [
    | none ↦ (decode_error read_pack_failed (free s buf), decode_failed c)
    | some (bytes, r') ↦ (pack bytes buf s r', c)
  ]

  pub decode_len : CodecStats → State → ℤ → Reader → Decoded State Buffer × CodecStats
  unfolding decode_body
  decode_len c s n r =
      if refuses n
      then (decode_error invalid_pack_len s, decode_failed c)
      else let (buf, s') = alloc s (pos_part n) in
        decode_body (count_pool (count_bytes_in c (pos_part n)) (cap_of buf == pos_part n)) s' buf r

  pub decode : CodecStats → State → Reader → Decoded State Buffer × CodecStats
  unfolding decode_len
  decode c s r = elim (read_full 4 r) [
    | none ↦ (decode_error read_len_failed s, decode_failed (count_decode c))
    | some (header, r') ↦ decode_len (count_decode c) s (get_int32 header) r'
  ]
