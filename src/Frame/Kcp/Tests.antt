-- ===== src/Frame/Kcp/Tests.antt =====
-- kcp/frame/codec.go on small streams, and the theorems there.
use fabrica_net.Base.{◌≡◌, refl}
use fabrica_net.Frame.{get_int32, read_full, read_full_from, BufferPool}
use fabrica_net.Frame.Prefix.{refuses}
use fabrica_net.Frame.Tcp
use fabrica_net.Frame.Tcp.{Decoded, pack, decode_error}
use fabrica_net.Frame.Kcp
use fabrica_net.Frame.Kcp.{CodecStats, reset_codec_stats}
use fabrica_net.Frame.Samples.{counting, in_chunks}

-- A pool that serves every request out of arrays of 64 bytes.
abbrev of_64 : BufferPool
of_64 = record counting { cap_of = λ b. 64 }

-- Two bytes in an array of the pool: a miss.
pooled_miss : (Kcp.decode of_64 reset_codec_stats 0 in_chunks).1.pool_misses ≡ 1
unfolding Kcp.decode Kcp.decode_len Kcp.decode_body read_full read_full_from get_int32 refuses
    reset_codec_stats
pooled_miss = refl
