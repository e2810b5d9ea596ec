-- ===== src/Frame/Kcp/Agree.antt =====
-- kcp/frame/codec.go: its packets are those of tcp/frame/codec.go.
use fabrica_net.Base.{ℕ, true, List, ◌==◌, ==_iff, length, Option-cases, inl, inr, ◌≡◌, refl}
use fabrica_net.Frame.{int32_of, put_int32, BufferedWriter}
use fabrica_net.Frame.Tcp
use fabrica_net.Frame.Tcp.{Decoded, pack, decode_error, written}
use fabrica_net.Frame.Kcp
use fabrica_net.Frame.Kcp.{CodecStats, count_bytes_in, count_pool}

module _ (bufio : BufferedWriter) where
  open bufio use {Writer, write, flush, write_lem}

  -- The KCP `Encode`, which leaves out the test for a short write, writes what the TCP `Encode` writes.
  pub encode_agrees :
      (c : CodecStats) (w : Writer) (p : List ℕ) → (Kcp.encode bufio c w p).0 ≡ Tcp.encode bufio w p
  unfolding Kcp.encode Tcp.encode
  encode_agrees c w p = elim (Option-cases (write w (put_int32 (int32_of (length p))))) [
    | inl e ↦ rw (e, Kcp.encode, Tcp.encode) refl
    | inr ((k, w'), e) ↦ elim (Option-cases (write w' p)) [
      | inl e' ↦ rw (e, e', Kcp.encode, Tcp.encode) refl
      | inr ((n, w''), e') ↦
          let full : (n == length p) ≡ true = (==_iff n (length p)).1 (write_lem w' p n w'' e').0 in
          elim (Option-cases (flush w'')) [
            | inl e'' ↦ rw (e, e', full, e'', Kcp.encode, Tcp.encode) (rw (e'', Tcp.finish) refl)
            | inr (out, e'') ↦
                rw (e, e', full, e'', Kcp.encode, Tcp.encode) (rw (e'', Tcp.finish) refl)
          ]
    ]
  ]
