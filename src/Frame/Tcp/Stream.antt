-- ===== src/Frame/Tcp/Stream.antt =====
-- tcp/frame/codec.go: what `Encode` puts on the connection, `Decode` takes off it.
use fabrica_net.Base.{
  ℕ, ◌≤◌, ◌<◌, false, some, List, [], ◌∷◌, ◌++◌, pos, ltb, length, take, drop, length-append,
  take-append_length, drop-append_length, flatten, map, All, Option-cases, inl, inr, ◌≡◌, sym, ap,
  ◌∙◌, arith,
}
use mathlib.Core.List.{append_assoc, append-nil}
use fabrica_net.Frame.{
  max_pack_size, int32_of, put_int32, get_int32, Reader, read_full, BufferPool, BufferedWriter,
}
use fabrica_net.Frame.Prefix.{
  refuses, get_int32-put_int32, length-put_int32, accepts, signed-of_small,
}
use fabrica_net.Frame.Reading.{stream, read_full-Reads}
use fabrica_net.Frame.Tcp.{written, encode, pack, decode, decode_len, decode_body}

-- One frame.
abbrev pub frame : List ℕ → List ℕ
frame p = put_int32 (int32_of (length p)) ++ p

module _ (bufio : BufferedWriter) where
  open bufio use {Writer, sent, pending, write, flush, write_lem, flush_lem}

  -- A successful `Encode` has sent what was pending and then the frame, and leaves nothing pending.
  pub encode-sends :
      (w : Writer) (p : List ℕ) {w' : Writer}
      → encode bufio w p ≡ written w'
      → (sent w' ≡ (sent w ++ pending w) ++ frame p) × (pending w' ≡ [])
  unfolding encode
  encode-sends w p {w'} e = elim (Option-cases (write w (put_int32 (int32_of (length p))))) [
    | inl q ↦ absurd (ground arith)
    | inr ((n, w₁), q) ↦ elim (Option-cases (write w₁ p)) [
      | inl q' ↦ absurd (ground arith)
      | inr ((k, w₂), q') ↦
          let flushed : flush w₂ ≡ some w' = ground arith in
          let (_, first) = write_lem w _ n w₁ q in
          let (_, second) = write_lem w₁ p k w₂ q' in
          let (all, none_left) = flush_lem w₂ w' flushed in
          (
            all ∙ second ∙ ap (λ x. x ++ p) first ∙ append_assoc (sent w ++ pending w) _ p,
            none_left,
          )
    ]
  ]

module _ (pool : BufferPool) where
  open pool use {State, Buffer, len, alloc, free, len-alloc}

  pub decode_step :
      (s : State) (r : Reader) {header : List ℕ} {r' : Reader}
      → read_full 4 r ≡ some (header, r')
      → decode pool s r ≡ decode_len pool s (get_int32 header) r'
  unfolding decode
  decode_step s r e = rw (e, decode)

  pub len_step :
      (s : State) (n : ℕ) (r : Reader)
      → refuses (pos n) ≡ false
      → decode_len pool s (pos n) r ≡ decode_body pool (alloc s n).1 (alloc s n).0 n r
  unfolding decode_len
  len_step s n r e = rw (e, decode_len)

  pub body_step :
      (s : State) (buf : Buffer) (n : ℕ) (r : Reader) {bytes : List ℕ} {r' : Reader}
      → read_full (len buf) r ≡ some (bytes, r')
      → n ≤ length bytes
      → decode_body pool s buf n r ≡ pack bytes buf s r'
  unfolding decode_body
  body_step s buf n r {bytes} e h =
      let long : ltb (length bytes) n ≡ false = ground arith in rw (e, decode_body, long)

  -- A frame at the head of the stream, however the network cut it, is decoded to its pack, in a buffer
  -- of the pool, and the stream goes on behind it.
  pub decode-frame :
      (s : State) (r : Reader) (p rest : List ℕ)
      → 0 < length p
      → length p ≤ max_pack_size
      → stream r ≡ frame p ++ rest
      → let (buf, s') = alloc s (length p) in
        (r' : Reader) × (decode pool s r ≡ pack p buf s' r') × (stream r' ≡ rest)
  unfolding put_int32
  decode-frame s r p rest h k e =
      let w = int32_of (length p) in
      let whole : stream r ≡ put_int32 w ++ (p ++ rest) = e ∙ append_assoc (put_int32 w) p rest in
      let long : 4 ≤ length (stream r) =
        omega
          (arith, ap length whole, length-append (put_int32 w) (p ++ rest), length-put_int32 w) in
      let one = read_full-Reads 4 r long in
      let header : read_full 4 r ≡ some (put_int32 w, one.rest) =
        one.returned ∙ ap (λ x. some (take 4 x, one.rest)) whole in
      let body : stream one.rest ≡ p ++ rest = one.left ∙ ap (drop 4) whole in
      let n : get_int32 (put_int32 w) ≡ pos (length p) =
        get_int32-put_int32 (length p) [] ∙ signed-of_small (length p) k in
      let fine : refuses (pos (length p)) ≡ false =
        sym (ap refuses (signed-of_small (length p) k)) ∙ accepts (length p) h k in
      let buf = (alloc s (length p)).0 in
      let size : len buf ≡ length p = len-alloc s (length p) h in
      let two =
        read_full-Reads (len buf) one.rest
          (omega (arith, size, ap length body, length-append p rest)) in
      let bytes : read_full (len buf) one.rest ≡ some (p, two.rest) =
        two.returned
        ∙ ap (λ x. some (take (len buf) x, two.rest)) body
        ∙ ap (λ i. some (take i (p ++ rest), two.rest)) size
        ∙ ap (λ x. some (x, two.rest)) (take-append_length p rest) in
      (
        two.rest,
        decode_step s r header
            ∙ ap (λ z. decode_len pool s z one.rest) n
            ∙ len_step s (length p) one.rest fine
            ∙ body_step (alloc s (length p)).1 buf (length p) one.rest bytes (omega arith),
        two.left
            ∙ ap (drop (len buf)) body
            ∙ ap (λ i. drop i (p ++ rest)) size
            ∙ drop-append_length p rest,
      )

-- `Encode` of each pack in turn, all successful.
pub data Sends (bufio : BufferedWriter) : bufio.Writer → List (List ℕ) → bufio.Writer → Type 0 where
  sent_all : {w : bufio.Writer} → Sends bufio w [] w
  sends :
      {w v u : bufio.Writer} {p : List ℕ} {ps : List (List ℕ)}
      → encode bufio w p ≡ written v
      → Sends bufio v ps u
      → Sends bufio w (p ∷ ps) u

-- `Decode` again and again, with these packs as its results.
pub data Receives (pool : BufferPool) : pool.State → Reader → List (List ℕ) → Reader → Type 0 where
  received_all : {s : pool.State} {r : Reader} → Receives pool s r [] r
  receives :
      {s s' : pool.State} {r r' t : Reader} {p : List ℕ} {ps : List (List ℕ)} {buf : pool.Buffer}
      → decode pool s r ≡ pack p buf s' r'
      → Receives pool s' r' ps t
      → Receives pool s r (p ∷ ps) t

-- The sizes that `Decode` takes.
abbrev pub CanPack : List ℕ → Type 0
CanPack p = (0 < length p) × (length p ≤ max_pack_size)

Sends-frames :
    (bufio : BufferedWriter) (ps : List (List ℕ)) {w u : bufio.Writer}
    → Sends bufio w ps u
    → bufio.pending w ≡ []
    → (bufio.sent u ≡ bufio.sent w ++ flatten (map frame ps)) × (bufio.pending u ≡ [])
Sends-frames bufio _ sent_all e = (sym (append-nil _), e)
Sends-frames bufio _ (sends {w} {v} {u} {p} {ps} q more) e =
    let (one, none_left) = encode-sends bufio w p q in
    let (all, none_left') = Sends-frames bufio ps more none_left in
    (
      all
          ∙ ap (λ x. x ++ flatten (map frame ps)) (one ∙ ap (λ x. (bufio.sent w ++ x) ++ frame p) e)
          ∙ ap (λ x. (x ++ frame p) ++ flatten (map frame ps)) (append-nil (bufio.sent w))
          ∙ append_assoc (bufio.sent w) (frame p) (flatten (map frame ps)),
      none_left',
    )

Receives-frames :
    (pool : BufferPool) (ps : List (List ℕ)) (rest : List ℕ) (s : pool.State) (r : Reader)
    → All CanPack ps
    → stream r ≡ flatten (map frame ps) ++ rest
    → (t : Reader) × Receives pool s r ps t × (stream t ≡ rest)
Receives-frames pool [] rest s r h e = (r, received_all, e)
Receives-frames pool (p ∷ ps) rest s r h e =
    let (r', one, e') =
      decode-frame pool s r p (flatten (map frame ps) ++ rest) h.0.0 h.0.1
        (e ∙ append_assoc (frame p) (flatten (map frame ps)) rest) in
    let (t, more, e'') = Receives-frames pool ps rest _ r' h.1 e' in (t, receives one more, e'')

-- End to end: packs of 1 to `MaxPackSize` bytes that a codec has encoded on a fresh connection come out
-- of the peer's codec as the same packs in the same order, in whatever chunks the network delivers
-- the bytes, whatever the pools hold, and with the stream left just behind the last frame.
pub transfer :
    (bufio : BufferedWriter) (pool : BufferPool) (ps : List (List ℕ)) (rest : List ℕ)
    (w u : bufio.Writer) (s : pool.State) (r : Reader)
    → All CanPack ps
    → bufio.sent w ≡ []
    → bufio.pending w ≡ []
    → Sends bufio w ps u
    → stream r ≡ bufio.sent u ++ rest
    → (t : Reader) × Receives pool s r ps t × (stream t ≡ rest)
transfer bufio pool ps rest w u s r h fresh idle st e =
    let (all, _) = Sends-frames bufio ps st idle in
    let frames : bufio.sent u ≡ flatten (map frame ps) =
      all ∙ ap (λ x. x ++ flatten (map frame ps)) fresh in
    Receives-frames pool ps rest s r h (e ∙ ap (λ x. x ++ rest) frames)
