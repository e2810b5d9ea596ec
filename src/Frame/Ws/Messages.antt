-- ===== src/Frame/Ws/Messages.antt =====
-- websocket/frame/codec.go: what `Encode` sends in messages, `Decode` takes out of them.
use fabrica_net.Base.{
  ℕ, Option, none, some, List, [], ◌∷◌, ◌++◌, length, map, All, Option-cases, Bool-cases, inl, inr,
  ◌≡◌, refl, sym, ap, ◌∙◌, if◌then◌else◌,
}
use mathlib.Core.List.{append_assoc, append-nil}
use fabrica_net.Frame.{int32_of, put_int32, Reader, BufferPool}
use fabrica_net.Frame.Tcp
use fabrica_net.Frame.Tcp.Stream.{frame, CanPack, decode-frame}
use fabrica_net.Frame.Ws.{
  message_type, WsError, close_failed, next_writer_failed, MessageWriter, close_after, write_pack,
  write_len, encode, MessageReader, message, unpacked, unpacked_from, decode,
}

never_empty : (errs : List WsError) (e : WsError) → ¬ (errs ++ e ∷ [] ≡ [])
never_empty [] e q = absurd cc
never_empty (x ∷ errs) e q = absurd cc

module _ (gorilla : MessageWriter) where
  open gorilla use {
    Conn, Writer, messages, before, draft, next_writer, write, close, next_writer_lem, write_lem,
    close_lem,
  }

  close_after-sends :
      (w : Writer) (errs : List WsError)
      → (close_after gorilla w errs).0 ≡ []
      → (errs ≡ []) × (messages (close_after gorilla w errs).1 ≡ before w ++ draft w ∷ [])
  close_after-sends w errs e = elim (Bool-cases (close w).0) [
    | inl y ↦ (sym (ap (λ b. if b then errs else errs ++ close_failed ∷ []) y) ∙ e, close_lem w y)
    | inr n ↦ absurd (
        never_empty errs close_failed
          (sym (ap (λ b. if b then errs else errs ++ close_failed ∷ []) n) ∙ e))
  ]

  -- After a write, whatever is sent is what the writer had, and its draft with what was written.
  write_pack-sends :
      (p : List ℕ) (o : Option ℕ) (w : Writer)
      → (write_pack gorilla p (o, w)).0 ≡ []
      → messages (write_pack gorilla p (o, w)).1 ≡ before w ++ draft w ∷ []
  write_pack-sends p none w e = (close_after-sends w _ e).1
  write_pack-sends p (some n) w e = (close_after-sends w _ e).1

  write_pack-wrote :
      (p : List ℕ) (o : Option ℕ) (w : Writer)
      → (write_pack gorilla p (o, w)).0 ≡ []
      → (n : ℕ) × (o ≡ some n)
  write_pack-wrote p none w e = let q = (close_after-sends w _ e).0 in absurd cc
  write_pack-wrote p (some n) w e = (n, refl)

  write_len-sends :
      (p : List ℕ) (o : Option ℕ) (w : Writer)
      → (write_len gorilla p (o, w)).0 ≡ []
      → ((n : ℕ) × (o ≡ some n))
        × (messages (write_len gorilla p (o, w)).1
            ≡ before w ++ ((draft w).0, (draft w).1 ++ p) ∷ [])
  write_len-sends p none w e = let q = (close_after-sends w _ e).0 in absurd cc
  write_len-sends p (some k) w e =
      let (n, wrote) = write_pack-wrote p (write w p).0 (write w p).1 e in
      let (_, b, d) = write_lem w p n wrote in
      (
        (k, refl),
        write_pack-sends p (write w p).0 (write w p).1 e
            ∙ ap (λ x. x ++ draft (write w p).1 ∷ []) b
            ∙ ap (λ x. before w ++ x ∷ []) d,
      )

  encode-opened :
      (c : Conn) (p : List ℕ) (w : Writer)
      → next_writer c message_type ≡ some w
      → encode gorilla c p ≡ write_len gorilla p (write w (put_int32 (int32_of (length p))))
  unfolding encode
  encode-opened c p w a = rw (a, encode) refl

  encode-unopened :
      (c : Conn) (p : List ℕ)
      → next_writer c message_type ≡ none
      → encode gorilla c p ≡ (next_writer_failed ∷ [], c)
  unfolding encode
  encode-unopened c p a = rw (a, encode) refl

  -- An `Encode` that returns no error has sent one more message, the frame.
  pub encode-sends :
      (c : Conn) (p : List ℕ)
      → (encode gorilla c p).0 ≡ []
      → messages (encode gorilla c p).1 ≡ messages c ++ (message_type, frame p) ∷ []
  encode-sends c p e = elim (Option-cases (next_writer c message_type)) [
    | inl a ↦
        let q : next_writer_failed ∷ [] ≡ [] = sym (ap (λ r. r.0) (encode-unopened c p a)) ∙ e in
        absurd cc
    | inr (w, a) ↦
        let header = put_int32 (int32_of (length p)) in
        let v = (write w header).1 in
        let opened = encode-opened c p w a in
        let ((n, wrote), sent) =
          write_len-sends p (write w header).0 v (sym (ap (λ r. r.0) opened) ∙ e) in
        let (_, b, d) = write_lem w header n wrote in
        let (b₀, d₀) = next_writer_lem c message_type w a in
        ap (λ r. messages r.1) opened
        ∙ sent
        ∙ ap (λ x. before v ++ (x.0, x.1 ++ p) ∷ []) (d ∙ ap (λ x. (x.0, x.1 ++ header)) d₀)
        ∙ ap (λ x. x ++ (message_type, frame p) ∷ []) (b ∙ b₀)
  ]

module _ (pool : BufferPool) (gorilla : MessageReader) where
  open pool use {State, alloc}
  open gorilla use {Conn, inbox, next_reader, next_reader_lem}

  decode-opened :
      (s : State) (c : Conn) {r : Reader} {c' : Conn}
      → next_reader c ≡ message message_type r c'
      → decode pool gorilla s c ≡ unpacked_from pool gorilla c' (Tcp.decode pool s r)
  unfolding decode
  decode-opened s c a = rw (a, decode) refl

  -- A message that is one frame is decoded to its pack.
  pub decode-message :
      (s : State) (c : Conn) (p : List ℕ) (rest : List (ℕ × List ℕ))
      → CanPack p
      → inbox c ≡ (message_type, frame p) ∷ rest
      → let (buf, s') = alloc s (length p) in
        (c' : Conn) × (decode pool gorilla s c ≡ unpacked p buf s' c') × (inbox c' ≡ rest)
  decode-message s c p rest h e =
      let (r, c', opened, body, left) = next_reader_lem c message_type (frame p) rest e in
      let (r', one, _) = decode-frame pool s r p [] h.0 h.1 (body ∙ sym (append-nil (frame p))) in
      (c', decode-opened s c opened ∙ ap (unpacked_from pool gorilla c') one, left)

-- `Encode` of each pack in turn, with no error.
pub data Sends (gorilla : MessageWriter)
    : gorilla.Conn → List (List ℕ) → gorilla.Conn → Type 0 where
  sent_all : {c : gorilla.Conn} → Sends gorilla c [] c
  sends :
      {c u : gorilla.Conn} {p : List ℕ} {ps : List (List ℕ)}
      → (encode gorilla c p).0 ≡ []
      → Sends gorilla (encode gorilla c p).1 ps u
      → Sends gorilla c (p ∷ ps) u

-- `Decode` again and again, with these packs as its results.
pub data Receives (pool : BufferPool) (gorilla : MessageReader)
    : pool.State → gorilla.Conn → List (List ℕ) → gorilla.Conn → Type 0 where
  received_all : {s : pool.State} {c : gorilla.Conn} → Receives pool gorilla s c [] c
  receives :
      {s s' : pool.State} {c c' u : gorilla.Conn} {p : List ℕ} {ps : List (List ℕ)}
      {buf : pool.Buffer}
      → decode pool gorilla s c ≡ unpacked p buf s' c'
      → Receives pool gorilla s' c' ps u
      → Receives pool gorilla s c (p ∷ ps) u

abbrev pub framed : List ℕ → ℕ × List ℕ
framed p = (message_type, frame p)

Sends-framed :
    (gorilla : MessageWriter) (ps : List (List ℕ)) {c u : gorilla.Conn}
    → Sends gorilla c ps u
    → gorilla.messages u ≡ gorilla.messages c ++ map framed ps
Sends-framed gorilla _ sent_all = sym (append-nil _)
Sends-framed gorilla _ (sends {c} {u} {p} {ps} e more) =
    Sends-framed gorilla ps more
    ∙ ap (λ x. x ++ map framed ps) (encode-sends gorilla c p e)
    ∙ append_assoc (gorilla.messages c) (framed p ∷ []) (map framed ps)

Receives-framed :
    (pool : BufferPool) (gorilla : MessageReader) (ps : List (List ℕ)) (rest : List (ℕ × List ℕ))
    (s : pool.State) (c : gorilla.Conn)
    → All CanPack ps
    → gorilla.inbox c ≡ map framed ps ++ rest
    → (u : gorilla.Conn) × Receives pool gorilla s c ps u × (gorilla.inbox u ≡ rest)
Receives-framed pool gorilla [] rest s c h e = (c, received_all, e)
Receives-framed pool gorilla (p ∷ ps) rest s c h e =
    let (c', one, e') = decode-message pool gorilla s c p (map framed ps ++ rest) h.0 e in
    let (u, more, e'') = Receives-framed pool gorilla ps rest _ c' h.1 e' in
    (u, receives one more, e'')

-- Packs of 1 to `MaxPackSize` bytes that a WebSocket codec has encoded without an error on a fresh
-- connection, the closing of the messages included, come out of the peer's codec as the same packs
-- in the same order, one from each message, whatever the pools hold.
pub message_transfer :
    (out : MessageWriter) (pool : BufferPool) (input : MessageReader) (ps : List (List ℕ))
    (rest : List (ℕ × List ℕ)) (w v : out.Conn) (s : pool.State) (c : input.Conn)
    → All CanPack ps
    → out.messages w ≡ []
    → Sends out w ps v
    → input.inbox c ≡ out.messages v ++ rest
    → (u : input.Conn) × Receives pool input s c ps u × (input.inbox u ≡ rest)
message_transfer out pool input ps rest w v s c h fresh st e =
    Receives-framed pool input ps rest s c h
      (e ∙ ap (λ x. x ++ rest) (Sends-framed out ps st ∙ ap (λ x. x ++ map framed ps) fresh))
