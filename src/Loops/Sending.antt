-- ===== src/Loops/Sending.antt =====
-- internal/worker.go and internal/dialog.go: the packets that `sendLoop` sends, and what the dialog at
-- the other end delivers of them.
use fabrica_net.Base.{ℕ, suc, true, false, none, some, List, [], ◌∷◌, map, ◌≡◌, refl, ap}
use fabrica_net.Session.{Session, encrypt, decrypt}
use fabrica_net.Life.{
  Event, sets_deadline, decodes, authenticates, handles, encodes, frees, Answers,
}
use fabrica_net.Loops.{SendTurn, sends, write_on, send_loop}
use fabrica_net.Dialog.{Turn, takes_default, receive_loop}
use fabrica_net.Dialog.Receiving.{delivered, receive_loop-arrived}
use fabrica_net.Life.Traces.{write-sent}

-- What a trace encodes.
abbrev pub encoded_packs : List Event → List (List ℕ)
encoded_packs [] = []
encoded_packs (encodes p ∷ t) = p ∷ encoded_packs t
encoded_packs (sets_deadline ∷ t) = encoded_packs t
encoded_packs (decodes b ∷ t) = encoded_packs t
encoded_packs (authenticates p ∷ t) = encoded_packs t
encoded_packs (handles p ∷ t) = encoded_packs t
encoded_packs (frees b ∷ t) = encoded_packs t

-- The packets come out of the dialog's codec in turn, into buffers with numbers from `n` on.
abbrev pub arriving : ℕ → List (List ℕ) → List Turn
arriving n [] = []
arriving n (p ∷ ps) =
    record { choice = takes_default; decoded = some (p, n); chan_closed = false }
    ∷ arriving (suc n) ps

-- What one end seals the other opens.
abbrev pub Carries : Session → Session → List ℕ → Type 0
Carries s s' p = (c : List ℕ) × (encrypt s.cryptor p ≡ some c) × (decrypt s'.cryptor c ≡ some p)

send_loop-sent :
    (e : Answers) (s s' : Session) (p : List ℕ) (ts : List SendTurn)
    → ((q : List ℕ) → e.write_filter q ≡ some q)
    → ((q : List ℕ) → e.encoded q ≡ true)
    → (h : Carries s s' p)
    → send_loop s (sends p e ∷ ts) ≡ ((send_loop s ts).0, encodes h.0 ∷ (send_loop s ts).1)
unfolding send_loop
send_loop-sent e s s' p ts f g h =
    ap (λ r. write_on r (send_loop s ts)) (write-sent e s p h.0 (f p) h.1 (g h.0))

-- One packet more, over what the later ones do.
delivers_more :
    (e : Answers) (s s' : Session) (p : List ℕ) (ps : List (List ℕ)) (n : ℕ) (deferred : List ℕ)
    → ((q : List ℕ) → e.write_filter q ≡ some q)
    → ((q : List ℕ) → e.encoded q ≡ true)
    → Carries s s' p
    → let sent = send_loop s (map (λ q. sends q e) ps) in
      let r = receive_loop (some s') (arriving (suc n) (encoded_packs sent.1)) (n ∷ deferred) in
      (sent.0 ≡ none) × (r.0 ≡ none) × (delivered r.1 ≡ ps)
      → let sent = send_loop s (map (λ q. sends q e) (p ∷ ps)) in
        let r = receive_loop (some s') (arriving n (encoded_packs sent.1)) deferred in
        (sent.0 ≡ none) × (r.0 ≡ none) × (delivered r.1 ≡ p ∷ ps)
delivers_more e s s' p ps n deferred f g h (a, b, d) =
    let later = map (λ q. sends q e) ps in
    let sent = send_loop-sent e s s' p later f g h in
    let came =
      receive_loop-arrived s' h.0 p n (arriving (suc n) (encoded_packs (send_loop s later).1))
        deferred h.2 in
    rw (sent, came) (a, b, ap (◌∷◌ p) d)

delivers_all :
    (e : Answers) (s s' : Session) (ps : List (List ℕ)) (n : ℕ) (deferred : List ℕ)
    → ((q : List ℕ) → e.write_filter q ≡ some q)
    → ((q : List ℕ) → e.encoded q ≡ true)
    → ((q : List ℕ) → Carries s s' q)
    → let sent = send_loop s (map (λ q. sends q e) ps) in
      let r = receive_loop (some s') (arriving n (encoded_packs sent.1)) deferred in
      (sent.0 ≡ none) × (r.0 ≡ none) × (delivered r.1 ≡ ps)
unfolding send_loop receive_loop
delivers_all e s s' [] n deferred f g h = (refl, refl, refl)
delivers_all e s s' (p ∷ ps) n deferred f g h =
    delivers_more e s s' p ps n deferred f g (h p)
      (delivers_all e s s' ps (suc n) (n ∷ deferred) f g h)

-- Where the connection takes every packet, no filter is set, and what the worker's session seals the
-- dialog's session opens: `sendLoop` sends the packets of its channel in their order without an error,
-- and when the dialog's codec decodes what was sent, `receiveLoop` delivers those packets, in that
-- order, each once, and goes on.
pub send_loop-delivered :
    (e : Answers) (s s' : Session) (ps : List (List ℕ))
    → ((q : List ℕ) → e.write_filter q ≡ some q)
    → ((q : List ℕ) → e.encoded q ≡ true)
    → ((q : List ℕ) → Carries s s' q)
    → let sent = send_loop s (map (λ q. sends q e) ps) in
      let r = receive_loop (some s') (arriving 0 (encoded_packs sent.1)) [] in
      (sent.0 ≡ none) × (r.0 ≡ none) × (delivered r.1 ≡ ps)
send_loop-delivered e s s' ps f g h = delivers_all e s s' ps 0 [] f g h
