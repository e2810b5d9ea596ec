-- ===== src/Server/Deliver.antt =====
-- internal/server.go: which send channels a multicast adds to.
use fabrica_net.Base.{
  ℕ, zero, suc, ◌+◌, Bool, true, false, none, some, List, [], ◌∷◌, ◌++◌, ◌==◌, if◌then◌else◌,
  length, replicate, ℤ, update, Bool-cases, inl, inr, ◌≡◌, refl, sym, ap, ◌∙◌, arith,
}
use mathlib.Core.List.{append_assoc, append-nil}
use fabrica_net.Workers.{Worker, Key, UidWids, get_by_uids}
use fabrica_net.Server.{
  Chan, Chans, worker_is_stopping, empty_pack, push_worker, BaseServer, push_each, multicast,
}

-- The queue of a channel with `n` more copies of a pack, unless its worker is stopping.
abbrev pub more : Bool → List (List ℕ) → ℕ → List ℕ → List (List ℕ)
more true q n pack = q
more false q n pack = q ++ replicate n pack

abbrev pub delivered : Chan → ℕ → List ℕ → Chan
delivered c n pack = record c { queue = more c.stopping c.queue n pack }

abbrev pub one_if : Bool → ℕ
one_if b = if b then 1 else 0

replicate-append :
    {A : Type 0} (n m : ℕ) (a : A) → replicate n a ++ replicate m a ≡ replicate (n + m) a
replicate-append zero m a = ap (λ k. replicate k a) (omega arith)
replicate-append (suc n) m a =
    ap (◌∷◌ a) (replicate-append n m a) ∙ ap (λ k. replicate k a) {x = suc (n + m)} (omega arith)

pub more-again :
    (b : Bool) (q : List (List ℕ)) (n m : ℕ) (pack : List ℕ)
    → more b (more b q n pack) m pack ≡ more b q (n + m) pack
more-again true q n m pack = refl
more-again false q n m pack =
    append_assoc q (replicate n pack) (replicate m pack) ∙ ap (◌++◌ q) (replicate-append n m pack)

more-none : (b : Bool) (q : List (List ℕ)) (pack : List ℕ) → more b q 0 pack ≡ q
more-none true q pack = refl
more-none false q pack = append-nil q

pub delivered-again :
    (c : Chan) (n m : ℕ) (pack : List ℕ)
    → delivered (delivered c n pack) m pack ≡ delivered c (n + m) pack
delivered-again c n m pack =
    ap (λ q. record c { queue = q }) (more-again c.stopping c.queue n m pack)

pub delivered-none : (c : Chan) (pack : List ℕ) → c ≡ delivered c 0 pack
delivered-none c pack = ap (λ q. record c { queue = q }) (sym (more-none c.stopping c.queue pack))

delivered-stopping : (c : Chan) (n : ℕ) (pack : List ℕ) → c.stopping ≡ true → c ≡ delivered c n pack
delivered-stopping c n pack e = ap (λ b. record c { queue = more b c.queue n pack }) (sym e)

delivered-running :
    (c : Chan) (pack : List ℕ)
    → c.stopping ≡ false
    → record c { queue = c.queue ++ pack ∷ [] } ≡ delivered c 1 pack
delivered-running c pack e = ap (λ b. record c { queue = more b c.queue 1 pack }) (sym e)

push_worker-stopping :
    (w : Worker) (pack : List ℕ) (ch : Chans)
    → (ch w.ref).stopping ≡ true
    → (push_worker w pack ch).1 ≡ ch
unfolding push_worker
push_worker-stopping w pack ch s = rw (s, push_worker) refl

push_worker-running :
    (w : Worker) (pack : List ℕ) (ch : Chans)
    → (ch w.ref).stopping ≡ false
    → (length pack == 0) ≡ false
    → push_worker w pack ch
      ≡ (none, update ch w.ref (record (ch w.ref) { queue = (ch w.ref).queue ++ pack ∷ [] }))
unfolding push_worker
push_worker-running w pack ch s full =
    ap
      (λ b.
        if b
        then (some worker_is_stopping, ch)
        else if length pack == 0
        then (some empty_pack, ch)
        else (none, update ch w.ref (record (ch w.ref) { queue = (ch w.ref).queue ++ pack ∷ [] })))
      s
    ∙ rw full refl

pub push_worker-adds :
    (w : Worker) (pack : List ℕ) (ch : Chans) (r : ℕ)
    → (length pack == 0) ≡ false
    → (push_worker w pack ch).1 r ≡ delivered (ch r) (one_if (w.ref == r)) pack
push_worker-adds w pack ch r full = elim (Bool-cases (ch w.ref).stopping) [
  | inl s ↦ ap (λ f. f r) (push_worker-stopping w pack ch s) ∙ elim (Bool-cases (w.ref == r)) [
    | inl y ↦
        let q : w.ref ≡ r = ground arith in
        delivered-stopping (ch r) (one_if (w.ref == r)) pack (ap (λ i. (ch i).stopping) (sym q) ∙ s)
    | inr n ↦ delivered-none (ch r) pack ∙ ap (λ b. delivered (ch r) (one_if b) pack) (sym n)
  ]
  | inr s ↦
      ap (λ f. f.1 r) (push_worker-running w pack ch s full) ∙ elim (Bool-cases (w.ref == r)) [
        | inl y ↦
            let q : w.ref ≡ r = ground arith in
            rw y (delivered-running (ch w.ref) pack s ∙ ap (λ i. delivered (ch i) 1 pack) q)
        | inr n ↦ rw n (delivered-none (ch r) pack)
      ]
]

-- How often the worker at a pointer is in a list of workers.
abbrev pub times : ℕ → List Worker → ℕ
times r [] = 0
times r (w ∷ ws) = one_if (w.ref == r) + times r ws

abbrev pub workers_of : List (Key × Worker) → List Worker
workers_of [] = []
workers_of ((k, w) ∷ d) = w ∷ workers_of d

pub push_each-adds :
    (ws : List (Key × Worker)) (pack : List ℕ) (ch : Chans) (r : ℕ)
    → (length pack == 0) ≡ false
    → push_each ws pack ch r ≡ delivered (ch r) (times r (workers_of ws)) pack
unfolding push_each
push_each-adds [] pack ch r full = delivered-none (ch r) pack
push_each-adds ((k, w) ∷ ws) pack ch r full =
    push_each-adds ws pack (push_worker w pack ch).1 r full
    ∙ ap (λ c. delivered c (times r (workers_of ws)) pack) (push_worker-adds w pack ch r full)
    ∙ delivered-again (ch r) (one_if (w.ref == r)) (times r (workers_of ws)) pack

-- `Multicast` of a pack that is not empty, on a server that is not stopping, returns nil whatever the
-- pushes return, and adds to the send channel of a worker that is not stopping one copy of the pack
-- for each entry of the worker in what `GetByUIDs` returns, and nothing to any other channel.
pub multicast-delivered :
    (s : BaseServer) (uids : UidWids) (ch : Chans) (us : List ℤ) (pack : List ℕ) (r : ℕ)
    → s.on_stopping ≡ false
    → (length pack == 0) ≡ false
    → let (e, ch') = multicast s uids ch us pack in
      (e ≡ none)
      × (ch' r ≡ delivered (ch r) (times r (workers_of (get_by_uids uids s.manager us))) pack)
unfolding multicast
multicast-delivered s uids ch us pack r run full =
    rw (run, multicast, full) (refl, push_each-adds (get_by_uids uids s.manager us) pack ch r full)
