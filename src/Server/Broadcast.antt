-- ===== src/Server/Broadcast.antt =====
-- internal/server.go: which send channels a broadcast adds to, and what a walk visits.
use fabrica_net.Base.{
  ℕ, ◌+◌, Bool, true, false, ◌&&◌, ◌||◌, not, none, List, [], ◌∷◌, ◌++◌, ◌==◌, if◌then◌else◌,
  length, ℤ, Bool-cases, inl, inr, ◌≡◌, refl, sym, ap, ◌∙◌, map,
}
use mathlib.Core.List.{append_assoc, append-nil}
use fabrica_net.Workers.{Worker, eq_ℤ, Bucket, Manager, walk, walk_bucket, walk_buckets}
use fabrica_net.Server.{Chans, push_worker, BaseServer, eq_color, to_color, broadcast, wid_list}
use fabrica_net.Server.Deliver.{
  delivered, delivered-again, delivered-none, one_if, push_worker-adds, workers_of,
}

-- All workers, in the order of a walk.
abbrev pub all_workers : List Bucket → List Worker
all_workers [] = []
all_workers (b ∷ bs) = workers_of b ++ all_workers bs

abbrev pub fold {ℓ} : {S : Type ℓ} → (Worker → S → S) → List Worker → S → S
fold f [] s = s
fold f (w ∷ ws) s = fold f ws (f w s)

fold-append {ℓ} :
    {S : Type ℓ} (f : Worker → S → S) (xs ys : List Worker) (s : S)
    → fold f (xs ++ ys) s ≡ fold f ys (fold f xs s)
fold-append f [] ys s = refl
fold-append f (w ∷ xs) ys s = fold-append f xs ys (f w s)

module _ {ℓ} {S : Type ℓ} (f : Worker → S → Bool × S)
    (go : (w : Worker) (s : S) → (f w s).0 ≡ true) where
  abbrev does : Worker → S → S
  does w s = (f w s).1

  walk_bucket-fold : (b : Bucket) (s : S) → walk_bucket f b s ≡ (true, fold does (workers_of b) s)
  unfolding walk_bucket
  walk_bucket-fold [] s = refl
  walk_bucket-fold ((k, w) ∷ b) s =
      ap (λ on. if on then walk_bucket f b (does w s) else (false, does w s)) (go w s)
      ∙ walk_bucket-fold b (does w s)

  walk_buckets-fold :
      (bs : List Bucket) (s : S) → walk_buckets f bs s ≡ fold does (all_workers bs) s
  unfolding walk_buckets
  walk_buckets-fold [] s = refl
  walk_buckets-fold (b ∷ bs) s =
      ap (λ r. if r.0 then walk_buckets f bs r.1 else r.1) (walk_bucket-fold b s)
      ∙ walk_buckets-fold bs (fold does (workers_of b) s)
      ∙ sym (fold-append does (workers_of b) (all_workers bs) s)

  -- A walk whose function always goes on sees every worker.
  pub walk-fold : (m : Manager) (s : S) → walk f m s ≡ fold does (all_workers m.buckets) s
  unfolding walk
  walk-fold m s = walk_buckets-fold m.buckets s

abbrev pub in_color : List ℕ → ℤ → Worker → Bool
in_color color sid w = eq_color w.color color && eq_ℤ w.sid sid

-- The same of those in a color and a server.
abbrev pub times_in : List ℕ → ℤ → ℕ → List Worker → ℕ
times_in color sid r [] = 0
times_in color sid r (w ∷ ws) =
    one_if (in_color color sid w && (w.ref == r)) + times_in color sid r ws

to_color-goes :
    (color : List ℕ) (sid : ℤ) (pack : List ℕ) (w : Worker) (ch : Chans)
    → (to_color color sid pack w ch).0 ≡ true
to_color-goes color sid pack w ch =
    elim (Bool-cases (not (eq_color w.color color) || not (eq_ℤ w.sid sid))) [
      | inl y ↦ rw y refl
      | inr n ↦ rw n refl
    ]

both : (a b : Bool) → not a || not b ≡ not (a && b)
both true b = refl
both false b = refl

to_color-adds :
    (color : List ℕ) (sid : ℤ) (pack : List ℕ) (w : Worker) (ch : Chans) (r : ℕ)
    → (length pack == 0) ≡ false
    → (to_color color sid pack w ch).1 r
      ≡ delivered (ch r) (one_if (in_color color sid w && (w.ref == r))) pack
to_color-adds color sid pack w ch r full =
    let chosen : Bool → Bool × Chans =
      λ b. if b then (true, ch) else (true, (push_worker w pack ch).1) in
    ap (λ b. (chosen b).1 r) (both (eq_color w.color color) (eq_ℤ w.sid sid))
    ∙ elim (Bool-cases (in_color color sid w)) [
      | inl y ↦
          ap (λ b. (chosen (not b)).1 r) y
          ∙ push_worker-adds w pack ch r full
          ∙ ap (λ b. delivered (ch r) (one_if (b && (w.ref == r))) pack) (sym y)
      | inr n ↦
          ap (λ b. (chosen (not b)).1 r) n
          ∙ delivered-none (ch r) pack
          ∙ ap (λ b. delivered (ch r) (one_if (b && (w.ref == r))) pack) (sym n)
    ]

fold-adds :
    (color : List ℕ) (sid : ℤ) (pack : List ℕ) (ws : List Worker) (ch : Chans) (r : ℕ)
    → (length pack == 0) ≡ false
    → fold (λ w s. (to_color color sid pack w s).1) ws ch r
      ≡ delivered (ch r) (times_in color sid r ws) pack
fold-adds color sid pack [] ch r full = delivered-none (ch r) pack
fold-adds color sid pack (w ∷ ws) ch r full =
    fold-adds color sid pack ws (to_color color sid pack w ch).1 r full
    ∙ ap (λ c. delivered c (times_in color sid r ws) pack)
        (to_color-adds color sid pack w ch r full)
    ∙ delivered-again (ch r) _ (times_in color sid r ws) pack

-- `Broadcast` of a pack that is not empty, on a server that is not stopping, returns nil whatever the
-- pushes return, and adds to the send channel of a worker that is not stopping one copy of the pack
-- for each entry of the worker in the buckets with that color and server id, and nothing to any
-- other channel.
pub broadcast-delivered :
    (s : BaseServer) (ch : Chans) (color : List ℕ) (sid : ℤ) (pack : List ℕ) (r : ℕ)
    → s.on_stopping ≡ false
    → (length pack == 0) ≡ false
    → let (e, ch') = broadcast s ch color sid pack in
      (e ≡ none)
      × (ch' r ≡ delivered (ch r) (times_in color sid r (all_workers s.manager.buckets)) pack)
unfolding broadcast
broadcast-delivered s ch color sid pack r run full =
    rw (run, broadcast, full)
      (
        refl,
        ap (λ c. c r)
              (walk-fold (to_color color sid pack) (to_color-goes color sid pack) s.manager ch)
            ∙ fold-adds color sid pack (all_workers s.manager.buckets) ch r full,
      )

fold-wids :
    (ws : List Worker) (ids : List ℕ)
    → fold (λ w xs. xs ++ w.wid ∷ []) ws ids ≡ ids ++ map (λ w. w.wid) ws
fold-wids [] ids = sym (append-nil ids)
fold-wids (w ∷ ws) ids =
    fold-wids ws (ids ++ w.wid ∷ []) ∙ append_assoc ids (w.wid ∷ []) (map (λ w. w.wid) ws)

-- On a server that is not stopping, `WIDList` lists the id of every worker in the buckets, as often as
-- it is there and in the order of the buckets; on one that is stopping it is empty.
pub wid_list-all :
    (s : BaseServer)
    → wid_list s ≡ (if s.on_stopping then [] else map (λ w. w.wid) (all_workers s.manager.buckets))
unfolding wid_list
wid_list-all s =
    ap (λ ids. if s.on_stopping then [] else ids)
      (walk-fold (λ w ids. (true, ids ++ w.wid ∷ [])) (λ w ids. refl) s.manager []
        ∙ fold-wids (all_workers s.manager.buckets) [])
