-- ===== src/Workers/Collect.antt =====
-- internal/workermanager.go: the loops of `GetByUIDs` over the buckets, for one user.
use fabrica_net.Base.{
  ℕ, zero, suc, ◌<◌, ◌≡◌, ◌≢◌, refl, sym, ap, ◌∙◌, inl, inr, Bool, true, false, ◌||◌, Option, none,
  some, List, [], ◌∷◌, ◌++◌, ◌==◌, if◌then◌else◌, Bool-cases, Option-cases, arith, All, length,
  get_or, ℤ,
}
use fabrica_net.Workers.{
  Worker, Key, int64_key, uint64_key, eq_ℤ, load, store, Bucket, load_all, collect,
}
use fabrica_net.Workers.Maps.{load-store}

abbrev pub any {ℓ} : {A : Type ℓ} → (A → Bool) → List A → Bool
any p [] = false
any p (x ∷ xs) = p x || any p xs

pub any-append :
    {A : Type 0} (p : A → Bool) (xs ys : List A) → any p (xs ++ ys) ≡ any p xs || any p ys
any-append p [] ys = refl
any-append p (x ∷ xs) ys = elim (Bool-cases (p x)) [
  | inl e ↦ rw e refl
  | inr e ↦ rw e (any-append p xs ys)
]

-- A user id is among those asked for.
abbrev pub asked : ℤ → List ℤ → Bool
asked u us = any (λ x. eq_ℤ x u) us

-- The worker id is the one of the user that is looked up.
abbrev pub is : Option ℕ → ℕ → Bool
is none x = false
is (some y) x = x == y

abbrev pub at : Option ℕ → Bucket → Option Worker
at none b = none
at (some y) b = load (uint64_key y) b

abbrev pub or_else : Option Worker → Option Worker → Option Worker
or_else none o = o
or_else (some w) o = some w

or_else-twice : (a o : Option Worker) → or_else a (or_else a o) ≡ or_else a o
or_else-twice none o = refl
or_else-twice (some w) o = refl

at-is : (g : Option ℕ) (b : Bucket) (x : ℕ) → is g x ≡ true → at g b ≡ load (uint64_key x) b
at-is none b x e = absurd (ground arith)
at-is (some y) b x e = let q : x ≡ y = ground arith in ap (λ z. load (uint64_key z) b) (sym q)

merge :
    (p q : Bool) (a o : Option Worker)
    → (if q then or_else a (if p then or_else a o else o) else (if p then or_else a o else o))
      ≡ (if p || q then or_else a o else o)
merge true true a o = or_else-twice a o
merge true false a o = refl
merge false true a o = refl
merge false false a o = refl

abbrev pub read : (u : ℤ) → List (Key × Worker) → Option Worker
read u result = load (int64_key u) result

-- One bucket's lookups, for a user whose worker id is `g`: the bucket's workers of other ids are of
-- other users.
module _ (u : ℤ) (g : Option ℕ) (owner : ℕ → ℤ) where
  abbrev pub Fitting : ℕ → Type 0
  Fitting x = eq_ℤ (owner x) u ≡ is g x

  -- What the bucket holds at the id is of the owner.
  abbrev pub FitsIn : Bucket → ℕ → Type 0
  FitsIn b x = Fitting x × ((w : Worker) → load (uint64_key x) b ≡ some w → w.uid ≡ owner x)

  load_one :
      (b : Bucket) (x : ℕ) (result : List (Key × Worker))
      → FitsIn b x
      → load (int64_key u) (elim (load (uint64_key x) b) [
        | none ↦ result
        | some w ↦ store (int64_key w.uid) w result
      ])
        ≡ (if is g x
            then or_else (at g b) (load (int64_key u) result)
            else load (int64_key u) result)
  load_one b x result fit = elim (Option-cases (load (uint64_key x) b)) [
    | inl a ↦
        ap (λ o. read u (elim o [ none ↦ result | some w ↦ store (int64_key w.uid) w result ])) a
        ∙ elim (Bool-cases (is g x)) [
          | inl y ↦ rw y (sym (ap (λ o. or_else o (read u result)) (at-is g b x y ∙ a)))
          | inr n ↦ rw n refl
        ]
    | inr (w, a) ↦
        ap (λ o. read u (elim o [ none ↦ result | some w ↦ store (int64_key w.uid) w result ])) a
        ∙ load-store (int64_key w.uid) (int64_key u) w result
        ∙ ap (λ t. if t then some w else read u result) (ap (λ z. eq_ℤ z u) (fit.1 w a) ∙ fit.0)
        ∙ elim (Bool-cases (is g x)) [
          | inl y ↦ rw y (sym (ap (λ o. or_else o (read u result)) (at-is g b x y ∙ a)))
          | inr n ↦ rw n refl
        ]
  ]

  pub load-load_all :
      (b : Bucket) (wids : List ℕ) (result : List (Key × Worker))
      → All (FitsIn b) wids
      → load (int64_key u) (load_all b wids result) ≡ (
          if any (is g) wids
          then or_else (at g b) (load (int64_key u) result)
          else load (int64_key u) result)
  unfolding load_all
  load-load_all b [] result fit = refl
  load-load_all b (x ∷ wids) result fit =
      load-load_all b wids _ fit.1
      ∙ ap (λ o. if any (is g) wids then or_else (at g b) o else o) (load_one b x result fit.0)
      ∙ merge (is g x) (any (is g) wids) (at g b) (read u result)

  -- No list names the worker id.
  pub collect-nowhere :
      (bs : List Bucket) (keys : List (List ℕ)) (result : List (Key × Worker))
      → ((i : ℕ) → All (FitsIn (get_or bs i [])) (get_or keys i []))
      → ((i : ℕ) → any (is g) (get_or keys i []) ≡ false)
      → read u (collect bs keys result) ≡ read u result
  unfolding collect
  collect-nowhere [] keys result fit h = refl
  collect-nowhere (b ∷ bs) [] result fit h = refl
  collect-nowhere (b ∷ bs) (ws ∷ keys) result fit h =
      collect-nowhere bs keys _ (λ i. fit (suc i)) (λ i. h (suc i))
      ∙ load-load_all b ws result (fit 0)
      ∙ rw (h 0) refl

  -- Only the list of bucket `k` may name the worker id.
  pub collect-at :
      (k : ℕ) (bs : List Bucket) (keys : List (List ℕ)) (result : List (Key × Worker))
      → k < length bs
      → length bs ≡ length keys
      → ((i : ℕ) → All (FitsIn (get_or bs i [])) (get_or keys i []))
      → ((i : ℕ) → k ≢ i → any (is g) (get_or keys i []) ≡ false)
      → read u (collect bs keys result) ≡ (
          if any (is g) (get_or keys k [])
          then or_else (at g (get_or bs k [])) (read u result)
          else read u result)
  unfolding collect
  collect-at k [] keys result lt len fit h = absurd (omega arith)
  collect-at k (b ∷ bs) [] result lt len fit h = absurd (omega arith)
  collect-at zero (b ∷ bs) (ws ∷ keys) result lt len fit h =
      collect-nowhere bs keys _ (λ i. fit (suc i)) (λ i. h (suc i) (omega arith))
      ∙ load-load_all b ws result (fit 0)
  collect-at (suc k) (b ∷ bs) (ws ∷ keys) result lt len fit h =
      collect-at k bs keys _ (omega arith) (omega arith) (λ i. fit (suc i))
        (λ i n. h (suc i) (omega arith))
      ∙ ap (λ o. if any (is g) (get_or keys k []) then or_else (at g (get_or bs k [])) o else o)
          (load-load_all b ws result (fit 0) ∙ rw (h 0 (omega arith)) refl)
