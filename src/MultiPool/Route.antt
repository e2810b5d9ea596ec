-- ===== src/MultiPool/Route.antt =====
-- internal/ringpool/multipool.go: which ring serves a request, and which takes a buffer back.
use fabrica_net.Base.{
  ℕ, Option, none, some, List, [], ◌∷◌, ◌++◌, ℤ, pos, pos_part, leb_ℤ, ◌==◌, if◌then◌else◌, lookup,
  All, All-map, Bool-cases, All-append, ◌⊎◌, inl, inr, ◌≤◌, ◌<◌, ◌≡◌, refl, subst, arith, true,
  false,
}
use fabrica_net.RingPool.{PoolError, Memory, Ring, ok, err, new_ring_buffer_pool, word, Result}
use fabrica_net.RingPool.New.{NewPool, new_ring_buffer_pool-NewPool}
use fabrica_net.MultiPool.{MultiPool, store, sort, build, new_multi_size_ring_pool, pick}
use fabrica_net.MultiPool.Sort.{IsSorted, sort-IsSorted, All-sort}

pub lookup-store {ℓ} :
    {V : Type ℓ} (k j : ℕ) (v : V) (d : List (ℕ × V))
    → lookup j (store k v d) ≡ (if k == j then some v else lookup j d)
lookup-store k j v [] = refl
lookup-store k j v ((i, w) ∷ d) = ground (arith, lookup-store k j v d)

-- A size that has a ring of buffers of that size.
abbrev pub HasRing : List (ℕ × Ring) → ℕ → Type 0
HasRing pools s = (r : Ring) × (lookup s pools ≡ some r) × (r.buffer_size ≡ s)

pub record IsRouted (mp : MultiPool) : Type 0 where
  pub sorted : IsSorted mp.sizes
  pub rings : All (HasRing mp.pools) mp.sizes

-- `s` is the least of the sizes that hold `size` bytes.
pub record IsLeast (sizes : List ℕ) (size : ℤ) (s : ℕ) : Type 0 where
  pub enough : leb_ℤ size (pos s) ≡ true
  pub least : All (λ t. leb_ℤ size (pos t) ≡ true → s ≤ t) sizes

-- The loop picks the ring of the least size that is enough, or nothing if none is.
abbrev pub Picks : List ℕ → List (ℕ × Ring) → ℤ → Option (ℕ × Ring) → Type 0
Picks sizes pools size none = All (λ t. leb_ℤ size (pos t) ≡ false) sizes
Picks sizes pools size (some (s, r)) =
    IsLeast sizes size s × (lookup s pools ≡ some r) × (r.buffer_size ≡ s)

later :
    (size : ℤ) (s : ℕ) (sizes : List ℕ) (pools : List (ℕ × Ring)) (o : Option (ℕ × Ring))
    → leb_ℤ size (pos s) ≡ false
    → Picks sizes pools size o
    → Picks (s ∷ sizes) pools size o
later size s sizes pools none e p = (e, p)
later size s sizes pools (some (t, r)) e (l, at, is) =
    (record { enough = l.enough; least = (λ h. cc, l.least) }, at, is)

pub pick-Picks :
    (sizes : List ℕ) (pools : List (ℕ × Ring)) (size : ℤ)
    → IsSorted sizes
    → All (HasRing pools) sizes
    → Picks sizes pools size (pick sizes pools size)
unfolding pick
pick-Picks [] pools size st h = tt
pick-Picks (s ∷ sizes) pools size st h = elim (Bool-cases (leb_ℤ size (pos s))) [
  | inl e ↦
      let (r, at, is) = h.0 in
      rw (e, at)
        (
          record {
            enough = e;
            least = (λ _. omega arith, All-map (λ t. s ≤ t) _ sizes (λ t le _. le) st.0);
          },
          at,
          is,
        )
  | inr e ↦
      rw e
        (later size s sizes pools (pick sizes pools size) e (pick-Picks sizes pools size st.1 h.1))
]

store-HasRing :
    (pools : List (ℕ × Ring)) (s t : ℕ) (r : Ring)
    → r.buffer_size ≡ s
    → HasRing pools t
    → HasRing (store s r pools) t
store-HasRing pools s t r e (q, at, is) = elim (Bool-cases (s == t)) [
  | inl same ↦ (r, ground (arith, lookup-store s t r pools), ground arith)
  | inr other ↦ (q, ground (arith, lookup-store s t r pools), is)
]

made_size :
    (size : ℤ) (capacity : ℕ) (m m' : Memory) (r : Ring)
    → capacity < word
    → new_ring_buffer_pool size capacity m ≡ ok (r, m')
    → r.buffer_size ≡ pos_part size
made_size size capacity m m' r h e =
    (subst (NewPool size capacity m) e (new_ring_buffer_pool-NewPool size capacity m h)).2

Result-cases {ℓ} :
    {A : Type ℓ} (x : Result A) → ((a : A) × (x ≡ ok a)) ⊎ ((e : PoolError) × (x ≡ err e))
Result-cases (ok a) = inl (a, refl)
Result-cases (err e) = inr (e, refl)

build-IsRouted :
    (config : List (ℤ × ℕ)) (pools : List (ℕ × Ring)) (sizes : List ℕ) (m : Memory) {mp : MultiPool}
    {m' : Memory}
    → All (λ c. c.1 < word) config
    → All (HasRing pools) sizes
    → build config pools sizes m ≡ ok (mp, m')
    → IsRouted mp
unfolding build
build-IsRouted [] pools sizes m {mp} {m'} small h e =
    let made : MultiPool = record { pools = pools; sizes = sort sizes } in
    let q : made ≡ mp = cc in
    subst IsRouted q
      (record { sorted = sort-IsSorted sizes; rings = All-sort (HasRing pools) sizes h })
build-IsRouted ((size, capacity) ∷ config) pools sizes m {mp} {m'} small h e =
    elim (Result-cases (new_ring_buffer_pool size capacity m)) [
      | inl ((r, m''), made) ↦
          let is = made_size size capacity m m'' r small.0 made in
          build-IsRouted config (store (pos_part size) r pools) (sizes ++ pos_part size ∷ []) m''
            {m' = m'} small.1
            (All-append (HasRing (store (pos_part size) r pools)) sizes (pos_part size ∷ [])
              (All-map (HasRing pools) _ sizes (λ t. store-HasRing pools (pos_part size) t r is) h)
              ((r, ground (arith, lookup-store (pos_part size) (pos_part size) r pools), is), tt))
            (ground arith)
      | inr (x, failed) ↦ absurd (ground arith)
    ]

-- What `NewMultiSizeRingPool` builds has its sizes in order and, for each, a ring of buffers of just
-- that size, in whatever order Go visits the configuration (capacities are uint64).
pub new_multi_size_ring_pool-IsRouted :
    (config : List (ℤ × ℕ)) (m : Memory) {mp : MultiPool} {m' : Memory}
    → All (λ c. c.1 < word) config
    → new_multi_size_ring_pool config m ≡ ok (mp, m')
    → IsRouted mp
unfolding new_multi_size_ring_pool
new_multi_size_ring_pool-IsRouted config m small e = build-IsRouted config [] [] m small tt e
