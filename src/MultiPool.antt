-- ===== src/MultiPool.antt =====
-- internal/ringpool/multipool.go and default.go: one ring per buffer size, and the choice among them.
-- The map `pools` is an association list; Go visits a map in any order, so the configuration that
-- `NewMultiSizeRingPool` is given is a list in the order of that visit. The mutex is not modelled:
-- every method takes it for reading, and no method writes the fields that it guards.
pub mod Sort
pub mod Route
pub mod Serve
mod Tests
use fabrica_net.Base.{
  ℕ, zero, suc, ◌+◌, ◌*◌, Option, none, some, List, [], ◌∷◌, ◌++◌, ℤ, pos, pos_part, leb, leb_ℤ,
  ltb_ℤ, negsuc, ◌==◌, if◌then◌else◌, lookup, map,
}
use fabrica_net.RingPool.{
  Slice, Memory, Ring, Result, ok, err, PoolError, make_slice, make_memory, new_ring_buffer_pool,
  alloc, free, available,
}

-- `pools[key] = value`
abbrev pub store {ℓ} : {V : Type ℓ} → ℕ → V → List (ℕ × V) → List (ℕ × V)
store k v [] = (k, v) ∷ []
store k v ((j, w) ∷ d) = if j == k then (k, v) ∷ d else (j, w) ∷ store k v d

pub record MultiPool : Type 0 where
  pub pools : List (ℕ × Ring)
  pub sizes : List ℕ

-- `sort.Ints`
pub insert_sorted : ℕ → List ℕ → List ℕ
insert_sorted x [] = x ∷ []
insert_sorted x (y ∷ ys) = if leb x y then x ∷ y ∷ ys else y ∷ insert_sorted x ys

pub sort : List ℕ → List ℕ
unfolding insert_sorted
sort [] = []
sort (x ∷ xs) = insert_sorted x (sort xs)

-- The loop over the configuration.
unfoldable pub build :
    List (ℤ × ℕ) → List (ℕ × Ring) → List ℕ → Memory → Result (MultiPool × Memory)
build [] pools sizes m = ok (record { pools = pools; sizes = sort sizes }, m)
build ((size, capacity) ∷ config) pools sizes m = elim (new_ring_buffer_pool size capacity m) [
  | err e ↦ err e
  | ok (r, m') ↦ build config (store (pos_part size) r pools) (sizes ++ pos_part size ∷ []) m'
]

unfoldable pub new_multi_size_ring_pool : List (ℤ × ℕ) → Memory → Result (MultiPool × Memory)
unfolding build
new_multi_size_ring_pool config m = build config [] [] m

-- `Default`
abbrev pub default_config : List (ℤ × ℕ)
default_config =
    (pos 64, 8192 * 2)
    ∷ (pos 128, 8192)
    ∷ (pos 256, 4096)
    ∷ (pos 512, 2048)
    ∷ (pos 1024, 1024)
    ∷ (pos 4096, 256)
    ∷ []

-- The loop of `Alloc` over the sorted sizes: the pool that serves, if any.
pub pick : List ℕ → List (ℕ × Ring) → ℤ → Option (ℕ × Ring)
pick [] pools size = none
pick (s ∷ sizes) pools size =
    let rest = pick sizes pools size in
    if leb_ℤ size (pos s)
    then elim (lookup s pools) [ some r ↦ some (s, r) | none ↦ rest ]
    else rest

-- The pool's answer, written back under its size. The last option is the fuel.
abbrev pub put_back :
    MultiPool → ℕ → Option (Slice × Ring × Memory) → Option (Slice × MultiPool × Memory)
put_back mp s none = none
put_back mp s (some (b, r, m)) = some (b, record mp { pools = store s r mp.pools }, m)

-- `make([]byte, size)` panics at a negative size.
pub data Outcome {ℓ} (A : Type ℓ) : Type ℓ where
  returned : A → Outcome A
  panicked : Outcome A

abbrev make_any : MultiPool → Memory → ℤ → Outcome (Option (Slice × MultiPool × Memory))
make_any mp m (pos n) = returned (some (make_slice m n, mp, make_memory m n))
make_any mp m (negsuc n) = panicked

pub multi_alloc : MultiPool → Memory → ℤ → Outcome (Option (Slice × MultiPool × Memory))
unfolding pick
multi_alloc mp m size = elim (pick mp.sizes mp.pools size) [
  | none ↦ make_any mp m size
  | some (s, r) ↦ returned (put_back mp s (alloc r m size))
]

pub multi_free : MultiPool → Memory → Slice → MultiPool × Memory
multi_free mp m b = elim (lookup b.cap mp.pools) [
  | none ↦ (mp, m)
  | some r ↦ let (r', m') = free r m b in (record mp { pools = store b.cap r' mp.pools }, m')
]
