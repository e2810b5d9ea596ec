-- ===== src/RingPool/Own.antt =====
-- internal/ringpool/pool.go in use: clients that allocate, write, and free what they hold.
-- A history is any sequence of such steps; the garbage collector may empty the `sync.Pool` at any
-- time, and frees are of held buffers only.
pub mod Sums
pub mod Preserve
pub mod Return
pub mod History
pub mod Run
mod Tests
use fabrica_net.Base.{
  ℕ, zero, suc, ◌+◌, ◌≤◌, ◌<◌, ◌==◌, if◌then◌else◌, Option, none, some, List, [], ◌∷◌, ℤ, get_or,
  replicate, lookup, count, update, length, map, All, remove_at, take, drop, ◌++◌, get_elem?, ◌≡◌,
}
use fabrica_net.RingPool.{Slice, Memory, Ring, no_slice, alloc, free}
use fabrica_net.RingPool.Window.{IsWindow}

pub record Client : Type 0 where
  pub ring : Ring
  pub memory : Memory
  pub held : List Slice

pub data Op : Type 0 where
  allocs : ℤ → Op
  frees : ℕ → Op  -- the index of a held buffer
  writes : ℕ → List ℕ → Op  -- the same, and what the client copies to the buffer's start
  evicts : Op

-- `copy(buf, bytes)`
abbrev pub copy_to : List ℕ → List ℕ → List ℕ
copy_to src [] = []
copy_to [] (x ∷ xs) = x ∷ xs
copy_to (b ∷ src) (x ∷ xs) = b ∷ copy_to src xs

abbrev pub write_to : Memory → Slice → List ℕ → Memory
write_to m b src = record m {
  bytes = update m.bytes b.addr (copy_to (take b.len src) (m.bytes b.addr));
}

abbrev pub after_alloc : List Slice → Option (Slice × Ring × Memory) → Option Client
after_alloc held none = none
after_alloc held (some (b, r, m)) = some (record { ring = r; memory = m; held = b ∷ held })

abbrev pub after_free : Client → ℕ → Option Slice → Client
after_free c k none = c
after_free c k (some b) =
    let (r, m) = free c.ring c.memory b in
    record { ring = r; memory = m; held = remove_at c.held k }

abbrev pub after_write : Client → List ℕ → Option Slice → Client
after_write c src none = c
after_write c src (some b) = record c { memory = write_to c.memory b src }

-- `none` if an allocation runs out of fuel.
pub step : Client → Op → Option Client
step c (allocs size) = after_alloc c.held (alloc c.ring c.memory size)
step c (frees k) = some (after_free c k (get_elem? c.held k))
step c (writes k src) = some (after_write c src (get_elem? c.held k))
step c evicts = some (record c { ring = record c.ring { fallback_pool = [] } })

pub run : Client → List Op → Option Client
run c [] = some c
run c (o ∷ os) = elim (step c o) [ none ↦ none | some c' ↦ run c' os ]

-- 1 for the address of a free slot.
abbrev pub free_unit : List (ℕ × ℕ) → List ℕ → ℕ → ℕ
free_unit addrs states a = elim (lookup a addrs) [
  | none ↦ 0
  | some i ↦ if get_or states i 1 == 0 then 1 else 0
]

abbrev pub slices_at : List Slice → ℕ → ℕ
slices_at bs a = count a (map (λ b. b.addr) bs)

-- In how many places an array is: free in the ring, in the fallback pool, with a client.
abbrev pub idle : Ring → ℕ → ℕ
idle r a = free_unit r.buffer_addrs r.slot_states a + slices_at r.fallback_pool a

abbrev pub places : Client → ℕ → ℕ
places c a = idle c.ring a + slices_at c.held a

-- The table of addresses is inverse to `buffers`.
pub record Table (size capacity : ℕ) (buffers : List Slice) (addrs : List (ℕ × ℕ)) (next : ℕ)
    : Type 0 where
  pub positive : 0 < size
  pub size_at : (i : ℕ) → i < capacity → (get_or buffers i no_slice).cap ≡ size
  pub index_at : (i : ℕ) → i < capacity → lookup (get_or buffers i no_slice).addr addrs ≡ some i
  pub addr_at :
      (a i : ℕ)
      → lookup a addrs ≡ some i
      → (i < capacity) × (a ≡ (get_or buffers i no_slice).addr) × (a < next)

abbrev pub IsTable : Ring → Memory → Type 0
IsTable r m = Table r.buffer_size r.capacity r.buffers r.buffer_addrs m.next

-- A held slice lies in its array, and the array of a ring buffer has the pool's size.
abbrev pub Fits : Ring → Memory → Slice → Type 0
Fits r m b =
    (b.len ≤ b.cap)
    × (length (m.bytes b.addr) ≡ b.cap)
    × ((i : ℕ) → lookup b.addr r.buffer_addrs ≡ some i → b.cap ≡ r.buffer_size)

pub record IsOwned (c : Client) : Type 0 where
  pub used : ℕ
  pub window : IsWindow c.ring used
  pub table : IsTable c.ring c.memory
  pub exclusive : (a : ℕ) → places c a ≤ 1
  pub fresh : (a : ℕ) → c.memory.next ≤ a → places c a ≡ 0
  pub zeroed : (a : ℕ) → 0 < idle c.ring a → c.memory.bytes a ≡ replicate c.ring.buffer_size 0
  pub pool_fits : All (λ b. b.cap ≡ c.ring.buffer_size) c.ring.fallback_pool
  pub held_fits : All (Fits c.ring c.memory) c.held
