-- ===== src/RingPool.antt =====
-- internal/ringpool/pool.go: a ring of pre-allocated buffers with a fallback pool.
-- A slice is the address of its array with its length and capacity, and it starts at the array's
-- first byte; `Memory` holds the arrays. `fallback_pool` is the `sync.Pool`: `Get` takes the last
-- buffer put, or makes one. `head` and `tail` are uint64 and wrap.
pub mod Window
pub mod Own
pub mod New
pub mod Safety
pub mod Race
use fabrica_net.Base.{
  ℕ, zero, suc, ◌+◌, ◌-◌, ◌%◌, ◌^◌, bit_and, not, ◌||◌, ◌==◌, ltb, if◌then◌else◌, Option, none,
  some, List, [], ◌∷◌, ℤ, pos, pos_part, leb_ℤ, get_or, set, replicate, lookup, update,
}

abbrev pub word : ℕ
word = 2 ^ 64

pub record Slice : Type 0 where
  pub addr : ℕ
  pub len : ℕ
  pub cap : ℕ

pub record Memory : Type 0 where
  pub next : ℕ
  pub bytes : ℕ → List ℕ

-- `make([]byte, n)`: a new array of zeros.
abbrev pub make_slice : Memory → ℕ → Slice
make_slice m n = record { addr = m.next; len = n; cap = n }

abbrev pub make_memory : Memory → ℕ → Memory
make_memory m n = record { next = suc m.next; bytes = update m.bytes m.next (replicate n 0) }

pub record Ring : Type 0 where
  pub buffers : List Slice
  pub mask : ℕ
  pub head : ℕ
  pub tail : ℕ
  pub slot_states : List ℕ
  pub buffer_size : ℕ
  pub capacity : ℕ
  pub buffer_addrs : List (ℕ × ℕ)
  pub fallback_pool : List Slice
  pub alloc_count : ℕ
  pub free_count : ℕ
  pub fallback_count : ℕ

pub data PoolError : Type 0 where
  invalid_size invalid_capacity : PoolError

pub data Result {ℓ} (A : Type ℓ) : Type ℓ where
  ok : A → Result A
  err : PoolError → Result A

-- The loop of `NewRingBufferPool` from index `i` on, with `n` rounds left: it makes each buffer and
-- maps its address to its index.
pub fill_buffers : ℕ → ℕ → Memory → List Slice
fill_buffers zero size m = []
fill_buffers (suc n) size m = make_slice m size ∷ fill_buffers n size (make_memory m size)

pub fill_addrs : ℕ → ℕ → ℕ → Memory → List (ℕ × ℕ)
fill_addrs zero i size m = []
fill_addrs (suc n) i size m = (m.next, i) ∷ fill_addrs n (suc i) size (make_memory m size)

pub fill_memory : ℕ → ℕ → Memory → Memory
fill_memory zero size m = m
fill_memory (suc n) size m = fill_memory n size (make_memory m size)

abbrev pub empty_ring : ℕ → ℕ → Memory → Ring
empty_ring size capacity m = record {
  buffers = fill_buffers capacity size m;
  mask = capacity - 1;
  head = 0;
  tail = 0;
  slot_states = replicate capacity 0;
  buffer_size = size;
  capacity = capacity;
  buffer_addrs = fill_addrs capacity 0 size m;
  fallback_pool = [];
  alloc_count = 0;
  free_count = 0;
  fallback_count = 0;
}

unfoldable pub new_ring_buffer_pool : ℤ → ℕ → Memory → Result (Ring × Memory)
new_ring_buffer_pool size capacity m =
    if leb_ℤ size (pos 0)
    then err invalid_size
    else if capacity == 0 || not (bit_and capacity (capacity - 1) == 0)
    then err invalid_capacity
    else ok (empty_ring (pos_part size) capacity m, fill_memory capacity (pos_part size) m)

-- The loop of `Alloc`, run by one goroutine: a ring index that was free, or none if the ring is
-- full. The outer option is the fuel.
pub claim : ℕ → Ring → Option (Option ℕ × Ring)
claim zero r = none
claim (suc fuel) r =
    let index = bit_and r.head r.mask in
    let next = record r { head = (r.head + 1) % word } in
    let retry = claim fuel next in
    if r.head == (r.tail + r.capacity) % word
    then some (none, r)
    else if get_or r.slot_states index 1 == 0
    then some (some index, record next { slot_states = set r.slot_states index 1 })
    else retry

-- `buf[:size]`
abbrev pub reslice : Slice → ℕ → Slice
reslice b size = record b { len = size }

abbrev pub no_slice : Slice
no_slice = record { addr = 0; len = 0; cap = 0 }

-- `*p.fallbackPool.Get()`, and what it leaves.
pub fallback : Ring → Memory → ℕ → Slice × Ring × Memory
fallback r m size = elim r.fallback_pool [
  | [] ↦ (
    reslice (make_slice m r.buffer_size) size,
    record r { fallback_count = (r.fallback_count + 1) % word },
    make_memory m r.buffer_size,
  )
  | b ∷ rest ↦ (
    reslice b size,
    record r { fallback_pool = rest; fallback_count = (r.fallback_count + 1) % word },
    m,
  )
]

-- The result of the loop as a slice.
pub hand_out : Memory → ℕ → Option (Option ℕ × Ring) → Option (Slice × Ring × Memory)
unfolding fallback
hand_out m size none = none
hand_out m size (some (none, r)) = some (fallback r m size)
hand_out m size (some (some i, r)) = some (reslice (get_or r.buffers i no_slice) size, r, m)

abbrev pub count_alloc : Ring → Ring
count_alloc r = record r { alloc_count = (r.alloc_count + 1) % word }

pub alloc : Ring → Memory → ℤ → Option (Slice × Ring × Memory)
unfolding hand_out
alloc r m size =
    if leb_ℤ size (pos 0)
    then some (make_slice m 0, count_alloc r, make_memory m 0)
    else if ltb r.buffer_size (pos_part size)
    then some (make_slice m (pos_part size), count_alloc r, make_memory m (pos_part size))
    else hand_out m (pos_part size) (claim (suc r.capacity) (count_alloc r))

-- `clear(buf[:cap(buf)])`
abbrev pub clear_first : ℕ → List ℕ → List ℕ
clear_first zero xs = xs
clear_first (suc n) [] = []
clear_first (suc n) (x ∷ xs) = 0 ∷ clear_first n xs

abbrev pub clear_buffer : Memory → Slice → Memory
clear_buffer m b = record m { bytes = update m.bytes b.addr (clear_first b.cap (m.bytes b.addr)) }

-- The index that `isRingBuffer` finds, if the capacity is the pool's.
pub ring_index : Ring → Slice → Option ℕ
ring_index r b = if b.cap == r.buffer_size then lookup b.addr r.buffer_addrs else none

abbrev pub count_free : Ring → Ring
count_free r = record r { free_count = (r.free_count + 1) % word }

pub free : Ring → Memory → Slice → Ring × Memory
unfolding ring_index
free r m b = elim (ring_index r b) [
  | some i ↦ (
    record (count_free r) { slot_states = set r.slot_states i 0; tail = (r.tail + 1) % word },
    clear_buffer m b,
  )
  | none ↦
      if b.cap == r.buffer_size
      then (
        record (count_free r) { fallback_pool = reslice b r.buffer_size ∷ r.fallback_pool },
        clear_buffer m b,
      )
      else (count_free r, m)
]

-- uint64 subtraction.
abbrev pub sub64 : ℕ → ℕ → ℕ
sub64 a b = (a + word - b) % word

pub available : Ring → ℕ
available r = sub64 r.capacity (sub64 r.head r.tail)
