-- ===== src/RingPool/New.antt =====
-- internal/ringpool/pool.go, `NewRingBufferPool`: when it fails, and the pool that it builds.
use fabrica_net.Base.{
  ℕ, zero, suc, ◌+◌, ◌-◌, ◌^◌, ◌≤◌, ◌<◌, ◌==◌, not, ◌||◌, none, some, [], ℤ, pos, pos_part, leb_ℤ,
  get_or, replicate, lookup, length-replicate, bit_and, IsPowerOfTwo, power_of_mask, mask_of_power,
  pow-two-pos, dec_lt, false, Bool-cases, Option-cases, ◌≡◌, ◌↔◌, ◌⊎◌, inl, inr, refl, ap, ◌∙◌,
  arith,
}
use native.Mathlib.Nat.{pow-le-pow_right}
use fabrica_net.RingPool.{
  Memory, Ring, word, make_memory, no_slice, fill_buffers, fill_addrs, fill_memory, empty_ring,
  new_ring_buffer_pool, available, Result, ok, err, invalid_size, invalid_capacity,
}
use fabrica_net.RingPool.Window.{busy}
use fabrica_net.RingPool.Own.{Client, IsOwned, free_unit}

buffer-filled :
    (n size j : ℕ) (m : Memory)
    → j < n
    → get_or (fill_buffers n size m) j no_slice
      ≡ record { addr = m.next + j; len = size; cap = size }
unfolding fill_buffers
buffer-filled zero size j m h = absurd (omega arith)
buffer-filled (suc n) size zero m h = ground arith
buffer-filled (suc n) size (suc j) m h = ground (arith, buffer-filled n size j (make_memory m size))

addr-filled :
    (n i size a : ℕ) (m : Memory)
    → m.next ≤ a
    → a < m.next + n
    → lookup a (fill_addrs n i size m) ≡ some (i + (a - m.next))
unfolding fill_addrs
addr-filled zero i size a m lo hi = absurd (omega arith)
addr-filled (suc n) i size a m lo hi =
    ground (arith, addr-filled n (suc i) size a (make_memory m size))

addr-outside :
    (n i size a : ℕ) (m : Memory)
    → (a < m.next) ⊎ (m.next + n ≤ a)
    → lookup a (fill_addrs n i size m) ≡ none
unfolding fill_addrs
addr-outside zero i size a m h = refl
addr-outside (suc n) i size a m h =
    ground (arith, addr-outside n (suc i) size a (make_memory m size))

next-filled : (n size : ℕ) (m : Memory) → (fill_memory n size m).next ≡ m.next + n
unfolding fill_memory
next-filled zero size m = omega arith
next-filled (suc n) size m = omega (arith, next-filled n size (make_memory m size))

kept-filled : (n size a : ℕ) (m : Memory) → a < m.next → (fill_memory n size m).bytes a ≡ m.bytes a
unfolding fill_memory
kept-filled zero size a m h = refl
kept-filled (suc n) size a m h = ground (arith, kept-filled n size a (make_memory m size))

zeros-filled :
    (n size a : ℕ) (m : Memory)
    → m.next ≤ a
    → a < m.next + n
    → (fill_memory n size m).bytes a ≡ replicate size 0
unfolding fill_memory
zeros-filled zero size a m lo hi = absurd (omega arith)
zeros-filled (suc n) size a m lo hi =
    ground
      (arith, zeros-filled n size a (make_memory m size), kept-filled n size a (make_memory m size))

busy-replicate : (n : ℕ) → busy (replicate n 0) ≡ 0
busy-replicate zero = refl
busy-replicate (suc n) = omega (arith, busy-replicate n)

free-replicate : (n i : ℕ) → i < n → get_or (replicate n (zero)) i 1 ≡ 0
free-replicate zero i h = absurd (omega arith)
free-replicate (suc n) zero h = refl
free-replicate (suc n) (suc i) h = free-replicate n i (omega arith)

power-small : (k : ℕ) → 2 ^ k < word → 2 ^ k ≤ 2 ^ 63
power-small k h = elim (dec_lt k 64) [
  | yes lt ↦ pow-le-pow_right {n = 2} (omega arith) {i = k} {j = 63} (omega arith)
  | no ge ↦
      absurd (omega (arith, pow-le-pow_right {n = 2} (omega arith) {i = 64} {j = k} (omega arith)))
]

-- Every slot of a new ring is free and zeroed, and no client holds anything yet.
module _ (size k : ℕ) (m : Memory) (positive : 0 < size) (small : 2 ^ k < word) where
  start : Client
  start = record {
    ring = empty_ring size (2 ^ k) m;
    memory = fill_memory (2 ^ k) size m;
    held = [];
  }

  slot_of :
      (a : ℕ)
      → (i : ℕ) → lookup a (fill_addrs (2 ^ k) 0 size m) ≡ some i
      → (m.next ≤ a) × (a < m.next + 2 ^ k) × (i ≡ a - m.next)
  slot_of a i e = elim (dec_lt a m.next) [
    | yes lo ↦ ground (arith, addr-outside (2 ^ k) 0 size a m (inl lo))
    | no lo ↦ elim (dec_lt a (m.next + 2 ^ k)) [
      | yes hi ↦ ground (arith, addr-filled (2 ^ k) 0 size a m (omega arith) hi)
      | no hi ↦ ground (arith, addr-outside (2 ^ k) 0 size a m (inr (omega arith)))
    ]
  ]

  free_unit-le : (a : ℕ) → free_unit (fill_addrs (2 ^ k) 0 size m) (replicate (2 ^ k) 0) a ≤ 1
  free_unit-le a = ground arith

  has_slot :
      (a : ℕ)
      → 0 < free_unit (fill_addrs (2 ^ k) 0 size m) (replicate (2 ^ k) 0) a + 0
      → (i : ℕ) × (lookup a (fill_addrs (2 ^ k) 0 size m) ≡ some i)
  has_slot a h = elim (Option-cases (lookup a (fill_addrs (2 ^ k) 0 size m))) [
    | inl e ↦ absurd (ground arith)
    | inr (i, e) ↦ (i, e)
  ]

  start-IsOwned : IsOwned start
  unfolding start
  start-IsOwned = record {
    used = 0;
    window = record {
      power = record {
        exponent = k;
        power = refl;
        small = power-small k small;
        positive = pow-two-pos k;
        masked = refl;
      };
      tail_in = omega arith;
      head_at = refl;
      fits = omega arith;
      sized = length-replicate (2 ^ k) (zero);
      covered = omega (arith, busy-replicate (2 ^ k));
    };
    table = record {
      positive = positive;
      size_at = λ i h. ap (λ b. b.cap) (buffer-filled (2 ^ k) size i m h);
      index_at = λ i h.
          ap (λ b. lookup b.addr (fill_addrs (2 ^ k) 0 size m)) (buffer-filled (2 ^ k) size i m h)
          ∙ addr-filled (2 ^ k) 0 size (m.next + i) m (omega arith) (omega arith)
          ∙ ap some (omega arith);
      addr_at = λ a i e.
          let (lo, hi, at) = slot_of a i e in
          let lt : i < 2 ^ k = omega arith in
          (
            lt,
            omega (arith, ap (λ b. b.addr) (buffer-filled (2 ^ k) size i m lt)),
            omega (arith, next-filled (2 ^ k) size m),
          );
    };
    exclusive = λ a. omega (arith, free_unit-le a);
    fresh = λ a h.
        ground (
          arith,
          addr-outside (2 ^ k) 0 size a m (inr (omega (arith, next-filled (2 ^ k) size m))),
        );
    zeroed = λ a h.
        let (i, e) = has_slot a h in
        let (lo, hi, _) = slot_of a i e in zeros-filled (2 ^ k) size a m lo hi;
    pool_fits = tt;
    held_fits = tt;
  }

  start-available : available start.ring ≡ 2 ^ k
  unfolding start available
  start-available = omega (arith, small)

-- The test `capacity & (capacity - 1)` for what is no power of two.
refused_iff :
    (capacity : ℕ)
    → ((capacity == 0 || not (bit_and capacity (capacity - 1) == 0)) ≡ false)
      ↔ IsPowerOfTwo capacity
refused_iff capacity = (
  λ h. power_of_mask capacity (ground arith) (ground arith),
  λ p.
      let (k, e) = p in
      ground (arith, mask_of_power k, pow-two-pos k, ap (λ c. bit_and c (c - 1)) e),
)

-- What `NewRingBufferPool` returns, in each of its three cases.
abbrev pub NewPool : ℤ → ℕ → Memory → Result (Ring × Memory) → Type 0
NewPool size capacity m (err invalid_size) = pos_part size ≡ 0
NewPool size capacity m (err invalid_capacity) = (0 < pos_part size) × (¬ IsPowerOfTwo capacity)
NewPool size capacity m (ok (r, m')) =
    (0 < pos_part size)
    × IsPowerOfTwo capacity
    × (r.buffer_size ≡ pos_part size)
    × (r.capacity ≡ capacity)
    × (available r ≡ capacity)
    × IsOwned (record { ring = r; memory = m'; held = [] })

pub new_made :
    (size capacity : ℕ) (m : Memory)
    → 0 < size
    → capacity < word
    → IsPowerOfTwo capacity
    → IsOwned (record {
      ring = empty_ring size capacity m;
      memory = fill_memory capacity size m;
      held = [];
    })
      × (available (empty_ring size capacity m) ≡ capacity)
unfolding start
new_made size capacity m h small (k, e) =
    rw e (start-IsOwned size k m h (rw (← e) small), start-available size k m h (rw (← e) small))

-- `NewRingBufferPool` fails with `ErrInvalidSize` just when the buffer size is not positive, else with
-- `ErrInvalidCapacity` just when the capacity, a uint64, is no power of two; else it gives a pool of
-- that many buffers of that size, all of them free, zeroed, and at addresses of their own.
pub new_ring_buffer_pool-NewPool :
    (size : ℤ) (capacity : ℕ) (m : Memory)
    → capacity < word
    → NewPool size capacity m (new_ring_buffer_pool size capacity m)
unfolding new_ring_buffer_pool
new_ring_buffer_pool-NewPool size capacity m small = elim (Bool-cases (leb_ℤ size (pos 0))) [
  | inl t ↦ rw t (ground arith)
  | inr t ↦ elim (Bool-cases (capacity == 0 || not (bit_and capacity (capacity - 1) == 0))) [
    | inl refused ↦ rw (t, refused) (ground arith, λ p. let kept = (refused_iff capacity).1 p in cc)
    | inr power ↦
        let p = (refused_iff capacity).0 power in
        let h : 0 < pos_part size = ground arith in
        let (o, a) = new_made (pos_part size) capacity m h small p in
        rw (t, power) (h, p, refl, refl, a, o)
  ]
]
