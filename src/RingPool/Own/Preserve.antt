-- ===== src/RingPool/Own/Preserve.antt =====
-- internal/ringpool/pool.go: each way in which a buffer changes hands keeps `IsOwned`.
use fabrica_net.Base.{
  ℕ, zero, ◌+◌, ◌≤◌, ◌<◌, ◌==◌, if◌then◌else◌, List, [], ◌∷◌, get_or, set, replicate, length,
  length-replicate, All, ◌≡◌, ap, arith, subst,
}
use fabrica_net.RingPool.{Slice, Ring, make_slice, make_memory, reslice, no_slice}
use fabrica_net.RingPool.Window.{Took, Filled, taken, get_or-lt}
use fabrica_net.RingPool.Own.{Client, IsOwned, Fits, free_unit, slices_at}
use fabrica_net.RingPool.Own.Sums.{free_unit-take, free_unit-taken, free_unit_free, All-elsewhere}

abbrev counted : Ring → ℕ → ℕ → ℕ → Ring
counted r allocs frees fallbacks = record r {
  alloc_count = allocs;
  free_count = frees;
  fallback_count = fallbacks;
}

module _ (c : Client) (o : IsOwned c) where
  open c use {ring, memory, held}

  -- The counters take no part.
  pub own_counted :
      (allocs frees fallbacks : ℕ)
      → IsOwned (record c { ring = counted ring allocs frees fallbacks })
  own_counted allocs frees fallbacks = record {
    used = o.used;
    window = o.window;
    table = o.table;
    exclusive = o.exclusive;
    fresh = o.fresh;
    zeroed = o.zeroed;
    pool_fits = o.pool_fits;
    held_fits = o.held_fits;
  }

  -- A client gets a new array.
  pub own_make :
      (n len : ℕ)
      → len ≤ n
      → IsOwned (record c {
        memory = make_memory memory n;
        held = reslice (make_slice memory n) len ∷ held;
      })
  own_make n len le = record {
    used = o.used;
    window = o.window;
    table = record {
      positive = o.table.positive;
      size_at = o.table.size_at;
      index_at = o.table.index_at;
      addr_at = λ a i e. let (lt, at, old) = o.table.addr_at a i e in (lt, at, omega arith);
    };
    exclusive = λ a. ground (arith, o.exclusive a, o.fresh a);
    fresh = λ a h. ground (arith, o.fresh a);
    zeroed = λ a h. ground (arith, o.zeroed a, o.fresh a);
    pool_fits = o.pool_fits;
    held_fits = (
      (
        le,
        ground (arith, length-replicate n (zero)),
        λ i e. absurd (omega (arith, (o.table.addr_at memory.next i e).2)),
      ),
      All-elsewhere (Fits ring memory) (Fits ring (make_memory memory n)) memory.next held
          (omega (arith, o.fresh memory.next (omega arith)))
          (λ b ne f. (f.0, ground (arith, f.1), f.2)) o.held_fits,
    );
  }

  -- Buffers that wait to be handed out are zeroed.
  pub zero_pooled :
      (b : Slice) (rest : List Slice)
      → ring.fallback_pool ≡ b ∷ rest
      → memory.bytes b.addr ≡ replicate ring.buffer_size 0
  zero_pooled b rest e = o.zeroed b.addr (ground (arith, ap (λ bs. slices_at bs b.addr) e))

  pub cap_pooled :
      (b : Slice) (rest : List Slice) → ring.fallback_pool ≡ b ∷ rest → b.cap ≡ ring.buffer_size
  cap_pooled b rest e = (subst (All (λ x. x.cap ≡ ring.buffer_size)) e o.pool_fits).0

  pub slot_unit :
      (i : ℕ)
      → get_or ring.slot_states i 1 ≡ 0
      → (i < ring.capacity)
        × (free_unit ring.buffer_addrs ring.slot_states (get_or ring.buffers i no_slice).addr ≡ 1)
  slot_unit i f =
      let lt : i < ring.capacity = omega (arith, get_or-lt ring.slot_states i f, o.window.sized) in
      (lt, free_unit_free ring.buffer_addrs ring.slot_states i _ (o.table.index_at i lt) f)

  pub zero_slot :
      (i : ℕ)
      → get_or ring.slot_states i 1 ≡ 0
      → memory.bytes (get_or ring.buffers i no_slice).addr ≡ replicate ring.buffer_size 0
  zero_slot i f = o.zeroed _ (omega (arith, (slot_unit i f).1))

  -- A client gets a buffer of the fallback pool.
  pub own_pooled :
      (b : Slice) (rest : List Slice) (len : ℕ)
      → ring.fallback_pool ≡ b ∷ rest
      → len ≤ ring.buffer_size
      → IsOwned
          (record c { ring = record ring { fallback_pool = rest }; held = reslice b len ∷ held })
  own_pooled b rest len e le = record {
    used = o.used;
    window = o.window;
    table = o.table;
    exclusive = λ a. omega (arith, o.exclusive a, at a);
    fresh = λ a h. omega (arith, o.fresh a h, at a);
    zeroed = λ a h. o.zeroed a (omega (arith, at a));
    pool_fits = fits.1;
    held_fits = (
      (
        omega (arith, fits.0),
        omega (
          arith,
          fits.0,
          ap length (zero_pooled b rest e),
          length-replicate ring.buffer_size (zero),
        ),
        λ i _. fits.0,
      ),
      o.held_fits,
    );
  }
    where
      at :
          (a : ℕ)
          → slices_at ring.fallback_pool a ≡ (if b.addr == a then 1 else 0) + slices_at rest a
      at a = ap (λ bs. slices_at bs a) e

      fits : All (λ x. x.cap ≡ ring.buffer_size) (b ∷ rest)
      fits = subst (All (λ x. x.cap ≡ ring.buffer_size)) e o.pool_fits

  -- A client gets the buffer of slot `i`, which was free.
  pub own_take :
      {fuel : ℕ} (t : Took fuel ring o.used) (len : ℕ)
      → len ≤ ring.buffer_size
      → IsOwned (record c {
        ring = taken ring t.head t.i;
        held = reslice (get_or ring.buffers t.i no_slice) len ∷ held;
      })
  own_take t len le = record {
    used = t.used';
    window = t.window;
    table = o.table;
    exclusive = λ a. ground (arith, o.exclusive a, drop a, gone, unit);
    fresh = λ a h. ground (arith, o.fresh a, drop a, unit);
    zeroed = λ a h. o.zeroed a (omega (arith, drop a));
    pool_fits = o.pool_fits;
    held_fits = (
      (
        omega (arith, o.table.size_at t.i in_ring),
        omega (
          arith,
          o.table.size_at t.i in_ring,
          ap length (zero_slot t.i t.was_free),
          length-replicate ring.buffer_size (zero),
        ),
        λ i _. o.table.size_at t.i in_ring,
      ),
      o.held_fits,
    );
  }
    where
      addr : ℕ
      addr = (get_or ring.buffers t.i no_slice).addr

      in_states : t.i < length ring.slot_states
      in_states = get_or-lt ring.slot_states t.i t.was_free

      in_ring : t.i < ring.capacity
      in_ring = (slot_unit t.i t.was_free).0

      unit : free_unit ring.buffer_addrs ring.slot_states addr ≡ 1
      unit = (slot_unit t.i t.was_free).1

      gone : free_unit ring.buffer_addrs (set ring.slot_states t.i 1) addr ≡ 0
      gone =
          free_unit-taken ring.buffer_addrs ring.slot_states t.i addr in_states
            (o.table.index_at t.i in_ring)

      drop :
          (a : ℕ)
          → free_unit ring.buffer_addrs (set ring.slot_states t.i 1) a
            ≤ free_unit ring.buffer_addrs ring.slot_states a
      drop a = free_unit-take ring.buffer_addrs ring.slot_states t.i a in_states

  -- The loop found the ring full, and only moved `head`.
  pub own-Filled :
      {fuel : ℕ} (f : Filled fuel ring)
      → IsOwned (record c { ring = record ring { head = f.head } })
  own-Filled f = record {
    used = ring.capacity;
    window = f.window;
    table = o.table;
    exclusive = o.exclusive;
    fresh = o.fresh;
    zeroed = o.zeroed;
    pool_fits = o.pool_fits;
    held_fits = o.held_fits;
  }

  -- The collector empties the fallback pool.
  pub own_evict : IsOwned (record c { ring = record ring { fallback_pool = [] } })
  own_evict = record {
    used = o.used;
    window = o.window;
    table = o.table;
    exclusive = λ a. omega (arith, o.exclusive a);
    fresh = λ a h. omega (arith, o.fresh a h);
    zeroed = λ a h. o.zeroed a (omega arith);
    pool_fits = tt;
    held_fits = o.held_fits;
  }
