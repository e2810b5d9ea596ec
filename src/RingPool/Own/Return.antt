-- ===== src/RingPool/Own/Return.antt =====
-- internal/ringpool/pool.go, `Free`, and writes by clients: both keep `IsOwned`.
use fabrica_net.Base.{
  ℕ, zero, ◌+◌, ◌-◌, ◌%◌, ◌≤◌, ◌<◌, ◌==◌, if◌then◌else◌, some, List, ◌∷◌, set, replicate, lookup,
  length, length-set, All, All-map, remove_at, get_elem?, take, ◌≡◌, ap, sym, ◌∙◌, arith,
}
use fabrica_net.RingPool.{Slice, word, reslice, clear_buffer, clear_first}
use fabrica_net.RingPool.Window.{busy, busy-give}
use fabrica_net.RingPool.Own.{Client, IsOwned, Fits, idle, free_unit, slices_at, write_to}
use fabrica_net.RingPool.Own.Sums.{
  free_unit_busy, free_unit-give, slices_at-remove_at, All-remove_at, All-get_elem?,
  clear_first-zeros, length-copy_to, All-elsewhere,
}

module _ (c : Client) (o : IsOwned c) (k : ℕ) (b : Slice) (e : get_elem? c.held k ≡ some b) where
  open c use {ring, memory, held}

  -- Without `b` the client holds one array less.
  less :
      (a : ℕ) → slices_at (remove_at held k) a + (if b.addr == a then 1 else 0) ≡ slices_at held a
  less a = slices_at-remove_at held k a e

  -- The array of `b` is with the client, and nowhere else.
  only_here : (idle ring b.addr ≡ 0) × (slices_at (remove_at held k) b.addr ≡ 0)
  only_here = ground (arith, o.exclusive b.addr, less b.addr)

  fits : Fits ring memory b
  fits = All-get_elem? (Fits ring memory) held k e o.held_fits

  zeros :
      b.cap ≡ ring.buffer_size
      → clear_first b.cap (memory.bytes b.addr) ≡ replicate ring.buffer_size 0
  zeros cap = clear_first-zeros b.cap (memory.bytes b.addr) fits.1 ∙ ap (λ n. replicate n 0) cap

  -- What is left is untouched by the clearing of `b`.
  rest-Fits : All (Fits ring (clear_buffer memory b)) (remove_at held k)
  rest-Fits =
      All-elsewhere (Fits ring memory) (Fits ring (clear_buffer memory b)) b.addr (remove_at held k)
        only_here.1 (λ x ne f. (f.0, ground (arith, f.1), f.2))
        (All-remove_at (Fits ring memory) held k o.held_fits)

  give_in : (i : ℕ) → lookup b.addr ring.buffer_addrs ≡ some i → i < length ring.slot_states
  give_in i at = omega (arith, (o.table.addr_at b.addr i at).0, o.window.sized)

  -- The slot of `b` was allocated.
  pub give_counts :
      (i : ℕ)
      → lookup b.addr ring.buffer_addrs ≡ some i
      → busy (set ring.slot_states i 0) + 1 ≡ busy ring.slot_states
  give_counts i at =
      busy-give ring.slot_states i (give_in i at)
        (free_unit_busy ring.buffer_addrs ring.slot_states i b.addr at (omega (arith, only_here.0)))

  pub own_give :
      (i : ℕ)
      → lookup b.addr ring.buffer_addrs ≡ some i
      → b.cap ≡ ring.buffer_size
      → IsOwned (record c {
        ring = record ring {
          slot_states = set ring.slot_states i 0;
          tail = (ring.tail + 1) % word;
        };
        memory = clear_buffer memory b;
        held = remove_at held k;
      })
  own_give i at cap = record {
    used = o.used - 1;
    window = record {
      power = o.window.power;
      tail_in = omega arith;
      head_at = omega (arith, o.window.head_at, give_counts i at, o.window.covered);
      fits = omega (arith, o.window.fits);
      sized = omega (arith, length-set ring.slot_states i (zero), o.window.sized);
      covered = omega (arith, give_counts i at, o.window.covered);
    };
    table = o.table;
    exclusive = λ a. omega (arith, o.exclusive a, less a, give a);
    fresh = λ a h. omega (arith, o.fresh a h, less a, give a);
    zeroed = λ a h. ground (arith, zeros cap, o.zeroed a, give a);
    pool_fits = o.pool_fits;
    held_fits = rest-Fits;
  }
    where
      give :
          (a : ℕ)
          → free_unit ring.buffer_addrs (set ring.slot_states i 0) a
            ≤ free_unit ring.buffer_addrs ring.slot_states a + (if b.addr == a then 1 else 0)
      give a =
          free_unit-give ring.buffer_addrs ring.slot_states i a b.addr (give_in i at) at
            (λ q. (o.table.addr_at a i q).1 ∙ sym (o.table.addr_at b.addr i at).1)

  pub own_put :
      b.cap ≡ ring.buffer_size
      → IsOwned (record c {
        ring = record ring { fallback_pool = reslice b ring.buffer_size ∷ ring.fallback_pool };
        memory = clear_buffer memory b;
        held = remove_at held k;
      })
  own_put cap = record {
    used = o.used;
    window = o.window;
    table = o.table;
    exclusive = λ a. omega (arith, o.exclusive a, less a);
    fresh = λ a h. omega (arith, o.fresh a h, less a);
    zeroed = λ a h. ground (arith, zeros cap, o.zeroed a);
    pool_fits = (cap, o.pool_fits);
    held_fits = rest-Fits;
  }

  pub own_drop : IsOwned (record c { held = remove_at held k })
  own_drop = record {
    used = o.used;
    window = o.window;
    table = o.table;
    exclusive = λ a. omega (arith, o.exclusive a, less a);
    fresh = λ a h. omega (arith, o.fresh a h, less a);
    zeroed = o.zeroed;
    pool_fits = o.pool_fits;
    held_fits = All-remove_at (Fits ring memory) held k o.held_fits;
  }

  pub own_write : (src : List ℕ) → IsOwned (record c { memory = write_to memory b src })
  own_write src = record {
    used = o.used;
    window = o.window;
    table = o.table;
    exclusive = o.exclusive;
    fresh = o.fresh;
    zeroed = λ a h. ground (arith, only_here.0, o.zeroed a);
    pool_fits = o.pool_fits;
    held_fits =
        All-map (Fits ring memory) (Fits ring (write_to memory b src)) held
          (λ x f. (
            f.0,
            ground (arith, f.1, fits.1, length-copy_to (take b.len src) (memory.bytes b.addr)),
            f.2,
          ))
          o.held_fits;
  }
