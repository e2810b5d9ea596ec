-- ===== src/RingPool/Safety.antt =====
-- internal/ringpool/pool.go: what a client may rely on, after any history from a new pool, and what
-- the pool loses by frees out of order.
use fabrica_net.Base.{
  ℕ, ◌+◌, ◌≤◌, ◌<◌, some, List, [], ℤ, pos_part, take, replicate, some_inj, ◌≡◌, sym, ◌∙◌, subst,
  arith,
}
use fabrica_net.RingPool.{Slice, Memory, Ring, word, ok, new_ring_buffer_pool, alloc, available}
use fabrica_net.RingPool.Window.{busy, leaked, used_of}
use fabrica_net.RingPool.New.{NewPool, new_ring_buffer_pool-NewPool}
use fabrica_net.RingPool.Own.{Client, Op, IsOwned, slices_at, idle, run}
use fabrica_net.RingPool.Own.History.{alloc-Serves}
use fabrica_net.RingPool.Own.Run.{run-Owns}

abbrev pub client : Ring → Memory → Client
client r m = record { ring = r; memory = m; held = [] }

module _ (size : ℤ) (capacity : ℕ) (m : Memory) {r : Ring} {m' : Memory} (small : capacity < word)
    (made : new_ring_buffer_pool size capacity m ≡ ok (r, m')) where
  new-IsOwned : IsOwned (client r m')
  new-IsOwned =
      (subst (NewPool size capacity m) made (new_ring_buffer_pool-NewPool size capacity m small)).5

  -- From a new pool, every history of allocations, writes, frees of held buffers and collections
  -- ends, and then each array is in one place at most: with one client, or free in the pool.
  pub run_exclusive :
      (ops : List Op)
      → (c : Client) × (run (client r m') ops ≡ some c)
        × ((a : ℕ) → slices_at c.held a + idle c.ring a ≤ 1)
  run_exclusive ops =
      let s = run-Owns (client r m') ops new-IsOwned in
      (s.last, s.returned, λ a. omega (arith, s.owned.exclusive a))

  -- After such a history `Alloc` returns a slice of the size asked for (empty if that is not
  -- positive), all zeros whatever clients wrote to it before, in an array that no client holds.
  pub alloc_after_run :
      (ops : List Op) (n : ℤ) {c : Client}
      → run (client r m') ops ≡ some c
      → (b : Slice) × (r'' : Ring) × (m'' : Memory) × (alloc c.ring c.memory n ≡ some (b, r'', m''))
        × (b.len ≡ pos_part n)
        × (take (pos_part n) (m''.bytes b.addr) ≡ replicate (pos_part n) 0)
        × (slices_at c.held b.addr ≡ 0)
  alloc_after_run ops n {c} e =
      let s = run-Owns (client r m') ops new-IsOwned in
      let o : IsOwned c = subst IsOwned (some_inj (sym (s.returned) ∙ e)) s.owned in
      let t = alloc-Serves c n o in
      (
        t.slice,
        t.ring,
        t.memory,
        t.returned,
        t.len_is,
        t.zeros,
        ground (arith, t.owned.exclusive t.slice.addr),
      )

-- A position that `Alloc` skipped because its slot was still allocated is lost for good: whatever
-- clients do later, the slots still available and those in use fall short of the capacity by it.
pub leaked-run :
    (c : Client) (ops : List Op)
    → IsOwned c
    → (c' : Client) × (run c ops ≡ some c')
      × (available c'.ring + busy c'.ring.slot_states + leaked c.ring ≤ c.ring.capacity)
unfolding available
leaked-run c ops o =
    let s = run-Owns c ops o in
    (
      s.last,
      s.returned,
      omega (
        arith,
        s.keeps.leak,
        s.keeps.same_capacity,
        used_of s.last.ring s.owned.window,
        s.owned.window.covered,
        s.owned.window.fits,
        s.owned.window.power.small,
      ),
    )
