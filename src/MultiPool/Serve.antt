-- ===== src/MultiPool/Serve.antt =====
-- internal/ringpool/multipool.go: a request that a ring serves, and its way back.
use fabrica_net.Base.{
  ℕ, some, List, pos, lookup, All, All-map, Option-cases, ◌⊎◌, inl, inr, ◌≤◌, ◌<◌, ◌≡◌, refl, ◌∙◌,
  subst, arith,
}
use fabrica_net.RingPool.{Slice, Memory, Ring, alloc, make_slice, make_memory}
use fabrica_net.RingPool.Own.{IsOwned}
use fabrica_net.RingPool.Own.History.{alloc-Serves}
use fabrica_net.MultiPool.{MultiPool, store, pick, multi_alloc, returned}
use fabrica_net.MultiPool.Route.{IsRouted, IsLeast, Picks, pick-Picks, lookup-store}

-- A request of `n` bytes that the ring of size `s` serves: the slice goes back to that ring.
pub record Routed (mp : MultiPool) (m : Memory) (n s : ℕ) : Type 0 where
  pub ring : Ring
  pub was : lookup s mp.pools ≡ some ring
  pub slice : Slice
  pub ring' : Ring
  pub memory : Memory
  pub allocated : alloc ring m (pos n) ≡ some (slice, ring', memory)
  pub result :
      multi_alloc mp m (pos n)
      ≡ returned (some (slice, record mp { pools = store s ring' mp.pools }, memory))
  pub len_is : slice.len ≡ n
  pub cap_is : slice.cap ≡ s
  pub back : lookup slice.cap (store s ring' mp.pools) ≡ some ring'

serve :
    (mp : MultiPool) (m : Memory) (held : List Slice) (n s : ℕ) (r : Ring)
    → 0 < n
    → n ≤ s
    → lookup s mp.pools ≡ some r
    → r.buffer_size ≡ s
    → pick mp.sizes mp.pools (pos n) ≡ some (s, r)
    → IsOwned (record { ring = r; memory = m; held = held })
    → Routed mp m n s
unfolding multi_alloc
serve mp m held n s r h le at is picked o =
    let a = alloc-Serves (record { ring = r; memory = m; held = held }) (pos n) o in
    let cap_s : a.slice.cap ≡ s = omega (arith, a.cap_is h (omega arith)) in
    record {
      ring = r;
      was = at;
      slice = a.slice;
      ring' = a.ring;
      memory = a.memory;
      allocated = a.returned;
      result = rw (picked, multi_alloc, a.returned) refl;
      len_is = a.len_is;
      cap_is = cap_s;
      back = lookup-store s a.slice.cap a.ring mp.pools ∙ ground arith;
    }

-- A request of `n > 0` bytes is served by the ring of the least size that holds them, with a slice of
-- length `n` whose capacity is that size, so that `Free` looks up just that ring again; where no size
-- is enough it is a new array of `n` bytes, and the pools stay as they are. The rings are in the
-- states that clients bring them to.
pub multi_alloc-Routed :
    (mp : MultiPool) (m : Memory) (held : List Slice) (n : ℕ)
    → 0 < n
    → IsRouted mp
    → ((s : ℕ) (r : Ring)
        → lookup s mp.pools ≡ some r
        → IsOwned (record { ring = r; memory = m; held = held }))
    → ((s : ℕ) × IsLeast mp.sizes (pos n) s × Routed mp m n s)
      ⊎ (All (λ t. t < n) mp.sizes
          × (multi_alloc mp m (pos n) ≡ returned (some (make_slice m n, mp, make_memory m n))))
unfolding multi_alloc
multi_alloc-Routed mp m held n h v o =
    let p = pick-Picks mp.sizes mp.pools (pos n) v.sorted v.rings in
    elim (Option-cases (pick mp.sizes mp.pools (pos n))) [
      | inl e ↦
          let larger = subst (Picks mp.sizes mp.pools (pos n)) e p in
          inr
            (All-map _ (λ t. t < n) mp.sizes (λ t f. ground arith) larger, rw (e, multi_alloc) refl)
      | inr ((s, r), e) ↦
          let (l, at, is) = subst (Picks mp.sizes mp.pools (pos n)) e p in
          let enough = l.enough in
          inl (s, l, serve mp m held n s r h (ground arith) at is e (o s r at))
    ]
