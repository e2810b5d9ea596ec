-- ===== src/RingPool/Own/Run.antt =====
-- internal/ringpool/pool.go: what holds after any history of allocations, writes and frees.
use fabrica_net.Base.{
  ℕ, some, Option, List, [], ◌∷◌, get_elem?, ◌≡◌, refl, arith, Option-cases, Bool-cases, inl, inr,
  lookup, ◌==◌,
}
use fabrica_net.RingPool.{Slice, Ring, free, ring_index}
use fabrica_net.RingPool.Window.{Keeps, Keeps-trans, Keeps-give}
use fabrica_net.RingPool.Own.{
  Client, Op, allocs, frees, writes, evicts, IsOwned, after_free, after_write, step, run,
}
use fabrica_net.RingPool.Own.Preserve.{own_evict, own_counted}
use fabrica_net.RingPool.Own.Return.{own_write, own_give, own_put, own_drop, give_counts}
use fabrica_net.RingPool.Own.History.{alloc-Serves}

ring_index-some :
    (r : Ring) (b : Slice) (i : ℕ)
    → ring_index r b ≡ some i
    → (lookup b.addr r.buffer_addrs ≡ some i) × (b.cap ≡ r.buffer_size)
unfolding ring_index
ring_index-some r b i e = ground arith

-- A free of a held buffer keeps the invariant, and the leak does not shrink.
record Gives (c c' : Client) : Type 0 where
  keeps : Keeps c.ring c'.ring
  owned : IsOwned c'

free-Gives :
    (c : Client) (k : ℕ) (b : Slice)
    → IsOwned c
    → get_elem? c.held k ≡ some b
    → Gives c (after_free c k (some b))
unfolding free
free-Gives c k b o e = elim (Option-cases (ring_index c.ring b)) [
  | inr (i, at) ↦
      let (table_at, cap) = ring_index-some c.ring b i at in
      let given = own_give c o k b e i table_at cap in
      let kept = Keeps-give c.ring i o.window given.window (give_counts c o k b e i table_at) in
      rw (at, free)
        (record {
          keeps = record { leak = kept.leak; same_capacity = refl };
          owned = own_counted _ given _ _ _;
        })
  | inl none_at ↦ elim (Bool-cases (b.cap == c.ring.buffer_size)) [
    | inl fits ↦
        rw (none_at, free, fits)
          (record {
            keeps = record { leak = omega arith; same_capacity = refl };
            owned = own_counted _ (own_put c o k b e (ground arith)) _ _ _;
          })
    | inr other ↦
        rw (none_at, free, other)
          (record {
            keeps = record { leak = omega arith; same_capacity = refl };
            owned = own_counted _ (own_drop c o k b e) _ _ _;
          })
  ]
]

frees-Gives : (c : Client) (k : ℕ) → IsOwned c → Gives c (after_free c k (get_elem? c.held k))
frees-Gives c k o = elim (Option-cases (get_elem? c.held k)) [
  | inl e ↦
      rw (e, after_free)
        (record { keeps = record { leak = omega arith; same_capacity = refl }; owned = o })
  | inr (b, e) ↦ rw e (free-Gives c k b o e)
]

writes-IsOwned :
    (c : Client) (k : ℕ) (src : List ℕ)
    → IsOwned c
    → IsOwned (after_write c src (get_elem? c.held k))
writes-IsOwned c k src o = elim (Option-cases (get_elem? c.held k)) [
  | inl e ↦ rw (e, after_write) o
  | inr (b, e) ↦ rw (e, after_write) (own_write c o k b e src)
]

writes-Keeps :
    (c : Client) (k : ℕ) (src : List ℕ) → Keeps c.ring (after_write c src (get_elem? c.held k)).ring
writes-Keeps c k src = elim (Option-cases (get_elem? c.held k)) [
  | inl e ↦ rw (e, after_write) (record { leak = omega arith; same_capacity = refl })
  | inr (b, e) ↦ rw (e, after_write) (record { leak = omega arith; same_capacity = refl })
]

-- A history that ends, keeps the invariant and loses no leak.
pub record Owns (c : Client) (result : Option Client) : Type 0 where
  pub last : Client
  pub returned : result ≡ some last
  pub keeps : Keeps c.ring last.ring
  pub owned : IsOwned last

pub step-Owns : (c : Client) (op : Op) → IsOwned c → Owns c (step c op)
unfolding step
step-Owns c (allocs size) o =
    let s = alloc-Serves c size o in
    record { last = _; returned = rw (s.returned) refl; keeps = s.keeps; owned = s.owned }
step-Owns c (frees k) o =
    let g = frees-Gives c k o in
    record { last = _; returned = refl; keeps = g.keeps; owned = g.owned }
step-Owns c (writes k src) o = record {
  last = after_write c src (get_elem? c.held k);
  returned = refl;
  keeps = writes-Keeps c k src;
  owned = writes-IsOwned c k src o;
}
step-Owns c evicts o = record {
  last = _;
  returned = refl;
  keeps = record { leak = omega arith; same_capacity = refl };
  owned = own_evict c o;
}

pub run-Owns : (c : Client) (ops : List Op) → IsOwned c → Owns c (run c ops)
unfolding run
run-Owns c [] o = record {
  last = c;
  returned = refl;
  keeps = record { leak = omega arith; same_capacity = refl };
  owned = o;
}
run-Owns c (op ∷ ops) o =
    let s = step-Owns c op o in
    let t = run-Owns s.last ops s.owned in
    record {
      last = t.last;
      returned = rw (s.returned, run) (t.returned);
      keeps = Keeps-trans s.keeps t.keeps;
      owned = t.owned;
    }
