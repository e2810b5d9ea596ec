-- ===== src/MultiPool/Tests.antt =====
-- internal/ringpool/multipool.go on one size and on the default configuration, and the theorems there.
use fabrica_net.Base.{ℕ, ◌<◌, some, [], ◌∷◌, ◌≡◌, ◌⊎◌, refl, subst, arith, pos, All, lookup}
use fabrica_net.RingPool.{Memory, Ring, empty_ring, fill_memory, make_slice, make_memory}
use fabrica_net.RingPool.Own.{IsOwned}
use fabrica_net.RingPool.New.{new_made}
use fabrica_net.MultiPool.{MultiPool, sort, multi_alloc, returned}
use fabrica_net.MultiPool.Route.{IsRouted, IsLeast}
use fabrica_net.MultiPool.Serve.{Routed, multi_alloc-Routed}

abbrev blank : Memory
blank = record { next = 0; bytes = λ _. [] }

abbrev one_size : MultiPool
one_size = record { pools = (4, empty_ring 4 2 blank) ∷ []; sizes = 4 ∷ [] }

abbrev after_fill : Memory
after_fill = fill_memory 2 4 blank

sorted_sizes : sort (4096 ∷ 64 ∷ 1024 ∷ 128 ∷ []) ≡ 64 ∷ 128 ∷ 1024 ∷ 4096 ∷ []
unfolding sort
sorted_sizes = refl

one_size-IsRouted : IsRouted one_size
one_size-IsRouted = record { sorted = (tt, tt); rings = ((empty_ring 4 2 blank, refl, refl), tt) }

owned :
    (s : ℕ) (r : Ring)
    → lookup s one_size.pools ≡ some r
    → IsOwned (record { ring = r; memory = after_fill; held = [] })
owned s r e =
    let q : empty_ring 4 2 blank ≡ r = ground arith in
    subst (λ x. IsOwned (record { ring = x; memory = after_fill; held = [] })) q
      (new_made 4 2 blank (omega arith) (omega arith) (1, refl)).0

multi_alloc-Routed_example :
    ((s : ℕ) × IsLeast (4 ∷ []) (pos 3) s × Routed one_size after_fill 3 s)
    ⊎ (All (λ t. t < 3) (4 ∷ [])
        × (multi_alloc one_size after_fill (pos 3)
            ≡ returned (some (make_slice after_fill 3, one_size, make_memory after_fill 3))))
multi_alloc-Routed_example =
    multi_alloc-Routed one_size after_fill [] 3 (omega arith) one_size-IsRouted owned
