-- ===== src/RingPool/Race/Lone.antt =====
-- internal/ringpool/pool.go: the loop of `Alloc` as one goroutine runs it is one of the interleavings.
use fabrica_net.Base.{
  ℕ, zero, suc, ◌+◌, ◌%◌, Option, none, some, get_or, set, update, bit_and, ◌≡◌, refl, arith, ◌==◌,
  Bool-cases, inl, inr, some_inj, subst,
}
use fabrica_net.RingPool.{Ring, word, claim}
use fabrica_net.RingPool.Race.{
  Pc, start, loaded, full, owns, Move, load_head, load_tail, ring_full, win_head, win_slot,
  lose_slot, System, pick, Reach, here, next,
}

Reach-trans : {s t u : System} → Reach s t → Reach t u → Reach s u
Reach-trans r here = r
Reach-trans r (next q st) = next (Reach-trans r q) st

-- Where the agent stands after the loop.
abbrev pub place : Option ℕ → Pc
place none = full
place (some i) = owns i

-- Agent `a` alone goes from `s` to the ring `r` and the place `p`.
pub record Goes (s : System) (a : ℕ) (r : Ring) (p : Pc) : Type 0 where
  pub last : System
  pub reach : Reach s last
  pub ring_is : last.ring ≡ r
  pub pc_is : last.pc a ≡ p

move : {s : System} {a : ℕ} {r r' : Ring} {p q : Pc} → Goes s a r p → Move r p r' q → Goes s a r' q
move {s} {a} {r} {r'} {p} {q} g m =
    let m' : Move g.last.ring (g.last.pc a) r' q = rw (g.ring_is, g.pc_is) m in
    record {
      last = record { ring = r'; pc = update g.last.pc a q };
      reach = next g.reach (pick a m');
      ring_is = refl;
      pc_is = ground arith;
    }

land :
    {s : System} {a : ℕ} {p q : Option ℕ × Ring}
    → some p ≡ some q
    → Goes s a p.1 (place p.0)
    → Goes s a q.1 (place q.0)
land {s} {a} e g = subst (λ x. Goes s a x.1 (place x.0)) (some_inj e) g

-- Whatever the loop returns within its fuel, the agent reaches by its own moves.
pub claim-Goes :
    (fuel : ℕ) (s : System) (a : ℕ) (r : Ring) {o : Option ℕ} {r' : Ring}
    → Goes s a r start
    → claim fuel r ≡ some (o, r')
    → Goes s a r' (place o)
unfolding claim
claim-Goes zero s a r g e = cc
claim-Goes (suc fuel) s a r {o} {r'} g e =
    let g' : Goes s a r (loaded r.head r.tail) = move (move g load_head) load_tail in
    elim (Bool-cases (r.head == (r.tail + r.capacity) % word)) [
      | inl at_end ↦
          let q : ◌≡◌ {A = Option (Option ℕ × Ring)} (some (none, r)) (some (o, r')) =
            ground arith in
          land q (move g' (ring_full (ground arith)))
      | inr room ↦
          let index = bit_and r.head r.mask in
          let g'' = move g' (win_head (ground arith) refl) in
          elim (Bool-cases (get_or r.slot_states index 1 == 0)) [
            | inl free ↦
                let taken : Ring = record r {
                  head = (r.head + 1) % word;
                  slot_states = set r.slot_states index 1;
                } in
                let q : ◌≡◌ {A = Option (Option ℕ × Ring)} (some (some index, taken))
                    (some (o, r')) =
                  ground arith in
                land q (move g'' (win_slot (ground arith)))
            | inr busy ↦
                claim-Goes fuel s a (record r { head = (r.head + 1) % word })
                  (move g'' (lose_slot (ground arith))) (ground arith)
          ]
    ]
