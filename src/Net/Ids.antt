-- ===== src/Net/Ids.antt =====
-- internal/listener.go and client/option.go: when ids differ.
use fabrica_net.Base.{
  ℕ, zero, suc, ◌+◌, ◌-◌, ◌*◌, ◌%◌, ◌^◌, ◌<◌, bit_or, bit_or_tag, ℤ, pos, ◌≡◌, refl, sym, ap₂, ◌∙◌,
  arith,
}
use fabrica_net.Net.{ConnIdGenerator, new_conn_id_generator, next, nth_id, dialog_id, uint64_of}

-- While the counter has not passed 60 bits.
next-value :
    (g : ConnIdGenerator)
    → g.counter + 1 < 2 ^ 60
    → g.net_type < 16
    → ((next g).0 ≡ (g.counter + 1) * 16 + g.net_type)
      × ((next g).1.counter ≡ g.counter + 1)
      × ((next g).1.net_type ≡ g.net_type)
unfolding next
next-value g h t =
    let c : (g.counter + 1) % 2 ^ 64 ≡ g.counter + 1 = omega arith in
    let s : (g.counter + 1) % 2 ^ 64 * 16 % 2 ^ 64 ≡ (g.counter + 1) * 16 = omega arith in
    let u : g.net_type % 2 ^ 64 ≡ g.net_type = omega arith in
    (ap₂ bit_or s u ∙ bit_or_tag (g.counter + 1) g.net_type t, c, refl)

nth_id-value :
    (i : ℕ) (g : ConnIdGenerator)
    → g.counter + i + 1 < 2 ^ 60
    → g.net_type < 16
    → nth_id i g ≡ (g.counter + i + 1) * 16 + g.net_type
unfolding nth_id
nth_id-value zero g h t = omega (arith, next-value g (omega arith) t)
nth_id-value (suc i) g h t =
    let (_, c, k) = next-value g (omega arith) t in
    omega (arith, nth_id-value i (next g).1 (omega arith) (omega arith))

-- Generators of net types below 16 give the same id only as the same call of generators of the same
-- type: over the life of a process, up to 2^60 - 1 calls each, the ids of all its connections differ.
pub conn_ids_differ :
    (i j t u : ℕ)
    → i < 2 ^ 60 - 1
    → j < 2 ^ 60 - 1
    → t < 16
    → u < 16
    → nth_id i (new_conn_id_generator t) ≡ nth_id j (new_conn_id_generator u)
    → (i ≡ j) × (t ≡ u)
unfolding new_conn_id_generator
conn_ids_differ i j t u hi hj ht hu e =
    let p : nth_id i (new_conn_id_generator t) ≡ (0 + i + 1) * 16 + t =
      nth_id-value i (new_conn_id_generator t) (omega arith) ht in
    let q : nth_id j (new_conn_id_generator u) ≡ (0 + j + 1) * 16 + u =
      nth_id-value j (new_conn_id_generator u) (omega arith) hu in
    let r : (0 + i + 1) * 16 + t ≡ (0 + j + 1) * 16 + u = sym p ∙ e ∙ q in
    (omega arith, omega arith)

-- Dialogs of fewer than 100 per client have different ids, for client ids that are not negative and
-- for which a hundred times the next id is a uint64.
pub dialog_ids_differ :
    (a b i j : ℕ)
    → i < 100
    → j < 100
    → (a + 1) * 100 < 2 ^ 64
    → (b + 1) * 100 < 2 ^ 64
    → dialog_id (pos a) i ≡ dialog_id (pos b) j
    → (a ≡ b) × (i ≡ j)
unfolding dialog_id
dialog_ids_differ a b i j hi hj ha hb e =
    let r : a * 100 + i ≡ b * 100 + j = omega arith in (omega arith, omega arith)

pub dialog_id_inj : (id : ℤ) (i j : ℕ) → i < 100 → j < 100 → dialog_id id i ≡ dialog_id id j → i ≡ j
unfolding dialog_id
dialog_id_inj id i j hi hj e = same (uint64_of id) i j hi hj e
  where
    same : (u i j : ℕ) → i < 100 → j < 100 → (u * 100 + i) % 2 ^ 64 ≡ (u * 100 + j) % 2 ^ 64 → i ≡ j
    same u i j hi hj e = omega arith
