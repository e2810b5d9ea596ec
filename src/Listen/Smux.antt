-- ===== src/Listen/Smux.antt =====
-- kcp/server/listener.go: the registry of smux sessions as a step relation; kcp/server/smux.go: the
-- streams that they give. `GoAndStop` starts a session's goroutine before `startSmux` stores the
-- session, and the end of the goroutine deletes it; other steps may come between.
use fabrica_net.Base.{
  ℕ, suc, ◌≤◌, ◌<◌, Bool, true, false, List, [], ◌∷◌, ◌++◌, ◌==◌, if◌then◌else◌, if_cases, update,
  ◌≡◌, ◌∙◌, refl, sym, ap, subst, ◌≢◌, arith,
}
use fabrica_net.Net.{ConnIdGenerator, next}

-- Whether the goroutine of a session runs, whether its `startSmux` has still to store it, and whether
-- `smuxSessions` has it.
pub record Entry : Type 0 where
  pub running : Bool
  pub pending : Bool
  pub stored : Bool

-- `smuxIDGenerator` is an int64, which does not come to its end.
pub record Registry : Type 0 where
  pub counter : ℕ
  pub entries : ℕ → Entry
  pub stream_chan : List ℕ
  pub conn_id_gen : ConnIdGenerator

abbrev pub absent : Entry
absent = record { running = false; pending = false; stored = false }

abbrev pub begun : Entry
begun = record { running = true; pending = true; stored = false }

abbrev pub set_entry : Registry → ℕ → Entry → Registry
set_entry r id e = record r { entries = update r.entries id e }

pub data Step : Registry → Registry → Type 0 where
  starts :
      (r : Registry)
      → Step r (record (set_entry r (suc r.counter) begun) { counter = suc r.counter })
  stores :
      (r : Registry) (id : ℕ)
      → (r.entries id).pending ≡ true
      → Step r (set_entry r id (record (r.entries id) { pending = false; stored = true }))
  ends :
      (r : Registry) (id : ℕ)
      → (r.entries id).running ≡ true
      → Step r (set_entry r id (record (r.entries id) { running = false; stored = false }))
  gives_stream :
      (r : Registry) (id : ℕ)
      → (r.entries id).running ≡ true
      → Step r (record r {
        stream_chan = r.stream_chan ++ (next r.conn_id_gen).0 ∷ [];
        conn_id_gen = (next r.conn_id_gen).1;
      })

infixl 5 ◌then_step◌
pub data Steps : Registry → Registry → Type 0 where
  stay : (r : Registry) → Steps r r
  ◌then_step◌ : {r r' r'' : Registry} → Steps r r' → Step r' r'' → Steps r r''

unfoldable pub new_registry : ConnIdGenerator → Registry
new_registry g = record { counter = 0; entries = λ id. absent; stream_chan = []; conn_id_gen = g }

-- A session that runs is stored once `startSmux` has returned, and ids to come are free.
pub record IsKept (r : Registry) : Type 0 where
  pub kept :
      (id : ℕ)
      → (r.entries id).running ≡ true
      → (r.entries id).pending ≡ false
      → (r.entries id).stored ≡ true
  pub free : (id : ℕ) → r.counter < id → r.entries id ≡ absent

-- An entry that is not absent may change without a free id's becoming taken.
update-free :
    (f : ℕ → Entry) (id j : ℕ) (e : Entry) → f id ≢ absent → f j ≡ absent → update f id e j ≡ absent
update-free f id j e taken h =
    if_cases (λ x. x ≡ absent) (id == j) e (f j)
      (λ y. absurd (taken (let same : id ≡ j = ground arith in ap f same ∙ h))) (λ n. h)

not_pending : (e : Entry) → e.pending ≡ true → e ≢ absent
not_pending e p a = let q : e.pending ≡ false = ap (λ (x : Entry). x.pending) a in cc

not_running : (e : Entry) → e.running ≡ true → e ≢ absent
not_running e p a = let q : e.running ≡ false = ap (λ (x : Entry). x.running) a in cc

step-IsKept : {r r' : Registry} → Step r r' → IsKept r → IsKept r'
step-IsKept (starts r) v = record {
  kept = λ id.
      if_cases (λ e. e.running ≡ true → e.pending ≡ false → e.stored ≡ true) (suc r.counter == id)
        begun (r.entries id) (λ y a b. absurd (let z : true ≡ false = b in cc)) (λ n. v.kept id);
  free = λ id h.
      let other : (suc r.counter == id) ≡ false = ground arith in
      ap (λ b. if b then begun else r.entries id) other ∙ v.free id (omega arith);
}
step-IsKept (stores r id p) v = record {
  kept = λ j.
      if_cases (λ e. e.running ≡ true → e.pending ≡ false → e.stored ≡ true) (id == j)
        (record (r.entries id) { pending = false; stored = true }) (r.entries j) (λ y a b. refl)
        (λ n. v.kept j);
  free = λ j h.
      update-free r.entries id j (record (r.entries id) { pending = false; stored = true })
        (not_pending (r.entries id) p) (v.free j h);
}
step-IsKept (ends r id p) v = record {
  kept = λ j.
      if_cases (λ e. e.running ≡ true → e.pending ≡ false → e.stored ≡ true) (id == j)
        (record (r.entries id) { running = false; stored = false }) (r.entries j)
        (λ y a b. absurd (let z : false ≡ true = a in cc)) (λ n. v.kept j);
  free = λ j h.
      update-free r.entries id j (record (r.entries id) { running = false; stored = false })
        (not_running (r.entries id) p) (v.free j h);
}
step-IsKept (gives_stream r id p) v = record { kept = v.kept; free = v.free }

steps-IsKept : {r r' : Registry} → Steps r r' → IsKept r → IsKept r'
steps-IsKept (stay r) v = v
steps-IsKept (ss then_step s) v = step-IsKept s (steps-IsKept ss v)

-- An entry that no goroutine answers for any more.
abbrev pub StaleEntry : Entry → Type 0
StaleEntry e = (e.running ≡ false) × (e.pending ≡ false) × (e.stored ≡ true)

abbrev pub IsStale : ℕ → Registry → Type 0
IsStale id r = (id ≤ r.counter) × (StaleEntry (r.entries id))

step-IsStale : {r r' : Registry} (id : ℕ) → Step r r' → IsStale id r → IsStale id r'
step-IsStale id (starts r) (low, stale) =
    let other : (suc r.counter == id) ≡ false = ground arith in
    (omega arith, subst StaleEntry (sym (ap (λ b. if b then begun else r.entries id) other)) stale)
step-IsStale id (stores r j p) (low, stale) = (
  low,
  if_cases StaleEntry (j == id) (record (r.entries j) { pending = false; stored = true })
      (r.entries id)
      (λ y.
        let same : j ≡ id = ground arith in
        absurd
          (let z : true ≡ false = sym p ∙ ap (λ i. (r.entries i).pending) same ∙ stale.1 in cc))
      (λ n. stale),
)
step-IsStale id (ends r j p) (low, stale) = (
  low,
  if_cases StaleEntry (j == id) (record (r.entries j) { running = false; stored = false })
      (r.entries id)
      (λ y.
        let same : j ≡ id = ground arith in
        absurd
          (let z : true ≡ false = sym p ∙ ap (λ i. (r.entries i).running) same ∙ stale.0 in cc))
      (λ n. stale),
)
step-IsStale id (gives_stream r j p) h = h

steps-IsStale : {r r' : Registry} (id : ℕ) → Steps r r' → IsStale id r → IsStale id r'
steps-IsStale id (stay r) h = h
steps-IsStale id (ss then_step s) h = step-IsStale id s (steps-IsStale id ss h)

-- In every state that a new registry comes to, each session that runs and whose `startSmux` has
-- returned is stored, so that `Stop` finds it.
pub running_stored :
    (g : ConnIdGenerator) {r : Registry} (id : ℕ)
    → Steps (new_registry g) r
    → (r.entries id).running ≡ true
    → (r.entries id).pending ≡ false
    → (r.entries id).stored ≡ true
unfolding new_registry
running_stored g id steps =
    (steps-IsKept steps (record {
      kept = λ j a b. absurd (let z : false ≡ true = a in cc);
      free = λ j h. refl;
    })).kept
      id

-- A session that ends before it is stored: it starts, ends, and is stored.
abbrev start_next : Registry → Registry
start_next r = record (set_entry r (suc r.counter) begun) { counter = suc r.counter }

abbrev end_at : ℕ → Registry → Registry
end_at id r = set_entry r id (record (r.entries id) { running = false; stored = false })

abbrev store_at : ℕ → Registry → Registry
store_at id r = set_entry r id (record (r.entries id) { pending = false; stored = true })

abbrev pub lost : Registry → Registry
lost r = store_at (suc r.counter) (end_at (suc r.counter) (start_next r))

update-at : (f : ℕ → Entry) (id : ℕ) (e : Entry) → update f id e id ≡ e
update-at f id e =
    let same : (id == id) ≡ true = ground arith in ap (λ b. if b then e else f id) same

lost-IsStale : (r : Registry) → Steps r (lost r) × IsStale (suc r.counter) (lost r)
lost-IsStale r =
    let id = suc r.counter in
    let r₁ = start_next r in
    let r₂ = end_at id r₁ in
    let at₁ : r₁.entries id ≡ begun = update-at r.entries id begun in
    let at₂ : r₂.entries id ≡ record (r₁.entries id) { running = false; stored = false } =
      update-at r₁.entries id (record (r₁.entries id) { running = false; stored = false }) in
    let at₃ : (lost r).entries id ≡ record (r₂.entries id) { pending = false; stored = true } =
      update-at r₂.entries id (record (r₂.entries id) { pending = false; stored = true }) in
    (
      ((stay r then_step starts r) then_step ends r₁ id (ap (λ (e : Entry). e.running) at₁))
          then_step stores r₂ id
              (ap (λ (e : Entry). e.pending) at₂ ∙ ap (λ (e : Entry). e.pending) at₁),
      (
        omega arith,
        (
          ap (λ (e : Entry). e.running) at₃ ∙ ap (λ (e : Entry). e.running) at₂,
          ap (λ (e : Entry). e.pending) at₃,
          ap (λ (e : Entry). e.stored) at₃,
        ),
      ),
    )

-- From every state three steps lead to one in which a session that has ended is stored; and it is so in
-- all the states behind that, so that the registry keeps it.
pub lost_stays :
    (r r' : Registry) → Steps (lost r) r' → Steps r (lost r) × IsStale (suc r.counter) r'
lost_stays r r' later =
    let (there, stale) = lost-IsStale r in (there, steps-IsStale (suc r.counter) later stale)
