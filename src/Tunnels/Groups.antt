-- ===== src/Tunnels/Groups.antt =====
-- internal/tunnelmanager.go: the groups as one map from types and objects to tunnels.
use fabrica_net.Base.{
  ℕ, Bool, true, false, ◌&&◌, Option, none, some, List, [], ◌∷◌, ◌==◌, if◌then◌else◌, Option-cases,
  Bool-cases, inl, inr, some_inj, ◌≡◌, refl, sym, ap, subst, ◌∙◌, arith,
}
use fabrica_net.Tunnels.{load, store, Groups, group, live, tunnel, create_tunnel}

load-store :
    {V : Type 0} (k : ℕ) (v : V) (d : List (ℕ × V)) (j : ℕ)
    → load j (store k v d) ≡ (if k == j then some v else load j d)
load-store k v [] j = refl
load-store k v ((i, w) ∷ d) j = elim (Bool-cases (i == k)) [
  | inl e ↦
      let q : i ≡ k = ground arith in
      rw (e, q) (elim (Bool-cases (k == j)) [ inl y ↦ rw y refl | inr n ↦ rw n refl ])
  | inr e ↦
      rw (e, load-store k v d j)
        (elim (Bool-cases (k == j)) [
          | inl y ↦ let n : (i == j) ≡ false = ground arith in rw (y, n) refl
          | inr n ↦ rw n refl
        ])
]

module _ {T : Type 0} (on_stopping : T → Bool) where
  abbrev alive : Option T → Option T
  alive = live on_stopping

  -- A group that is not there is an empty one.
  tunnel-group :
      (g : Groups on_stopping) (tp oid : ℕ)
      → tunnel on_stopping g tp oid ≡ alive (load oid (group on_stopping g tp))
  unfolding tunnel
  tunnel-group g tp oid = elim (Option-cases (load tp g)) [
    | inl e ↦ rw (e, tunnel, group) refl
    | inr (tg, e) ↦ rw (e, tunnel, group) refl
  ]

  group-store :
      (g : Groups on_stopping) (tp tp' : ℕ) (tg : List (ℕ × T))
      → group on_stopping (store tp tg g) tp' ≡ (if tp == tp' then tg else group on_stopping g tp')
  group-store g tp tp' tg =
      ap (λ o. elim o [ none ↦ [] | some x ↦ x ]) (load-store tp tg g tp')
      ∙ elim (Bool-cases (tp == tp')) [ inl y ↦ rw y refl | inr n ↦ rw n refl ]

  -- What a stored group answers.
  tunnel-store :
      (g : Groups on_stopping) (tp tp' oid' : ℕ) (tg : List (ℕ × T))
      → tunnel on_stopping (store tp tg g) tp' oid'
        ≡ (if tp == tp' then alive (load oid' tg) else tunnel on_stopping g tp' oid')
  tunnel-store g tp tp' oid' tg =
      tunnel-group (store tp tg g) tp' oid'
      ∙ ap (λ x. alive (load oid' x)) (group-store g tp tp' tg)
      ∙ elim (Bool-cases (tp == tp')) [
        | inl y ↦ rw y refl
        | inr n ↦ rw n (sym (tunnel-group g tp' oid'))
      ]

  module _ {S : Type 0} (create : S → ℕ → ℕ → Option T × S) where
    found :
        (s : S) (g : Groups on_stopping) (tp oid : ℕ) (t : T)
        → alive (load oid (group on_stopping g tp)) ≡ some t
        → create_tunnel on_stopping create s g tp oid
          ≡ (some t, s, store tp (group on_stopping g tp) g)
    unfolding create_tunnel
    found s g tp oid t e = rw (e, create_tunnel) refl

    not_made :
        (s : S) (g : Groups on_stopping) (tp oid : ℕ)
        → alive (load oid (group on_stopping g tp)) ≡ none
        → (create s tp oid).0 ≡ none
        → create_tunnel on_stopping create s g tp oid
          ≡ (none, (create s tp oid).1, store tp (group on_stopping g tp) g)
    unfolding create_tunnel
    not_made s g tp oid e f = rw (e, create_tunnel, f) refl

    made :
        (s : S) (g : Groups on_stopping) (tp oid : ℕ) (t : T)
        → alive (load oid (group on_stopping g tp)) ≡ none
        → (create s tp oid).0 ≡ some t
        → create_tunnel on_stopping create s g tp oid
          ≡ (some t, (create s tp oid).1, store tp (store oid t (group on_stopping g tp)) g)
    unfolding create_tunnel
    made s g tp oid t e f = rw (e, create_tunnel, f) refl

  alive-again : (o : Option T) (t : T) → alive o ≡ some t → alive (some t) ≡ some t
  alive-again none t e = absurd cc
  alive-again (some u) t e = elim (Bool-cases (on_stopping u)) [
    | inl y ↦ let q : none ≡ some t = sym (ap (λ b. if b then none else some u) y) ∙ e in absurd cc
    | inr n ↦
        let q : u ≡ t = some_inj (sym (ap (λ b. if b then none else some u) n) ∙ e) in
        ap (λ x. alive (some x)) (sym q) ∙ e
  ]

  -- A group with another answer at one object.
  answer :
      (g : Groups on_stopping) (tp oid tp' oid' : ℕ) (tg : List (ℕ × T)) (o : Option T)
      → ((i : ℕ)
          → alive (load i tg) ≡ (if oid == i then o else alive (load i (group on_stopping g tp))))
      → tunnel on_stopping (store tp tg g) tp' oid'
        ≡ (if (tp == tp') && (oid == oid') then o else tunnel on_stopping g tp' oid')
  answer g tp oid tp' oid' tg o h = tunnel-store g tp tp' oid' tg ∙ elim (Bool-cases (tp == tp')) [
    | inr n ↦ rw n refl
    | inl y ↦
        let q : tp ≡ tp' = ground arith in
        rw y (
          h oid' ∙ elim (Bool-cases (oid == oid')) [
            | inl a ↦ rw a refl
            | inr a ↦ rw a (
                ap (λ z. alive (load oid' (group on_stopping g z))) q
                ∙ sym (tunnel-group g tp' oid'))
          ])
  ]

  same_answers :
      (tg : List (ℕ × T)) (oid : ℕ) (o : Option T)
      → alive (load oid tg) ≡ o
      → (i : ℕ) → alive (load i tg) ≡ (if oid == i then o else alive (load i tg))
  same_answers tg oid o e i = elim (Bool-cases (oid == i)) [
    | inl a ↦ let q : oid ≡ i = ground arith in rw a (ap (λ z. alive (load z tg)) (sym q) ∙ e)
    | inr a ↦ rw a refl
  ]

  new_answer :
      (tg : List (ℕ × T)) (oid : ℕ) (t : T) (i : ℕ)
      → alive (load i (store oid t tg)) ≡ (if oid == i then alive (some t) else alive (load i tg))
  new_answer tg oid t i =
      ap alive (load-store oid t tg i)
      ∙ elim (Bool-cases (oid == i)) [ inl a ↦ rw a refl | inr a ↦ rw a refl ]

  -- Whatever `createTunnel` returns is what the lookup then gives for its type and object, unless it is
  -- already stopping, and every other lookup is as before; so a call that fails changes no lookup.
  pub create_tunnel-tunnel :
      {S : Type 0} (create : S → ℕ → ℕ → Option T × S) (s : S) (g : Groups on_stopping)
      (tp oid tp' oid' : ℕ)
      → let r = create_tunnel on_stopping create s g tp oid in
        tunnel on_stopping r.2 tp' oid' ≡ (
          if (tp == tp') && (oid == oid')
          then live on_stopping r.0
          else tunnel on_stopping g tp' oid')
  create_tunnel-tunnel {S = S} create s g tp oid tp' oid' =
      let tg = group on_stopping g tp in
      let Says : Option T × S × Groups on_stopping → Type 0 = λ r.
        tunnel on_stopping r.2 tp' oid'
        ≡ (if (tp == tp') && (oid == oid') then alive r.0 else tunnel on_stopping g tp' oid') in
      elim (Option-cases (alive (load oid tg))) [
        | inr (t, e) ↦ subst Says (sym (found create s g tp oid t e)) (
            answer g tp oid tp' oid' tg (alive (some t))
              (same_answers tg oid (alive (some t)) (e ∙ sym (alive-again (load oid tg) t e))))
        | inl e ↦ elim (Option-cases (create s tp oid).0) [
          | inl f ↦
              subst Says (sym (not_made create s g tp oid e f))
                (answer g tp oid tp' oid' tg none (same_answers tg oid none e))
          | inr (t, f) ↦
              subst Says (sym (made create s g tp oid t e f))
                (answer g tp oid tp' oid' (store oid t tg) (alive (some t)) (new_answer tg oid t))
        ]
      ]

  -- A tunnel is created once: when a call of `createTunnel` has returned a tunnel that is not stopping,
  -- the next call for its type and object returns it again and does not create.
  pub create_tunnel-twice :
      {S : Type 0} (create : S → ℕ → ℕ → Option T × S) (s : S) (g : Groups on_stopping) (tp oid : ℕ)
      (t : T)
      → (create_tunnel on_stopping create s g tp oid).0 ≡ some t
      → on_stopping t ≡ false
      → let r = create_tunnel on_stopping create s g tp oid in
        let again = create_tunnel on_stopping create r.1 r.2 tp oid in
        (again.0 ≡ some t) × (again.1 ≡ r.1)
  create_tunnel-twice create s g tp oid t e running =
      let r = create_tunnel on_stopping create s g tp oid in
      let yes : (tp == tp) && (oid == oid) ≡ true = ground arith in
      let there : alive (load oid (group on_stopping r.2 tp)) ≡ some t =
        sym (tunnel-group r.2 tp oid)
        ∙ create_tunnel-tunnel create s g tp oid tp oid
        ∙ ap (λ b. if b then alive r.0 else tunnel on_stopping g tp oid) yes
        ∙ ap alive e
        ∙ ap (λ b. if b then none else some t) running in
      let again = found create r.1 r.2 tp oid t there in (ap (λ x. x.0) again, ap (λ x. x.1) again)
