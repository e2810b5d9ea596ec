-- ===== src/Tunnels/Stop.antt =====
-- internal/tunnelmanager.go: `stop`.
use fabrica_net.Base.{
  ℕ, Bool, Option, none, some, List, [], ◌∷◌, ◌++◌, ◌==◌, if◌then◌else◌, ◌⊎◌, Option-cases,
  Bool-cases, inl, inr, some_inj, ◌≡◌, refl, sym, ap, ◌∙◌,
}
use fabrica_net.Tunnels.{load, Groups, live, tunnel, tunnels_of, stop}

abbrev pub In : {T : Type 0} → T → List T → Type 0
In t [] = ⊥
In t (x ∷ xs) = (x ≡ t) ⊎ In t xs

In-left : {T : Type 0} (t : T) (xs ys : List T) → In t xs → In t (xs ++ ys)
In-left t [] ys h = absurd h
In-left t (x ∷ xs) ys (inl e) = inl e
In-left t (x ∷ xs) ys (inr h) = inr (In-left t xs ys h)

In-right : {T : Type 0} (t : T) (xs ys : List T) → In t ys → In t (xs ++ ys)
In-right t [] ys h = h
In-right t (x ∷ xs) ys h = inr (In-right t xs ys h)

module _ {T : Type 0} (on_stopping : T → Bool) where
  load-In :
      (oid : ℕ) (tg : List (ℕ × T)) (t : T)
      → load oid tg ≡ some t
      → In t (tunnels_of on_stopping tg)
  load-In oid [] t e = absurd (let z : none ≡ some t = e in cc)
  load-In oid ((i, u) ∷ tg) t e = elim (Bool-cases (i == oid)) [
    | inl y ↦ inl (some_inj (sym (ap (λ b. if b then some u else load oid tg) y) ∙ e))
    | inr n ↦ inr (load-In oid tg t (sym (ap (λ b. if b then some u else load oid tg) n) ∙ e))
  ]

  group-In :
      (tp oid : ℕ) (g : Groups on_stopping) (tg : List (ℕ × T)) (t : T)
      → load tp g ≡ some tg
      → load oid tg ≡ some t
      → In t (stop on_stopping g).0
  unfolding stop
  group-In tp oid [] tg t e f = absurd (let z : none ≡ some tg = e in cc)
  group-In tp oid ((i, ug) ∷ g) tg t e f = elim (Bool-cases (i == tp)) [
    | inl y ↦
        let q : ug ≡ tg = some_inj (sym (ap (λ b. if b then some ug else load tp g) y) ∙ e) in
        In-left t (tunnels_of on_stopping ug) (stop on_stopping g).0
          (load-In oid ug t (ap (load oid) q ∙ f))
    | inr n ↦
        In-right t (tunnels_of on_stopping ug) (stop on_stopping g).0
          (group-In tp oid g tg t (sym (ap (λ b. if b then some ug else load tp g) n) ∙ e) f)
  ]

  live-some : (o : Option T) (t : T) → live on_stopping o ≡ some t → o ≡ some t
  live-some none t e = absurd (let z : none ≡ some t = e in cc)
  live-some (some u) t e = elim (Bool-cases (on_stopping u)) [
    | inl y ↦
        absurd (let z : none ≡ some t = sym (ap (λ b. if b then none else some u) y) ∙ e in cc)
    | inr n ↦ sym (ap (λ b. if b then none else some u) n) ∙ e
  ]

  stop-left : (g : Groups on_stopping) → (stop on_stopping g).1 ≡ []
  unfolding stop
  stop-left [] = refl
  stop-left ((tp, tg) ∷ g) = stop-left g

  tunnel-none : (tp oid : ℕ) → tunnel on_stopping [] tp oid ≡ none
  unfolding tunnel
  tunnel-none tp oid = refl

  -- `stop` of the tunnel manager stops every tunnel that a lookup gives, and after it no lookup gives a tunnel.
  pub stop-all :
      (g : Groups on_stopping) (tp oid : ℕ) (t : T)
      → tunnel on_stopping g tp oid ≡ some t
      → In t (stop on_stopping g).0 × (tunnel on_stopping (stop on_stopping g).1 tp oid ≡ none)
  unfolding tunnel
  stop-all g tp oid t e = (
    elim (Option-cases (load tp g)) [
      | inl a ↦ absurd (
          let z : none ≡ some t =
            sym (ap (λ o. elim o [ none ↦ none | some tg ↦ live on_stopping (load oid tg) ]) a)
            ∙ e in
          cc)
      | inr (tg, a) ↦ group-In tp oid g tg t a (
          live-some (load oid tg) t (
            sym (ap (λ o. elim o [ none ↦ none | some tg ↦ live on_stopping (load oid tg) ]) a)
            ∙ e))
    ],
    ap (λ x. tunnel on_stopping x tp oid) (stop-left g) ∙ tunnel-none tp oid,
  )
