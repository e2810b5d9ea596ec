-- ===== src/Listen/Origin.antt =====
-- websocket/server/listener.go: the test of a request's origin.
use fabrica_net.Base.{
  ℕ, true, false, ◌||◌, List, [], ◌∷◌, ◌≡◌, inl, inr, sym, ap, ◌∙◌, Bool-cases, eq_bytes,
  eq_bytes→≡,
}
use fabrica_net.Conf.{default_config}
use fabrica_net.Listen.{check_origin}

-- With the configurations of the library, which allow the origin `*`, a request is accepted only if its
-- origin is the text `*` itself.
pub origin-default :
    (cpus : ℕ) (origin : List ℕ)
    → check_origin (default_config cpus).websocket origin ≡ true
    → origin ≡ b'*' ∷ []
unfolding check_origin default_config
origin-default cpus origin h = elim (Bool-cases (eq_bytes (b'*' ∷ []) origin)) [
  | inl y ↦ sym (eq_bytes→≡ (b'*' ∷ []) origin y)
  | inr n ↦
      let e : check_origin (default_config cpus).websocket origin ≡ false =
        ap (λ b. b || false) n in
      absurd (let z : false ≡ true = sym e ∙ h in cc)
]
