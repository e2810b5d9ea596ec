-- ===== src/Server/Wrap.antt =====
-- server/inspector.go: the order of the inspectors.
use fabrica_net.Base.{ℕ, zero, suc, List, [], ◌∷◌, length, ◌≡◌, refl, ap, ◌∙◌}
use fabrica_net.Server.{inspector, wrap, wrap_from}

-- The first inspector outermost.
abbrev pub nest {ℓ} : {F : Type ℓ} → List (F → F) → F → F
nest [] f = f
nest (w ∷ ws) f = w (nest ws f)

-- The loop at a list behind its first element.
wrap_from-cons {ℓ} :
    {F : Type ℓ} (w : F → F) (ws : List (F → F)) (i : ℕ) (f : F)
    → wrap_from (w ∷ ws) (suc i) f ≡ w (wrap_from ws i f)
unfolding wrap_from
wrap_from-cons w ws zero f = refl
wrap_from-cons w ws (suc i) f = wrap_from-cons w ws i (inspector ws i f)

-- `Wrap` nests the inspectors in the order in which they are given, the first outermost; of no
-- inspectors it is the function itself.
pub wrap-nest {ℓ} : {F : Type ℓ} (ws : List (F → F)) (f : F) → wrap ws f ≡ nest ws f
unfolding wrap wrap_from
wrap-nest [] f = refl
wrap-nest (w ∷ ws) f = wrap_from-cons w ws (length ws) f ∙ ap w (wrap-nest ws f)
