-- ===== src/Options/Tests.antt =====
-- server/option.go: the theorem on three inspectors and a filter.
use fabrica_net.Base.{ℕ, suc, ◌*◌, true, List, [], ◌∷◌, pos, ◌≡◌, refl}
use fabrica_net.Server.Wrap.{nest}
use fabrica_net.Options.{
  Inspector, app_step, sets_read_limit, ServerOption, with_after_connect, with_ws_read_limit,
  with_write_filter, acted, read_limit, new_options,
}
use fabrica_net.Options.Nesting.{Nests, connect_inspectors, new_options-Nests}

-- An inspector that marks its turn.
abbrev marks : ℕ → Inspector
marks n f is_ws = acted (app_step n ∷ []) (f is_ws)

abbrev options : List (ServerOption ℕ)
options =
    with_after_connect (marks 1)
    ∷ with_ws_read_limit (pos 512)
    ∷ with_write_filter (λ n. n * 2)
    ∷ with_after_connect (marks 2)
    ∷ []

new_options-Nests_example : Nests suc 8 options (new_options nest suc 8 options)
new_options-Nests_example = new_options-Nests nest suc 8 options (λ ms h. refl)

-- What the inspectors then do with a WebSocket connection.
limits :
    (nest (connect_inspectors options) (λ b. (true, [])) true)
    ≡ (true, app_step 1 ∷ sets_read_limit (pos 512) ∷ app_step 2 ∷ [])
unfolding read_limit
limits = refl
