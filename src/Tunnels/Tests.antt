-- ===== src/Tunnels/Tests.antt =====
-- internal/tunnelmanager.go and internal/tunnel.go: the theorems at small inputs.
use fabrica_net.Base.{
  ◌∷◌, ℕ, zero, suc, ◌+◌, ◌*◌, ◌^◌, Bool, false, ◌&&◌, Option, none, some, List, [], ◌++◌,
  replicate, ◌==◌, if◌then◌else◌, ◌≡◌, refl, arith,
}
use fabrica_net.Tunnels.{
  PushErrors, sc_loop, push_result, record_push_err, tunnel, create_tunnel, live, window,
}
use fabrica_net.Tunnels.Groups.{create_tunnel-tunnel}
use fabrica_net.Tunnels.Overload.{overload_within_window, FailsIn}

abbrev start : PushErrors
start = record { start_at = 0; count = 0 }

-- Eleven failures in one second.
abbrev burst : List (ℕ × Bool)
burst = replicate 11 (9 * 10 ^ 9, false)

burst_ends : sc_loop start burst ≡ some 11
unfolding sc_loop push_result record_push_err
burst_ends = refl

-- Twenty failures within half a second, across the end of the window: the loop goes on.
split_burst :
    sc_loop start (replicate 10 (10 * 10 ^ 9, false) ++ replicate 10 (10 * 10 ^ 9 + 1, false))
    ≡ none
unfolding sc_loop push_result record_push_err
split_burst = refl

five : (n : ℕ) → FailsIn 0 window (replicate n (5, false))
five zero = tt
five (suc n) = ((refl, omega arith, omega arith), five n)

overload_within_window_example : (n : ℕ) × (sc_loop start (replicate 21 (5, false)) ≡ some n)
overload_within_window_example =
    overload_within_window start 0 (replicate 21 (5, false)) (omega arith) (omega arith) (five 21)
      (omega arith)

-- A tunnel is a number, stopping if it is odd; `create` counts its calls.
abbrev odd : ℕ → Bool
odd n = n == 1

abbrev make_tunnel : ℕ → ℕ → ℕ → Option ℕ × ℕ
make_tunnel s tp oid = (some (s * 2), s + 1)

created : (create_tunnel odd make_tunnel 3 [] 1 7).0 ≡ some 6
unfolding create_tunnel
created = refl

create_tunnel-tunnel_example : tunnel odd (create_tunnel odd make_tunnel 3 [] 1 7).2 1 7 ≡ (
    if (1 == 1) && (7 == 7)
    then live odd (create_tunnel odd make_tunnel 3 [] 1 7).0
    else tunnel odd [] 1 7)
create_tunnel-tunnel_example = create_tunnel-tunnel odd make_tunnel 3 [] 1 7 1 7

abbrev groups : List (ℕ × List (ℕ × ℕ))
groups = (1, (7, 6) ∷ (8, 4) ∷ []) ∷ []

finds : tunnel odd groups 1 8 ≡ some 4
unfolding tunnel
finds = refl
