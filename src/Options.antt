-- ===== src/Options.antt =====
-- server/option.go: the options of a server. `middleware.Chain` and `recovery.Recovery` of kratos are
-- parameters, and so is the type of a filter's handlers; a logger is a number.
pub mod Nesting
mod Tests
use fabrica_net.Base.{
  ℕ, Bool, true, false, Option, none, some, List, [], ◌∷◌, ◌++◌, if◌then◌else◌, ℤ, length,
}
use fabrica_net.Conf.{Config, default_config}
use fabrica_net.Server.{wrap}

-- What the inspectors of the library do to a WebSocket connection, and steps of the application's.
pub data Action : Type 0 where
  sets_read_limit : ℤ → Action
  sets_pong_handler : (timeout : ℤ) → Action
  app_step : ℕ → Action

-- An `InspectorFunc` on a worker whose connection is a WebSocket one or not: whether it returns `nil`.
abbrev pub InspectorFunc : Type 0
InspectorFunc = Bool → Bool × List Action

abbrev pub Inspector : Type 0
Inspector = InspectorFunc → InspectorFunc

pub empty_inspector : Inspector
empty_inspector f = f

abbrev pub acted : List Action → Bool × List Action → Bool × List Action
acted before (ok, t) = (ok, before ++ t)

-- `WithWsReadLimit`
pub read_limit : ℤ → Inspector
read_limit limit f is_ws = acted (if is_ws then sets_read_limit limit ∷ [] else []) (f is_ws)

-- `WithPongRenewal`
pub pong_renewal : ℤ → Inspector
pong_renewal timeout f is_ws =
    acted (if is_ws then sets_pong_handler timeout ∷ [] else []) (f is_ws)

-- A handler's type is `H`; a nil middleware is none.
pub record Options {ℓ} (H : Type ℓ) : Type ℓ where
  pub conf : Config
  pub logger : ℕ
  pub referer : List ℕ
  pub after_connect : Inspector
  pub after_disconnect : Inspector
  pub read_filter : Option (H → H)
  pub write_filter : Option (H → H)

pub data ServerOption {ℓ} (H : Type ℓ) : Type ℓ where
  with_conf : Config → ServerOption H
  with_referer : List ℕ → ServerOption H
  with_logger : ℕ → ServerOption H
  with_read_filter : (H → H) → ServerOption H
  with_write_filter : (H → H) → ServerOption H
  with_after_connect : Inspector → ServerOption H
  with_after_disconnect : Inspector → ServerOption H
  with_ws_read_limit : (limit : ℤ) → ServerOption H
  with_pong_renewal : (timeout : ℤ) → ServerOption H

module _ {ℓ} {H : Type ℓ} (chain : List (H → H) → H → H) where
  abbrev pub add_filter : Option (H → H) → (H → H) → Option (H → H)
  add_filter none m = some m
  add_filter (some old) m = some (chain (old ∷ m ∷ []))

  pub apply_option : ServerOption H → Options H → Options H
  apply_option (with_conf c) o = record o { conf = c }
  apply_option (with_referer r) o = record o { referer = r }
  apply_option (with_logger l) o = record o { logger = l }
  apply_option (with_read_filter m) o = record o { read_filter = add_filter o.read_filter m }
  apply_option (with_write_filter m) o = record o { write_filter = add_filter o.write_filter m }
  apply_option (with_after_connect f) o = record o {
    after_connect = wrap (o.after_connect ∷ f ∷ []);
  }
  apply_option (with_after_disconnect f) o = record o {
    after_disconnect = wrap (o.after_disconnect ∷ f ∷ []);
  }
  apply_option (with_ws_read_limit limit) o = record o {
    after_connect = wrap (o.after_connect ∷ read_limit limit ∷ []);
  }
  apply_option (with_pong_renewal timeout) o = record o {
    after_connect = wrap (o.after_connect ∷ pong_renewal timeout ∷ []);
  }

  pub apply_options : List (ServerOption H) → Options H → Options H
  unfolding apply_option
  apply_options [] o = o
  apply_options (x ∷ xs) o = apply_options xs (apply_option x o)

  abbrev pub initial_options : (H → H) → ℕ → Options H
  initial_options recovery cpus = record {
    conf = default_config cpus;
    logger = 0;
    referer = [];
    after_connect = empty_inspector;
    after_disconnect = empty_inspector;
    read_filter = some (chain (recovery ∷ []));
    write_filter = some (chain (recovery ∷ []));
  }

  -- `NewOptions`
  pub new_options : (H → H) → ℕ → List (ServerOption H) → Options H
  unfolding apply_options
  new_options recovery cpus opts = apply_options opts (initial_options recovery cpus)
