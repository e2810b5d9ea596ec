-- ===== src/Options/Nesting.antt =====
-- server/option.go: the order of the inspectors and filters that options add.
use fabrica_net.Base.{ℕ, some, List, [], ◌∷◌, ◌≡◌, ◌∙◌, refl, ap, fun_ext}
use fabrica_net.Conf.{Config, default_config}
use fabrica_net.Server.{wrap}
use fabrica_net.Server.Wrap.{nest, wrap-nest}
use fabrica_net.Options.{
  InspectorFunc, Inspector, empty_inspector, read_limit, pong_renewal, Options, ServerOption,
  with_conf, with_referer, with_logger, with_read_filter, with_write_filter, with_after_connect,
  with_after_disconnect, with_ws_read_limit, with_pong_renewal, add_filter, apply_option,
  apply_options, initial_options, new_options,
}

-- What a list of options says of each field, in the order given.
module _ {ℓ} {H : Type ℓ} where
  abbrev pub last_conf : List (ServerOption H) → Config → Config
  last_conf [] c = c
  last_conf (with_conf c' ∷ xs) c = last_conf xs c'
  last_conf (with_referer r ∷ xs) c = last_conf xs c
  last_conf (with_logger l ∷ xs) c = last_conf xs c
  last_conf (with_read_filter m ∷ xs) c = last_conf xs c
  last_conf (with_write_filter m ∷ xs) c = last_conf xs c
  last_conf (with_after_connect f ∷ xs) c = last_conf xs c
  last_conf (with_after_disconnect f ∷ xs) c = last_conf xs c
  last_conf (with_ws_read_limit l ∷ xs) c = last_conf xs c
  last_conf (with_pong_renewal t ∷ xs) c = last_conf xs c

  abbrev pub connect_inspectors : List (ServerOption H) → List Inspector
  connect_inspectors [] = []
  connect_inspectors (with_after_connect f ∷ xs) = f ∷ connect_inspectors xs
  connect_inspectors (with_ws_read_limit l ∷ xs) = read_limit l ∷ connect_inspectors xs
  connect_inspectors (with_pong_renewal t ∷ xs) = pong_renewal t ∷ connect_inspectors xs
  connect_inspectors (with_conf c ∷ xs) = connect_inspectors xs
  connect_inspectors (with_referer r ∷ xs) = connect_inspectors xs
  connect_inspectors (with_logger l ∷ xs) = connect_inspectors xs
  connect_inspectors (with_read_filter m ∷ xs) = connect_inspectors xs
  connect_inspectors (with_write_filter m ∷ xs) = connect_inspectors xs
  connect_inspectors (with_after_disconnect f ∷ xs) = connect_inspectors xs

  abbrev pub disconnect_inspectors : List (ServerOption H) → List Inspector
  disconnect_inspectors [] = []
  disconnect_inspectors (with_after_disconnect f ∷ xs) = f ∷ disconnect_inspectors xs
  disconnect_inspectors (with_after_connect f ∷ xs) = disconnect_inspectors xs
  disconnect_inspectors (with_ws_read_limit l ∷ xs) = disconnect_inspectors xs
  disconnect_inspectors (with_pong_renewal t ∷ xs) = disconnect_inspectors xs
  disconnect_inspectors (with_conf c ∷ xs) = disconnect_inspectors xs
  disconnect_inspectors (with_referer r ∷ xs) = disconnect_inspectors xs
  disconnect_inspectors (with_logger l ∷ xs) = disconnect_inspectors xs
  disconnect_inspectors (with_read_filter m ∷ xs) = disconnect_inspectors xs
  disconnect_inspectors (with_write_filter m ∷ xs) = disconnect_inspectors xs

  abbrev pub read_filters : List (ServerOption H) → List (H → H)
  read_filters [] = []
  read_filters (with_read_filter m ∷ xs) = m ∷ read_filters xs
  read_filters (with_write_filter m ∷ xs) = read_filters xs
  read_filters (with_after_disconnect f ∷ xs) = read_filters xs
  read_filters (with_after_connect f ∷ xs) = read_filters xs
  read_filters (with_ws_read_limit l ∷ xs) = read_filters xs
  read_filters (with_pong_renewal t ∷ xs) = read_filters xs
  read_filters (with_conf c ∷ xs) = read_filters xs
  read_filters (with_referer r ∷ xs) = read_filters xs
  read_filters (with_logger l ∷ xs) = read_filters xs

  abbrev pub write_filters : List (ServerOption H) → List (H → H)
  write_filters [] = []
  write_filters (with_write_filter m ∷ xs) = m ∷ write_filters xs
  write_filters (with_read_filter m ∷ xs) = write_filters xs
  write_filters (with_after_disconnect f ∷ xs) = write_filters xs
  write_filters (with_after_connect f ∷ xs) = write_filters xs
  write_filters (with_ws_read_limit l ∷ xs) = write_filters xs
  write_filters (with_pong_renewal t ∷ xs) = write_filters xs
  write_filters (with_conf c ∷ xs) = write_filters xs
  write_filters (with_referer r ∷ xs) = write_filters xs
  write_filters (with_logger l ∷ xs) = write_filters xs

-- Options against what they say, from other options on. A filter is `old` with the new ones nested in it.
abbrev Applied {ℓ} :
    {H : Type ℓ} → List (ServerOption H) → Options H → (H → H) → (H → H) → Options H → Type ℓ
Applied {H = H} xs o rd wr r =
    (r.conf ≡ last_conf xs o.conf)
    × ((f : InspectorFunc) → r.after_connect f ≡ o.after_connect (nest (connect_inspectors xs) f))
    × ((f : InspectorFunc)
        → r.after_disconnect f ≡ o.after_disconnect (nest (disconnect_inspectors xs) f))
    × (r.read_filter ≡ some (λ (h : H). rd (nest (read_filters xs) h)))
    × (r.write_filter ≡ some (λ (h : H). wr (nest (write_filters xs) h)))

wrap_two : (f g : Inspector) (h : InspectorFunc) → wrap (f ∷ g ∷ []) h ≡ f (g h)
wrap_two f g h = wrap-nest (f ∷ g ∷ []) h

module _ {ℓ} {H : Type ℓ} (chain : List (H → H) → H → H)
    (chains : (ms : List (H → H)) (h : H) → chain ms h ≡ nest ms h) where
  apply_options-Applied :
      (xs : List (ServerOption H)) (o : Options H) (rd wr : H → H)
      → o.read_filter ≡ some rd
      → o.write_filter ≡ some wr
      → Applied xs o rd wr (apply_options chain xs o)
  unfolding apply_options apply_option
  apply_options-Applied [] o rd wr hr hw = (refl, λ f. refl, λ f. refl, hr, hw)
  apply_options-Applied (with_conf c ∷ xs) o rd wr hr hw =
      apply_options-Applied xs (record o { conf = c }) rd wr hr hw
  apply_options-Applied (with_referer r ∷ xs) o rd wr hr hw =
      apply_options-Applied xs (record o { referer = r }) rd wr hr hw
  apply_options-Applied (with_logger l ∷ xs) o rd wr hr hw =
      apply_options-Applied xs (record o { logger = l }) rd wr hr hw
  apply_options-Applied (with_read_filter m ∷ xs) o rd wr hr hw =
      let added = ap (λ x. add_filter chain x m) hr in
      let (c, ac, ad, r, w) =
        apply_options-Applied xs (record o { read_filter = add_filter chain o.read_filter m })
          (chain (rd ∷ m ∷ [])) wr added hw in
      (c, ac, ad, r ∙ ap some (fun_ext (λ h. chains (rd ∷ m ∷ []) (nest (read_filters xs) h))), w)
  apply_options-Applied (with_write_filter m ∷ xs) o rd wr hr hw =
      let added = ap (λ x. add_filter chain x m) hw in
      let (c, ac, ad, r, w) =
        apply_options-Applied xs (record o { write_filter = add_filter chain o.write_filter m }) rd
          (chain (wr ∷ m ∷ [])) hr added in
      (c, ac, ad, r, w ∙ ap some (fun_ext (λ h. chains (wr ∷ m ∷ []) (nest (write_filters xs) h))))
  apply_options-Applied (with_after_connect f ∷ xs) o rd wr hr hw =
      let (c, ac, ad, r, w) =
        apply_options-Applied xs (record o { after_connect = wrap (o.after_connect ∷ f ∷ []) }) rd
          wr hr hw in
      (c, λ g. ac g ∙ wrap_two o.after_connect f (nest (connect_inspectors xs) g), ad, r, w)
  apply_options-Applied (with_after_disconnect f ∷ xs) o rd wr hr hw =
      let (c, ac, ad, r, w) =
        apply_options-Applied xs
          (record o { after_disconnect = wrap (o.after_disconnect ∷ f ∷ []) }) rd wr hr hw in
      (c, ac, λ g. ad g ∙ wrap_two o.after_disconnect f (nest (disconnect_inspectors xs) g), r, w)
  apply_options-Applied (with_ws_read_limit l ∷ xs) o rd wr hr hw =
      let (c, ac, ad, r, w) =
        apply_options-Applied xs
          (record o { after_connect = wrap (o.after_connect ∷ read_limit l ∷ []) }) rd wr hr hw in
      (
        c,
        λ g. ac g ∙ wrap_two o.after_connect (read_limit l) (nest (connect_inspectors xs) g),
        ad,
        r,
        w,
      )
  apply_options-Applied (with_pong_renewal t ∷ xs) o rd wr hr hw =
      let (c, ac, ad, r, w) =
        apply_options-Applied xs
          (record o { after_connect = wrap (o.after_connect ∷ pong_renewal t ∷ []) }) rd wr hr hw in
      (
        c,
        λ g. ac g ∙ wrap_two o.after_connect (pong_renewal t) (nest (connect_inspectors xs) g),
        ad,
        r,
        w,
      )

-- What a list of options makes of a server's options.
abbrev pub Nests {ℓ} : {H : Type ℓ} → (H → H) → ℕ → List (ServerOption H) → Options H → Type ℓ
Nests {H = H} recovery cpus xs r =
    (r.conf ≡ last_conf xs (default_config cpus))
    × ((f : InspectorFunc) → r.after_connect f ≡ nest (connect_inspectors xs) f)
    × ((f : InspectorFunc) → r.after_disconnect f ≡ nest (disconnect_inspectors xs) f)
    × (r.read_filter ≡ some (λ (h : H). nest (recovery ∷ read_filters xs) h))
    × (r.write_filter ≡ some (λ (h : H). nest (recovery ∷ write_filters xs) h))

-- `NewOptions` takes the last configuration given, or the default one. It nests the inspectors of
-- connections and of disconnections, and the filters of reads and of writes, each in the order of
-- the options, the first one outermost, the filters inside the recovery. That `middleware.Chain` nests
-- is a hypothesis.
pub new_options-Nests {ℓ} :
    {H : Type ℓ} (chain : List (H → H) → H → H) (recovery : H → H) (cpus : ℕ)
    (xs : List (ServerOption H))
    → ((ms : List (H → H)) (h : H) → chain ms h ≡ nest ms h)
    → Nests recovery cpus xs (new_options chain recovery cpus xs)
unfolding new_options empty_inspector
new_options-Nests chain recovery cpus xs chains =
    let (c, ac, ad, r, w) =
      apply_options-Applied chain chains xs (initial_options chain recovery cpus)
        (chain (recovery ∷ [])) (chain (recovery ∷ [])) refl refl in
    (
      c,
      ac,
      ad,
      r ∙ ap some (fun_ext (λ h. chains (recovery ∷ []) (nest (read_filters xs) h))),
      w ∙ ap some (fun_ext (λ h. chains (recovery ∷ []) (nest (write_filters xs) h))),
    )
