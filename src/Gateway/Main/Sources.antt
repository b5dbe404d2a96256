-- ===== src/Gateway/Main/Sources.antt =====
-- From where the gateway takes its configuration.
use kratos_micro_layout.Prelude.{
  if◌then◌else◌, ◌≡◌, refl, true, false, List, [], ◌∷◌, ◌++◌, Text, is_empty, Bool-cases, inl, inr,
  ◌⊎◌,
}
use kratos_micro_layout.Prelude.Result.{ok, Result-cases}
use kratos_micro_layout.Nacos.{ConfigSource, Environment, new_config_source}
use kratos_micro_layout.Gateway.Breaker.{Floats}
use kratos_micro_layout.Gateway.Main.{
  Bootstrap, Source, remote, ConfigLibrary, local_config, final_config, Event, opened, closed,
  config_client, nacos_options, nacos_config_data_id, local_sources, load_final, load_remote,
  load_config,
}

module _ {C D E : Type 0} (f : Floats) (nacos : Environment C D E)
    (lib : ConfigLibrary D E f.Float) where
  -- The configuration library reads a bootstrap from these sources.
  abbrev pub Reads : List (Source D) → lib.Config → Bootstrap f.Float → Type 0
  Reads sources c bc = (lib.load sources ≡ ok c) × (lib.scan c ≡ ok bc)

  load_final-ok :
      (sources : List (Source D)) (c : lib.Config) (bc : Bootstrap f.Float)
      → (load_final f nacos lib sources).0 ≡ ok (c, bc)
      → ((load_final f nacos lib sources).1 ≡ opened final_config ∷ []) × Reads sources c bc
  unfolding load_final
  load_final-ok sources c bc h = elim (Result-cases (lib.load sources)) [
    | inr (e, failed) ↦ absurd (cc (h, failed))
    | inl (c', loaded) ↦ elim (Result-cases (lib.scan c')) [
      | inr (e, failed) ↦ absurd (cc (h, loaded, failed))
      | inl (bc', scanned) ↦
          let done : load_final f nacos lib sources ≡ (ok (c', bc'), opened final_config ∷ []) =
            rw (loaded, scanned, load_final) refl in
          (cc (done), (cc (h, done, loaded), cc (h, done, scanned)))
    ]
  ]

  -- Where the final configuration comes from: the file and the environment, and with a Nacos address
  -- in what these say, the configuration of this Nacos behind them.
  abbrev pub IsLayered : Text → Bootstrap f.Float → List (Source D) → Type 0
  IsLayered flagconf bc sources =
      ((is_empty bc.registry.address ≡ true) × (sources ≡ local_sources flagconf))
      ⊎ ((is_empty bc.registry.address ≡ false)
          × (cli : D) × (source : ConfigSource) × (new_config_source nacos
                (nacos_options bc.registry) nacos_config_data_id
              ≡ ok (cli, source))
          × (sources ≡ local_sources flagconf ++ remote cli source ∷ []))

  -- What the second phase opens for a local configuration
  abbrev pub remote_events : Bootstrap f.Float → List Event
  remote_events local =
      if is_empty local.registry.address
      then opened final_config ∷ []
      else opened config_client ∷ opened final_config ∷ []

  load_remote-ok :
      (flagconf : Text) (local : Bootstrap f.Float) (c : lib.Config) (bc : Bootstrap f.Float)
      → (load_remote f nacos lib flagconf local).0 ≡ ok (c, bc)
      → ((load_remote f nacos lib flagconf local).1 ≡ remote_events local)
        × (sources : List (Source D)) × IsLayered flagconf local sources
        × Reads sources c bc
  unfolding load_remote
  load_remote-ok flagconf local c bc h = elim (Bool-cases (is_empty local.registry.address)) [
    | inl without ↦
        let (events, reads) = load_final-ok (local_sources flagconf) c bc (rw without at h) in
        (rw (without, events) refl, local_sources flagconf, inl (without, refl), reads)
    | inr with_address ↦
        elim (Result-cases
          (new_config_source nacos (nacos_options local.registry) nacos_config_data_id)) [
            | inr (e, failed) ↦ absurd (cc (h, with_address, failed))
            | inl ((cli, source), made) ↦
                let sources = local_sources flagconf ++ remote cli source ∷ [] in
                let (events, reads) = load_final-ok sources c bc (rw (with_address, made) at h) in
                (
                  rw (with_address, made, events) refl,
                  sources,
                  inr (with_address, cli, source, made, refl),
                  reads,
                )
          ]
  ]

  -- A configuration that loadConfig returns was read from the file and the environment alone or,
  -- exactly if these give a Nacos address, from both with this Nacos behind them; the local one has
  -- been closed before, and then the client of this Nacos, if there is one, and the final one are open.
  pub load_config_sources :
      (flagconf : Text) (c : lib.Config) (bc : Bootstrap f.Float)
      → (load_config f nacos lib flagconf).0 ≡ ok (c, bc)
      → (first : lib.Config) × (local : Bootstrap f.Float) × Reads
          (local_sources flagconf)
          first
          local
        × (sources : List (Source D)) × IsLayered flagconf local sources
        × Reads sources c bc
        × ((load_config f nacos lib flagconf).1
            ≡ opened local_config ∷ closed local_config ∷ remote_events local)
  unfolding load_config
  load_config_sources flagconf c bc h = elim (Result-cases (lib.load (local_sources flagconf))) [
    | inr (e, failed) ↦ absurd (cc (h, failed))
    | inl (first, loaded) ↦ elim (Result-cases (lib.scan first)) [
      | inr (e, failed) ↦ absurd (cc (h, loaded, failed))
      | inl (local, scanned) ↦
          let (events, sources, layered, reads) =
            load_remote-ok flagconf local c bc (rw (loaded, scanned, load_config) at h) in
          (
            first,
            local,
            (loaded, scanned),
            sources,
            layered,
            reads,
            rw (loaded, scanned, events, load_config) refl,
          )
    ]
  ]
