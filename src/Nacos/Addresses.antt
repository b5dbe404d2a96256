-- ===== src/Nacos/Addresses.antt =====
-- The addresses of a cluster.
use kratos_micro_layout.Prelude.{ℕ, ◌≡◌, ◌≢◌, Option, List, [], ◌∷◌, Text, codes, inl, inr}
use kratos_micro_layout.Prelude.Result.{Result, ok, err, Result-cases}
use kratos_micro_layout.Text.{join, split}
use kratos_micro_layout.Text.Laws.{join-split}
use kratos_micro_layout.Nacos.{
  Options, ServerConfig, AddressError, server_config, server_configs_of, server_configs,
}

-- Each part gives the server at its place.
abbrev pub Pairs :
    (Text → Result AddressError ServerConfig) → List Text → List ServerConfig → Type 0
Pairs f [] [] = Unit {0}
Pairs f (p ∷ ps) (sc ∷ scs) = (f p ≡ ok sc) × Pairs f ps scs
Pairs f _ _ = ⊥

err_ok :
    {e : AddressError} {scs : List ServerConfig}
    → ◌≢◌ {A = Result AddressError (List ServerConfig)} (err e) (ok scs)
err_ok e = cc

cons_of :
    (sc : ServerConfig) (rest scs : List ServerConfig)
    → ◌≡◌ {A = Result AddressError (List ServerConfig)} (ok (sc ∷ rest)) (ok scs)
    → scs ≡ sc ∷ rest
cons_of sc rest scs h = cc

module _ (split_host_port : Text → Option (Text × Text)) (scan_uint : Text → Option ℕ) where
  server_configs_of-Pairs :
      (parts : List Text) (scs : List ServerConfig)
      → server_configs_of split_host_port scan_uint parts ≡ ok scs
      → Pairs (server_config split_host_port scan_uint) parts scs
  unfolding server_configs_of
  server_configs_of-Pairs [] [] h = tt
  server_configs_of-Pairs [] (sc ∷ scs) h = cc
  server_configs_of-Pairs (p ∷ ps) scs h =
      elim (Result-cases (server_config split_host_port scan_uint p)) [
        | inr (e, bad) ↦ absurd (err_ok (rw bad at h))
        | inl (sc, good) ↦ elim (Result-cases (server_configs_of split_host_port scan_uint ps)) [
          | inr (e, bad) ↦ absurd (err_ok (rw (good, bad) at h))
          | inl (rest, parsed) ↦
              rw (cons_of sc rest scs (rw (good, parsed) at h))
                (good, server_configs_of-Pairs ps rest parsed)
        ]
      ]

  -- Where the address is accepted, each server is that of the part at its place, and the parts
  -- joined by commas are the address.
  pub server_configs-Pairs :
      (o : Options) (scs : List ServerConfig)
      → server_configs split_host_port scan_uint o ≡ ok scs
      → (parts : List Text) × (join parts (codes ",") ≡ o.address)
        × Pairs (server_config split_host_port scan_uint) parts scs
  unfolding server_configs
  server_configs-Pairs o scs h = (
    split o.address b',',
    join-split o.address b',',
    server_configs_of-Pairs (split o.address b',') scs h,
  )
