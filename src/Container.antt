-- ===== src/Container.antt =====
-- x/container/container.go: the container that creates each provider once and caches it. The factory
-- is a parameter; it acts on a world `W`.
pub mod Cache
pub mod Get
mod Tests
use gonesis.Prelude.{Text, Bool, Option, none, some, [], Result, ok, err, if◌then◌else◌}
use gonesis.Strings.{contains}
use gonesis.Dict.{Dict, lookup, insert}
use gonesis.Config.{AppConfig, ProviderConfig, provider_model}

pub record Container (P : Type 0) : Type 0 where
  pub cfg : AppConfig
  pub cache : Dict P

pub data ContainerError : Type 0 where
  unknown_alias bad_format unknown_provider : Text → ContainerError
  create_failed : Text → Text → ContainerError

abbrev pub Factory : Type 0 → Type 0 → Type 0
Factory W P = Text → Text → ProviderConfig → W → Result Text P × W

-- `New`
abbrev pub new_container : {P : Type 0} → AppConfig → Container P
new_container cfg = record { cfg = cfg; cache = [] }

-- A reference without a slash is an alias.
pub resolve : AppConfig → Text → Option Text
resolve cfg model = if contains 47 model then some model else lookup model cfg.models

abbrev pub GetResult : Type 0 → Type 0 → Type 0
GetResult W P = (Result ContainerError P × Container P) × W

-- A provider that the factory has made is cached.
pub created : {W P : Type 0} → Text → Text → Container P → Result Text P × W → GetResult W P
created resolved name c (ok p, w) = ((ok p, record c { cache = insert resolved p c.cache }), w)
created resolved name c (err e, w) = ((err (create_failed name e), c), w)

module _ {W P : Type 0} (factory : Factory W P) where
  pub get_resolved : Text → Text → Text → Container P → W → GetResult W P
  get_resolved resolved name model c w = elim (lookup resolved c.cache) [
    | some p ↦ ((ok p, c), w)
    | none ↦ elim (lookup name c.cfg.providers) [
      | none ↦ ((err (unknown_provider name), c), w)
      | some pc ↦ created resolved name c (factory name model pc w)
    ]
  ]

  -- `Get`
  pub get : Text → Container P → W → GetResult W P
  get model c w = elim (resolve c.cfg model) [
    | none ↦ ((err (unknown_alias model), c), w)
    | some resolved ↦ elim (provider_model resolved) [
      | none ↦ ((err (bad_format resolved), c), w)
      | some (name, m) ↦ get_resolved resolved name m c w
    ]
  ]
