-- ===== src/Container/Cache.antt =====
-- What the container promises: a provider is created once, from the config of its provider, and a
-- reference of a valid config only fails where the factory fails.
use gonesis.Prelude.{Text, some, Result, ok, err, Option-cases, ◌≡◌, inl, inr, refl, sym, ap, ◌∙◌}
use gonesis.Dict.{lookup}
use gonesis.Dict.Laws.{lookup-insert_cases}
use gonesis.Config.{AppConfig, ProviderConfig, provider_model}
use gonesis.Container.{Container, Factory, new_container, resolve, created, get_resolved, get}

module _ {W P : Type 0} (factory : Factory W P) where
  -- Every cached provider came from the factory, for the two parts of its key and the config of that
  -- provider.
  pub record IsSound (c : Container P) : Type 0 where
    pub made :
        (ref : Text) (p : P)
        → lookup ref c.cache ≡ some p
        → (name model : Text) × (pc : ProviderConfig) × (w : W) × (provider_model ref
            ≡ some (name, model))
          × (lookup name c.cfg.providers ≡ some pc)
          × ((factory name model pc w).0 ≡ ok p)

  pub new_container-IsSound : (cfg : AppConfig) → IsSound (new_container cfg)
  unfolding lookup
  new_container-IsSound cfg = record { made = λ ref p e. cc }

  -- One call of the factory, and what is cached of it.
  created-IsSound :
      (resolved name model : Text) (pc : ProviderConfig) (c : Container P) (w : W)
      (r : Result Text P × W)
      → IsSound c
      → provider_model resolved ≡ some (name, model)
      → lookup name c.cfg.providers ≡ some pc
      → factory name model pc w ≡ r
      → IsSound (created resolved name c r).0.1
  unfolding created
  created-IsSound resolved name model pc c w (err e, w') s parts found ran = s
  created-IsSound resolved name model pc c w (ok p, w') s parts found ran = record {
    made = λ ref q h. elim (lookup-insert_cases resolved ref p q c.cache h) [
      | inl (key, value) ↦ (
        name,
        model,
        pc,
        w,
        ap provider_model key ∙ parts,
        found,
        ap (λ r. r.0) ran ∙ ap ok (sym value),
      )
      | inr old ↦ s.made ref q old
    ];
  }

  get_resolved-IsSound :
      (resolved name model : Text) (c : Container P) (w : W)
      → IsSound c
      → provider_model resolved ≡ some (name, model)
      → IsSound (get_resolved factory resolved name model c w).0.1
  unfolding get_resolved
  get_resolved-IsSound resolved name model c w s parts =
      elim (Option-cases (lookup resolved c.cache)) [
        | inr (p, hit) ↦ rw (hit, get_resolved) s
        | inl miss ↦ elim (Option-cases (lookup name c.cfg.providers)) [
          | inl e ↦ rw (miss, e, get_resolved) s
          | inr (pc, e) ↦
              rw (miss, e, get_resolved)
                (created-IsSound resolved name model pc c w _ s parts e refl)
        ]
      ]

  -- `Get` keeps the container sound, whatever the reference: every cached provider came from the
  -- factory, for the two parts of its key and the config of that provider.
  pub get-IsSound :
      (model : Text) (c : Container P) (w : W) → IsSound c → IsSound (get factory model c w).0.1
  unfolding get
  get-IsSound model c w s = elim (Option-cases (resolve c.cfg model)) [
    | inl e ↦ rw (e, get) s
    | inr (resolved, e) ↦ elim (Option-cases (provider_model resolved)) [
      | inl bad ↦ rw (e, bad, get) s
      | inr ((name, m), parts) ↦
          rw (e, parts, get) (get_resolved-IsSound resolved name m c w s parts)
    ]
  ]
