-- ===== src/Container/Get.antt =====
-- What `Get` returns.
use gonesis.Prelude.{
  Text, text_eq_refl, some, Result, ok, err, Option-cases, ◌≡◌, inl, inr, refl, ◌∙◌,
}
use mathlib.Core.Path.{subst}
use gonesis.Dict.{lookup, insert}
use gonesis.Dict.Laws.{lookup-insert, lookup-All}
use gonesis.Config.{provider_model}
use gonesis.Config.Valid.{IsTarget, IsRef, IsValid, AliasIsValid}
use gonesis.Container.{
  Container, ContainerError, create_failed, Factory, resolve, created, GetResult, get_resolved, get,
}

module _ {W P : Type 0} (factory : Factory W P) where
  -- A result that a second call only reads from the cache.
  abbrev Again : Text → GetResult W P → Type 0
  Again model ((ok p, c), w) = (v : W) → get factory model c v ≡ ((ok p, c), v)
  Again model ((err e, c), w) = Unit

  -- A call that finds its provider in the cache.
  get_hit :
      (model resolved name m : Text) (p : P) (c : Container P) (v : W)
      → resolve c.cfg model ≡ some resolved
      → provider_model resolved ≡ some (name, m)
      → lookup resolved c.cache ≡ some p
      → get factory model c v ≡ ((ok p, c), v)
  unfolding get get_resolved
  get_hit model resolved name m p c v e parts hit = rw (e, parts, hit, get, get_resolved) refl

  created-Again :
      (model resolved name m : Text) (c : Container P) (r : Result Text P × W)
      → resolve c.cfg model ≡ some resolved
      → provider_model resolved ≡ some (name, m)
      → Again model (created resolved name c r)
  unfolding created
  created-Again model resolved name m c (err e, w) r parts = tt
  created-Again model resolved name m c (ok p, w) r parts = λ v.
      get_hit model resolved name m p (record c { cache = insert resolved p c.cache }) v r parts
        (lookup-insert resolved resolved p c.cache ∙ rw (text_eq_refl resolved) refl)

  get_resolved-Again :
      (model resolved name m : Text) (c : Container P) (w : W)
      → resolve c.cfg model ≡ some resolved
      → provider_model resolved ≡ some (name, m)
      → Again model (get_resolved factory resolved name m c w)
  unfolding get_resolved
  get_resolved-Again model resolved name m c w e parts =
      elim (Option-cases (lookup resolved c.cache)) [
        | inr (p, hit) ↦
            rw (hit, get_resolved) (λ v. get_hit model resolved name m p c v e parts hit)
        | inl miss ↦ elim (Option-cases (lookup name c.cfg.providers)) [
          | inl out ↦ rw (miss, out, get_resolved) tt
          | inr (pc, found) ↦
              rw (miss, found, get_resolved) (created-Again model resolved name m c _ e parts)
        ]
      ]

  get-Again : (model : Text) (c : Container P) (w : W) → Again model (get factory model c w)
  unfolding get
  get-Again model c w = elim (Option-cases (resolve c.cfg model)) [
    | inl e ↦ rw (e, get) tt
    | inr (resolved, e) ↦ elim (Option-cases (provider_model resolved)) [
      | inl bad ↦ rw (e, bad, get) tt
      | inr ((name, m), parts) ↦
          rw (e, parts, get) (get_resolved-Again model resolved name m c w e parts)
    ]
  ]

  -- After a call that returned a provider, the same reference gives the same provider, without the
  -- factory and without a change of the cache.
  pub get_again :
      (model : Text) (c c' : Container P) (w w' v : W) (p : P)
      → get factory model c w ≡ ((ok p, c'), w')
      → get factory model c' v ≡ ((ok p, c'), v)
  get_again model c c' w w' v p e = subst (Again model) e (get-Again model c w) v

  -- Only the factory has failed.
  abbrev OnlyFactory : GetResult W P → Type 0
  OnlyFactory r =
      (e : ContainerError) → r.0.0 ≡ err e → (name msg : Text) × (e ≡ create_failed name msg)

  created-OnlyFactory :
      (resolved name : Text) (c : Container P) (r : Result Text P × W)
      → OnlyFactory (created resolved name c r)
  unfolding created
  created-OnlyFactory resolved name c (ok p, w) e h = cc
  created-OnlyFactory resolved name c (err msg, w) e h = (name, msg, cc)

  target-OnlyFactory :
      (model resolved : Text) (c : Container P) (w : W)
      → resolve c.cfg model ≡ some resolved
      → IsTarget c.cfg resolved
      → OnlyFactory (get factory model c w)
  unfolding get get_resolved
  target-OnlyFactory model resolved c w e t = elim (Option-cases (lookup resolved c.cache)) [
    | inr (p, hit) ↦ rw (e, t.parts, hit, get, get_resolved) (λ x h. cc)
    | inl miss ↦
        rw (e, t.parts, miss, t.configured, get, get_resolved)
          (created-OnlyFactory resolved t.provider c _)
  ]

  -- With a valid config, `Get` of one of its references, the default model for example, returns a
  -- provider or the error of the factory: no alias, format or provider is unknown.
  pub get-OnlyFactory :
      (model : Text) (c : Container P) (w : W) (e : ContainerError)
      → IsValid c.cfg
      → IsRef c.cfg model
      → (get factory model c w).0.0 ≡ err e
      → (name msg : Text) × (e ≡ create_failed name msg)
  unfolding resolve
  get-OnlyFactory model c w e valid (inl (slash, target)) =
      target-OnlyFactory model model c w (rw (slash, resolve) refl) target e
  get-OnlyFactory model c w e valid (inr (no_slash, (target, found))) =
      target-OnlyFactory model target c w (rw (no_slash, resolve) found)
        (lookup-All (AliasIsValid c.cfg) model c.cfg.models target valid.aliases found).1 e
