-- ===== src/Config/Valid.antt =====
-- What a config that `validate` accepts is.
use gonesis.Prelude.{
  Text, true, false, Option, none, some, [], ◌∷◌, ok, bind-ok, ◌≡◌, ◌≢◌, ◌⊎◌, ◌↔◌, inl, inr, refl,
  All, Option-cases, Bool-cases, arith, if◌then◌else◌,
}
use gonesis.Strings.{contains}
use gonesis.Dict.{Dict, lookup, has_key}
use gonesis.Dict.Laws.{has_key_lem, lookup_of_has_key}
use gonesis.Config.{
  AppConfig, ProviderConfig, RefError, ConfigError, unknown_alias, bad_alias, bad_default_model,
  bad_memory_model, check_type, provider_model, validate_provider_model, validate_model_ref,
  check_ref, check_aliases, check_types, check_default, check_memory, check_some_provider, validate,
}

-- The text reads `provider/model`, and the provider is configured.
pub record IsTarget (c : AppConfig) (s : Text) : Type 0 where
  pub provider : Text
  pub model : Text
  pub provider_config : ProviderConfig
  pub parts : provider_model s ≡ some (provider, model)
  pub configured : lookup provider c.providers ≡ some provider_config

-- A reference is such a text, or else an alias.
abbrev pub IsRef : AppConfig → Text → Type 0
IsRef c s =
    ((contains 47 s ≡ true) × IsTarget c s)
    ⊎ ((contains 47 s ≡ false) × ((target : Text) × (lookup s c.models ≡ some target)))

abbrev pub AliasIsValid : AppConfig → Text × Text → Type 0
AliasIsValid c (name, target) = (contains 47 name ≡ false) × IsTarget c target

pub record IsValid (c : AppConfig) : Type 0 where
  pub some_provider : c.providers ≢ []
  pub aliases : All (AliasIsValid c) c.models
  pub default_given : c.default_model ≢ []
  pub default_ref : IsRef c c.default_model
  pub memory_ref : c.memory_model ≢ [] → IsRef c c.memory_model
  pub types : All (λ (e : Text × ProviderConfig). e.1.type_name ≢ []) c.providers

pub validate_provider_model-IsTarget :
    (c : AppConfig) (s : Text) → (validate_provider_model c s ≡ none) ↔ IsTarget c s
unfolding validate_provider_model
validate_provider_model-IsTarget c s = (there, back)
  where
    there : validate_provider_model c s ≡ none → IsTarget c s
    there h = elim (Option-cases (provider_model s)) [
      | inl e ↦ absurd (wrong (rw (e, validate_provider_model) at h))
      | inr ((provider, model), e) ↦ elim (Bool-cases (has_key provider c.providers)) [
        | inl k ↦
            let (pc, found) = lookup_of_has_key provider c.providers k in
            record {
              provider = provider;
              model = model;
              provider_config = pc;
              parts = e;
              configured = found;
            }
        | inr k ↦ absurd (wrong (rw (e, k, validate_provider_model) at h))
      ]
    ]
      where
        wrong : {e : RefError} → some e ≢ none
        wrong e = cc

    back : IsTarget c s → validate_provider_model c s ≡ none
    back t =
        rw
          (
            t.parts,
            has_key_lem t.provider c.providers t.provider_config t.configured,
            validate_provider_model,
          )
          refl

pub validate_model_ref-IsRef :
    (c : AppConfig) (s : Text) → (validate_model_ref c s ≡ none) ↔ IsRef c s
unfolding validate_model_ref
validate_model_ref-IsRef c s = elim (Bool-cases (contains 47 s)) [
  | inl e ↦
      let (there, back) = validate_provider_model-IsTarget c s in
      (
        λ h. inl (e, there (rw (e, validate_model_ref) at h)),
        λ h. rw (e, validate_model_ref) (back (target_of e h)),
      )
  | inr e ↦ (
    λ h. inr (e, alias_of (rw (e, validate_model_ref) at h)),
    λ h. rw (e, validate_model_ref) (no_error e h),
  )
]
  where
    target_of : contains 47 s ≡ true → IsRef c s → IsTarget c s
    target_of e (inl (e', t)) = t
    target_of e (inr (e', t)) = absurd (ground (arith, e, e'))

    alias_of :
        (if has_key s c.models then none else some (unknown_alias s)) ≡ none
        → (target : Text) × (lookup s c.models ≡ some target)
    alias_of h = elim (Bool-cases (has_key s c.models)) [
      | inl k ↦ lookup_of_has_key s c.models k
      | inr k ↦ absurd (ground (arith, k, h))
    ]

    no_error :
        contains 47 s ≡ false
        → IsRef c s
        → (if has_key s c.models then none else some (unknown_alias s)) ≡ none
    no_error e (inl (e', t)) = absurd (ground (arith, e, e'))
    no_error e (inr (e', (target, found))) = rw (has_key_lem s c.models target found) refl

check_ref-ok :
    (f : RefError → ConfigError) (o : Option RefError) → (check_ref f o ≡ ok tt) ↔ (o ≡ none)
unfolding check_ref
check_ref-ok f none = (λ h. refl, λ h. refl)
check_ref-ok f (some e) = (λ h. cc, λ h. cc)

check_aliases-All :
    (c : AppConfig) (aliases : Dict Text)
    → (check_aliases c aliases ≡ ok tt) ↔ All (AliasIsValid c) aliases
unfolding check_aliases
check_aliases-All c [] = (λ h. tt, λ h. refl)
check_aliases-All c ((name, target) ∷ aliases) =
    (there (check_aliases-All c aliases), back (check_aliases-All c aliases))
  where
    there :
        (check_aliases c aliases ≡ ok tt) ↔ All (AliasIsValid c) aliases
        → check_aliases c ((name, target) ∷ aliases) ≡ ok tt
        → All (AliasIsValid c) ((name, target) ∷ aliases)
    there others h = elim (Bool-cases (contains 47 name)) [
      | inl e ↦ absurd (ground (arith, e, h))
      | inr e ↦
          let (u, checked, rest) =
            bind-ok (check_ref (bad_alias name) (validate_provider_model c target)) _ tt
              (rw (e, check_aliases) at h) in
          (
            (
              e,
              (validate_provider_model-IsTarget c target).0
                  ((check_ref-ok (bad_alias name) _).0 checked),
            ),
            others.0 rest,
          )
    ]

    back :
        (check_aliases c aliases ≡ ok tt) ↔ All (AliasIsValid c) aliases
        → All (AliasIsValid c) ((name, target) ∷ aliases)
        → check_aliases c ((name, target) ∷ aliases) ≡ ok tt
    back others ((e, t), rest) =
        let checked = (validate_provider_model-IsTarget c target).1 t in
        rw (e, (check_ref-ok (bad_alias name) _).1 checked, check_aliases) (others.1 rest)

check_type-ok : (name s : Text) → (check_type name s ≡ ok tt) ↔ (s ≢ [])
unfolding check_type
check_type-ok name [] = (λ h. cc, λ h. absurd (h refl))
check_type-ok name (c ∷ s) = (λ h e. cc, λ h. refl)

check_types-All :
    (ps : Dict ProviderConfig)
    → (check_types ps ≡ ok tt) ↔ All (λ (e : Text × ProviderConfig). e.1.type_name ≢ []) ps
unfolding check_types
check_types-All [] = (λ h. tt, λ h. refl)
check_types-All ((name, p) ∷ ps) = (
  λ h.
      let (u, first, rest) = bind-ok (check_type name p.type_name) _ tt h in
      ((check_type-ok name p.type_name).0 first, (check_types-All ps).0 rest),
  λ (some_type, rest).
      rw ((check_type-ok name p.type_name).1 some_type, check_types) ((check_types-All ps).1 rest),
)

check_default-IsRef :
    (c : AppConfig) (s : Text) → (check_default c s ≡ ok tt) ↔ ((s ≢ []) × IsRef c s)
unfolding check_default
check_default-IsRef c [] = (λ h. cc, λ (given, r). absurd (given refl))
check_default-IsRef c (d ∷ s) =
    let checked = check_ref-ok bad_default_model (validate_model_ref c (d ∷ s)) in
    let ref = validate_model_ref-IsRef c (d ∷ s) in
    (λ h. (λ e. cc, ref.0 (checked.0 h)), λ (given, r). checked.1 (ref.1 r))

check_memory-IsRef : (c : AppConfig) (s : Text) → (check_memory c s ≡ ok tt) ↔ (s ≢ [] → IsRef c s)
unfolding check_memory
check_memory-IsRef c [] = (λ h given. absurd (given refl), λ h. refl)
check_memory-IsRef c (d ∷ s) =
    let checked = check_ref-ok bad_memory_model (validate_model_ref c (d ∷ s)) in
    let ref = validate_model_ref-IsRef c (d ∷ s) in
    (λ h given. ref.0 (checked.0 h), λ h. checked.1 (ref.1 (h (λ e. cc))))

check_some_provider-ok : (ps : Dict ProviderConfig) → (check_some_provider ps ≡ ok tt) ↔ (ps ≢ [])
unfolding check_some_provider
check_some_provider-ok [] = (λ h. cc, λ h. absurd (h refl))
check_some_provider-ok (p ∷ ps) = (λ h e. cc, λ h. refl)

-- `validate` accepts exactly the valid configs: there is a provider, each has a type, each alias is
-- free of slashes and names a model of a configured provider, and the default model, and the memory
-- model if there is one, are such names or aliases.
pub validate-IsValid : (c : AppConfig) → (validate c ≡ ok tt) ↔ IsValid c
unfolding validate
validate-IsValid c = (there, back)
  where
    there : validate c ≡ ok tt → IsValid c
    there h =
        let (u1, provided, h1) = bind-ok (check_some_provider c.providers) _ tt h in
        let (u2, aliases, h2) = bind-ok (check_aliases c c.models) _ tt h1 in
        let (u3, default, h3) = bind-ok (check_default c c.default_model) _ tt h2 in
        let (u4, memory, typed) = bind-ok (check_memory c c.memory_model) _ tt h3 in
        record {
          some_provider = (check_some_provider-ok c.providers).0 provided;
          aliases = (check_aliases-All c c.models).0 aliases;
          default_given = ((check_default-IsRef c c.default_model).0 default).0;
          default_ref = ((check_default-IsRef c c.default_model).0 default).1;
          memory_ref = (check_memory-IsRef c c.memory_model).0 memory;
          types = (check_types-All c.providers).0 typed;
        }

    back : IsValid c → validate c ≡ ok tt
    back v =
        rw
          (
            (check_some_provider-ok c.providers).1 v.some_provider,
            (check_aliases-All c c.models).1 v.aliases,
            (check_default-IsRef c c.default_model).1 (v.default_given, v.default_ref),
            (check_memory-IsRef c c.memory_model).1 v.memory_ref,
            validate,
          )
          ((check_types-All c.providers).1 v.types)
