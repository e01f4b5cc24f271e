-- ===== src/Config/Load.antt =====
-- What a config that `Load` returns is.
use gonesis.Prelude.{
  ℕ, Text, ◌⊎◌, Option, none, some, [], ◌∷◌, Result, ok, err, bind-ok, Result-cases, Option-cases,
  ◌≡◌, ◌≢◌, refl, All, inl, inr,
}
use mathlib.Core.Path.{subst}
use gonesis.Dict.{Dict}
use gonesis.Dict.Laws.{lookup-All}
use gonesis.Config.{
  AppConfig, ProviderConfig, ConfigError, known_base_url, with_default_url, default_urls,
  apply_provider_defaults, resolve_env, validate, validated, load,
}
use gonesis.Config.Valid.{IsValid, validate-IsValid}

-- A provider of a type with a known URL has a URL.
abbrev pub HasUrl : Text × ProviderConfig → Type 0
HasUrl (name, p) = known_base_url p.type_name ≢ none → p.base_url ≢ []

known_base_url-nonempty : (t url : Text) → known_base_url t ≡ some url → url ≢ []
known_base_url-nonempty t url e =
    lookup-All (λ (entry : Text × Text). entry.1 ≢ []) t _ url (λ q. cc, (λ q. cc, (λ q. cc, tt))) e

url-cases : (s : Text) → (s ≡ []) ⊎ ((c : ℕ) × (rest : Text) × (s ≡ c ∷ rest))
url-cases [] = inl refl
url-cases (c ∷ s) = inr (c, s, refl)

with_default_url-HasUrl : (name : Text) (p : ProviderConfig) → HasUrl (name, with_default_url p)
unfolding with_default_url
with_default_url-HasUrl name p = elim (url-cases p.base_url) [
  | inl e ↦ elim (Option-cases (known_base_url p.type_name)) [
    | inl k ↦ rw (e, k, with_default_url) (λ known. absurd (known k))
    | inr (url, k) ↦
        rw (e, k, with_default_url) (λ known. known_base_url-nonempty p.type_name url k)
  ]
  | inr (c, rest, e) ↦ rw (e, with_default_url) (λ known q. cc)
]

default_urls-All : (ps : Dict ProviderConfig) → All HasUrl (default_urls ps)
unfolding default_urls
default_urls-All [] = tt
default_urls-All ((name, p) ∷ ps) = (with_default_url-HasUrl name p, default_urls-All ps)

validated-ok : (c d : AppConfig) → validated c ≡ ok d → (validate c ≡ ok tt) × (c ≡ d)
unfolding validated
validated-ok c d h = let (u, checked, same) = bind-ok (validate c) _ d h in (checked, cc)

-- A config that `Load` returns is valid, and each provider of a type whose URL is known has a URL.
pub load-IsValid :
    {B : Type 0} (read_file : Text → Result Text B) (unmarshal : B → Result Text AppConfig)
    (lookup_env : Text → Option Text) (path : Text) (c : AppConfig)
    → load read_file unmarshal lookup_env path ≡ ok c
    → IsValid c × All HasUrl c.providers
unfolding load apply_provider_defaults
load-IsValid read_file unmarshal lookup_env path c h = elim (Result-cases (read_file path)) [
  | inr (e, failed) ↦ absurd (err_ne (rw (failed, load) at h))
  | inl (raw, was_read) ↦ elim (Result-cases (unmarshal raw)) [
    | inr (e, failed) ↦ absurd (err_ne (rw (was_read, failed, load) at h))
    | inl (parsed, was_parsed) ↦
        let (r, resolved, last) =
          bind-ok (resolve_env lookup_env parsed) _ c (rw (was_read, was_parsed, load) at h) in
        let (checked, same) = validated-ok (apply_provider_defaults r) c last in
        subst (λ d. IsValid d × All HasUrl d.providers) same
          ((validate-IsValid (apply_provider_defaults r)).0 checked, default_urls-All r.providers)
  ]
]
  where
    err_ne : {e : ConfigError} → err e ≢ ok c
    err_ne e = cc
