-- ===== src/Config.antt =====
-- x/config/load.go: loading and validating the configuration. The file system, the YAML parser and
-- the environment are parameters. A Go map is a list in the order in which one `range` visits it.
pub mod Valid
pub mod Load
mod Tests
use gonesis.Prelude.{
  ℕ, ℤ, Text, codes, Bool, true, false, Option, none, some, List, [], ◌∷◌, if◌then◌else◌, ◌==◌,
  Result, ok, err, ◌>>=◌,
}
use gonesis.Strings.{contains, has_prefix, split_n2}
use gonesis.Dict.{Dict, lookup, has_key}

pub record ProviderConfig : Type 0 where
  pub type_name : Text
  pub api_key : Text
  pub base_url : Text
  pub google_search : Bool

pub record GrepConfig : Type 0 where
  pub max_results : ℤ
  pub max_file_size_bytes : ℤ

pub record BashConfig : Type 0 where
  pub max_timeout_seconds : ℤ
  pub head_bytes : ℤ
  pub tail_bytes : ℤ

pub record ToolsConfig : Type 0 where
  pub grep : GrepConfig
  pub bash : BashConfig

-- `Config`
pub record AppConfig : Type 0 where
  pub providers : Dict ProviderConfig
  pub models : Dict Text
  pub default_model : Text
  pub memory_model : Text
  pub telegram_token : Text
  pub tools : ToolsConfig

-- The errors of a model reference, and of `Load`.
pub data RefError : Type 0 where
  bad_format : Text → RefError
  unknown_provider : Text → RefError
  unknown_alias : Text → RefError

pub data ConfigError : Type 0 where
  read_failed parse_failed : Text → ConfigError
  provider_env_unset : Text → Text → ConfigError
  env_unset : Text → ConfigError
  no_providers : ConfigError
  slash_in_alias : Text → ConfigError
  bad_alias : Text → RefError → ConfigError
  no_default_model : ConfigError
  bad_default_model bad_memory_model : RefError → ConfigError
  no_type : Text → ConfigError

-- What is before a closing parenthesis that ends the text and is the only one.
pub before_close : Text → Option Text
before_close [] = none
before_close (c ∷ []) = if c == 41 then some [] else none
before_close (c ∷ d ∷ s) =
    let rest = before_close (d ∷ s) in
    if c == 41 then none else elim rest [ none ↦ none | some name ↦ some (c ∷ name) ]

-- The submatch of `envPattern`, that is of `^env\(([^)]+)\)$`.
pub env_name : Text → Option Text
unfolding has_prefix before_close
env_name (c ∷ d ∷ e ∷ f ∷ s) =
    if has_prefix (codes "env(") (c ∷ d ∷ e ∷ f ∷ [])
    then (elim (before_close s) [
      | none ↦ none
      | some [] ↦ none
      | some (g ∷ name) ↦ some (g ∷ name)
    ])
    else none
env_name s = none

-- `resolveEnvValue`: a plain value, a variable that is not set, or the variable's value.
pub data EnvValue : Type 0 where
  plain unset resolved : Text → EnvValue

abbrev pub known_base_url : Text → Option Text
known_base_url type_name = lookup type_name (
    (codes "mistral", codes "https://api.mistral.ai/v1")
    ∷ (codes "regolo", codes "https://api.regolo.ai/v1")
    ∷ (codes "ollama", codes "http://localhost:11434/v1")
    ∷ [])

module _ (lookup_env : Text → Option Text) where
  pub resolve_env_value : Text → EnvValue
  resolve_env_value val = elim (env_name val) [
    | none ↦ plain val
    | some var ↦ elim (lookup_env var) [ none ↦ unset var | some value ↦ resolved value ]
  ]

  -- A field with its reference replaced, or the variable that is not set.
  pub resolve_field : Text → Result Text Text
  resolve_field val = elim (resolve_env_value val) [
    | plain v ↦ ok v
    | unset var ↦ err var
    | resolved v ↦ ok v
  ]

  pub wrap_err : {A : Type 0} → (Text → ConfigError) → Result Text A → Result ConfigError A
  wrap_err f (ok a) = ok a
  wrap_err f (err var) = err (f var)

  pub resolve_provider : Text → ProviderConfig → Result ConfigError ProviderConfig
  resolve_provider name p = wrap_err (provider_env_unset name) (resolve_field p.api_key) >>= (λ key.
      wrap_err (provider_env_unset name) (resolve_field p.base_url)
      >>= (λ url. ok (record p { api_key = key; base_url = url })))

  pub resolve_providers : Dict ProviderConfig → Result ConfigError (Dict ProviderConfig)
  resolve_providers [] = ok []
  resolve_providers ((name, p) ∷ ps) =
      resolve_provider name p >>= (λ q. resolve_providers ps >>= (λ qs. ok ((name, q) ∷ qs)))

  -- `resolveEnv`
  pub resolve_env : AppConfig → Result ConfigError AppConfig
  resolve_env c = resolve_providers c.providers >>= (λ providers.
      wrap_err env_unset (resolve_field c.telegram_token) >>= (λ token.
        wrap_err env_unset (resolve_field c.default_model) >>= (λ default_model.
          wrap_err env_unset (resolve_field c.memory_model) >>= (λ memory_model. ok (record c {
            providers = providers;
            default_model = default_model;
            memory_model = memory_model;
            telegram_token = token;
          })))))

pub with_default_url : ProviderConfig → ProviderConfig
with_default_url p = elim p.base_url [
  | [] ↦ elim (known_base_url p.type_name) [ none ↦ p | some url ↦ record p { base_url = url } ]
  | c ∷ s ↦ p
]

pub default_urls : Dict ProviderConfig → Dict ProviderConfig
default_urls [] = []
default_urls ((name, p) ∷ ps) = (name, with_default_url p) ∷ default_urls ps

-- `applyProviderDefaults`
pub apply_provider_defaults : AppConfig → AppConfig
apply_provider_defaults c = record c { providers = default_urls c.providers }

-- Both parts of `provider/model`, if there are two and neither is empty.
unfoldable pub two_parts : List Text → Option (Text × Text)
two_parts ((c ∷ p) ∷ (d ∷ m) ∷ []) = some (c ∷ p, d ∷ m)
two_parts parts = none

unfoldable pub provider_model : Text → Option (Text × Text)
provider_model s = two_parts (split_n2 47 s)

-- `validateProviderModel`; no error is `none`.
unfoldable pub validate_provider_model : AppConfig → Text → Option RefError
validate_provider_model c s = elim (provider_model s) [
  | none ↦ some (bad_format s)
  | some (provider, model) ↦
      if has_key provider c.providers then none else some (unknown_provider provider)
]

-- `ValidateModelRef`
unfoldable pub validate_model_ref : AppConfig → Text → Option RefError
validate_model_ref c s =
    if contains 47 s
    then validate_provider_model c s
    else (if has_key s c.models then none else some (unknown_alias s))

unfoldable pub check_ref : (RefError → ConfigError) → Option RefError → Result ConfigError Unit
check_ref f none = ok tt
check_ref f (some e) = err (f e)

unfoldable pub check_aliases : AppConfig → Dict Text → Result ConfigError Unit
check_aliases c [] = ok tt
check_aliases c ((name, target) ∷ aliases) =
    let rest = check_aliases c aliases in
    if contains 47 name
    then err (slash_in_alias name)
    else (check_ref (bad_alias name) (validate_provider_model c target) >>= (λ u. rest))

unfoldable pub check_type : Text → Text → Result ConfigError Unit
check_type name [] = err (no_type name)
check_type name (c ∷ s) = ok tt

unfoldable pub check_types : Dict ProviderConfig → Result ConfigError Unit
check_types [] = ok tt
check_types ((name, p) ∷ ps) = check_type name p.type_name >>= (λ u. check_types ps)

unfoldable pub check_default : AppConfig → Text → Result ConfigError Unit
check_default c [] = err no_default_model
check_default c (d ∷ s) = check_ref bad_default_model (validate_model_ref c (d ∷ s))

unfoldable pub check_memory : AppConfig → Text → Result ConfigError Unit
check_memory c [] = ok tt
check_memory c (d ∷ s) = check_ref bad_memory_model (validate_model_ref c (d ∷ s))

unfoldable pub check_some_provider : Dict ProviderConfig → Result ConfigError Unit
check_some_provider [] = err no_providers
check_some_provider (p ∷ ps) = ok tt

-- `validate`
unfoldable pub validate : AppConfig → Result ConfigError Unit
validate c = check_some_provider c.providers >>= (λ u. check_aliases c c.models >>= (λ u.
    check_default c c.default_model
    >>= (λ u. check_memory c c.memory_model >>= (λ u. check_types c.providers))))

pub validated : AppConfig → Result ConfigError AppConfig
validated c = validate c >>= (λ u. ok c)

-- `Load`
pub load :
    {B : Type 0}
    → (Text → Result Text B)
    → (B → Result Text AppConfig)
    → (Text → Option Text)
    → Text
    → Result ConfigError AppConfig
load read_file unmarshal lookup_env path = elim (read_file path) [
  | err e ↦ err (read_failed e)
  | ok raw ↦ elim (unmarshal raw) [
    | err e ↦ err (parse_failed e)
    | ok c ↦ resolve_env lookup_env c >>= (λ r. validated (apply_provider_defaults r))
  ]
]
