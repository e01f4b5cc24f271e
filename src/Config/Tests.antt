-- ===== src/Config/Tests.antt =====
-- A config with one provider and an alias, loaded from a file.
use gonesis.Prelude.{
  ℕ, Text, text_eq, codes, false, Option, some, [], ◌∷◌, Result, ok, ◌≡◌, ◌↔◌, refl, All, pos,
}
use gonesis.Strings.{contains, has_prefix, split_n2}
use gonesis.Dict.{lookup, has_key}
use gonesis.Config.{
  AppConfig, ConfigError, ToolsConfig, before_close, env_name, resolve_env_value, resolve_field,
  resolve_provider, resolve_providers, resolve_env, wrap_err, with_default_url, default_urls,
  apply_provider_defaults, provider_model, two_parts, validate_provider_model, validate_model_ref,
  check_ref, check_aliases, check_type, check_types, check_default, check_memory,
  check_some_provider, validate, validated, load,
}
use gonesis.Config.Valid.{IsValid, validate-IsValid}
use gonesis.Config.Load.{HasUrl, load-IsValid}

abbrev no_tools : ToolsConfig
no_tools = record {
  grep = record { max_results = pos 0; max_file_size_bytes = pos 0 };
  bash = record { max_timeout_seconds = pos 0; head_bytes = pos 0; tail_bytes = pos 0 };
}

abbrev config_with : Text → Text → AppConfig
config_with key url = record {
  providers =
      (
        codes "m",
        record {
          type_name = codes "mistral";
          api_key = key;
          base_url = url;
          google_search = false;
        },
      )
      ∷ [];
  models = (codes "fast", codes "m/small") ∷ [];
  default_model = codes "fast";
  memory_model = codes "m/big";
  telegram_token = [];
  tools = no_tools;
}

-- The file's config, and what it loads as.
abbrev written : AppConfig
written = config_with (codes "env(KEY)") []

abbrev loaded : AppConfig
loaded = config_with (codes "secret") (codes "https://api.mistral.ai/v1")

abbrev environment : Text → Option Text
environment var = some (codes "secret")

abbrev load_it : Result ConfigError AppConfig
load_it = load {B = ℕ} (λ path. ok 0) (λ raw. ok written) environment (codes "wildgecu.yaml")

it_loads : load_it ≡ ok loaded
unfolding load resolve_env resolve_providers resolve_provider resolve_field resolve_env_value
    env_name before_close has_prefix wrap_err with_default_url default_urls apply_provider_defaults
    provider_model two_parts split_n2 validate_provider_model validate_model_ref check_ref
    check_aliases check_type check_types check_default check_memory check_some_provider validate
    validated contains has_key lookup text_eq
it_loads = refl

load-IsValid_example : IsValid loaded × All HasUrl loaded.providers
load-IsValid_example =
    load-IsValid {B = ℕ} (λ path. ok 0) (λ raw. ok written) environment (codes "wildgecu.yaml")
      loaded it_loads

validate-IsValid_example : (validate loaded ≡ ok tt) ↔ IsValid loaded
validate-IsValid_example = validate-IsValid loaded
