-- ===== src/Container/Tests.antt =====
-- A container of the loaded config of a provider and an alias.
use gonesis.Prelude.{
  ℕ, suc, Text, text_eq, codes, false, some, [], ◌∷◌, ok, err, ◌≡◌, inr, refl, pos,
}
use gonesis.Strings.{contains, split_n2}
use gonesis.Dict.{lookup, insert, has_key}
use gonesis.Config.{
  AppConfig, provider_model, two_parts, validate_provider_model, validate_model_ref, check_ref,
  check_aliases, check_type, check_types, check_default, check_memory, check_some_provider,
  validate,
}
use gonesis.Config.Valid.{IsValid, validate-IsValid}
use gonesis.Container.{
  Container, create_failed, Factory, new_container, resolve, created, get_resolved, get,
}
use gonesis.Container.Cache.{IsSound, new_container-IsSound, get-IsSound}
use gonesis.Container.Get.{get-OnlyFactory}

abbrev config : AppConfig
config = record {
  providers =
      (
        codes "m",
        record { type_name = codes "mistral"; api_key = []; base_url = []; google_search = false },
      )
      ∷ [];
  models = (codes "fast", codes "m/small") ∷ [];
  default_model = codes "fast";
  memory_model = [];
  telegram_token = [];
  tools = record {
    grep = record { max_results = pos 0; max_file_size_bytes = pos 0 };
    bash = record { max_timeout_seconds = pos 0; head_bytes = pos 0; tail_bytes = pos 0 };
  };
}

-- The factory counts its calls, and a provider is the count.
abbrev counting : Factory ℕ ℕ
counting name model pc w = (ok w, suc w)

abbrev failing : Factory ℕ ℕ
failing name model pc w = (err (codes "no key"), w)

abbrev filled : Container ℕ
filled = record { cfg = config; cache = (codes "m/small", 5) ∷ [] }

first_get : get counting (codes "fast") (new_container config) 5 ≡ ((ok 5, filled), 6)
unfolding get get_resolved created resolve provider_model two_parts split_n2 contains lookup insert
    text_eq
first_get = refl

get-IsSound_example : IsSound counting (get counting (codes "fast") (new_container config) 5).0.1
get-IsSound_example =
    get-IsSound counting (codes "fast") (new_container config) 5
      (new_container-IsSound counting config)

config-IsValid : IsValid config
unfolding provider_model two_parts split_n2 validate_provider_model validate_model_ref check_ref
    check_aliases check_type check_types check_default check_memory check_some_provider validate
    contains has_key lookup text_eq
config-IsValid = (validate-IsValid config).0 refl

fast_found : lookup (codes "fast") config.models ≡ some (codes "m/small")
unfolding lookup text_eq
fast_found = refl

no_slash : contains 47 (codes "fast") ≡ false
unfolding contains
no_slash = refl

failed :
    (get failing (codes "fast") (new_container config) 5).0.0
    ≡ err (create_failed (codes "m") (codes "no key"))
unfolding get get_resolved created resolve provider_model two_parts split_n2 contains lookup insert
    text_eq
failed = refl

get-OnlyFactory_example :
    (name msg : Text) × (create_failed (codes "m") (codes "no key") ≡ create_failed name msg)
get-OnlyFactory_example =
    get-OnlyFactory failing (codes "fast") (new_container config) 5
      (create_failed (codes "m") (codes "no key")) config-IsValid
      (inr (no_slash, (codes "m/small", fast_found))) failed
