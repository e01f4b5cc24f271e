-- ===== src/Autocomplete/Tests.antt =====
-- Two commands, and keys pressed over them.
use gonesis.Prelude.{Text, codes, some, List, [], ◌∷◌, ◌≡◌}
use gonesis.Autocomplete.{CommandInfo, new_autocomplete, complete}
use gonesis.Autocomplete.Valid.{typed, up, down, press_all, complete-press_all}

abbrev commands : List CommandInfo
commands =
    record { name = codes "help"; description = [] }
    ∷ record { name = codes "health"; description = [] }
    ∷ []

complete-press_all_example :
    (t : Text) × (complete
        (press_all (λ s. s) (typed (codes "/hea") ∷ down ∷ up ∷ []) (new_autocomplete commands))
      ≡ some t)
complete-press_all_example =
    complete-press_all (λ s. s) commands (typed (codes "/hea") ∷ down ∷ up ∷ [])
