-- ===== src/Command/Listing.antt =====
-- What List shows, Resolve finds.
use gonesis.Prelude.{
  Text, text_eq, text_eq_iff, true, false, Option, none, some, List, [], ◌∷◌, All, All-append, ok,
  ◌≡◌, ◌≢◌, refl, sym, ap, ◌∙◌, arith, inl, inr, Bool-cases,
}
use gonesis.Prelude.{text_eq_ne}
use gonesis.Dict.{Dict, lookup, insert, HasDistinctKeys}
use gonesis.Dict.Laws.{insert-HasDistinctKeys}
use gonesis.Skill.{Skill, Yaml, Files, load, load_all}
use gonesis.Command.{
  Command, Entry, Registry, Resolved, builtin, skill_command, name_of, description_of, new_registry,
  register, builtin_entries, is_seen, skill_entries, resolve_skill, resolve, list_commands,
}

-- Every command stands under its name, once.
abbrev pub Keyed : {W : Type 0} → Dict (Command W) → Type 0
Keyed m = All (λ kc. kc.0 ≡ (kc.1).name) m

pub record IsSound {W : Type 0} (r : Registry W) : Type 0 where
  pub keyed : Keyed (r.builtins)
  pub distinct : HasDistinctKeys (r.builtins)

pub new_registry-IsSound : {W : Type 0} (dir : Text) → IsSound (new_registry {W = W} dir)
unfolding new_registry
new_registry-IsSound dir = record { keyed = tt; distinct = tt }

insert-Keyed :
    {W : Type 0} (cmd : Command W) (m : Dict (Command W))
    → Keyed m
    → Keyed (insert (cmd.name) cmd m)
unfolding insert
insert-Keyed cmd [] h = (refl, tt)
insert-Keyed cmd ((k, c) ∷ m) h = elim (Bool-cases (text_eq k (cmd.name))) [
  | inl e ↦ simp e (refl, h.1)
  | inr e ↦ simp e (h.0, insert-Keyed cmd m h.1)
]

pub register-IsSound :
    {W : Type 0} (r : Registry W) (cmd : Command W) → IsSound r → IsSound (register r cmd)
unfolding register
register-IsSound r cmd h = record {
  keyed = insert-Keyed cmd (r.builtins) (h.keyed);
  distinct = insert-HasDistinctKeys (cmd.name) cmd (r.builtins) (h.distinct);
}

-- A command of the map that is found under its name.
abbrev IsFound : {W : Type 0} → Dict (Command W) → Text × Command W → Type 0
IsFound m kc = lookup ((kc.1).name) m ≡ some (kc.1)

none_ne : {A : Type 0} (x : A) → ◌≢◌ {A = Option A} none (some x)
none_ne x h = cc

IsFound-cons :
    {W : Type 0} (k : Text) (c : Command W) (m : Dict (Command W)) (kc : Text × Command W)
    → lookup k m ≡ none
    → IsFound m kc
    → IsFound ((k, c) ∷ m) kc
unfolding lookup
IsFound-cons k c m kc free found = elim (Bool-cases (text_eq k ((kc.1).name))) [
  | inl e ↦
      let same : k ≡ (kc.1).name = (text_eq_iff k ((kc.1).name)).0 e in
      absurd (none_ne (kc.1) (sym free ∙ ap (λ j. lookup j m) same ∙ found))
  | inr e ↦ simp e found
]

All-IsFound-cons :
    {W : Type 0} (k : Text) (c : Command W) (m n : Dict (Command W))
    → lookup k m ≡ none
    → All (IsFound m) n
    → All (IsFound ((k, c) ∷ m)) n
All-IsFound-cons k c m [] free h = tt
All-IsFound-cons k c m (kc ∷ n) free h =
    (IsFound-cons k c m kc free h.0, All-IsFound-cons k c m n free h.1)

first_IsFound :
    {W : Type 0} (k : Text) (c : Command W) (m : Dict (Command W))
    → k ≡ c.name
    → IsFound ((k, c) ∷ m) (k, c)
unfolding lookup
first_IsFound k c m h = let e : text_eq k (c.name) ≡ true = (text_eq_iff k (c.name)).1 h in simp e

builtins-IsFound :
    {W : Type 0} (m : Dict (Command W)) → Keyed m → HasDistinctKeys m → All (IsFound m) m
builtins-IsFound [] k d = tt
builtins-IsFound ((key, c) ∷ m) k d =
    (first_IsFound key c m k.0, All-IsFound-cons key c m m d.0 (builtins-IsFound m k.1 d.1))

is_seen-none :
    {W : Type 0} (name : Text) (m : Dict (Command W))
    → Keyed m
    → is_seen name m ≡ false
    → lookup name m ≡ none
unfolding is_seen lookup
is_seen-none name [] k h = refl
is_seen-none name ((key, c) ∷ m) k h = ground (arith, k, is_seen-none name m)

module _ {W : Type 0} (lib : Yaml) (files : Files W) where
  -- The name of an entry resolves to a command of that name and description.
  abbrev pub Resolves : Registry W → W → Entry → Type 0
  Resolves r w e =
      (cmd : Resolved W) × (resolve lib files r (e.name) w ≡ some cmd)
      × (name_of cmd ≡ e.name)
      × (description_of cmd ≡ e.description)

  -- An entry of a built-in command that is found under its name resolves to it.
  builtin_entries-Resolves :
      (r : Registry W) (w : W) (m : Dict (Command W))
      → All (IsFound (r.builtins)) m
      → All (Resolves r w) (builtin_entries m)
  unfolding builtin_entries resolve name_of description_of
  builtin_entries-Resolves r w [] h = tt
  builtin_entries-Resolves r w ((k, c) ∷ m) h =
      ((builtin c, ground (arith, h.0), refl, refl), builtin_entries-Resolves r w m h.1)

  skill_entries-Resolves :
      (r : Registry W) (w : W) (skills : List Skill)
      → Keyed (r.builtins)
      → r.skills_dir ≢ []
      → All (λ s. load lib files (r.skills_dir) (s.name) w ≡ ok s) skills
      → All (Resolves r w) (skill_entries (r.builtins) skills)
  unfolding skill_entries resolve resolve_skill name_of description_of
  skill_entries-Resolves r w [] k dir h = tt
  skill_entries-Resolves r w (s ∷ skills) k dir h =
      elim (Bool-cases (is_seen (s.name) (r.builtins))) [
        | inl e ↦ simp e (skill_entries-Resolves r w skills k dir h.1)
        | inr e ↦
            let free : lookup (s.name) (r.builtins) ≡ none =
              is_seen-none (s.name) (r.builtins) k e in
            let some_dir : text_eq (r.skills_dir) [] ≡ false = text_eq_ne (r.skills_dir) [] dir in
            simp e (
              (skill_command s, ground (arith, free, some_dir, h.0), refl, refl),
              skill_entries-Resolves r w skills k dir h.1,
            )
      ]

  -- In a registry of built-in commands under their names, and of skills that each stand in a directory
  -- of their name, every entry that List shows resolves, by its name, to a command of that name and
  -- that description.
  pub list_commands-Resolves :
      (r : Registry W) (w : W)
      → IsSound r
      → All
          (λ s. load lib files (r.skills_dir) (s.name) w ≡ ok s)
          ((load_all lib files (r.skills_dir) w).0)
      → All (Resolves r w) (list_commands lib files r w)
  unfolding list_commands
  list_commands-Resolves r w sound h =
      let built =
        builtin_entries-Resolves r w (r.builtins)
          (builtins-IsFound (r.builtins) (sound.keyed) (sound.distinct)) in
      elim (Bool-cases (text_eq (r.skills_dir) [])) [
        | inl e ↦ simp e built
        | inr e ↦ simp e (
            All-append (Resolves r w) (builtin_entries (r.builtins))
              (skill_entries (r.builtins) ((load_all lib files (r.skills_dir) w).0)) built
              (skill_entries-Resolves r w ((load_all lib files (r.skills_dir) w).0) (sound.keyed)
                (ground (arith, e, text_eq_iff (r.skills_dir) [])) h))
      ]
