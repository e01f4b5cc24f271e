-- ===== src/Cron/Scheduler/Registered.antt =====
-- The scheduler's entries agree with the jobs that the library holds.
use gonesis.Prelude.{
  length-perm, ℕ, ◌+◌, Text, Option, none, some, List, [], ◌∷◌, ◌++◌, Result, ok, err, Result-cases,
  Option-cases, length, map, ◌≡◌, refl, sym, ap, ap₂, ◌∙◌, arith, inl, inr, Bool-cases, append-nil,
  append_assoc, length-append,
}
use mathlib.Core.Path.{subst}
use mathlib.Core.List.{Perm, perm_middle}
use mathlib.Core.List.Perm
use gonesis.Cron.{CronJob, LoadResult}
use gonesis.Cron.Scheduler.{
  classify_job, JobEntry, Gocron, Scheduler, remove_jobs, register, classify, is_running,
  classify_all, rebuild_entries, job_count,
}

-- gocron's promises, of a list of jobs whose order it leaves open: a job that is removed is listed
-- once less, one that is made is listed once more, and an error changes nothing.
pub record GocronLaws {G J : Type 0} (lib : Gocron G J) : Type 0 where
  pub removed :
      (j : J) (g : G)
      → (lib.remove_job j g).0 ≡ none
      → Perm (lib.jobs g) (j ∷ lib.jobs ((lib.remove_job j g).1))
  pub not_removed :
      (j : J) (g : G) (e : Text)
      → (lib.remove_job j g).0 ≡ some e
      → Perm (lib.jobs ((lib.remove_job j g).1)) (lib.jobs g)
  pub made :
      (job : CronJob) (g : G) (j : J)
      → (lib.new_job job g).0 ≡ ok j
      → Perm (lib.jobs ((lib.new_job job g).1)) (lib.jobs g ++ j ∷ [])
  pub refused :
      (job : CronJob) (g : G) (e : Text)
      → (lib.new_job job g).0 ≡ err e
      → Perm (lib.jobs ((lib.new_job job g).1)) (lib.jobs g)

-- The jobs that entries hold
abbrev pub jobs_of : {J : Type 0} → Option J → List J
jobs_of none = []
jobs_of (some j) = j ∷ []

abbrev pub held : {J : Type 0} → List (JobEntry J) → List J
held [] = []
held (e ∷ entries) = jobs_of (e.g_job) ++ held entries

abbrev jobs_left : {J : Type 0} → J → Option Text → List J → List J
jobs_left j none rest = rest
jobs_left j (some e) rest = j ∷ rest

-- The jobs whose removal, one after the other, fails
abbrev pub unremoved : {G J : Type 0} → Gocron G J → List J → G → List J
unremoved lib [] g = []
unremoved lib (j ∷ js) g =
    let rest = unremoved lib js ((lib.remove_job j g).1) in
    jobs_left j ((lib.remove_job j g).0) rest

module _ {G J : Type 0} (lib : Gocron G J) (laws : GocronLaws lib) where
  -- `kept` are the jobs whose removal failed before.
  remove_jobs-perm :
      (js kept : List J) (g : G)
      → Perm (lib.jobs g) (js ++ kept)
      → Perm (lib.jobs (remove_jobs lib js g)) (unremoved lib js g ++ kept)
  unfolding remove_jobs
  remove_jobs-perm [] kept g h = h
  remove_jobs-perm (j ∷ js) kept g h =
      let g' = (lib.remove_job j g).1 in
      elim (Option-cases ((lib.remove_job j g).0)) [
        | inl e ↦
            let same : Perm (lib.jobs g') (js ++ kept) =
              Perm.cons_inv (Perm.trans (Perm.symm (laws.removed j g e)) h) in
            rw e (remove_jobs-perm js kept g' same)
        | inr (msg, e) ↦
            let same : Perm (lib.jobs g') (js ++ j ∷ kept) =
              Perm.trans (laws.not_removed j g msg e)
                (Perm.trans h (Perm.symm (perm_middle js kept))) in
            rw e (
              Perm.trans (remove_jobs-perm js (j ∷ kept) g' same)
                (perm_middle (unremoved lib js g') kept))
      ]

  nothing_new : (g : G) → Perm (lib.jobs g) (lib.jobs g ++ [])
  nothing_new g =
      subst (λ l. Perm (lib.jobs g) l) (sym (append-nil (lib.jobs g))) (Perm.refl (lib.jobs g))

  -- An entry has the name of its result, and a job exactly where the library got one more.
  classify-job :
      (name : Text) (job : Result Text CronJob) (g : G)
      → let (e, g') = classify_job lib name job g in
        (e.name ≡ name)
        × Perm (lib.jobs g') (lib.jobs g ++ jobs_of (e.g_job))
        × (is_running lib e ≡ length (jobs_of (e.g_job)))
  unfolding classify_job register
  classify-job name (err e) g = (refl, nothing_new g, refl)
  classify-job name (ok job) g = elim (Bool-cases (job.suspended)) [
    | inl s ↦ simp s (refl, nothing_new g, refl)
    | inr s ↦ elim (Result-cases ((lib.new_job job g).0)) [
      | inl (j, e) ↦ simp (s, e) (refl, laws.made job g j e, refl)
      | inr (m, e) ↦ simp (s, e) (refl, Perm.trans (laws.refused job g m e) (nothing_new g), refl)
    ]
  ]

  held-append : (xs ys : List (JobEntry J)) → held (xs ++ ys) ≡ held xs ++ held ys
  held-append [] ys = refl
  held-append (e ∷ xs) ys =
      ap (λ l. jobs_of (e.g_job) ++ l) (held-append xs ys)
      ∙ sym (append_assoc (jobs_of (e.g_job)) (held xs) (held ys))

  abbrev entry_name : JobEntry J → Text
  entry_name e = e.name

  names-snoc :
      (xs : List (JobEntry J)) (e : JobEntry J)
      → map entry_name (xs ++ e ∷ []) ≡ map entry_name xs ++ e.name ∷ []
  names-snoc [] e = refl
  names-snoc (x ∷ xs) e = ap (λ l. x.name ∷ l) (names-snoc xs e)

  -- The library's jobs are those left over and those of the entries, of which there are as many as
  -- were counted, and the entries have the names that they should.
  abbrev Agrees : List J → List Text → (ℕ × List (JobEntry J)) × G → Type 0
  Agrees left names ((count, entries), g) =
      Perm (lib.jobs g) (left ++ held entries)
      × (count ≡ length (held entries))
      × (map (λ (e : JobEntry J). e.name) entries ≡ names)

  classify_all-Agrees :
      (results : List LoadResult) (left : List J) (names : List Text) (count : ℕ)
      (entries : List (JobEntry J)) (g : G)
      → Agrees left names ((count, entries), g)
      → Agrees left
          (names ++ map (λ (r : LoadResult). r.name) results)
          (classify_all lib results count entries g)
  unfolding classify_all classify
  classify_all-Agrees [] left names count entries g (jobs, n, same) =
      (jobs, n, same ∙ sym (append-nil names))
  classify_all-Agrees (r ∷ results) left names count entries g (jobs, n, same) =
      let step = classify lib r g in
      let e = step.0 in
      let new = jobs_of (e.g_job) in
      let (name, more, one) = classify-job (r.name) (r.job) g in
      let snoc : held (entries ++ e ∷ []) ≡ held entries ++ new =
        held-append entries (e ∷ []) ∙ ap (λ l. held entries ++ l) (append-nil new) in
      let regrouped : (left ++ held entries) ++ new ≡ left ++ held (entries ++ e ∷ []) =
        append_assoc left (held entries) new ∙ ap (λ l. left ++ l) (sym snoc) in
      let jobs' : Perm (lib.jobs (step.1)) (left ++ held (entries ++ e ∷ [])) =
        subst (Perm (lib.jobs (step.1))) regrouped (Perm.trans more (Perm.append_right new jobs)) in
      let n' : count + is_running lib e ≡ length (held (entries ++ e ∷ [])) =
        omega (arith, n, one, ap length snoc, length-append (held entries) new) in
      let same' : map entry_name (entries ++ e ∷ []) ≡ names ++ r.name ∷ [] =
        names-snoc entries e ∙ ap₂ (λ a b. a ++ b ∷ []) same name in
      subst (λ ns. Agrees left ns (classify_all lib (r ∷ results) count entries g))
        (append_assoc names (r.name ∷ []) (map (λ (r : LoadResult). r.name) results))
        (classify_all-Agrees results left (names ++ r.name ∷ []) (count + is_running lib e)
          (entries ++ e ∷ []) (step.1) (jobs', n', same'))

  -- `left` are the jobs of before that could not be removed.
  abbrev pub Rebuilt : List J → List LoadResult → ℕ → Scheduler G J → Type 0
  Rebuilt left results count s =
      Perm (lib.jobs (s.gocron)) (left ++ held (s.entries))
      × (count ≡ length (held (s.entries)))
      × (job_count lib s ≡ length left + count)
      × (map (λ (e : JobEntry J). e.name) (s.entries) ≡ map (λ (r : LoadResult). r.name) results)

  -- After a start or a reload there is one entry for every result, with its name and in the order of
  -- the results; the jobs that the library holds are, in some order, those of the entries and the
  -- earlier ones whose removal failed; the count returned is that of the entries' jobs, and JobCount
  -- exceeds it by the number of failed removals.
  pub rebuild_entries-held :
      (results : List LoadResult) (s : Scheduler G J)
      → Rebuilt
          (unremoved lib (lib.jobs (s.gocron)) (s.gocron))
          results
          (rebuild_entries lib results s).0
          (rebuild_entries lib results s).1
  unfolding rebuild_entries job_count
  rebuild_entries-held results s =
      let old = lib.jobs (s.gocron) in
      let left = unremoved lib old (s.gocron) in
      let (jobs, n, same) =
        classify_all-Agrees results left [] 0 [] (remove_jobs lib old (s.gocron))
          (remove_jobs-perm old [] (s.gocron) (nothing_new (s.gocron)), refl, refl) in
      let total = length-append left (held ((rebuild_entries lib results s).1.entries)) in
      (jobs, n, length-perm jobs ∙ total ∙ ap (λ k. length left + k) (sym n), same)
