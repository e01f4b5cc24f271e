-- ===== src/Provider/Batch.antt =====
-- The results of a batch stand in the order of its calls, whatever the order of completion.
use gonesis.Prelude.{
  ℕ, zero, suc, ◌<◌, Text, Bool, false, ◌||◌, Option, none, some, List, [], ◌∷◌, ◌≡◌, ◌≢◌, ◌⊎◌, inl,
  inr, refl, sym, ap, ap₂, ◌∙◌, map, arith, length, get_elem?, set, length-set, length-replicate,
  get_elem?-set_self, get_elem?-set_ne, Option-cases,
}
use mathlib.Core.Path.{subst}
use mathlib.Core.List.{map-id}
use native.Mathlib.Decide.{ℕ_discrete}
use gonesis.Provider.{
  ToolCall, Message, Env, ExecError, tool, blank_message, execute_one, execute_in_order,
  execute_tools_parallel, reply_of,
}

abbrev pub Occurs : ℕ → List ℕ → Type 0
Occurs i [] = ⊥
Occurs i (j ∷ order) = (i ≡ j) ⊎ Occurs i order

-- The schedule completes every goroutine of every batch.
pub record IsFair {W : Type 0} (env : Env W) : Type 0 where
  pub covers : (n : ℕ) (w : W) (i : ℕ) → i < n → Occurs i (env.schedule n w)

-- Slot `i` holds a message that is right for the call.
abbrev Filled : (ToolCall → Message → Type 0) → ToolCall → List Message → ℕ → Type 0
Filled P tc msgs i = (m : Message) × (get_elem? msgs i ≡ some m) × P tc m

lt_of_get_elem? {ℓ} :
    {A : Type ℓ} (xs : List A) (i : ℕ) (x : A) → get_elem? xs i ≡ some x → i < length xs
lt_of_get_elem? [] i x h = cc
lt_of_get_elem? (y ∷ xs) zero x h = omega arith
lt_of_get_elem? (y ∷ xs) (suc i) x h = omega (arith, lt_of_get_elem? xs i x h)

module _ {W : Type 0} (env : Env W) (P : ToolCall → Message → Type 0)
    (right : (tc : ToolCall) (w : W) → P tc (execute_one env tc w).0.0) where
  set-Filled :
      (calls : List ToolCall) (msgs : List Message) (i j : ℕ) (tc td : ToolCall) (w : W)
      → get_elem? calls i ≡ some tc
      → get_elem? calls j ≡ some td
      → length msgs ≡ length calls
      → (i ≡ j) ⊎ Filled P tc msgs i
      → Filled P tc (set msgs j (execute_one env td w).0.0) i
  set-Filled calls msgs i j tc td w hi hj len h = elim (ℕ_discrete i j) [
    | yes e ↦
        let same : tc ≡ td = cc (ap (get_elem? calls) e) in
        (
          (execute_one env td w).0.0,
          ap (get_elem? _) e
              ∙ get_elem?-set_self msgs j _ (omega (arith, len, lt_of_get_elem? calls j td hj)),
          subst (λ t. P t (execute_one env td w).0.0) (sym same) (right td w),
        )
    | no ne ↦ kept ne h
  ]
    where
      kept :
          i ≢ j
          → (i ≡ j) ⊎ Filled P tc msgs i
          → Filled P tc (set msgs j (execute_one env td w).0.0) i
      kept ne (inl e) = absurd (ne e)
      kept ne (inr (m, e, p)) = (m, get_elem?-set_ne msgs _ (λ q. ne (sym q)) ∙ e, p)

  execute_in_order-Filled :
      (order : List ℕ) (calls : List ToolCall) (msgs : List Message) (done : Bool) (w : W) (i : ℕ)
      (tc : ToolCall)
      → get_elem? calls i ≡ some tc
      → length msgs ≡ length calls
      → Occurs i order ⊎ Filled P tc msgs i
      → Filled P tc (execute_in_order env order calls msgs done w).0.0 i
  unfolding execute_in_order
  execute_in_order-Filled [] calls msgs done w i tc hi len (inl o) = absurd o
  execute_in_order-Filled [] calls msgs done w i tc hi len (inr f) = f
  execute_in_order-Filled (j ∷ order) calls msgs done w i tc hi len h =
      elim (Option-cases (get_elem? calls j)) [
        | inl out ↦
            rw (out, execute_in_order)
              (execute_in_order-Filled order calls msgs done w i tc hi len (skipped out h))
        | inr (td, hj) ↦
            let (r, w') = execute_one env td w in
            rw (hj, execute_in_order)
              (execute_in_order-Filled order calls (set msgs j r.0) (done || r.1) w' i tc hi
                (length-set msgs j r.0 ∙ len) (ran td hj h))
      ]
    where
      skipped :
          get_elem? calls j ≡ none
          → Occurs i (j ∷ order) ⊎ Filled P tc msgs i
          → Occurs i order ⊎ Filled P tc msgs i
      skipped out (inl (inl e)) = cc (ap (get_elem? calls) e)
      skipped out (inl (inr o)) = inl o
      skipped out (inr f) = inr f

      ran :
          (td : ToolCall)
          → get_elem? calls j ≡ some td
          → Occurs i (j ∷ order) ⊎ Filled P tc msgs i
          → Occurs i order ⊎ Filled P tc (set msgs j (execute_one env td w).0.0) i
      ran td hj (inl (inl e)) = inr (set-Filled calls msgs i j tc td w hi hj len (inl e))
      ran td hj (inl (inr o)) = inl o
      ran td hj (inr f) = inr (set-Filled calls msgs i j tc td w hi hj len (inr f))

  length-execute_in_order :
      (order : List ℕ) (calls : List ToolCall) (msgs : List Message) (done : Bool) (w : W)
      → length (execute_in_order env order calls msgs done w).0.0 ≡ length msgs
  unfolding execute_in_order
  length-execute_in_order [] calls msgs done w = refl
  length-execute_in_order (j ∷ order) calls msgs done w = elim (Option-cases (get_elem? calls j)) [
    | inl out ↦ rw (out, execute_in_order) (length-execute_in_order order calls msgs done w)
    | inr (td, hj) ↦
        let (r, w') = execute_one env td w in
        rw (hj, execute_in_order)
          (length-execute_in_order order calls (set msgs j r.0) (done || r.1) w'
            ∙ length-set msgs j r.0)
  ]

-- Lists of one length that agree at each place under `f` and `g`.
pub map-eq-map {ℓ κ ι} :
    {A : Type ℓ} {B : Type κ} {C : Type ι} (f : A → C) (g : B → C) (xs : List A) (ys : List B)
    → length xs ≡ length ys
    → ((i : ℕ) (y : B)
        → get_elem? ys i ≡ some y
        → (x : A) × (get_elem? xs i ≡ some x) × (f x ≡ g y))
    → map f xs ≡ map g ys
map-eq-map f g [] [] len h = refl
map-eq-map f g [] (y ∷ ys) len h = absurd (omega arith)
map-eq-map f g (x ∷ xs) [] len h = absurd (omega arith)
map-eq-map f g (x ∷ xs) (y ∷ ys) len h =
    ap₂ ◌∷◌ (first (h 0 y refl)) (map-eq-map f g xs ys (omega arith) (λ i z e. h (suc i) z e))
  where
    first : (z : _) × (get_elem? (x ∷ xs) 0 ≡ some z) × (f z ≡ g y) → f x ≡ g y
    first (z, e, p) = cc

module _ {W : Type 0} (env : Env W) (fair : IsFair env) where
  -- Whatever the order in which the tools complete, what holds of the message of one call alone
  -- holds of the message in that call's place.
  execute_tools_parallel-Filled :
      (P : ToolCall → Message → Type 0)
      → ((tc : ToolCall) (w : W) → P tc (execute_one env tc w).0.0)
      → (calls : List ToolCall) (w : W) (i : ℕ) (tc : ToolCall) → get_elem? calls i ≡ some tc
      → Filled P tc (execute_tools_parallel env calls w).0.0 i
  unfolding execute_tools_parallel
  execute_tools_parallel-Filled P right calls w i tc hi =
      execute_in_order-Filled env P right (env.schedule (length calls) w) calls _ false w i tc hi
        (length-replicate (length calls) blank_message)
        (inl (fair.covers (length calls) w i (lt_of_get_elem? calls i tc hi)))

  pub length-execute_tools_parallel :
      (calls : List ToolCall) (w : W)
      → length (execute_tools_parallel env calls w).0.0 ≡ length calls
  unfolding execute_tools_parallel
  length-execute_tools_parallel calls w =
      length-execute_in_order env (λ tc m. Unit) (λ tc w. tt) (env.schedule (length calls) w) calls
        _ false w
      ∙ length-replicate (length calls) blank_message

  -- The replies to a batch name its calls, in the order of the calls.
  pub ids-execute_tools_parallel :
      (calls : List ToolCall) (w : W)
      → map (λ m. m.tool_call_id) (execute_tools_parallel env calls w).0.0 ≡ map (λ tc. tc.id) calls
  ids-execute_tools_parallel calls w =
      map-eq-map (λ m. m.tool_call_id) (λ tc. tc.id) _ calls (length-execute_tools_parallel calls w)
        (execute_tools_parallel-Filled (λ tc m. m.tool_call_id ≡ tc.id)
          (λ tc w. unfold execute_one reply_of in refl) calls w)

  pub roles-execute_tools_parallel :
      (calls : List ToolCall) (w : W)
      → map (λ m. m.role) (execute_tools_parallel env calls w).0.0 ≡ map (λ tc. tool) calls
  roles-execute_tools_parallel calls w =
      map-eq-map (λ m. m.role) (λ tc. tool) _ calls (length-execute_tools_parallel calls w)
        (execute_tools_parallel-Filled (λ tc m. m.role ≡ tool)
          (λ tc w. unfold execute_one reply_of in refl) calls w)

  -- With tools whose result depends on the call alone, a batch gives the reply to each call in the
  -- order of the calls: the order of completion does not show.
  pub execute_tools_parallel_lem :
      (result : ToolCall → Text × Option ExecError)
      → ((tc : ToolCall) (w : W) → (env.execute tc w).0 ≡ result tc)
      → (calls : List ToolCall) (w : W)
      → (execute_tools_parallel env calls w).0.0 ≡ map (λ tc. reply_of tc (result tc)) calls
  execute_tools_parallel_lem result alone calls w =
      sym (map-id _)
      ∙ map-eq-map (λ m. m) (λ tc. reply_of tc (result tc)) _ calls
          (length-execute_tools_parallel calls w)
          (execute_tools_parallel-Filled (λ tc m. m ≡ reply_of tc (result tc))
            (λ tc w. unfold execute_one in ap (reply_of tc) (alone tc _)) calls w)
