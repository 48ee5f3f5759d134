-- ===== src/ContextBudget/Enough.antt =====
-- The trimming ends, with a context that fits or has nothing left to trim.
use cocopilot.Prelude.{
  ℕ, zero, suc, ◌/◌, ◌≤◌, ◌<◌, ◌≡◌, refl, ◌⊎◌, inl, inr, true, false, Option, none, some, List, [],
  ◌∷◌, arith, length, ltb, leb, length-take-le, Bool-cases,
}
use cocopilot.ContextBudget.{TaskContext, half, trim, fuel_of, rounds, enforce_context_budget}

above : (n m : ℕ) → ltb n m ≡ true → n < m
above n m h = ground arith

not_above : (n m : ℕ) → ltb n m ≡ false → m ≤ n
not_above n m h = ground arith

module _ {ℓ} {A : Type ℓ} where
  -- Nothing is left to trim.
  pub record IsBare (ctx : TaskContext A) : Type ℓ where
    pub no_files : ctx.repo_files ≡ []
    pub no_artifacts : ctx.artifact_summaries ≡ []
    pub no_runs : ctx.recent_run_summaries ≡ []
    pub few_memories : length ctx.memories ≤ 2

  -- What one round does: a list is halved only if those before it are empty.
  pub data Trimming (ctx : TaskContext A) : TaskContext A → Type ℓ where
    files :
        0 < length ctx.repo_files → Trimming ctx (record ctx { repo_files = half ctx.repo_files })
    artifacts :
        ctx.repo_files ≡ []
        → 0 < length ctx.artifact_summaries
        → Trimming ctx (record ctx { artifact_summaries = half ctx.artifact_summaries })
    runs :
        ctx.repo_files ≡ []
        → ctx.artifact_summaries ≡ []
        → 0 < length ctx.recent_run_summaries
        → Trimming ctx (record ctx { recent_run_summaries = half ctx.recent_run_summaries })
    memories :
        ctx.repo_files ≡ []
        → ctx.artifact_summaries ≡ []
        → ctx.recent_run_summaries ≡ []
        → 2 < length ctx.memories
        → Trimming ctx (record ctx { memories = half ctx.memories })

  -- What the answer of a round says.
  unfoldable pub Answers : TaskContext A → Option (TaskContext A) → Type ℓ
  Answers ctx none = IsBare ctx
  Answers ctx (some ctx') = Trimming ctx ctx'

  empty : (xs : List A) → ltb 0 (length xs) ≡ false → xs ≡ []
  empty [] h = refl
  empty (x ∷ xs) h = absurd (ground arith)

  pub trim-Answers : (ctx : TaskContext A) → Answers ctx (trim ctx)
  unfolding trim Answers
  trim-Answers ctx = elim (Bool-cases (ltb 0 (length ctx.repo_files))) [
    | inl h ↦ rw (h, trim) (Trimming.files (above 0 _ h))
    | inr h ↦ elim (Bool-cases (ltb 0 (length ctx.artifact_summaries))) [
      | inl k ↦ rw (h, k, trim) (Trimming.artifacts (empty _ h) (above 0 _ k))
      | inr k ↦ elim (Bool-cases (ltb 0 (length ctx.recent_run_summaries))) [
        | inl l ↦ rw (h, k, l, trim) (Trimming.runs (empty _ h) (empty _ k) (above 0 _ l))
        | inr l ↦ elim (Bool-cases (ltb 2 (length ctx.memories))) [
          | inl m ↦
              rw (h, k, l, m, trim)
                (Trimming.memories (empty _ h) (empty _ k) (empty _ l) (above 2 _ m))
          | inr m ↦
              rw (h, k, l, m, trim)
                (record {
                  no_files = empty _ h;
                  no_artifacts = empty _ k;
                  no_runs = empty _ l;
                  few_memories = not_above 2 _ m;
                })
        ]
      ]
    ]
  ]

  half_lt : (xs : List A) → 0 < length xs → length (half xs) < length xs
  half_lt xs h = omega (arith, length-take-le (length xs / 2) xs)

  -- A round leaves fewer entries.
  decreases : (ctx ctx' : TaskContext A) → Trimming ctx ctx' → fuel_of ctx' < fuel_of ctx
  decreases ctx _ (Trimming.files h) = omega (arith, half_lt ctx.repo_files h)
  decreases ctx _ (Trimming.artifacts _ h) = omega (arith, half_lt ctx.artifact_summaries h)
  decreases ctx _ (Trimming.runs _ _ h) = omega (arith, half_lt ctx.recent_run_summaries h)
  decreases ctx _ (Trimming.memories _ _ _ h) = omega (arith, half_lt ctx.memories (omega arith))

  module _ (size : TaskContext A → ℕ) (max_bytes : ℕ) where
    -- Rounds, each for a context that is too large.
    pub data Trims : TaskContext A → TaskContext A → Type ℓ where
      stop : {ctx : TaskContext A} → Trims ctx ctx
      round :
          {ctx ctx' last : TaskContext A}
          → leb (size ctx) max_bytes ≡ false
          → Trimming ctx ctx'
          → Trims ctx' last
          → Trims ctx last

    -- A context that fits, or from which nothing can be taken.
    abbrev pub IsFinal : TaskContext A → Type ℓ
    IsFinal ctx = (leb (size ctx) max_bytes ≡ true) ⊎ IsBare ctx

    no_entries : (ctx : TaskContext A) → fuel_of ctx ≤ 0 → IsBare ctx
    no_entries ctx h = record {
      no_files = empty _ (ground arith);
      no_artifacts = empty _ (ground arith);
      no_runs = empty _ (ground arith);
      few_memories = omega arith;
    }

    after_trim :
        (fuel : ℕ) (ctx : TaskContext A) (o : Option (TaskContext A))
        → leb (size ctx) max_bytes ≡ false
        → fuel_of ctx ≤ suc fuel
        → Answers ctx o
        → ((ctx' : TaskContext A)
            → fuel_of ctx' ≤ fuel
            → Trims ctx' (rounds size max_bytes fuel ctx')
              × IsFinal (rounds size max_bytes fuel ctx'))
        → Trims ctx (elim o [ none ↦ ctx | some ctx' ↦ rounds size max_bytes fuel ctx' ])
          × IsFinal (elim o [ none ↦ ctx | some ctx' ↦ rounds size max_bytes fuel ctx' ])
    unfolding Answers
    after_trim fuel ctx none large le h later = (Trims.stop, inr h)
    after_trim fuel ctx (some ctx') large le h later =
        let (trims, final) = later ctx' (omega (arith, decreases ctx ctx' h)) in
        (Trims.round large h trims, final)

    rounds-IsFinal :
        (fuel : ℕ) (ctx : TaskContext A)
        → fuel_of ctx ≤ fuel
        → Trims ctx (rounds size max_bytes fuel ctx) × IsFinal (rounds size max_bytes fuel ctx)
    unfolding rounds
    rounds-IsFinal zero ctx le = (Trims.stop, inr (no_entries ctx le))
    rounds-IsFinal (suc fuel) ctx le = elim (Bool-cases (leb (size ctx) max_bytes)) [
      | inl fits ↦ rw (fits, rounds) (Trims.stop, inl fits)
      | inr large ↦
          rw (large, rounds)
            (after_trim fuel ctx (trim ctx) large le (trim-Answers ctx)
              (λ ctx' le'. rounds-IsFinal fuel ctx' le'))
    ]

    -- The trimming ends after as many rounds as there are entries at most, with a context that fits or
    -- that has no files, artifacts and runs left and two memories at most. It is reached by rounds
    -- that each halve one list of a context that was too large, and touch a list only when the lists
    -- before it, in the order files, artifacts, runs, memories, are empty.
    pub enforce_context_budget-IsFinal :
        (ctx : TaskContext A)
        → Trims ctx (enforce_context_budget size max_bytes ctx)
          × IsFinal (enforce_context_budget size max_bytes ctx)
    unfolding enforce_context_budget
    enforce_context_budget-IsFinal ctx = rounds-IsFinal (fuel_of ctx) ctx (omega arith)
