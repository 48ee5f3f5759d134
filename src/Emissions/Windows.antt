-- ===== src/Emissions/Windows.antt =====
-- At most one emission of a kind in a window, and the first one is let through.
use cocopilot.Prelude.{
  ℕ, ◌+◌, ◌*◌, ◌/◌, ◌≤◌, ◌<◌, ◌≡◌, refl, String, Bool, true, false, not, ◌&&◌, ◌||◌, Option, List,
  [], ◌∷◌, ◌++◌, arith, any, leb, ◌==◌, str_eq, eq_iff, Bool-cases, inl, inr,
}
use native.Mathlib.Nat.{lt-div-mul-add, div-mul-le_self}
use cocopilot.Emissions.{
  Emission, compute_emission_dedupe_key, has_key, new_emission, try_record_emission,
  check_emission_allowed, cleanup_old_emissions,
}

-- Calls on the records, each at its time.
pub data Call : Type 0 where
  tries : String → String → Option ℕ → ℕ → Call
  cleans : ℕ → ℕ → Call

module _ (digest : String → String → ℕ → String) (window : ℕ) where
  unfoldable pub step : List Emission → Call → List Emission
  unfolding try_record_emission cleanup_old_emissions
  step es (tries project_id kind task_id now) =
      (try_record_emission digest window es project_id kind task_id now).0
  step es (cleans max_age now) = cleanup_old_emissions es max_age now

  unfoldable pub run : List Emission → List Call → List Emission
  run es [] = es
  run es (c ∷ cs) = run (step es c) cs

  -- Every cleanup keeps a window at least, and runs before the given end.
  abbrev pub KeepsWindow : ℕ → List Call → Type 0
  KeepsWindow end [] = Unit
  KeepsWindow end (tries project_id kind task_id now ∷ cs) = KeepsWindow end cs
  KeepsWindow end (cleans max_age now ∷ cs) = (window ≤ max_age) × (now ≤ end) × KeepsWindow end cs

  -- A record with the key that is not older than the start.
  abbrev recorded : String → ℕ → List Emission → Bool
  recorded key start es = any (λ e. str_eq e.dedupe_key key && leb start e.created_at) es

  recorded-append :
      (key : String) (start : ℕ) (es fs : List Emission)
      → recorded key start es ≡ true
      → recorded key start (es ++ fs) ≡ true
  recorded-append key start [] fs h = cc
  recorded-append key start (e ∷ es) fs h = ground (arith, recorded-append key start es fs)

  recorded-cleanup :
      (key : String) (start max_age now : ℕ) (es : List Emission)
      → now ≤ start + max_age
      → recorded key start es ≡ true
      → recorded key start (cleanup_old_emissions es max_age now) ≡ true
  unfolding cleanup_old_emissions
  recorded-cleanup key start max_age now [] le h = cc
  recorded-cleanup key start max_age now (e ∷ es) le h =
      ground (arith, recorded-cleanup key start max_age now es le)

  recorded-has_key :
      (key : String) (start : ℕ) (es : List Emission)
      → recorded key start es ≡ true
      → has_key digest window key es ≡ true
  recorded-has_key key start [] h = cc
  recorded-has_key key start (e ∷ es) h = ground (arith, recorded-has_key key start es)

  recorded-step :
      (key : String) (start end : ℕ) (es : List Emission) (c : Call) (cs : List Call)
      → KeepsWindow end (c ∷ cs)
      → end < start + window
      → recorded key start es ≡ true
      → (recorded key start (step es c) ≡ true) × KeepsWindow end cs
  unfolding step try_record_emission
  recorded-step key start end es (tries project_id kind task_id now) cs k le h = (
    ground (
      arith,
      recorded-append key start es (new_emission digest window project_id kind task_id now ∷ []),
    ),
    k,
  )
  recorded-step key start end es (cleans max_age now) cs k le h =
      (recorded-cleanup key start max_age now es (omega (arith, k.0, k.1)) h, k.2)

  recorded-run :
      (key : String) (start end : ℕ) (es : List Emission) (cs : List Call)
      → KeepsWindow end cs
      → end < start + window
      → recorded key start es ≡ true
      → recorded key start (run es cs) ≡ true
  unfolding run
  recorded-run key start end es [] k le h = h
  recorded-run key start end es (c ∷ cs) k le h =
      let (next, rest) = recorded-step key start end es c cs k le h in
      recorded-run key start end (step es c) cs rest le next

  new-recorded :
      (key : String) (start : ℕ) (es : List Emission) (e : Emission)
      → e.dedupe_key ≡ key
      → start ≤ e.created_at
      → recorded key start (es ++ e ∷ []) ≡ true
  new-recorded key start [] e k le = ground (arith, eq_iff e.dedupe_key key)
  new-recorded key start (x ∷ es) e k le = ground (arith, new-recorded key start es e k le)

  try-recorded :
      (es : List Emission) (project_id kind : String) (task_id : Option ℕ) (now start : ℕ)
      → (try_record_emission digest window es project_id kind task_id now).1 ≡ true
      → start ≤ now
      → recorded
          (compute_emission_dedupe_key digest window project_id kind now)
          start
          (try_record_emission digest window es project_id kind task_id now).0
        ≡ true
  unfolding try_record_emission
  try-recorded es project_id kind task_id now start h le = ground (
    arith,
    new-recorded (compute_emission_dedupe_key digest window project_id kind now) start es
        (new_emission digest window project_id kind task_id now) refl le,
  )

  refused :
      (es : List Emission) (project_id kind : String) (task_id : Option ℕ) (now : ℕ)
      → has_key digest window (compute_emission_dedupe_key digest window project_id kind now) es
        ≡ true
      → (try_record_emission digest window es project_id kind task_id now ≡ (es, false))
        × (check_emission_allowed digest window es project_id kind now ≡ false)
  unfolding try_record_emission check_emission_allowed
  refused es project_id kind task_id now h = (rw h refl, rw h refl)

  -- Once an emission was recorded, none of the same project and kind is recorded or allowed in the
  -- same window, whatever other emissions are tried in between and however often old ones are cleaned
  -- up, as long as a cleanup keeps what is younger than a window and comes before the later try.
  pub once_per_window :
      (es : List Emission) (project_id kind : String) (task_id task_id' : Option ℕ) (now later : ℕ)
      (cs : List Call)
      → 0 < window
      → (try_record_emission digest window es project_id kind task_id now).1 ≡ true
      → KeepsWindow later cs
      → later / window ≡ now / window
      → (let es' = run (try_record_emission digest window es project_id kind task_id now).0 cs in
          (try_record_emission digest window es' project_id kind task_id' later ≡ (es', false))
          × (check_emission_allowed digest window es' project_id kind later ≡ false))
  once_per_window es project_id kind task_id task_id' now later cs p h k same =
      let start = now / window * window in
      let key = compute_emission_dedupe_key digest window project_id kind now in
      let lt : later < start + window = rw same at (lt-div-mul-add {a = later} p) in
      let kept =
        recorded-run key start later
          (try_record_emission digest window es project_id kind task_id now).0 cs k lt
          (try-recorded es project_id kind task_id now start h (div-mul-le_self now window)) in
      refused (run (try_record_emission digest window es project_id kind task_id now).0 cs)
        project_id kind task_id' later
        (rw same (
          recorded-has_key key start
            (run (try_record_emission digest window es project_id kind task_id now).0 cs) kept))

  -- Tries of the given project and kind in the given window.
  abbrev pub in_same_window : String → String → ℕ → Call → Bool
  in_same_window project_id kind now (tries p k task_id t) =
      str_eq p project_id && str_eq k kind && t / window == now / window
  in_same_window project_id kind now (cleans max_age t) = false

  -- The digest tells the key of the call from the other keys that were tried, and nothing is cleaned
  -- up.
  abbrev pub NoCollision : String → String → ℕ → List Call → Type 0
  NoCollision project_id kind now [] = Unit
  NoCollision project_id kind now (tries p k task_id t ∷ cs) =
      (compute_emission_dedupe_key digest window p k t
          ≡ compute_emission_dedupe_key digest window project_id kind now
        → (p ≡ project_id) × (k ≡ kind) × (t / window ≡ now / window))
      × NoCollision project_id kind now cs
  NoCollision project_id kind now (cleans max_age t ∷ cs) = ⊥

  has_key-append :
      (key : String) (es fs : List Emission)
      → has_key digest window key (es ++ fs)
        ≡ (has_key digest window key es || has_key digest window key fs)
  has_key-append key [] fs = refl
  has_key-append key (e ∷ es) fs = ground (arith, has_key-append key es fs)

  has_key-try :
      (es : List Emission) (key project_id kind : String) (task_id : Option ℕ) (now : ℕ)
      → has_key digest window key
          (try_record_emission digest window es project_id kind task_id now).0
        ≡ (has_key digest window key es
            || str_eq (compute_emission_dedupe_key digest window project_id kind now) key)
  unfolding try_record_emission
  has_key-try es key project_id kind task_id now = ground (
    arith,
    has_key-append key es (new_emission digest window project_id kind task_id now ∷ []),
    eq_iff (compute_emission_dedupe_key digest window project_id kind now) key,
  )

  same_key :
      (p k project_id kind : String) (t now : ℕ)
      → (compute_emission_dedupe_key digest window p k t
            ≡ compute_emission_dedupe_key digest window project_id kind now
          → (p ≡ project_id) × (k ≡ kind) × (t / window ≡ now / window))
      → str_eq
          (compute_emission_dedupe_key digest window p k t)
          (compute_emission_dedupe_key digest window project_id kind now)
        ≡ (str_eq p project_id && str_eq k kind && t / window == now / window)
  same_key p k project_id kind t now h =
      let key = compute_emission_dedupe_key digest window p k t in
      let key' = compute_emission_dedupe_key digest window project_id kind now in
      let project = eq_iff p project_id in
      let kinds = eq_iff k kind in
      elim (Bool-cases (str_eq p project_id && str_eq k kind && t / window == now / window)) [
        | inl all ↦
            let (a, b, c) : (p ≡ project_id) × (k ≡ kind) × (t / window ≡ now / window) =
              ground (arith, project, kinds) in
            rw all ((eq_iff key key').1 (rw (a, b, c) refl))
        | inr apart ↦ elim (Bool-cases (str_eq key key')) [
          | inl e ↦
              let (a, b, c) = h ((eq_iff key key').0 e) in absurd (ground (arith, project, kinds))
          | inr e ↦ rw apart e
        ]
      ]

  has_key-run :
      (es : List Emission) (project_id kind : String) (now : ℕ) (cs : List Call)
      → NoCollision project_id kind now cs
      → has_key digest window
          (compute_emission_dedupe_key digest window project_id kind now)
          (run es cs)
        ≡ (has_key digest window (compute_emission_dedupe_key digest window project_id kind now) es
            || any (in_same_window project_id kind now) cs)
  unfolding run step
  has_key-run es project_id kind now [] h = ground arith
  has_key-run es project_id kind now (tries p k task_id t ∷ cs) h = ground (
    arith,
    has_key-run (try_record_emission digest window es p k task_id t).0 project_id kind now cs h.1,
    has_key-try es (compute_emission_dedupe_key digest window project_id kind now) p k task_id t,
    same_key p k project_id kind t now h.0,
  )
  has_key-run es project_id kind now (cleans max_age t ∷ cs) h = absurd h

  -- On tries alone, starting from no records and without a collision of digests, an emission is let
  -- through exactly when none of the same project and kind was tried in the same window before.
  pub first_in_window :
      (cs : List Call) (project_id kind : String) (task_id : Option ℕ) (now : ℕ)
      → NoCollision project_id kind now cs
      → (try_record_emission digest window (run [] cs) project_id kind task_id now).1
        ≡ not (any (in_same_window project_id kind now) cs)
  unfolding try_record_emission
  first_in_window cs project_id kind task_id now h =
      ground (arith, has_key-run [] project_id kind now cs h)
