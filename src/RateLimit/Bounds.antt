-- ===== src/RateLimit/Bounds.antt =====
-- No window ever holds more admitted requests than the limit.
use cocopilot.Prelude.{
  ℕ, ◌+◌, ◌≤◌, ◌≡◌, refl, ap, ◌∙◌, String, ◌++◌, List, [], ◌∷◌, arith, keep, length, if◌then◌else◌,
  str_eq, Bool-cases, Option-cases, inl, inr,
}
use cocopilot.Prelude.Int.{pos}
use cocopilot.Prelude.Dict.{lookup}
use cocopilot.RateLimit.{
  Limiter, rate_limit_key, in_window, or_empty, reaches, count_from, count_in_window,
}
use cocopilot.RateLimit.Window.{
  Call, checks, resets, cleans, run, History, changed, recent, history_step, history, time_of,
  InOrder, last_time,
}
use cocopilot.RateLimit.Refines.{run-Agrees, nothing, empty-Agrees}

-- Every check has the limit.
abbrev pub WithLimit : ℕ → List Call → Type 0
WithLimit limit [] = Unit
WithLimit limit (checks project_id agent_id l now ∷ cs) = (l ≡ pos limit) × WithLimit limit cs
WithLimit limit (resets project_id agent_id ∷ cs) = WithLimit limit cs
WithLimit limit (cleans now ∷ cs) = WithLimit limit cs

recent_mono :
    (window now later : ℕ) (ts : List ℕ)
    → now ≤ later
    → recent window later ts ≤ recent window now ts
unfolding recent
recent_mono window now later [] h = omega arith
recent_mono window now later (t ∷ ts) h = ground (arith, recent_mono window now later ts h)

recent-snoc :
    (window now t : ℕ) (ts : List ℕ) → recent window now (ts ++ t ∷ []) ≤ recent window now ts + 1
unfolding recent
recent-snoc window now t [] = ground arith
recent-snoc window now t (u ∷ ts) = ground (arith, recent-snoc window now t ts)

abbrev Bounded : ℕ → ℕ → ℕ → History → Type 0
Bounded limit window last h =
    (key : String) (now : ℕ) → last ≤ now → recent window now (h key) ≤ limit

check-Bounded :
    (limit window last now : ℕ) (h : History) (key k : String) (later : ℕ)
    → Bounded limit window last h
    → last ≤ now
    → now ≤ later
    → recent window later (
        (if reaches (recent window now (h key)) (pos limit)
            then h
            else changed key (h key ++ now ∷ []) h)
          k)
      ≤ limit
check-Bounded limit window last now h key k later b le l = ground (
  arith,
  recent_mono window now later (h key) l,
  recent-snoc window later now (h key),
  b k later (omega arith),
)

changed-Bounded :
    (limit window last : ℕ) (h : History) (key k : String) (later : ℕ)
    → Bounded limit window last h
    → last ≤ later
    → recent window later (changed key [] h k) ≤ limit
unfolding recent
changed-Bounded limit window last h key k later b l = elim (Bool-cases (str_eq key k)) [
  | inl e ↦ rw e (omega arith)
  | inr e ↦ rw e (unfold recent in b k later l)
]

history_step-Bounded :
    (limit window last : ℕ) (h : History) (c : Call) (cs : List Call)
    → WithLimit limit (c ∷ cs)
    → Bounded limit window last h
    → last ≤ time_of last c
    → Bounded limit window (time_of last c) (history_step window h c) × WithLimit limit cs
unfolding history_step
history_step-Bounded limit window last h (checks project_id agent_id l now) cs w b le = (
  (λ k later x.
      rw (w.0) (
        check-Bounded limit window last now h (rate_limit_key project_id agent_id) k later b le x)),
  w.1,
)
history_step-Bounded limit window last h (resets project_id agent_id) cs w b le = (
  (λ k later x.
      changed-Bounded limit window last h (rate_limit_key project_id agent_id) k later b x),
  w,
)
history_step-Bounded limit window last h (cleans now) cs w b le =
    ((λ k later x. b k later (omega arith)), w)

history-Bounded :
    (limit window last : ℕ) (h : History) (cs : List Call)
    → WithLimit limit cs
    → InOrder last cs
    → Bounded limit window last h
    → Bounded limit window (last_time last cs) (history window h cs)
unfolding history
history-Bounded limit window last h [] w o b = b
history-Bounded limit window last h (c ∷ cs) w o b =
    let (next, rest) = history_step-Bounded limit window last h c cs w b o.0 in
    history-Bounded limit window (time_of last c) (history_step window h c) cs rest o.1 next

pub count_from-recent :
    (window now : ℕ) (ts : List ℕ) (n : ℕ) → count_from window now ts n ≡ n + recent window now ts
unfolding count_from recent
count_from-recent window now [] n = omega arith
count_from-recent window now (t ∷ ts) n =
    ground (arith, count_from-recent window now ts (n + 1), count_from-recent window now ts n)

count_in_window-recent :
    (rl : Limiter) (project_id agent_id : String) (window now : ℕ)
    → count_in_window rl project_id agent_id window now
      ≡ recent window now (or_empty (lookup (rate_limit_key project_id agent_id) rl))
unfolding count_in_window
count_in_window-recent rl project_id agent_id window now =
    elim (Option-cases (lookup (rate_limit_key project_id agent_id) rl)) [
      | inl e ↦ rw (e, count_in_window) (unfold recent in refl)
      | inr (ts, e) ↦ rw (e, count_in_window) (omega (arith, count_from-recent window now ts 0))
    ]

recent_same :
    (window now : ℕ) (ts us : List ℕ)
    → keep (in_window window now) ts ≡ keep (in_window window now) us
    → recent window now ts ≡ recent window now us
unfolding recent
recent_same window now ts us e = ap length e

nothing-Bounded : (limit window : ℕ) → Bounded limit window 0 nothing
unfolding recent
nothing-Bounded limit window key now l = omega arith

-- After any calls whose times do not go back, all with one window and each check with the same limit,
-- the number that the limiter counts for a key, now or later, is the number of its admitted requests
-- in the window, and it is at most the limit.
pub count_within_limit :
    (window limit : ℕ) (cs : List Call)
    → InOrder 0 cs
    → WithLimit limit cs
    → (project_id agent_id : String) (now : ℕ) → last_time 0 cs ≤ now
    → (count_in_window (run window [] cs) project_id agent_id window now
        ≡ recent window now (history window nothing cs (rate_limit_key project_id agent_id)))
      × (count_in_window (run window [] cs) project_id agent_id window now ≤ limit)
count_within_limit window limit cs o w project_id agent_id now le =
    let a = run-Agrees window 0 [] nothing cs (empty-Agrees window) o in
    let same =
      count_in_window-recent (run window [] cs) project_id agent_id window now
      ∙ recent_same window now _ _ (a.same (rate_limit_key project_id agent_id) now le) in
    (
      same,
      omega (
        arith,
        same,
        history-Bounded limit window 0 nothing cs w o (nothing-Bounded limit window)
            (rate_limit_key project_id agent_id) now le,
      ),
    )
