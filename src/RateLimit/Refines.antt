-- ===== src/RateLimit/Refines.antt =====
-- The limiter decides as if nothing were ever pruned.
use cocopilot.Prelude.{
  ℕ, ◌≤◌, ◌≡◌, refl, sym, ap, ◌∙◌, String, ◌++◌, Bool, true, false, not, List, [], ◌∷◌, arith, keep,
  length, if◌then◌else◌, str_eq, eq_iff, keep-append, Bool-cases, inl, inr,
}
use cocopilot.Prelude.Int.{ℤ}
use cocopilot.Prelude.Dict.{
  lookup, insert, delete, lookup-insert, lookup-delete, Unique, insert-Unique, delete-Unique,
}
use cocopilot.RateLimit.{
  Limiter, rate_limit_key, in_window, pruned, or_empty, reaches, check_rate_limit, reset,
}
use cocopilot.RateLimit.Window.{
  Call, checks, resets, cleans, step, run, History, changed, recent, history_step, history, time_of,
  InOrder, last_time, keep-pruned, cleanup-Unique, lookup-cleanup,
}

-- From the given time on, the limiter and the history have the same requests in every window.
pub record Agrees (window last : ℕ) (rl : Limiter) (h : History) : Type 0 where
  pub unique : Unique rl
  pub same :
      (key : String) (now : ℕ)
      → last ≤ now
      → keep (in_window window now) (or_empty (lookup key rl)) ≡ keep (in_window window now) (h key)

or_empty-insert :
    (k j : String) (ts : List ℕ) (rl : Limiter)
    → or_empty (lookup j (insert k ts rl)) ≡ (if str_eq k j then ts else or_empty (lookup j rl))
or_empty-insert k j ts rl = ground (arith, lookup-insert k j ts rl)

or_empty-delete :
    (k j : String) (rl : Limiter)
    → or_empty (lookup j (delete k rl)) ≡ (if str_eq k j then [] else or_empty (lookup j rl))
or_empty-delete k j rl = ground (arith, lookup-delete k j rl)

-- Storing under a key what agrees with the new history of the key.
stored :
    (window last now : ℕ) (rl : Limiter) (h : History) (key : String) (ts us : List ℕ)
    → Agrees window last rl h
    → last ≤ now
    → ((later : ℕ)
        → now ≤ later
        → keep (in_window window later) ts ≡ keep (in_window window later) us)
    → Agrees window now (insert key ts rl) (changed key us h)
stored window last now rl h key ts us a le new = record {
  unique = insert-Unique key ts rl a.unique;
  same = λ k later l. elim (Bool-cases (str_eq key k)) [
    | inl e ↦ rw (or_empty-insert key k ts rl, e) (new later l)
    | inr e ↦ rw (or_empty-insert key k ts rl, e) (a.same k later (omega arith))
  ];
}

restored :
    (window last now : ℕ) (rl : Limiter) (h : History) (key : String) (ts : List ℕ)
    → Agrees window last rl h
    → last ≤ now
    → ((later : ℕ)
        → now ≤ later
        → keep (in_window window later) ts ≡ keep (in_window window later) (h key))
    → Agrees window now (insert key ts rl) h
restored window last now rl h key ts a le new = record {
  unique = insert-Unique key ts rl a.unique;
  same = λ k later l. elim (Bool-cases (str_eq key k)) [
    | inl e ↦
        rw (or_empty-insert key k ts rl, e)
          (new later l ∙ ap (λ j. keep (in_window window later) (h j)) ((eq_iff key k).0 e))
    | inr e ↦ rw (or_empty-insert key k ts rl, e) (a.same k later (omega arith))
  ];
}

module _ (window last now : ℕ) (rl : Limiter) (h : History) (key : String)
    (a : Agrees window last rl h) (le : last ≤ now) where
  pruned_same :
      (later : ℕ)
      → now ≤ later
      → keep (in_window window later) (pruned window now (or_empty (lookup key rl)))
        ≡ keep (in_window window later) (h key)
  pruned_same later l =
      keep-pruned window now later (or_empty (lookup key rl)) l ∙ a.same key later (omega arith)

  abbrev outcome : Bool → Limiter × Bool
  outcome b =
      if b
      then (insert key (pruned window now (or_empty (lookup key rl))) rl, false)
      else (insert key (pruned window now (or_empty (lookup key rl)) ++ now ∷ []) rl, true)

  decided :
      (b : Bool)
      → Agrees window now (outcome b).0 (if b then h else changed key (h key ++ now ∷ []) h)
        × ((outcome b).1 ≡ not b)
  decided true = (restored window last now rl h key _ a le pruned_same, refl)
  decided false = (
    stored window last now rl h key _ _ a le (λ later l.
        keep-append (in_window window later) (pruned window now (or_empty (lookup key rl)))
          (now ∷ [])
        ∙ ap (λ xs. xs ++ keep (in_window window later) (now ∷ [])) (pruned_same later l)
        ∙ sym (keep-append (in_window window later) (h key) (now ∷ []))),
    refl,
  )

  decided_by :
      (limit : ℤ) (n m : ℕ)
      → n ≡ m
      → Agrees window now
          (outcome (reaches n limit)).0
          (if reaches m limit then h else changed key (h key ++ now ∷ []) h)
        × ((outcome (reaches n limit)).1 ≡ not (reaches m limit))
  decided_by limit n m e = rw e (decided (reaches m limit))

check-Agrees :
    (window last now : ℕ) (rl : Limiter) (h : History) (project_id agent_id : String) (limit : ℤ)
    → Agrees window last rl h
    → last ≤ now
    → Agrees window now
        (step window rl (checks project_id agent_id limit now))
        (history_step window h (checks project_id agent_id limit now))
      × ((check_rate_limit rl project_id agent_id limit window now).1
          ≡ not (reaches (recent window now (h (rate_limit_key project_id agent_id))) limit))
unfolding step history_step check_rate_limit recent
check-Agrees window last now rl h project_id agent_id limit a le =
    let key = rate_limit_key project_id agent_id in
    decided_by window last now rl h key a le limit _ (recent window now (h key))
      (ap length (unfold pruned in a.same key now le))

step-Agrees :
    (window last : ℕ) (rl : Limiter) (h : History) (c : Call)
    → Agrees window last rl h
    → last ≤ time_of last c
    → Agrees window (time_of last c) (step window rl c) (history_step window h c)
step-Agrees window last rl h (checks project_id agent_id limit now) a le =
    (check-Agrees window last now rl h project_id agent_id limit a le).0
step-Agrees window last rl h (resets project_id agent_id) a le =
    unfold step history_step reset in
    (record {
      unique = delete-Unique (rate_limit_key project_id agent_id) rl a.unique;
      same = λ k now l. elim (Bool-cases (str_eq (rate_limit_key project_id agent_id) k)) [
        | inl e ↦ rw (or_empty-delete (rate_limit_key project_id agent_id) k rl, e) refl
        | inr e ↦ rw (or_empty-delete (rate_limit_key project_id agent_id) k rl, e) (a.same k now l)
      ];
    })
step-Agrees window last rl h (cleans now) a le =
    unfold step history_step in
    (record {
      unique = cleanup-Unique rl window now a.unique;
      same = λ k later l.
          rw (lookup-cleanup rl window now k a.unique)
            (keep-pruned window now later _ l ∙ a.same k later (omega arith));
    })

pub run-Agrees :
    (window last : ℕ) (rl : Limiter) (h : History) (cs : List Call)
    → Agrees window last rl h
    → InOrder last cs
    → Agrees window (last_time last cs) (run window rl cs) (history window h cs)
unfolding run history
run-Agrees window last rl h [] a o = a
run-Agrees window last rl h (c ∷ cs) a o =
    run-Agrees window (time_of last c) (step window rl c) (history_step window h c) cs
      (step-Agrees window last rl h c a o.0) o.1

abbrev pub nothing : History
nothing key = []

pub empty-Agrees : (window : ℕ) → Agrees window 0 [] nothing
empty-Agrees window = record { unique = tt; same = λ key now l. unfold lookup in refl }

-- After any calls whose times do not go back, all with one window, a check admits a request exactly
-- when the requests of its key that were admitted since the last reset and lie in the window are
-- fewer than its limit. Neither the pruning of a check nor a cleanup changes a decision.
pub check_refines_history :
    (window : ℕ) (cs : List Call)
    → InOrder 0 cs
    → (project_id agent_id : String) (limit : ℤ) (now : ℕ) → last_time 0 cs ≤ now
    → (check_rate_limit (run window [] cs) project_id agent_id limit window now).1
      ≡ not (
          reaches
            (recent window now (history window nothing cs (rate_limit_key project_id agent_id)))
            limit)
check_refines_history window cs o project_id agent_id limit now le =
    (check-Agrees window (last_time 0 cs) now (run window [] cs) (history window nothing cs)
      project_id agent_id limit (run-Agrees window 0 [] nothing cs (empty-Agrees window) o) le).1
