-- ===== src/Migrate/Again.antt =====
-- A run that succeeds applies what is pending, in the order of the versions, and leaves nothing to do.
use cocopilot.Prelude.{
  ℕ, ◌≤◌, String, ◌≡◌, refl, ap, sym, ◌∙◌, inl, inr, Bool, true, not, ◌||◌, Option, none, some,
  List, [], ◌∷◌, ◌++◌, All, any, keep, map, arith, ltb, ◌==◌, ==_iff, Bool-cases, Option-cases,
}
use Prim.Derive.{subst}
use mathlib.Core.List.{append-nil, append_assoc}
use cocopilot.Migrate.{
  Migration, File, Store, Executed, up_to_date, failed_at, is_applied, load_all, load_next,
  insert_migration, trim_suffix, version_of, load_files, run_statements, apply, run_pending, run,
  split_sql_statements,
}

abbrev pub versions_of : List Migration → List ℕ
versions_of = map (λ m. m.version)

-- No version is before the one that it follows.
abbrev pub IsAscending : List Migration → Type 0
IsAscending [] = Unit
IsAscending (m ∷ ms) = All (λ n. m.version ≤ n.version) ms × IsAscending ms

any-append : (p : ℕ → Bool) (xs ys : List ℕ) → any p (xs ++ ys) ≡ (any p xs || any p ys)
any-append p [] ys = refl
any-append p (x ∷ xs) ys = ground (arith, any-append p xs ys)

abbrev pub is_pending : List ℕ → Migration → Bool
is_pending applied m = not (is_applied applied m.version)

All-map :
    {P Q : Migration → Type 0}
    → ((m : Migration) → P m → Q m)
    → (ms : List Migration) → All P ms
    → All Q ms
All-map f [] h = tt
All-map f (m ∷ ms) h = (f m h.0, All-map f ms h.1)

-- Each migration was applied or is among those that are pending.
applied_or_pending :
    (applied : List ℕ) (ms : List Migration)
    → All
        (λ m.
          (is_applied applied m.version
            || is_applied (versions_of (keep (is_pending applied) ms)) m.version)
          ≡ true)
        ms
unfolding is_applied
applied_or_pending applied [] = tt
applied_or_pending applied (m ∷ ms) =
    let same = (==_iff m.version m.version).1 refl in
    (
      ground (arith, same),
      All-map
          (λ n
              (h : (is_applied applied n.version
                  || is_applied (versions_of (keep (is_pending applied) ms)) n.version)
                ≡ true).
            ground (arith))
          ms (applied_or_pending applied ms),
    )

insert-All :
    (k : ℕ) (m : Migration) (ns : List Migration)
    → k ≤ m.version
    → All (λ n. k ≤ n.version) ns
    → All (λ n. k ≤ n.version) (insert_migration m ns)
insert-All k m [] low h = (low, tt)
insert-All k m (n ∷ ns) low h = elim (Bool-cases (ltb n.version m.version)) [
  | inl before ↦ rw before (h.0, insert-All k m ns low h.1)
  | inr here ↦ rw here (low, h)
]

insert-IsAscending :
    (m : Migration) (ns : List Migration) → IsAscending ns → IsAscending (insert_migration m ns)
insert-IsAscending m [] h = (tt, tt)
insert-IsAscending m (n ∷ ns) h = elim (Bool-cases (ltb n.version m.version)) [
  | inl before ↦
      let low : n.version ≤ m.version = ground (arith, before) in
      rw before (insert-All n.version m ns low h.0, insert-IsAscending m ns h.1)
  | inr here ↦
      let low : m.version ≤ n.version = ground (arith, here) in
      rw here ((low, All-map (λ x (le : n.version ≤ x.version). omega arith) ns h.0), h)
]

-- The migrations of a directory, if it could be read, are in order.
abbrev LoadsAscending : Option (List Migration) → Type 0
LoadsAscending none = Unit
LoadsAscending (some ms) = IsAscending ms

load_next-LoadsAscending :
    (file : File) (o : Option (ℕ × String)) (rest : Option (List Migration))
    → LoadsAscending rest
    → LoadsAscending (load_next file o rest)
load_next-LoadsAscending file none rest h = h
load_next-LoadsAscending file (some (version, name)) rest h = elim (Option-cases file.content) [
  | inl lacks ↦ rw lacks tt
  | inr (content, has) ↦ rw has (
      elim rest
          as (λ r.
            LoadsAscending r
            → LoadsAscending (elim r [
              | none ↦ none
              | some ms ↦ some (
                  insert_migration
                    (record { version = version; name = trim_suffix ".sql" name; up_sql = content })
                    ms)
            ])) [ none ↦ λ _. tt | some ms ↦ λ k. insert-IsAscending _ ms k ]
        h)
]

load_all-LoadsAscending : (files : Option (List File)) → LoadsAscending (load_all files)
unfolding load_all load_files
load_all-LoadsAscending none = tt
load_all-LoadsAscending (some []) = tt
load_all-LoadsAscending (some (file ∷ files)) =
    load_next-LoadsAscending file (version_of file) (load_files files)
      (load_all-LoadsAscending (some files))

module _ {S : Type 0} (exec : String → S → Executed S) where
  apply-versions :
      (m : Migration) (store store' : Store S)
      → apply exec m store ≡ some store'
      → store'.versions ≡ store.versions ++ m.version ∷ []
  unfolding apply
  apply-versions m store store' e =
      elim (Option-cases
        (run_statements exec m.version (split_sql_statements m.up_sql) store.schema)) [
          | inl fails ↦ absurd (ground (arith, fails))
          | inr (s, works) ↦ ground (arith, works)
        ]

  run_pending-skip :
      (applied : List ℕ) (ms : List Migration) (store : Store S)
      → All (λ m. is_applied applied m.version ≡ true) ms
      → run_pending exec applied ms store ≡ (store, up_to_date)
  unfolding run_pending
  run_pending-skip applied [] store h = refl
  run_pending-skip applied (m ∷ ms) store h =
      rw (h.0, run_pending) (run_pending-skip applied ms store h.1)

  run_pending-versions :
      (applied : List ℕ) (ms : List Migration) (store store' : Store S)
      → run_pending exec applied ms store ≡ (store', up_to_date)
      → store'.versions ≡ store.versions ++ versions_of (keep (is_pending applied) ms)
  unfolding run_pending
  run_pending-versions applied [] store store' e =
      ap (λ r. r.0.versions) (sym e) ∙ sym (append-nil store.versions)
  run_pending-versions applied (m ∷ ms) store store' e =
      elim (Bool-cases (is_applied applied m.version)) [
        | inl old ↦
            let opened : run_pending exec applied (m ∷ ms) store
                ≡ run_pending exec applied ms store =
              rw (old, run_pending) refl in
            rw old (run_pending-versions applied ms store store' (sym opened ∙ e))
        | inr new ↦ elim (Option-cases (apply exec m store)) [
          | inl fails ↦
              let opened : run_pending exec applied (m ∷ ms) store ≡ (store, failed_at m.version) =
                rw (new, fails, run_pending) refl in
              let clash : failed_at m.version ≡ up_to_date = ap (λ r. r.1) (sym opened ∙ e) in
              absurd (cc)
          | inr (next, works) ↦
              let opened : run_pending exec applied (m ∷ ms) store
                  ≡ run_pending exec applied ms next =
                rw (new, works, run_pending) refl in
              rw new (
                run_pending-versions applied ms next store' (sym opened ∙ e)
                ∙ ap (λ vs. vs ++ versions_of (keep (is_pending applied) ms))
                    (apply-versions m store next works)
                ∙ append_assoc store.versions (m.version ∷ [])
                    (versions_of (keep (is_pending applied) ms)))
        ]
      ]

  run-loaded :
      (files : Option (List File)) (ms : List Migration) (store : Store S)
      → load_all files ≡ some ms
      → run exec files store ≡ run_pending exec store.versions ms store
  unfolding run
  run-loaded files ms store e = rw (e, run) refl

  -- For any way to execute statements: the migrations of a directory are loaded in the order of their
  -- versions, and if a run of them succeeds, then the versions recorded after it are those before it and
  -- behind them those that were missing, in that order; a second run changes nothing.
  pub run_again :
      (files : Option (List File)) (ms : List Migration) (store store' : Store S)
      → load_all files ≡ some ms
      → run exec files store ≡ (store', up_to_date)
      → IsAscending ms
        × (store'.versions ≡ store.versions ++ versions_of (keep (is_pending store.versions) ms))
        × (run exec files store' ≡ (store', up_to_date))
  unfolding is_applied
  run_again files ms store store' loaded e =
      let recorded =
        run_pending-versions store.versions ms store store'
          (sym (run-loaded files ms store loaded) ∙ e) in
      let pending = versions_of (keep (is_pending store.versions) ms) in
      let ascending : IsAscending ms =
        subst LoadsAscending loaded (load_all-LoadsAscending files) in
      (
        ascending,
        recorded,
        run-loaded files ms store' loaded
            ∙ run_pending-skip store'.versions ms store' (
                All-map
                  (λ m
                      (h : (is_applied store.versions m.version || is_applied pending m.version)
                        ≡ true).
                    ap (λ vs. is_applied vs m.version) recorded
                    ∙ any-append (λ v. v == m.version) store.versions pending
                    ∙ h)
                  ms (applied_or_pending store.versions ms)),
      )
