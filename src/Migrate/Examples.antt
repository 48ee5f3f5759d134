-- ===== src/Migrate/Examples.antt =====
-- Two files in the wrong order, one of them already applied; a statement is appended to the schema.
use cocopilot.Prelude.{
  ◌≡◌, refl, String, false, none, some, List, [], ◌∷◌, ◌++◌, keep, str_eq, if◌then◌else◌,
}
use cocopilot.Prelude.Text.{trim_space}
use cocopilot.Migrate.{
  File, Migration, Store, Executed, done, failed, up_to_date, load_all, run, rollback,
}
use cocopilot.Migrate.Again.{IsAscending, is_pending, versions_of, run_again}

abbrev files : List File
files =
    record { name = "0002_b.sql"; is_dir = false; content = some "two; -- not; this\nthree;" }
    ∷ record { name = "0001_a.sql"; is_dir = false; content = some "one" }
    ∷ record { name = "README.md"; is_dir = false; content = none }
    ∷ []

abbrev exec : String → List String → Executed (List String)
exec stmt s = if str_eq stmt "bad" then failed "syntax error" else done (s ++ stmt ∷ [])

abbrev loaded : List Migration
loaded =
    record { version = 1; name = "a"; up_sql = "one" }
    ∷ record { version = 2; name = "b"; up_sql = "two; -- not; this\nthree;" }
    ∷ []

abbrev fresh : Store (List String)
fresh = record { schema = []; versions = [] }

abbrev migrated : Store (List String)
migrated = record { schema = "one" ∷ "two" ∷ "three" ∷ []; versions = 1 ∷ 2 ∷ [] }

all_applied : run exec (some files) fresh ≡ (migrated, up_to_date)
unfolding run trim_space
all_applied = refl

-- A rolled back migration is applied again.
rolled_back :
    (run exec (some files) (rollback migrated)).0.schema
    ≡ "one" ∷ "two" ∷ "three" ∷ "two" ∷ "three" ∷ []
unfolding run rollback trim_space
rolled_back = refl

run_again_example :
    IsAscending loaded
    × (migrated.versions ≡ [] ++ versions_of (keep (is_pending []) loaded))
    × (run exec (some files) migrated ≡ (migrated, up_to_date))
unfolding run load_all trim_space
run_again_example = run_again exec (some files) loaded fresh migrated refl refl
