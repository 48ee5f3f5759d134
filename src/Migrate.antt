-- ===== src/Migrate.antt =====
-- internal/migrate/migrate.go: the files of migrations, their statements, and the run that applies those
-- that are pending. The database is any type with a way to execute a statement; the table
-- `schema_migrations` is a list of versions, which its primary key keeps apart. A version has no sign, and
-- a line is short enough for the scanner. Printing is left out.
pub mod Again
mod Examples
use Prim.Native.Char.{Char, code}
use Prim.Native.String
use cocopilot.Prelude.{
  ℕ, zero, suc, ◌+◌, ◌-◌, ◌*◌, String, Bool, true, false, not, ◌&&◌, ◌||◌, Option, none, some, List,
  [], ◌∷◌, ◌++◌, any, keep, ltb, leb, ◌==◌, if◌then◌else◌, str_eq,
}
use cocopilot.Prelude.Text.{split, split_first, trim_space, to_lower, contains, has_suffix}

-- Migration; the SQL for the way back is always empty.
pub record Migration : Type 0 where
  pub version : ℕ
  pub name : String
  pub up_sql : String

-- An entry of the directory; the content is missing where it cannot be read.
pub record File : Type 0 where
  pub name : String
  pub is_dir : Bool
  pub content : Option String

abbrev digit : Char → Option ℕ
digit c = let n = code c in if leb 48 n && leb n 57 then some (n - 48) else none

abbrev digits_from : ℕ → String → Option ℕ
digits_from value String.[] = some value
digits_from value (String.◌∷◌ c s) = elim (digit c) [
  | none ↦ none
  | some d ↦ digits_from (10 * value + d) s
]

-- strconv.Atoi of a text without a sign
unfoldable pub atoi : String → Option ℕ
atoi String.[] = none
atoi (String.◌∷◌ c s) = digits_from 0 (String.◌∷◌ c s)

-- strings.TrimSuffix
abbrev pub trim_suffix : String → String → String
trim_suffix suffix String.[] = String.[]
trim_suffix suffix (String.◌∷◌ c s) =
    let rest = trim_suffix suffix s in
    if str_eq (String.◌∷◌ c s) suffix then String.[] else String.◌∷◌ c rest

-- What a name holds: the version and the rest; `none` where the file is passed over.
unfoldable pub version_of : File → Option (ℕ × String)
unfolding split_first atoi
version_of file =
    if file.is_dir || not (has_suffix file.name ".sql")
    then none
    else elim (split_first "_" file.name) [
      | none ↦ none
      | some (first, rest) ↦ elim (atoi first) [ none ↦ none | some version ↦ some (version, rest) ]
    ]

abbrev pub insert_migration : Migration → List Migration → List Migration
insert_migration m [] = m ∷ []
insert_migration m (n ∷ ns) =
    let rest = insert_migration m ns in if ltb n.version m.version then n ∷ rest else m ∷ n ∷ ns

abbrev pub load_next :
    File → Option (ℕ × String) → Option (List Migration) → Option (List Migration)
load_next file none rest = rest
load_next file (some (version, name)) rest = elim file.content [
  | none ↦ none
  | some content ↦ elim rest [
    | none ↦ none
    | some ms ↦ some (
        insert_migration
          (record { version = version; name = trim_suffix ".sql" name; up_sql = content }) ms)
  ]
]

-- LoadAll, on the entries of the directory, which may not be readable
unfoldable pub load_files : List File → Option (List Migration)
unfolding version_of
load_files [] = some []
load_files (file ∷ files) = load_next file (version_of file) (load_files files)

unfoldable pub load_all : Option (List File) → Option (List Migration)
unfolding load_files
load_all none = none
load_all (some files) = load_files files

-- bufio.ScanLines: a carriage return at the end is dropped, and so is an empty last line.
abbrev without_return : String → String
without_return String.[] = String.[]
without_return (String.◌∷◌ c String.[]) = if code c == 13 then String.[] else String.◌∷◌ c String.[]
without_return (String.◌∷◌ c (String.◌∷◌ d s)) = String.◌∷◌ c (without_return (String.◌∷◌ d s))

abbrev scan_lines : List String → List String
scan_lines [] = []
scan_lines (String.[] ∷ []) = []
scan_lines (line ∷ lines) = without_return line ∷ scan_lines lines

abbrev without_comment : String → String
without_comment line = elim (split_first "--" line) [ none ↦ line | some (a, b) ↦ a ]

abbrev join_lines : List String → String
join_lines [] = String.[]
join_lines (line ∷ []) = without_comment line
join_lines (line ∷ next ∷ lines) =
    String.◌++◌ (without_comment line) (String.◌++◌ "\n" (join_lines (next ∷ lines)))

-- SplitSQLStatements
unfoldable pub split_sql_statements : String → List String
unfolding split_first
split_sql_statements sql_text = split ";" (join_lines (scan_lines (split "\n" sql_text)))

-- The database, and the versions in `schema_migrations`.
pub record Store (S : Type 0) : Type 0 where
  pub schema : S
  pub versions : List ℕ

-- What a statement does: it changes the database, or it fails with a message.
pub data Executed (S : Type 0) : Type 0 where
  done : S → Executed S
  failed : String → Executed S

-- How a run ends.
pub data Outcome : Type 0 where
  up_to_date : Outcome
  failed_at : ℕ → Outcome
  unreadable : Outcome

unfoldable pub is_applied : List ℕ → ℕ → Bool
is_applied versions version = any (λ v. v == version) versions

-- The one failure that is passed over.
unfoldable pub is_excused : ℕ → String → String → Bool
is_excused version stmt message =
    version == 17
    && contains message "duplicate column name: updated_at"
    && contains (to_lower stmt) "alter table tasks add column updated_at"

module _ {S : Type 0} (exec : String → S → Executed S) where
  -- The loop over the statements; `none` is the error.
  unfoldable pub run_statements : ℕ → List String → S → Option S
  unfolding is_excused
  run_statements version [] s = some s
  run_statements version (statement ∷ statements) s =
      let stmt = trim_space statement in
      elim (str_eq stmt "") [
        | true ↦ run_statements version statements s
        | false ↦ elim (exec stmt s) [
          | done s' ↦ run_statements version statements s'
          | failed message ↦
              if is_excused version stmt message then run_statements version statements s else none
        ]
      ]

  -- Apply, in a transaction: on an error nothing has changed.
  unfoldable pub apply : Migration → Store S → Option (Store S)
  unfolding run_statements is_applied split_sql_statements
  apply migration store =
      elim (run_statements migration.version (split_sql_statements migration.up_sql) store.schema) [
        | none ↦ none
        | some s ↦
            if is_applied store.versions migration.version
            then none
            else some (record { schema = s; versions = store.versions ++ migration.version ∷ [] })
      ]

  -- The loop of Run, with the versions that were applied before it.
  unfoldable pub run_pending : List ℕ → List Migration → Store S → Store S × Outcome
  unfolding apply
  run_pending applied [] store = (store, up_to_date)
  run_pending applied (migration ∷ migrations) store = elim (is_applied applied migration.version) [
    | true ↦ run_pending applied migrations store
    | false ↦ elim (apply migration store) [
      | none ↦ (store, failed_at migration.version)
      | some store' ↦ run_pending applied migrations store'
    ]
  ]

  -- Run
  unfoldable pub run : Option (List File) → Store S → Store S × Outcome
  unfolding run_pending load_all
  run files store = elim (load_all files) [
    | none ↦ (store, unreadable)
    | some migrations ↦ run_pending store.versions migrations store
  ]

abbrev max_version : List ℕ → ℕ
max_version [] = 0
max_version (v ∷ vs) = let m = max_version vs in if ltb v m then m else v

-- Rollback: the entry of the newest migration is removed, and the schema stays. Without entries the
-- maximum is NULL, which reads as zero.
unfoldable pub rollback : {S : Type 0} → Store S → Store S
rollback store =
    let version = max_version store.versions in
    if version == 0
    then store
    else record store { versions = keep (λ v. not (v == version)) store.versions }
