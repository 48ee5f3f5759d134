-- ===== src/Dbstore/Memories.antt =====
-- internal/dbstore/memory.go: storing and reading a memory, one for each project, scope and key.
use cocopilot.Prelude.{ℕ, String, Bool, ◌&&◌, Option, List, [], ◌∷◌, str_eq, find?, if◌then◌else◌}
use cocopilot.Prelude.Dict.{Dict}
use cocopilot.Dbstore.{Db, Memory, Value}

abbrev pub same_memory : String → String → String → Memory → Bool
same_memory project_id scope key m =
    str_eq m.project_id project_id && str_eq m.scope scope && str_eq m.key key

-- INSERT … ON CONFLICT(project_id, scope, key) DO UPDATE
unfoldable pub upsert : Memory → List Memory → List Memory
upsert m [] = m ∷ []
upsert m (x ∷ xs) =
    if same_memory m.project_id m.scope m.key x
    then record x { value = m.value; updated_at = m.updated_at } ∷ xs
    else x ∷ upsert m xs

-- CreateMemory
unfoldable pub create_memory : Db → String → String → String → Dict Value → ℕ → Db
unfolding upsert
create_memory db project_id scope key value now = record db {
  memories =
      upsert
        (record {
          project_id = project_id;
          scope = scope;
          key = key;
          value = value;
          updated_at = now;
        })
        db.memories;
}

-- GetMemory; `none` where there is no such row.
unfoldable pub get_memory : Db → String → String → String → Option Memory
get_memory db project_id scope key = find? (same_memory project_id scope key) db.memories
