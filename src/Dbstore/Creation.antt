-- ===== src/Dbstore/Creation.antt =====
-- internal/dbstore/tasks.go: CreateTaskV2, CreateTaskV2WithMeta and UpdateTaskV2. The id is AUTOINCREMENT's:
-- one more than the largest, since no row is deleted here.
use cocopilot.Prelude.{
  ℕ, suc, ◌≤◌, ◌<◌, ◌≡◌, refl, ◌∙◌, String, false, Option, none, some, List, [], ◌∷◌, ◌++◌, arith,
  leb, ◌==◌, ==_iff, ap, if◌then◌else◌,
}
use cocopilot.Prelude.Int.{ℤ, pos}
use cocopilot.Prelude.Text.{trim_space, is_blank}
use cocopilot.Models.{TaskStatus, TaskStatusV2, TaskType}
use cocopilot.Dbstore.{Db, TaskRow, find_task}
use cocopilot.Dbstore.Tasks.{TaskV2, to_task_v2, get_task_v2, update_task, always, or}

abbrev max : ℕ → ℕ → ℕ
max a b = if leb a b then b else a

unfoldable pub next_id : List TaskRow → ℕ
next_id [] = 1
next_id (t ∷ ts) = max (suc t.id) (next_id ts)

-- A row with the columns that both INSERT statements set, and the defaults of the others.
abbrev pub new_task_row : ℕ → String → String → Option ℕ → ℕ → TaskRow
new_task_row id instructions project_id parent_task_id now = record {
  id = id;
  project_id = project_id;
  title = none;
  instructions = instructions;
  task_type = none;
  priority = pos 50;
  tags = [];
  status = TaskStatus.not_picked;
  status_v2 = some TaskStatusV2.queued;
  parent_task_id = parent_task_id;
  output = none;
  created_at = now;
  updated_at = some now;
  automation_depth = 0;
  requires_approval = false;
  approval_status = none;
  loop_anchor_prompt = none;
}

abbrev pub insert_task : Db → TaskRow → Db
insert_task db t = record db { tasks = db.tasks ++ t ∷ [] }

-- CreateTaskV2
unfoldable pub create_task_v2 : Db → String → String → Option ℕ → ℕ → Db × Option TaskV2
unfolding next_id get_task_v2
create_task_v2 db instructions project_id parent_task_id now =
    let id = next_id db.tasks in
    let db' = insert_task db (new_task_row id instructions project_id parent_task_id now) in
    (db', get_task_v2 db' id)

abbrev title_or_null : Option String → Option String
title_or_null none = none
title_or_null (some s) = if is_blank s then none else some (trim_space s)

abbrev anchor_or_null : Option String → Option String
anchor_or_null none = none
anchor_or_null (some s) = if is_blank s then none else some s

-- The optional columns that CreateTaskV2WithMeta is given.
pub record TaskMeta : Type 0 where
  pub title : Option String
  pub task_type : Option TaskType
  pub priority : Option ℤ
  pub tags : List String
  pub loop_anchor_prompt : Option String

unfoldable pub row_with_meta : ℕ → String → String → Option ℕ → TaskMeta → ℕ → TaskRow
row_with_meta id instructions project_id parent_task_id meta now =
    record (new_task_row id instructions project_id parent_task_id now) {
      title = title_or_null meta.title;
      task_type = meta.task_type;
      priority = or meta.priority (pos 50);
      tags = meta.tags;
      loop_anchor_prompt = anchor_or_null meta.loop_anchor_prompt;
    }

-- CreateTaskV2WithMeta
unfoldable pub create_task_v2_with_meta :
    Db → String → String → Option ℕ → TaskMeta → ℕ → Db × Option TaskV2
unfolding next_id get_task_v2 row_with_meta
create_task_v2_with_meta db instructions project_id parent_task_id meta now =
    let id = next_id db.tasks in
    let db' = insert_task db (row_with_meta id instructions project_id parent_task_id meta now) in
    (db', get_task_v2 db' id)

-- What a caller of UpdateTaskV2 wants changed.
pub record TaskUpdate : Type 0 where
  pub instructions : Option String
  pub status_v1 : Option TaskStatus
  pub status_v2 : Option TaskStatusV2
  pub project_id : Option String
  pub parent_task_id : Option ℕ

abbrev or_kept {ℓ} : {A : Type ℓ} → Option A → Option A → Option A
or_kept none kept = kept
or_kept (some a) kept = some a

-- Every column of the statement is written, with the value that was read where none is given.
abbrev pub updated_row : TaskUpdate → TaskV2 → ℕ → TaskRow → TaskRow
updated_row change task now t = record t {
  instructions = or change.instructions task.instructions;
  status = or change.status_v1 task.status_v1;
  status_v2 = some (or change.status_v2 task.status_v2);
  project_id = or change.project_id task.project_id;
  parent_task_id = or_kept change.parent_task_id task.parent_task_id;
  updated_at = some now;
}

abbrev write_update : Db → ℕ → TaskUpdate → ℕ → Option TaskV2 → Db × Option TaskV2
write_update db task_id change now none = (db, none)
write_update db task_id change now (some task) =
    let db' = update_task task_id always (updated_row change task now) db in
    (db', get_task_v2 db' task_id)

-- UpdateTaskV2; `none` is its "task not found".
unfoldable pub update_task_v2 : Db → ℕ → TaskUpdate → ℕ → Db × Option TaskV2
unfolding update_task get_task_v2
update_task_v2 db task_id change now = write_update db task_id change now (get_task_v2 db task_id)

-- The new id is free.
pub next_id-lt :
    (ts : List TaskRow) (id : ℕ) (t : TaskRow) → find_task id ts ≡ some t → id < next_id ts
unfolding next_id find_task
next_id-lt [] id t e = cc
next_id-lt (x ∷ xs) id t e = ground (arith, next_id-lt xs id t)

pub find_task-append :
    (id : ℕ) (ts : List TaskRow) (new : TaskRow)
    → find_task id (ts ++ new ∷ [])
      ≡ elim (find_task id ts) [ some t ↦ some t | none ↦ if new.id == id then some new else none ]
unfolding find_task
find_task-append id [] new = refl
find_task-append id (x ∷ xs) new = ground (arith, find_task-append id xs new)

find_task-next : (ts : List TaskRow) (id : ℕ) → next_id ts ≤ id → find_task id ts ≡ none
unfolding next_id find_task
find_task-next [] id h = refl
find_task-next (x ∷ xs) id h = ground (arith, find_task-next xs id)

-- The new row is found under its id, and all others are found as before.
pub find_task-insert_task :
    (db : Db) (new : TaskRow) (id : ℕ)
    → new.id ≡ next_id db.tasks
    → find_task id (insert_task db new).tasks
      ≡ (if new.id == id then some new else find_task id db.tasks)
find_task-insert_task db new id e =
    find_task-append id db.tasks new ∙ ground (arith, find_task-next db.tasks id)

-- The task that is returned is the row that was inserted.
pub create_task_v2_with_meta-inserted :
    (db : Db) (instructions project_id : String) (parent : Option ℕ) (meta : TaskMeta) (now : ℕ)
    → let row = row_with_meta (next_id db.tasks) instructions project_id parent meta now in
      create_task_v2_with_meta db instructions project_id parent meta now
      ≡ (insert_task db row, some (to_task_v2 row))
unfolding create_task_v2_with_meta row_with_meta
create_task_v2_with_meta-inserted db instructions project_id parent meta now =
    let row = row_with_meta (next_id db.tasks) instructions project_id parent meta now in
    let found : find_task row.id (insert_task db row).tasks ≡ some row =
      find_task-insert_task db row row.id refl ∙ rw ((==_iff row.id row.id).1 refl) refl in
    let read : get_task_v2 (insert_task db row) row.id ≡ some (to_task_v2 row) =
      rw (found, get_task_v2) refl in
    ap (λ o. (insert_task db row, o)) read
