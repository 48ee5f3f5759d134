-- ===== src/Parents/Walk.antt =====
-- The walk up the parents ends, also where they go round in a circle, and visits no task twice.
use cocopilot.Prelude.{
  ℕ, zero, suc, ◌≤◌, ◌<◌, ◌≡◌, refl, ap, ◌∙◌, inl, inr, true, false, not, none, some, List, [], ◌∷◌,
  arith, keep, map, length, ◌==◌, Bool-cases, Option-cases, length-keep-le,
}
use cocopilot.Dbstore.{Db, TaskRow, find_task}
use cocopilot.Dbstore.Rows.{find_task-id}
use cocopilot.Dbstore.Tasks.{TaskV2, to_task_v2, get_task_v2}
use cocopilot.Dependencies.{mem}
use cocopilot.Parents.{chain_from, reverse, get_task_parent_chain}

-- The rounds of the loop: where it starts, what was visited, and the tasks that it appends.
pub data Walk (db : Db) : ℕ → List ℕ → List TaskV2 → Type 0 where
  no_parent : {current : ℕ} {visited : List ℕ} → current ≡ 0 → Walk db current visited []
  seen : {current : ℕ} {visited : List ℕ} → mem current visited ≡ true → Walk db current visited []
  missing :
      {current : ℕ} {visited : List ℕ} → get_task_v2 db current ≡ none → Walk db current visited []
  root :
      {current : ℕ} {visited : List ℕ} {task : TaskV2}
      → mem current visited ≡ false
      → get_task_v2 db current ≡ some task
      → task.parent_task_id ≡ none
      → Walk db current visited (task ∷ [])
  step :
      {current parent : ℕ} {visited : List ℕ} {task : TaskV2} {rest : List TaskV2}
      → mem current visited ≡ false
      → get_task_v2 db current ≡ some task
      → task.parent_task_id ≡ some parent
      → Walk db parent (current ∷ visited) rest
      → Walk db current visited (task ∷ rest)

-- The tasks that were not visited.
abbrev unvisited : List ℕ → List TaskRow → ℕ
unvisited visited ts = length (keep (λ t. not (mem t.id visited)) ts)

unvisited_le :
    (current : ℕ) (visited : List ℕ) (ts : List TaskRow)
    → unvisited (current ∷ visited) ts ≤ unvisited visited ts
unvisited_le current visited [] = omega arith
unvisited_le current visited (t ∷ ts) = ground (arith, unvisited_le current visited ts)

unvisited_lt :
    (current : ℕ) (visited : List ℕ) (ts : List TaskRow) (t : TaskRow)
    → find_task current ts ≡ some t
    → mem current visited ≡ false
    → unvisited (current ∷ visited) ts < unvisited visited ts
unfolding find_task
unvisited_lt current visited [] t e new = cc
unvisited_lt current visited (x ∷ xs) t e new =
    ground (arith, unvisited_lt current visited xs t, unvisited_le current visited xs)

get_task_v2-row :
    (db : Db) (id : ℕ) (task : TaskV2)
    → get_task_v2 db id ≡ some task
    → (t : TaskRow) × (find_task id db.tasks ≡ some t) × (task ≡ to_task_v2 t)
unfolding get_task_v2
get_task_v2-row db id task e = elim (Option-cases (find_task id db.tasks)) [
  | inl none_there ↦ let gone : none ≡ some task = rw (none_there, get_task_v2) at e in cc
  | inr (t, there) ↦
      let here : some (to_task_v2 t) ≡ some task = rw (there, get_task_v2) at e in (t, there, cc)
]

chain_from-Walk :
    (fuel : ℕ) (db : Db) (current : ℕ) (visited : List ℕ)
    → unvisited visited db.tasks < fuel
    → Walk db current visited (chain_from fuel db current visited)
unfolding chain_from
chain_from-Walk zero db current visited h = absurd (omega arith)
chain_from-Walk (suc fuel) db current visited h = elim (Bool-cases (current == 0)) [
  | inl is_zero ↦ let at_end : current ≡ 0 = ground arith in rw is_zero (no_parent at_end)
  | inr more ↦ elim (Bool-cases (mem current visited)) [
    | inl old ↦ rw (more, old) (seen old)
    | inr new ↦ elim (Option-cases (get_task_v2 db current)) [
      | inl gone ↦ rw (more, new, gone) (missing gone)
      | inr (task, e) ↦ elim (Option-cases task.parent_task_id) [
        | inl top ↦ rw (more, new, e, top) (root new e top)
        | inr (parent, up) ↦
            let (t, there, _) = get_task_v2-row db current task e in
            let less : unvisited (current ∷ visited) db.tasks < unvisited visited db.tasks =
              unvisited_lt current visited db.tasks t there new in
            rw (more, new, e, up)
              (step new e up (chain_from-Walk fuel db parent (current ∷ visited) (omega arith)))
      ]
    ]
  ]
]

get_task_v2-id : (db : Db) (id : ℕ) (task : TaskV2) → get_task_v2 db id ≡ some task → task.id ≡ id
unfolding to_task_v2
get_task_v2-id db id task e =
    let (t, there, same) = get_task_v2-row db id task e in
    ap (λ u. u.id) same ∙ find_task-id id db.tasks t there

abbrev pub ids : List TaskV2 → List ℕ
ids tasks = map (λ t. t.id) tasks

abbrev pub Distinct : List ℕ → Type 0
Distinct [] = Unit
Distinct (x ∷ xs) = (mem x xs ≡ false) × Distinct xs

differ :
    (a x : ℕ) (visited : List ℕ) → mem a visited ≡ false → mem x visited ≡ true → (a == x) ≡ false
differ a x visited new old = elim (Bool-cases (a == x)) [
  | inl same ↦
      let equal : a ≡ x = ground arith in
      let both : mem a visited ≡ mem x visited = ap (λ z. mem z visited) equal in cc
  | inr other ↦ other
]

-- A walk leaves out what was visited.
Walk-new :
    (db : Db) (current : ℕ) (visited : List ℕ) (chain : List TaskV2)
    → Walk db current visited chain
    → (x : ℕ) → mem x visited ≡ true
    → mem x (ids chain) ≡ false
Walk-new db current visited chain (no_parent _) x h = refl
Walk-new db current visited chain (seen _) x h = refl
Walk-new db current visited chain (missing _) x h = refl
Walk-new db current visited chain (root {task = task} new e _) x h =
    let same = get_task_v2-id db current task e in
    let apart : (task.id == x) ≡ false = rw same (differ current x visited new h) in rw apart refl
Walk-new db current visited chain (step {parent = parent} {task = task} {rest = rest} new e _ w) x
      h =
    let same = get_task_v2-id db current task e in
    let later = Walk-new db parent (current ∷ visited) rest w x (ground arith) in
    let apart : (task.id == x) ≡ false = rw same (differ current x visited new h) in rw apart later

Walk-Distinct :
    (db : Db) (current : ℕ) (visited : List ℕ) (chain : List TaskV2)
    → Walk db current visited chain
    → Distinct (ids chain)
Walk-Distinct db current visited chain (no_parent _) = tt
Walk-Distinct db current visited chain (seen _) = tt
Walk-Distinct db current visited chain (missing _) = tt
Walk-Distinct db current visited chain (root _ _ _) = (refl, tt)
Walk-Distinct db current visited chain
      (step {parent = parent} {task = task} {rest = rest} new e _ w) =
    let same = get_task_v2-id db current task e in
    let later = Walk-new db parent (current ∷ visited) rest w task.id (ground arith) in
    (later, Walk-Distinct db parent (current ∷ visited) rest w)

-- For every database and every task: the ancestors are found by a walk up the parents that ends at a
-- task without a parent, at a task that is missing, or at one that was visited, and they are returned
-- in the opposite order. No task is visited twice.
pub get_task_parent_chain-Walk :
    (db : Db) (parent_id : ℕ)
    → (chain : List TaskV2) × Walk db parent_id [] chain
      × Distinct (ids chain)
      × (get_task_parent_chain db (some parent_id) ≡ reverse chain)
unfolding get_task_parent_chain
get_task_parent_chain-Walk db parent_id =
    let few = length-keep-le (λ t. not (mem t.id [])) db.tasks in
    let walk = chain_from-Walk (suc (length db.tasks)) db parent_id [] (omega arith) in
    (_, walk, Walk-Distinct db parent_id [] _ walk, refl)
