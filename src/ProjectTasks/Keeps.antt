-- ===== src/ProjectTasks/Keeps.antt =====
-- What a creation request does to the dependencies.
use cocopilot.Prelude.{
  ℕ, ◌&&◌, not, Option, none, some, List, [], ◌∷◌, String, arith, if◌then◌else◌, if_P,
}
use cocopilot.Policy.{Policy}
use cocopilot.Dbstore.Creation.{TaskMeta}
use cocopilot.Dbstore.{Db, EventHook}
use cocopilot.Dbstore.Tasks.{TaskV2, to_task_v2}
use cocopilot.Dbstore.Creation.{next_id, insert_task}
use cocopilot.Automation.{
  Config, policy_blocks, emit_policy_denied_event, blocked_by_policies,
  is_task_create_blocked_by_policies,
}
use cocopilot.Automation.Keeps.{Creation, try_create-Creation}
use cocopilot.ProjectTasks.{
  TaskRequest, TaskTemplate, TaskReply, ask_approval, finish_creation, create_filled,
  create_unless_blocked, post_project_task,
}
use cocopilot.Dependencies.Later.{Since, Since-refl, KeepsDependencies, create_event-Since}
use cocopilot.Dependencies.Orderly.{IsOrderly, Since-IsOrderly, refused_or}
use cocopilot.Prelude.{str_eq}
use cocopilot.Prelude.Text.{trim_space, is_blank}
use cocopilot.ProjectTasks.{has_parent, is_positive_if_given}
use cocopilot.ProjectTasks.Growing.{
  NamesPast, NamesPast-le, add_dependencies-IsGrowing, ask_approval-Since, insert_task-IsGrowing,
  Since-IsGrowing, IsGrowing-IsOrderly,
}

module _ (hook : EventHook) (keeps : KeepsDependencies hook) (r : TaskRequest) (now : ℕ) where
  finish_creation-IsOrderly :
      (db : Db) (p : Db × Option TaskV2)
      → Creation db p
      → NamesPast (next_id db.tasks) r.depends_on
      → IsOrderly db
      → IsOrderly (finish_creation hook r now p).0
  unfolding to_task_v2
  finish_creation-IsOrderly db p Creation.refused past h = h
  finish_creation-IsOrderly db p (Creation.inserted row new flat) past h =
      let task = to_task_v2 row in
      let grown = insert_task db row in
      let asked = ask_approval-Since r.requires_approval grown task in
      IsGrowing-IsOrderly row.id _ (
        add_dependencies-IsGrowing hook keeps (ask_approval r.requires_approval grown task).0 row.id
          r.depends_on now (NamesPast-le _ _ r.depends_on (omega arith) past)
          (Since-IsGrowing row.id grown _ asked.0 (insert_task-IsGrowing db row new h)))

  denied-Since :
      (db : Db) (project_id action reason : String)
      → Since db (emit_policy_denied_event hook db project_id action reason now)
  unfolding emit_policy_denied_event
  denied-Since db project_id action reason = create_event-Since hook keeps db _ _ _ _ _ now

  blocked_by_policies-Since :
      (db : Db) (project_id kind action : String) (ps : List Policy)
      → Since db (blocked_by_policies hook db project_id kind action ps now).0
  unfolding blocked_by_policies
  blocked_by_policies-Since db project_id kind action [] = Since-refl db
  blocked_by_policies-Since db project_id kind action (p ∷ ps) =
      let rest = blocked_by_policies hook db project_id kind action ps now in
      let later = blocked_by_policies-Since db project_id kind action ps in
      let checked : Option String → Db × Option String = λ o. elim o [
        | none ↦ rest
        | some reason ↦ (emit_policy_denied_event hook db project_id action reason now, some reason)
      ] in
      if_P (λ (q : Db × Option String). Since db q.0) p.enabled
        (checked (policy_blocks kind p.rules)) rest
        (λ _. elim (policy_blocks kind p.rules) as (λ o. Since db (checked o).0) [
          | none ↦ later
          | some reason ↦ denied-Since db project_id action reason
        ])
        (λ _. later)

  create_filled-IsOrderly :
      (cfg : Config) (db : Db) (project_id : String) (o : Option (String × TaskMeta))
      → NamesPast (next_id db.tasks) r.depends_on
      → IsOrderly db
      → IsOrderly (create_filled cfg hook db project_id r now o).0
  create_filled-IsOrderly cfg db project_id none past h = h
  create_filled-IsOrderly cfg db project_id (some (instructions, meta)) past h =
      finish_creation-IsOrderly db _ (try_create-Creation cfg db _ _ _ _ _) past h

  create_unless_blocked-IsOrderly :
      (cfg : Config) (templates : String → Option TaskTemplate) (db : Db) (project_id : String)
      (p : Db × Option String)
      → Since db p.0
      → NamesPast (next_id db.tasks) r.depends_on
      → IsOrderly db
      → IsOrderly (create_unless_blocked cfg templates hook project_id r now p).0
  create_unless_blocked-IsOrderly cfg templates db project_id (db', some reason) later past h =
      Since-IsOrderly db db' later h
  create_unless_blocked-IsOrderly cfg templates db project_id (db', none) later past h =
      create_filled-IsOrderly cfg db' project_id _ (NamesPast-le _ _ r.depends_on later.ids past)
        (Since-IsOrderly db db' later h)

  pub post_project_task-IsOrderly :
      (cfg : Config) (templates : String → Option TaskTemplate) (db : Db) (project_id : String)
      → NamesPast (next_id db.tasks) r.depends_on
      → IsOrderly db
      → IsOrderly (post_project_task cfg templates hook db project_id r now).0
  unfolding post_project_task is_task_create_blocked_by_policies
  post_project_task-IsOrderly cfg templates db project_id past h =
      let bad = TaskReply.invalid_argument in
      let blocked = is_task_create_blocked_by_policies cfg hook db project_id now in
      let made = create_unless_blocked cfg templates hook project_id r now blocked in
      let orphan = not (has_parent db project_id r.parent_task_id) in
      let unknown = not (cfg.has_project project_id) in
      let not_positive = not (is_positive_if_given r.parent_task_id) in
      let elsewhere =
        not (is_blank r.project_id) && not (str_eq (trim_space r.project_id) project_id) in
      let with_parent = if orphan then (db, bad) else made in
      let in_project = if unknown then (db, TaskReply.not_found) else with_parent in
      let with_number = if not_positive then (db, bad) else in_project in
      refused_or IsOrderly (is_blank r.instructions) db bad
        (if elsewhere then (db, bad) else with_number) h
        (λ _. refused_or IsOrderly elsewhere db bad with_number h (λ _.
          refused_or IsOrderly not_positive db bad in_project h (λ _.
            refused_or IsOrderly unknown db TaskReply.not_found with_parent h (λ _.
              refused_or IsOrderly orphan db bad made h (λ _.
                create_unless_blocked-IsOrderly cfg templates db project_id blocked
                  (blocked_by_policies-Since db project_id "task.create.block" "task.create"
                    (cfg.policies project_id))
                  past h)))))
