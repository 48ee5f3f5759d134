-- ===== src/Listing.antt =====
-- internal/dbstore/tasks.go and internal/dbstore/events.go: ListTasksV2, ListEvents,
-- GetEventsByProjectID and PruneEvents. The order of rows of the same time is not stated by a query: it
-- is that of an argument, the order in which the rows come before they are sorted. A column of time is
-- compared as text.
pub mod Sorting
pub mod Wanted
pub mod Columns
pub mod Paging
pub mod Contract
mod Examples
use cocopilot.Prelude.{
  ℕ, zero, suc, ◌+◌, ◌-◌, ◌*◌, String, Bool, true, false, not, ◌&&◌, ◌||◌, Option, none, some, List,
  [], ◌∷◌, any, keep, map, take, length, ltb, ◌==◌, if◌then◌else◌, str_eq,
}
use Prim.Native.String
use cocopilot.Prelude.Int.{ℤ, pos, negsuc, pos_part, ltb_ℤ}
use cocopilot.Prelude.Text.{trim_space, is_blank, to_lower, decimal_text}
use cocopilot.Timestamps.{stamp_ltb}
use cocopilot.Models.{TaskType}
use cocopilot.Models.Texts.{status_v1_text, status_v2_text, task_type_text}
use cocopilot.Dbstore.{Db, TaskRow, Event, EntityId, decimal, pair, name}
use cocopilot.Dbstore.Tasks.{TaskV2, or, to_task_v2, without_approval}

module _ {A : Type 0} where
  abbrev pub drop : ℕ → List A → List A
  drop zero xs = xs
  drop (suc n) [] = []
  drop (suc n) (x ∷ xs) = drop n xs

  -- LIMIT and OFFSET: a negative limit is none, a negative offset is zero.
  unfoldable pub page : ℤ → ℤ → List A → List A
  page (pos limit) offset xs = take limit (drop (pos_part offset) xs)
  page (negsuc n) offset xs = drop (pos_part offset) xs

  abbrev pub insert_by : (A → A → Bool) → A → List A → List A
  insert_by comes_before x [] = x ∷ []
  insert_by comes_before x (y ∷ ys) =
      let rest = insert_by comes_before x ys in if comes_before y x then y ∷ rest else x ∷ y ∷ ys

  -- ORDER BY
  unfoldable pub sort_by : (A → A → Bool) → List A → List A
  sort_by comes_before [] = []
  sort_by comes_before (x ∷ xs) = insert_by comes_before x (sort_by comes_before xs)

-- What a caller of ListTasksV2 asks for.
pub record TaskQuery : Type 0 where
  pub project_id : String
  pub status_column : String
  pub status_value : String
  pub type_filter : String
  pub tag_filter : String
  pub query_filter : String
  pub sort_field : String
  pub sort_direction : String

-- The operator LIKE, its pattern first, the JSON of a list of texts, and the order in which the rows of
-- a query come, given its limit and its offset, before they are sorted.
pub record Sql : Type 0 where
  pub like : String → String → Bool
  pub json : List String → String
  pub scan : ℤ → ℤ → List TaskRow → List TaskRow

abbrev pub has_status : TaskQuery → TaskRow → Bool
has_status q t =
    if str_eq q.status_value ""
    then true
    else if str_eq q.status_column "status"
    then str_eq (status_v1_text t.status) q.status_value
    else elim t.status_v2 [ none ↦ false | some s ↦ str_eq (status_v2_text s) q.status_value ]

abbrev pub tags_like : Sql → String → List String → Bool
tags_like sql tag [] = false
tags_like sql tag (t ∷ ts) =
    sql.like (String.◌++◌ "%\"" (String.◌++◌ (to_lower tag) "\"%")) (to_lower (sql.json (t ∷ ts)))

-- The filters; tags that are missing are NULL, which is like nothing.
unfoldable pub matches : Sql → TaskQuery → TaskRow → Bool
matches sql q t =
    let pattern = String.◌++◌ "%" (String.◌++◌ (to_lower q.query_filter) "%") in
    (is_blank q.project_id || str_eq t.project_id q.project_id)
    && has_status q t
    && (is_blank q.type_filter
        || str_eq (task_type_text (or t.task_type TaskType.modify)) (trim_space q.type_filter))
    && (is_blank q.tag_filter || tags_like sql q.tag_filter t.tags)
    && (is_blank q.query_filter
        || sql.like pattern (to_lower t.instructions)
        || sql.like pattern (to_lower (or t.title "")))

-- `true` for descending; `none` is an invalid direction.
abbrev pub direction_of : String → Option Bool
direction_of sort_direction =
    let direction = to_lower (trim_space sort_direction) in
    if str_eq direction "" || str_eq direction "asc"
    then some false
    else if str_eq direction "desc"
    then some true
    else none

-- The column to sort by; `none` is an invalid field.
abbrev pub sort_key : String → Option (TaskRow → ℕ)
sort_key sort_field =
    let field = to_lower (trim_space sort_field) in
    if str_eq field "" || str_eq field "created_at"
    then some (λ t. t.created_at)
    else if str_eq field "updated_at"
    then some (λ t. or t.updated_at t.created_at)
    else none

abbrev pub comes_before : (TaskRow → ℕ) → Bool → TaskRow → TaskRow → Bool
comes_before key descending a b =
    if descending then stamp_ltb (key b) (key a) else stamp_ltb (key a) (key b)

abbrev pub valid_column : TaskQuery → Bool
valid_column q =
    str_eq q.status_value ""
    || str_eq q.status_column "status"
    || str_eq q.status_column "status_v2"

-- The query selects neither the depth nor the approval, so these have their zero values.
abbrev pub listed : TaskRow → TaskV2
listed t = record (without_approval (to_task_v2 t)) { automation_depth = 0 }

-- What matches, in the order asked for.
unfoldable pub ordered_tasks : Sql → TaskQuery → ℤ → ℤ → Db → Option (List TaskRow)
unfolding matches sort_by
ordered_tasks sql q limit offset db = elim (direction_of q.sort_direction) [
  | none ↦ none
  | some descending ↦ elim (sort_key q.sort_field) [
    | none ↦ none
    | some key ↦
        if valid_column q
        then some (
            sort_by (comes_before key descending)
              (sql.scan limit offset (keep (matches sql q) db.tasks)))
        else none
  ]
]

-- ListTasksV2: the page, and the number of all that match; `none` is an error.
unfoldable pub list_tasks_v2 : Sql → Db → TaskQuery → ℤ → ℤ → Option (List TaskV2 × ℕ)
unfolding ordered_tasks page
list_tasks_v2 sql db q limit offset = elim (ordered_tasks sql q limit offset db) [
  | none ↦ none
  | some rows ↦ some (map listed (page limit offset rows), length (keep (matches sql q) db.tasks))
]

-- The text of an entity's id
abbrev entity_text : EntityId → String
entity_text (decimal n) = decimal_text n
entity_text (pair a b) = String.◌++◌ (decimal_text a) (String.◌++◌ ":" (decimal_text b))
entity_text (name s) = s

-- The conditions of ListEvents; `since` is a time that the caller has written out.
unfoldable pub event_matches : String → String → Option ℕ → String → Event → Bool
event_matches project_id kind since task_id e =
    (is_blank project_id || str_eq e.project_id project_id)
    && (str_eq kind "" || str_eq e.kind kind)
    && elim since [ none ↦ true | some t ↦ not (stamp_ltb e.created_at t) ]
    && (str_eq task_id ""
        || str_eq e.entity_type "task" && str_eq (entity_text e.entity_id) task_id)

abbrev newer : Event → Event → Bool
newer a b = stamp_ltb b.created_at a.created_at

-- ListEvents
unfoldable pub list_events :
    (List Event → List Event) → Db → String → String → Option ℕ → String → ℤ → ℤ → List Event × ℕ
unfolding event_matches sort_by page
list_events scan db project_id kind since task_id limit offset =
    let found = keep (event_matches project_id kind since task_id) db.events in
    (page limit offset (sort_by newer (scan found)), length found)

-- GetEventsByProjectID
unfoldable pub get_events_by_project_id : (List Event → List Event) → Db → String → ℤ → List Event
unfolding sort_by page
get_events_by_project_id scan db project_id limit =
    page limit (pos 0) (sort_by newer (scan (keep (λ e. str_eq e.project_id project_id) db.events)))

-- A day, in microseconds
abbrev day : ℕ
day = 86400000000

abbrev drop_old : ℤ → ℕ → List Event → List Event
drop_old retention_days now es =
    let cutoff = now - pos_part retention_days * day in
    if ltb_ℤ (pos 0) retention_days then keep (λ e. not (stamp_ltb e.created_at cutoff)) es else es

abbrev drop_excess : (List Event → List Event) → ℤ → List Event → List Event
drop_excess scan max_rows es =
    if ltb_ℤ (pos 0) max_rows then take (pos_part max_rows) (sort_by newer (scan es)) else es

-- PruneEvents, and the number of rows that it deleted
unfoldable pub prune_events : (List Event → List Event) → Db → ℤ → ℤ → ℕ → Db × ℕ
unfolding sort_by
prune_events scan db retention_days max_rows now =
    let recent = drop_old retention_days now db.events in
    let left = drop_excess scan max_rows recent in
    (
      record db { events = left },
      (length db.events - length recent) + (length recent - length left),
    )
