-- ===== src/Listing/Examples.antt =====
-- Three tasks, listed in pages.
use cocopilot.Prelude.{ℕ, ◌≡◌, refl, false, some, [], ◌∷◌}
use cocopilot.Prelude.Int.{pos}
use cocopilot.Prelude.Text.{is_blank, to_lower}
use cocopilot.Timestamps.{stamp_ltb}
use cocopilot.Models.{TaskStatus}
use cocopilot.Dbstore.{Db, Event, decimal}
use cocopilot.Dbstore.Fixtures.{row, db_of}
use cocopilot.Listing.{Sql, TaskQuery, listed, list_tasks_v2, prune_events}
use cocopilot.Listing.Contract.{IsListing, list_tasks_v2-IsListing}
use mathlib.Core.List
use mathlib.Core.List.Permᴰ

abbrev sql : Sql
sql = record {
  like = λ pattern s. false;
  json = λ ss. "";
  scan = λ limit offset rows. List.reverse rows;
}

abbrev three : Db
three = db_of (
    record (row 1 TaskStatus.not_picked) { created_at = 1000000 }
    ∷ record (row 2 TaskStatus.not_picked) { created_at = 3000000 }
    ∷ record (row 3 TaskStatus.complete) { created_at = 2000000 }
    ∷ [])

abbrev newest_first : TaskQuery
newest_first = record {
  project_id = "";
  status_column = "";
  status_value = "";
  type_filter = "";
  tag_filter = "";
  query_filter = "";
  sort_field = "created_at";
  sort_direction = " DESC";
}

waiting_only :
    list_tasks_v2 sql three
      (record newest_first { status_column = "status"; status_value = "NOT_PICKED" })
      (pos 1)
      (pos 0)
    ≡ some (listed (record (row 2 TaskStatus.not_picked) { created_at = 3000000 }) ∷ [], 2)
unfolding list_tasks_v2 stamp_ltb is_blank to_lower
waiting_only = refl

abbrev event_at : ℕ → Event
event_at now = record {
  project_id = "p";
  kind = "k";
  entity_type = "task";
  entity_id = decimal 1;
  created_at = now;
  payload = [];
}

-- One event is too old, and one of the others is too many.
two_are_pruned :
    (prune_events
      (λ es. es)
      (record three { events = event_at 1 ∷ event_at 90000000000 ∷ event_at 90001000000 ∷ [] })
      (pos 1)
      (pos 1)
      90002000000).1
    ≡ 2
unfolding prune_events stamp_ltb
two_are_pruned = refl

-- The newest two of three tasks, though the rows come the other way round.
newest_two :
    list_tasks_v2 sql three newest_first (pos 2) (pos 0)
    ≡ some (
      listed (record (row 2 TaskStatus.not_picked) { created_at = 3000000 })
          ∷ listed (record (row 3 TaskStatus.complete) { created_at = 2000000 })
          ∷ [],
      3,
    )
unfolding list_tasks_v2 stamp_ltb is_blank to_lower
newest_two = refl

list_tasks_v2-IsListing_example :
    IsListing sql three newest_first
      (pos 2)
      (pos 1)
      (list_tasks_v2 sql three newest_first (pos 2) (pos 1))
list_tasks_v2-IsListing_example =
    list_tasks_v2-IsListing sql (λ limit offset rows. Permᴰ.reverse rows) three newest_first (pos 2)
      (pos 1)
