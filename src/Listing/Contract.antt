-- ===== src/Listing/Contract.antt =====
-- What ListTasksV2 returns, for every query that it accepts, and which queries it refuses.
use mathlib.Core.List.{Permᴰ}
use cocopilot.Prelude.{
  ℕ, ◌≡◌, refl, ◌⊎◌, inl, inr, Bool, true, false, Option, none, some, List, map, keep, length,
  Bool-cases, ap,
}
use cocopilot.Prelude.Int.{ℤ}
use cocopilot.Timestamps.{stamp_ltb}
use cocopilot.Dbstore.{Db, TaskRow}
use cocopilot.Dbstore.Tasks.{TaskV2}
use cocopilot.Listing.{
  page, sort_by, TaskQuery, Sql, matches, comes_before, valid_column, listed, ordered_tasks,
  list_tasks_v2,
}
use cocopilot.Listing.Sorting.{
  Selection, Pairwise, keep-Selection, sort_by-Permᴰ, sort_by-Pairwise, stamp_ltb-asym,
  stamp_ltb-neg_trans,
}
use cocopilot.Listing.Paging.{IsPage, page-IsPage}
use cocopilot.Listing.Wanted.{IsWanted, matches_iff}
use cocopilot.Listing.Columns.{
  IsDirection, IsKey, HasColumn, direction_of-cases, sort_key-cases, valid_column_iff,
}

-- The query names no direction, no column to sort by or no column of the status that there is.
abbrev pub IsRefused : TaskQuery → Type 0
IsRefused q =
    ((d : Bool) → IsDirection q.sort_direction d → ⊥)
    ⊎ (((key : TaskRow → ℕ) → IsKey q.sort_field key → ⊥) ⊎ (HasColumn q → ⊥))

-- A task may stand before another: its time, as text, is not behind the other's in the direction.
abbrev pub InOrder : (TaskRow → ℕ) → Bool → TaskRow → TaskRow → Type 0
InOrder key true a b = stamp_ltb (key a) (key b) ≡ false
InOrder key false a b = stamp_ltb (key b) (key a) ≡ false

-- The rows: those that are wanted, each as often as in the table, in the order that is asked for.
pub record IsResult (sql : Sql) (db : Db) (q : TaskQuery) (rows : List TaskRow) : Type 0 where
  pub wanted : List TaskRow
  pub selection : Selection (IsWanted sql q) db.tasks wanted
  pub same : Permᴰ rows wanted
  pub direction : Bool
  pub is_direction : IsDirection q.sort_direction direction
  pub key : TaskRow → ℕ
  pub is_key : IsKey q.sort_field key
  pub sorted : Pairwise (InOrder key direction) rows

sorted_rows :
    (key : TaskRow → ℕ) (d : Bool) (rows : List TaskRow)
    → Pairwise (InOrder key d) (sort_by (comes_before key d) rows)
sorted_rows key true rows =
    sort_by-Pairwise (comes_before key true) (λ x y. stamp_ltb-asym (key y) (key x))
      (λ x y z h k. stamp_ltb-neg_trans (key z) (key y) (key x) k h) rows
sorted_rows key false rows =
    sort_by-Pairwise (comes_before key false) (λ x y. stamp_ltb-asym (key x) (key y))
      (λ x y z. stamp_ltb-neg_trans (key x) (key y) (key z)) rows

-- The page of the rows, and the number of all that are wanted.
abbrev pub IsListing : Sql → Db → TaskQuery → ℤ → ℤ → Option (List TaskV2 × ℕ) → Type 0
IsListing sql db q limit offset none = IsRefused q
IsListing sql db q limit offset (some (tasks, total)) =
    (rows : List TaskRow) × (r : IsResult sql db q rows) × ((shown : List TaskRow) × IsPage limit
        offset rows shown
      × (tasks ≡ map listed shown))
    × (total ≡ length r.wanted)

module _ (sql : Sql)
    (scan : (limit offset : ℤ) (rows : List TaskRow) → Permᴰ (sql.scan limit offset rows) rows)
    (db : Db) (q : TaskQuery) (limit offset : ℤ) where
  ordered_tasks-cases :
      ((ordered_tasks sql q limit offset db ≡ none) × IsRefused q)
      ⊎ ((rows : List TaskRow) × (ordered_tasks sql q limit offset db ≡ some rows)
          × (r : IsResult sql db q rows) × (keep (matches sql q) db.tasks ≡ r.wanted))
  unfolding ordered_tasks
  ordered_tasks-cases = elim (direction_of-cases q.sort_direction) [
    | inl (none_such, bad) ↦ inl (rw (none_such, ordered_tasks) refl, inl bad)
    | inr (d, way, is_d) ↦ elim (sort_key-cases q.sort_field) [
      | inl (none_such, bad) ↦ inl (rw (way, none_such, ordered_tasks) refl, inr (inl bad))
      | inr (key, column, is_key) ↦ elim (Bool-cases (valid_column q)) [
        | inr bad ↦ inl (
          rw (way, column, bad, ordered_tasks) refl,
          inr (inr (λ has. cc ((valid_column_iff q).1 has))),
        )
        | inl valid ↦
            let found = keep (matches sql q) db.tasks in
            inr (
              sort_by (comes_before key d) (sql.scan limit offset found),
              rw (way, column, valid, ordered_tasks) refl,
              record {
                wanted = found;
                selection =
                    keep-Selection (matches sql q) (IsWanted sql q) (matches_iff sql q) db.tasks;
                same = Permᴰ.trans (sort_by-Permᴰ (comes_before key d) _) (scan limit offset found);
                direction = d;
                is_direction = is_d;
                key = key;
                is_key = is_key;
                sorted = sorted_rows key d (sql.scan limit offset found);
              },
              refl,
            )
      ]
    ]
  ]

  -- Whatever the order in which the rows come, ListTasksV2 fails only where the direction, the column
  -- to sort by or the column of the status is none of those that there are. Otherwise it returns the
  -- page that the limit and the offset cut out of some list, and the number of all wanted tasks: the
  -- list has exactly the tasks for which each given filter holds, each as often as the table, and
  -- their times, compared as text, go up or down as asked. Tasks of the same time stand in any order.
  pub list_tasks_v2-IsListing :
      IsListing sql db q limit offset (list_tasks_v2 sql db q limit offset)
  unfolding list_tasks_v2
  list_tasks_v2-IsListing = elim ordered_tasks-cases [
    | inl (failed, refused) ↦ rw (failed, list_tasks_v2) refused
    | inr (rows, found, r, wanted) ↦
        rw (found, list_tasks_v2)
          (rows, r, (page limit offset rows, page-IsPage limit offset rows, refl), ap length wanted)
  ]
