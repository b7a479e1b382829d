-- ===== src/Mirror/Marks.antt =====
-- The marks of sync_state.py, store by store.
use kyraan.Base.{String, true, false, ◌≡◌, str_eq, arith, eq_iff, if◌then◌else◌}
use kyraan.Base.Table.{find-put, find-remove}
use kyraan.Mirror.{Marks, is_stale, mark_stale, clear_stale, store_of}

pub is_stale-mark_stale :
    (store other reason : String) (marks : Marks)
    → is_stale other (mark_stale store reason true marks)
      ≡ (if str_eq store other then true else is_stale other marks)
unfolding is_stale mark_stale
is_stale-mark_stale store other reason marks = ground (
  arith,
  eq_iff store other,
  find-put store_of other (record { store = store; stale = true; reason = reason }) marks,
)

pub is_stale-clear_stale :
    (store other : String) (marks : Marks)
    → is_stale other (clear_stale store true marks)
      ≡ (if str_eq store other then false else is_stale other marks)
unfolding is_stale clear_stale
is_stale-clear_stale store other marks =
    ground (arith, eq_iff store other, find-remove store_of store other marks)

-- Marking and clearing a store, with the disk taking the file, decides that store's mark and leaves
-- every other store's as it was.
pub marks_own :
    (store other reason : String) (marks : Marks)
    → (is_stale other (mark_stale store reason true marks)
        ≡ (if str_eq store other then true else is_stale other marks))
      × (is_stale other (clear_stale store true marks)
          ≡ (if str_eq store other then false else is_stale other marks))
marks_own store other reason marks =
    (is_stale-mark_stale store other reason marks, is_stale-clear_stale store other marks)

-- A write that the disk refuses changes no mark.
pub unwritten :
    (store reason : String) (marks : Marks)
    → (mark_stale store reason false marks ≡ marks) × (clear_stale store false marks ≡ marks)
unfolding mark_stale clear_stale
unwritten store reason marks = ground arith
