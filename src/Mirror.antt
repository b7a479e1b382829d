-- ===== src/Mirror.antt =====
-- The database mirror of the JSON stores: sync_state.py's marks and promises.py's full-state sync, its
-- breaker, its reads and its claim, with the save and the read of triggers/store.py above them. The
-- file is the authority; the table is a copy that a read trusts only while the store carries no mark.
pub mod Marks
pub mod View
pub mod Claim
use kyraan.Base.{
  ℕ, ◌+◌, String, Bool, true, false, not, ◌&&◌, ◌||◌, Option, none, some, List, [], ◌∷◌, map, keep,
  ltb, str_eq, str_in, if◌then◌else◌,
}
use kyraan.Base.Table.{find, put, remove, update}
use kyraan.Reminders.{Stamp, blank, moment, malformed, Reminder}

-- An entry of pg_sync_state.json; a file that is missing or no JSON holds none.
pub record Mark : Type 0 where
  pub store : String
  pub stale : Bool
  pub reason : String

abbrev pub Marks : Type 0
Marks = List Mark

abbrev pub store_of : Mark → String
store_of m = m.store

-- `state.get(store, {}).get("stale")`
stale_of : Option Mark → Bool
stale_of none = false
stale_of (some m) = m.stale

unfoldable pub is_stale : String → Marks → Bool
unfolding stale_of
is_stale store marks = stale_of (find store_of store marks)

-- `written` tells whether the disk took the file. The source cuts a reason to 200 characters, which
-- the reasons of promises.py already are.
unfoldable pub mark_stale : String → String → Bool → Marks → Marks
mark_stale store reason written marks =
    if is_stale store marks
    then marks
    else if written
    then put store_of (record { store = store; stale = true; reason = reason }) marks
    else marks

unfoldable pub clear_stale : String → Bool → Marks → Marks
clear_stale store written marks =
    if not (is_stale store marks)
    then marks
    else if written
    then remove store_of store marks
    else marks

-- What the connection did: it committed, or it raised and left the table with these rows.
pub data Outcome (A : Type 0) : Type 0 where
  committed : Outcome A
  raised : String → List A → Outcome A

-- One mirroring: the switch, the monotonic clock at its start and at its failure, the connection, and
-- whether the disk takes the marks.
pub record Attempt (A : Type 0) : Type 0 where
  pub enabled : Bool
  pub now : ℕ
  pub later : ℕ
  pub outcome : Outcome A
  pub written : Bool

-- A store's file, its table, the marks and the breaker.
pub record Mirror (A : Type 0) : Type 0 where
  pub file : List A
  pub table : List A
  pub marks : Marks
  pub breaker_until : ℕ

-- `_BREAKER_S`
abbrev breaker_seconds : ℕ
breaker_seconds = 60

-- `id_of` reads a record's id; `columns` is what the table keeps of a record.
module _ {A : Type 0} (id_of : A → String) (columns : A → A) where
  -- `DELETE ... WHERE id != ALL(ids)`, or every row when the file is empty
  unfoldable pub delete_missing : List String → List A → List A
  delete_missing [] table = []
  delete_missing (k ∷ ks) table = keep (λ r. str_in (id_of r) (k ∷ ks)) table

  -- `INSERT ... ON CONFLICT (id) DO UPDATE` of each record in turn
  unfoldable pub upsert_all : List A → List A → List A
  upsert_all [] table = table
  upsert_all (r ∷ rs) table = upsert_all rs (put id_of (columns r) table)

  unfoldable pub sync_table : List A → List A → List A
  sync_table records table = upsert_all records (delete_missing (map id_of records) table)

  -- the branches of the `try` of `_guarded_mirror`
  unfoldable pub settle_mirror :
      String → List A → Attempt A → Outcome A → Mirror A → Bool × Mirror A
  settle_mirror kind records attempt committed s = (
    true,
    record s {
      table = sync_table records s.table;
      marks = clear_stale kind attempt.written s.marks;
    },
  )
  settle_mirror kind records attempt (raised reason rows) s = (
    false,
    record s {
      table = rows;
      marks = mark_stale kind reason attempt.written s.marks;
      breaker_until = attempt.later + breaker_seconds;
    },
  )

  unfoldable pub guarded_mirror : String → List A → Attempt A → Mirror A → Bool × Mirror A
  guarded_mirror kind records attempt s =
      if not attempt.enabled
      then (false, s)
      else if ltb attempt.now s.breaker_until
      then (false, record s { marks = mark_stale kind "breaker open" attempt.written s.marks })
      else settle_mirror kind records attempt attempt.outcome s

  -- `_save_all`: the file first, then the mirror, whose verdict nobody reads
  unfoldable pub save_all : String → List A → Attempt A → Mirror A → Mirror A
  save_all kind records attempt s =
      (guarded_mirror kind records attempt (record s { file = records })).1

module _ {A : Type 0} where
  -- `load_reminders`: the rows as the database returned them, or none where the query raised
  unfoldable pub load_rows : String → Option (List A) → Mirror A → Option (List A)
  load_rows kind rows s = if is_stale kind s.marks then none else rows

  or_file : Option (List A) → Mirror A → List A
  or_file none s = s.file
  or_file (some rows) s = rows

  -- `_records_for_read`; `on_pg` is `backend() == "pg"`
  unfoldable pub records_for_read : String → Bool → Option (List A) → Mirror A → List A
  unfolding or_file
  records_for_read kind on_pg rows s = if on_pg then or_file (load_rows kind rows s) s else s.file

-- `_REMINDER_FIELDS`: the table has no column for the last delivery.
unfoldable pub reminder_columns : Reminder → Reminder
reminder_columns r = record r { delivered_at = blank }

-- The condition of the UPDATE on `claimed_at`: times are ISO texts in UTC, which compare as the clock
-- does; `before` compares another text.
unfoldable pub claimable : (String → ℕ → Bool) → ℕ → ℕ → Stamp ℕ → Bool
claimable before lease now blank = true
claimable before lease now (moment claimed) = ltb (claimed + lease) now
claimable before lease now (malformed text) = before text now

abbrev pub is_claimed : Stamp ℕ → Bool
is_claimed blank = false
is_claimed _ = true

abbrev pub pg_claim : ℕ → Reminder → Reminder
pg_claim now r = record r {
  takeover = is_claimed r.claimed_at || r.takeover;
  claimed_at = moment now;
}

-- `pg_claim_for_send`: one UPDATE of the row with the id, the table's key
unfoldable pub pg_claim_for_send :
    (String → ℕ → Bool) → String → ℕ → ℕ → List Reminder → Bool × List Reminder
unfolding claimable
pg_claim_for_send before id lease now [] = (false, [])
pg_claim_for_send before id lease now (r ∷ rs) =
    let (claimed, rest) : Bool × List Reminder = pg_claim_for_send before id lease now rs in
    if str_eq r.id id && not r.sent && claimable before lease now r.claimed_at
    then (true, pg_claim now r ∷ rest)
    else (claimed, r ∷ rest)
