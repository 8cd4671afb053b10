-- ===== src/Capture/Sessions.antt =====
-- Sessions begin and end: `start`, `stop`, `fail`, `pin` and the index of `CaptureSink`
-- (src/midicrt/engine/capture.py).
use midicrt.Prelude.{
  ℕ, ◌-◌, Bool, true, false, not, Option, none, some, String, List, [], ◌∷◌, ◌++◌, if◌then◌else◌,
  leb, ◌==◌, text_test, elem, keep, length, take, map, sort_texts,
}
use midicrt.Dict.{Dict, get, remove, keys}
use midicrt.Capture.{Line, header, Row, Sink, lines_of, flush}

-- The row of a session whose file begins with these lines; `name` is the file's.
unfoldable pub row_of : String → List Line → Row
row_of name ((header id started version instruments) ∷ lines) = record {
  id = id;
  started_ts = started;
  ended_ts = none;
  counts = [];
  pinned = false;
  error = none;
}
row_of name _ = record {
  id = name;
  started_ts = 0;
  ended_ts = none;
  counts = [];
  pinned = false;
  error = none;
}

-- `_rebuild_index_from_disk`
unfoldable pub rebuild_index_from_disk : Dict String (List Line) → List Row
rebuild_index_from_disk files =
    map (λ name. row_of name (lines_of (get files name))) (sort_texts (keys files))

-- `_load_index`: a damaged index is rebuilt and saved.
abbrev pub load_from : Option (List Row) → Sink → Sink × List Row
load_from (some rows) s = (s, rows)
load_from none s =
    let rows = rebuild_index_from_disk s.files in (record s { index = some rows }, rows)

unfoldable pub load_index : Sink → Sink × List Row
load_index s = load_from s.index s

abbrev pub without_id : String → List Row → List Row
without_id id rows = keep (λ r. not (r.id == id)) rows

-- The rows of an index that one row is added to, in place of those with its id.
unfoldable pub add_row : Row → Sink → Sink
add_row row s =
    let (s', rows) = load_index s in record s' { index = some (without_id row.id rows ++ row ∷ []) }

unfoldable pub reset : Sink → Sink
reset s = record s {
  recording = false;
  is_open = false;
  session_id = none;
  started_ts = 0;
  counts = [];
  buffer = [];
}

-- The row of the session that is recorded, when it ends.
abbrev pub ending : String → ℕ → Option String → Sink → Row
ending id now error s = record {
  id = id;
  started_ts = s.started_ts;
  ended_ts = some now;
  counts = s.counts;
  pinned = false;
  error = error;
}

abbrev pub conclude : Bool → Option Row → Sink → Sink
conclude busy none s = s
conclude busy (some row) s = record (if busy then s else add_row row s) { last_session = some row }

abbrev pub ending_row : ℕ → Option String → Sink → Option Row
ending_row now error s = elim s.session_id [ none ↦ none | some id ↦ some (ending id now error s) ]

-- A busy index leaves the session without a row. `false` is an `OSError`.
unfoldable pub stop : Option ℕ → Bool → ℕ → Sink → Sink × Bool
stop fails busy now s =
    if s.recording
    then (let (s', ok) = flush fails s in
        if ok then (conclude busy (ending_row now none s') (reset s'), true) else (s', false))
    else (s, true)

unfoldable pub fail : String → Bool → ℕ → Sink → Sink
fail error busy now s = conclude busy (ending_row now (some error) s) (reset s)

-- The first row with the id is pinned.
unfoldable pub pin_row : String → List Row → Option (List Row)
pin_row id [] = none
pin_row id (r ∷ rows) =
    let rest = pin_row id rows in
    if r.id == id
    then some (record r { pinned = true } ∷ rows)
    else elim rest [ none ↦ none | some rows' ↦ some (r ∷ rows') ]

-- `false`: the index is busy (`IndexLockBusy`), or does not have the session (`ValueError`).
unfoldable pub pin : Bool → String → Sink → Sink × Bool
pin busy id s =
    let (s', rows) = load_index s in
    if busy then (s, false) else elim (pin_row id rows) [
      | none ↦ (s', false)
      | some rows' ↦ (record s' { index = some rows' }, true)
    ]

-- Python's `sorted` by the start, which keeps the order of equals.
unfoldable pub insert_row : Row → List Row → List Row
insert_row r [] = r ∷ []
insert_row r (q ∷ rows) =
    let rest = insert_row r rows in if leb r.started_ts q.started_ts then r ∷ q ∷ rows else q ∷ rest

unfoldable pub by_start : List Row → List Row
by_start [] = []
by_start (r ∷ rows) = insert_row r (by_start rows)

abbrev pub unpinned : List Row → List Row
unpinned rows = keep (λ r. not r.pinned) rows

abbrev pub ids_of : List Row → List String
ids_of rows = map (λ (r : Row). r.id) rows

unfoldable pub remove_files : List String → Dict String (List Line) → Dict String (List Line)
remove_files [] files = files
remove_files (id ∷ ids) files = remove_files ids (remove files id)

-- The unpinned sessions that are too many when one more is to come, the oldest first.
unfoldable pub victims : ℕ → List Row → List Row
victims retention rows = take (length (unpinned rows) - (retention - 1)) (by_start (unpinned rows))

-- `_sweep_retention_locked`
unfoldable pub sweep_locked : Sink → Sink
sweep_locked s =
    let (s', rows) = load_index s in
    let gone = ids_of (victims s'.retention rows) in
    if leb (length (unpinned rows)) (s'.retention - 1) then s' else record s' {
      files = remove_files gone s'.files;
      index = some (keep (λ r. not (elem r.id gone)) rows);
    }

unfoldable pub sweep_retention : Bool → Sink → Sink
sweep_retention busy s = if busy then s else sweep_locked s

-- The file is open, and its header waits to be written.
unfoldable pub open_session : String → ℕ → Sink → Sink
open_session id now s = record s {
  is_open = true;
  session_id = some id;
  started_ts = now;
  counts = [];
  last_bpm = none;
  last_flush_ts = now;
  recording = true;
  buffer = s.buffer ++ header id now s.engine_version s.instruments ∷ [];
}

-- What may go wrong while a session starts: the writes of an earlier session and of the header, the lock of
-- the index at the end of an earlier session and at the sweep, and the opening of the file.
pub record Faults : Type 0 where
  pub stop_write : Option ℕ
  pub stop_busy : Bool
  pub sweep_busy : Bool
  pub open_fails : Bool
  pub header_write : Option ℕ

abbrev pub no_faults : Faults
no_faults = record {
  stop_write = none;
  stop_busy = false;
  sweep_busy = false;
  open_fails = false;
  header_write = none;
}

unfoldable pub begin : Faults → String → ℕ → Sink → Sink × Bool
begin f id now s =
    let swept = sweep_retention f.sweep_busy s in
    if f.open_fails then (swept, false) else flush f.header_write (open_session id now swept)

-- `id` is the new session's. `false` is an `OSError`.
unfoldable pub start : Faults → String → ℕ → Sink → Sink × Bool
start f id now s =
    let (s', ok) = stop f.stop_write f.stop_busy now s in
    if ok then begin f id now s' else (s', false)
