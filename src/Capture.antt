-- ===== src/Capture.antt =====
-- src/midicrt/engine/capture.py, `CaptureSink`: the recording of a session, one line after another, and the
-- index of the sessions. `files` are the session files of the capture directory, by session id, and `index`
-- is its index file, `none` if it is damaged. Whether another process holds the lock of the index
-- (`IndexLockBusy`), whether a file can be opened, and which write fails are arguments of the operations.
-- A file is here the lines that were handed to its file object: how many of the last ones reach the disk
-- when a write, a flush or an fsync fails is left to that object; `bpm` is the source's `60.0 / span` with its rounding.
pub mod Sessions
pub mod Log
pub mod Whole
pub mod Retention
pub mod Control
pub mod Shown
mod Tests
use midicrt.Prelude.{
  ℕ, zero, suc, ◌+◌, ◌-◌, Bool, true, false, ◌&&◌, ◌||◌, not, Option, none, some, String, List, [],
  ◌∷◌, ◌++◌, if◌then◌else◌, leb, ltb, eqb, ◌==◌, text_test, number_test, option_test, elem, keep,
  length, take, max, map, sort_texts,
}
use midicrt.Dict.{Dict, get, put, remove, keys}
use midicrt.Event.{
  Kind, MidiEvent, note_on, note_off, control_change, program_change, sysex, clock_tick, start,
  stop, continue, songpos, other,
}
use midicrt.Actions.Defs.{Value}

-- The arguments of a recorded action: those of a dispatched one, or those of the two marks of a panic.
pub data ActionArgs : Type 0 where
  plain : Dict String Value → ActionArgs
  panic_channel : ℕ → ActionArgs
  panic_notes : ℕ → List ℕ → ActionArgs

-- One line of a session file. The format's number is a constant and stands in no line here.
pub data Line : Type 0 where
  header : String → ℕ → String → List String → Line
  event : ℕ → String → Kind → Option ℕ → Option ℕ → Option ℕ → Option ℕ → Option (List ℕ) → Line
  tempo : ℕ → ℕ → Line
  action : ℕ → String → ActionArgs → String → Line
  page_changed : ℕ → String → Line

-- A session in the index.
pub record Row : Type 0 where
  pub id : String
  pub started_ts : ℕ
  pub ended_ts : Option ℕ
  pub counts : Dict String ℕ
  pub pinned : Bool
  pub error : Option String

-- `is_open` says whether there is a file handle.
pub record Sink : Type 0 where
  pub retention : ℕ
  pub engine_version : String
  pub instruments : List String
  pub flush_interval : ℕ
  pub recording : Bool
  pub session_id : Option String
  pub started_ts : ℕ
  pub is_open : Bool
  pub buffer : List Line
  pub counts : Dict String ℕ
  pub last_bpm : Option ℕ
  pub last_flush_ts : ℕ
  pub last_session : Option Row
  pub files : Dict String (List Line)
  pub index : Option (List Row)

-- A sink over a capture directory; `retention` is `max(1, int(retention))`.
abbrev pub init : ℕ → ℕ → String → List String → Dict String (List Line) → Option (List Row) → Sink
init retention flush_interval engine_version instruments files index = record {
  retention = max 1 retention;
  engine_version = engine_version;
  instruments = instruments;
  flush_interval = flush_interval;
  recording = false;
  session_id = none;
  started_ts = 0;
  is_open = false;
  buffer = [];
  counts = [];
  last_bpm = none;
  last_flush_ts = 0;
  last_session = none;
  files = files;
  index = index;
}

abbrev pub lines_of : Option (List Line) → List Line
lines_of none = []
lines_of (some lines) = lines

-- What the file of the session that is recorded was given.
abbrev pub written : Option String → Dict String (List Line) → List Line
written none files = []
written (some id) files = lines_of (get files id)

abbrev pub append_lines :
    Option String → List Line → Dict String (List Line) → Dict String (List Line)
append_lines none lines files = files
append_lines (some id) lines files = put files id (lines_of (get files id) ++ lines)

unfoldable pub drop_lines : ℕ → List Line → List Line
drop_lines zero lines = lines
drop_lines (suc n) [] = []
drop_lines (suc n) (line ∷ lines) = drop_lines n lines

-- Each line is taken from the buffer and handed to the file object. `some n`: the write of the line
-- after the first `n` fails, or, when there are no more than `n`, the flush or fsync after the last.
abbrev pub write_lines : Option ℕ → Sink → Sink × Bool
write_lines none s =
    (record s { files = append_lines s.session_id s.buffer s.files; buffer = [] }, true)
write_lines (some n) s = (
  record s {
    files = append_lines s.session_id (take (suc n) s.buffer) s.files;
    buffer = drop_lines (suc n) s.buffer;
  },
  false,
)

abbrev pub is_nil : List Line → Bool
is_nil [] = true
is_nil (line ∷ lines) = false

-- `false` is an `OSError`.
unfoldable pub flush : Option ℕ → Sink → Sink × Bool
flush fails s = if not s.is_open || is_nil s.buffer then (s, true) else write_lines fails s

unfoldable pub maybe_flush : Option ℕ → ℕ → Sink → Sink × Bool
maybe_flush fails now s =
    if not s.recording || (not s.is_open || ltb now (s.last_flush_ts + s.flush_interval))
    then (s, true)
    else (let (s', ok) = flush fails s in
        (if ok then record s' { last_flush_ts = now } else s', ok))

unfoldable pub kind_name : Kind → String
kind_name note_on = "note_on"
kind_name note_off = "note_off"
kind_name control_change = "control_change"
kind_name program_change = "program_change"
kind_name sysex = "sysex"
kind_name clock_tick = "clock_tick"
kind_name start = "start"
kind_name stop = "stop"
kind_name continue = "continue"
kind_name songpos = "songpos"
kind_name (other name) = name

abbrev pub count_of : Option ℕ → ℕ
count_of none = 0
count_of (some n) = n

unfoldable pub record_line : Line → Sink → Sink
record_line line s = if s.recording then record s { buffer = s.buffer ++ line ∷ [] } else s

-- `clock_batch_start` stands in the line of a clock event only.
abbrev pub batch_start : Kind → Option ℕ → Option ℕ
batch_start clock_tick began = began
batch_start _ began = none

unfoldable pub line_of : MidiEvent → Line
line_of ev =
    event ev.ts ev.source ev.kind ev.channel ev.data1 ev.data2
      (batch_start ev.kind ev.clock_batch_start) ev.sysex_data

module _ (bpm : ℕ → ℕ) where
  -- A tempo is a line when it is not the last one.
  unfoldable pub record_tempo : ℕ → ℕ → Sink → Sink
  record_tempo ts began s =
      if leb ts began || s.last_bpm == some (bpm (ts - began))
      then s
      else record_line (tempo ts (bpm (ts - began)))
          (record s { last_bpm = some (bpm (ts - began)) })

  abbrev pub maybe_record_tempo : Option ℕ → ℕ → Sink → Sink
  maybe_record_tempo none ts s = s
  maybe_record_tempo (some began) ts s = record_tempo ts began s

  unfoldable pub record_event : MidiEvent → Sink → Sink
  record_event ev s =
      let name = kind_name ev.kind in
      let counted = record (record_line (line_of ev) s) {
        counts = put s.counts name (count_of (get s.counts name) + 1);
      } in
      if s.recording
      then maybe_record_tempo (batch_start ev.kind ev.clock_batch_start) ev.ts counted
      else s

unfoldable pub record_action : ℕ → String → ActionArgs → String → Sink → Sink
record_action now name args origin s = record_line (action now name args origin) s

unfoldable pub record_page_changed : ℕ → String → Sink → Sink
record_page_changed now page s = record_line (page_changed now page) s
