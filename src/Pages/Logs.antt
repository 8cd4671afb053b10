-- ===== src/Pages/Logs.antt =====
-- The pages that keep a log: src/midicrt/pages/eventlog.py and src/midicrt/pages/progchanges.py. A line has
-- what its text is made from: the event itself, whose summary is the text, or the time, the channel from 1 and
-- the program.
pub mod Tail
use midicrt.Prelude.{
  ℕ, ◌+◌, ◌-◌, Bool, true, false, Option, none, some, List, [], ◌∷◌, ◌++◌, length, drop,
}
use midicrt.Event.{Kind, MidiEvent, note_on, program_change, clock_tick}

-- Lines of which the last ones are kept, and how many there were.
pub record Log {ℓ} (A : Type ℓ) : Type ℓ where
  pub capacity : ℕ
  pub lines : List A
  pub count : ℕ

-- Appending to `deque(maxlen=capacity)`.
unfoldable pub append {ℓ} : {A : Type ℓ} → A → Log A → Log A
append line s =
    let all = s.lines ++ line ∷ [] in
    record s { lines = drop (length all - s.capacity) all; count = s.count + 1 }

pub data Style : Type 0 where
  normal accent : Style

pub record EventLine : Type 0 where
  pub event : MidiEvent
  pub style : Style

pub record ProgramLine : Type 0 where
  pub ts : ℕ
  pub ch : ℕ
  pub program : ℕ

abbrev pub event_log_capacity : ℕ
event_log_capacity = 200

-- `MAX_LOG`
abbrev pub max_log : ℕ
max_log = 300

abbrev pub init {ℓ} : {A : Type ℓ} → ℕ → Log A
init capacity = record { capacity = capacity; lines = []; count = 0 }

abbrev pub style_of : Kind → Style
style_of note_on = accent
style_of _ = normal

-- The line of an event that the log shows.
abbrev pub event_line : Kind → MidiEvent → Option EventLine
event_line clock_tick ev = none
event_line kind ev = some (record { event = ev; style = style_of kind })

abbrev pub program_of : Option ℕ → Option ℕ → ℕ → Option ProgramLine
program_of (some channel) (some data1) ts =
    some (record { ts = ts; ch = channel + 1; program = data1 })
program_of _ _ ts = none

abbrev pub program_line : Kind → MidiEvent → Option ProgramLine
program_line program_change ev = program_of ev.channel ev.data1 ev.ts
program_line _ ev = none

abbrev pub append_if {ℓ} : {A : Type ℓ} → Option A → Log A → Log A × Bool
append_if none s = (s, false)
append_if (some line) s = (append line s, true)

-- `EventLogPage.handle`
unfoldable pub handle_event : Log EventLine → MidiEvent → Log EventLine × Bool
handle_event s ev = append_if (event_line ev.kind ev) s

-- `ProgChangesPage.handle`
unfoldable pub handle_program : Log ProgramLine → MidiEvent → Log ProgramLine × Bool
handle_program s ev = append_if (program_line ev.kind ev) s

-- `EventLogPage.clear`
unfoldable pub clear : Log EventLine → Log EventLine
clear s = record s { lines = []; count = 0 }
