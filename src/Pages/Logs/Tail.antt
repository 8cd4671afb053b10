-- ===== src/Pages/Logs/Tail.antt =====
-- A log shows the last lines.
use midicrt.Prelude.{ℕ, ◌-◌, ◌≡◌, Option, none, some, List, [], ◌∷◌, ◌++◌, length, drop}
use midicrt.Event.{MidiEvent}
use midicrt.Pages.Logs.{Log, EventLine, event_line, handle_event, clear}

-- An event, or the action that clears the log.
pub data Act : Type 0 where
  seen : MidiEvent → Act
  cleared : Act

unfoldable pub act : Act → Log EventLine → Log EventLine
act (seen ev) s = (handle_event s ev).0
act cleared s = clear s

unfoldable pub run : List Act → Log EventLine → Log EventLine
run [] s = s
run (a ∷ acts) s = run acts (act a s)

abbrev line_list {ℓ} : {A : Type ℓ} → Option A → List A
line_list none = []
line_list (some line) = line ∷ []

-- The lines of all events since the log was cleared, after those that there were.
unfoldable pub since_clear : List Act → List EventLine → List EventLine
since_clear [] lines = lines
since_clear (seen ev ∷ acts) lines = since_clear acts (lines ++ line_list (event_line ev.kind ev))
since_clear (cleared ∷ acts) lines = since_clear acts []

-- The last so many.
unfoldable pub tail {ℓ} : {A : Type ℓ} → ℕ → List A → List A
tail n lines = drop (length lines - n) lines

-- A log of these lines, of which it shows the last.
record Shows {ℓ} {A : Type ℓ} (n : ℕ) (all : List A) (s : Log A) : Type ℓ where
  room : s.capacity ≡ n
  shown : s.lines ≡ tail n all
  counted : s.count ≡ length all
