-- ===== src/Replay.antt =====
-- src/midicrt/engine/replay.py: a session file, whose lines are those of Capture, is streamed through an
-- engine that was built for replaying. The reading of JSON, which skips what is no line, is left out; so
-- are the views in the summary. `slept` are the gaps between events that the replay waits for, before the
-- division by the speed. The reading of the clock in the engine is `now` throughout.
pub mod Active
pub mod Held
mod Tests
use midicrt.Prelude.{
  ℕ, zero, suc, ◌+◌, ◌-◌, Bool, true, false, Option, none, some, String, List, [], ◌∷◌, ◌++◌,
  if◌then◌else◌, ltb, ◌==◌, text_test, not, ◌&&◌,
}
use midicrt.Prelude.Int.{ℤ}
use midicrt.Dict.{Dict, get, put}
use midicrt.Event.{MidiEvent, Kind}
use midicrt.Actions.Defs.{Value}
use midicrt.Capture.{
  Line, header, event, tempo, action, page_changed, ActionArgs, plain, panic_channel, panic_notes,
  kind_name, count_of,
}
use midicrt.RemoteControl.Desk.{set_current_page}
use midicrt.Engine.Panic.{Watch, release_notes}
use midicrt.Engine.Loop.{Engine, handle}

pub record Replayed : Type 0 where
  pub engine : Engine
  pub header_line : Option Line
  pub events_by_type : Dict String ℕ
  pub actions_by_origin : Dict String ℕ
  pub marks_by_kind : Dict String ℕ
  pub prev_event_ts : Option ℕ
  pub slept : List ℕ

abbrev pub begun : Engine → Replayed
begun e = record {
  engine = e;
  header_line = none;
  events_by_type = [];
  actions_by_origin = [];
  marks_by_kind = [];
  prev_event_ts = none;
  slept = [];
}

abbrev pub count_up : String → Dict String ℕ → Dict String ℕ
count_up name d = put d name (count_of (get d name) + 1)

abbrev pub mark_kind : Line → String
mark_kind (header id started version instruments) = "header"
mark_kind (event ts source kind channel data1 data2 began bytes) = "event"
mark_kind (tempo ts bpm) = "tempo"
mark_kind (action ts name args origin) = "action"
mark_kind (page_changed ts page) = "page_changed"

-- `_midi_event_from_line`, for the fields of a line
unfoldable pub midi_event_from_line :
    ℕ → String → Kind → Option ℕ → Option ℕ → Option ℕ → Option ℕ → Option (List ℕ) → MidiEvent
midi_event_from_line ts source kind channel data1 data2 began bytes = record {
  ts = ts;
  source = source;
  kind = kind;
  channel = channel;
  data1 = data1;
  data2 = data2;
  clock_batch_start = began;
  sysex_data = bytes;
  device_id = none;
}

-- A mark without a channel and notes is skipped. A channel counts from 1.
unfoldable pub apply_panic_release_mark : ℕ → ActionArgs → Engine → Engine
apply_panic_release_mark ts (panic_notes ch notes) e = record e {
  watch = release_notes ch ts notes e.watch;
}
apply_panic_release_mark ts _ e = e

abbrev pub pace : Bool → Option ℕ → ℕ → List ℕ → List ℕ
pace instant none ts slept = slept
pace instant (some prev) ts slept =
    if not instant && ltb prev ts then slept ++ (ts - prev) ∷ [] else slept

abbrev pub apply_action : ℕ → String → ActionArgs → Engine → Engine
apply_action ts name args e =
    if name == "panic.release" then apply_panic_release_mark ts args e else e

module _ (fnmatch : String → String → Bool) (mix : ℕ → ℤ → ℤ → Value) (escape : String → String)
    (before_suffix : String → Option String) (digits : ℕ → String) (accepted : List ℕ → Bool)
    (instant : Bool) (now : ℕ) where
  unfoldable pub take_line : Line → Replayed → Replayed
  take_line (header id started version instruments) r = record r {
    header_line = some (header id started version instruments);
  }
  take_line (event ts source kind channel data1 data2 began bytes) r =
      let ev = midi_event_from_line ts source kind channel data1 data2 began bytes in
      record r {
        slept = pace instant r.prev_event_ts ts r.slept;
        prev_event_ts = some ts;
        engine = handle fnmatch mix escape before_suffix digits accepted now ev r.engine;
        events_by_type = count_up (kind_name kind) r.events_by_type;
      }
  take_line (tempo ts bpm) r = r
  take_line (action ts name args origin) r = record r {
    actions_by_origin = count_up origin r.actions_by_origin;
    engine = apply_action ts name args r.engine;
  }
  take_line (page_changed ts page) r = record r {
    engine = record r.engine { desk = set_current_page page r.engine.desk };
  }

  unfoldable pub stream_lines : List Line → Replayed → Replayed
  stream_lines [] r = r
  stream_lines (line ∷ lines) r =
      stream_lines lines
        (take_line line (record r { marks_by_kind = count_up (mark_kind line) r.marks_by_kind }))

  -- `none` is a `ValueError`, for a speed that is not positive.
  unfoldable pub stream_session : ℕ → List Line → Engine → Option Replayed
  stream_session zero lines e = none
  stream_session (suc speed) lines e = some (stream_lines lines (begun e))
