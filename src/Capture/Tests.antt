-- ===== src/Capture/Tests.antt =====
-- Concrete runs of `CaptureSink` and of the engine's capture actions.
use midicrt.Prelude.{
  text_test, ◌+◌, ◌≤◌, ◌≡◌, refl, ℕ, Option, String, Bool, true, false, none, some, List, [], ◌∷◌,
  length,
}
use midicrt.Event.{MidiEvent, note_on, clock_tick}
use midicrt.Event.Samples.{voiced}
use midicrt.Dict.{get}
use midicrt.Beats.Transport
use midicrt.Capture.{
  drop_lines, record_event, record_line, record_page_changed, flush, header, tempo, page_changed,
  action, plain, Row, Sink, init, lines_of, line_of,
}
use midicrt.Capture.Log.{
  lines_for, tempo_lines, last_after, tempo_after, Note, seen, did, turned, passed, note, note_all,
  transcript,
}
use midicrt.Capture.Sessions.{
  begin, open_session, Faults, no_faults, start, stop, sweep_retention, sweep_locked, unpinned,
  load_index,
}
use midicrt.Capture.Whole.{session_file}
use midicrt.Capture.Retention.{rows_of, pinned_rows, swept_bounded}
use midicrt.Capture.Control.{
  Studio, capture_start_action_dispatch, capture_start_call, capture_start_return,
}
use midicrt.Capture.Shown.{heard}

abbrev row : String → ℕ → Bool → Row
row id began pinned = record {
  id = id;
  started_ts = began;
  ended_ts = some (began + 1);
  counts = [];
  pinned = pinned;
  error = none;
}

-- Four sessions, one of them pinned, where two may stay.
abbrev rows : List Row
rows = row "d" 40 false ∷ row "a" 10 true ∷ row "b" 20 false ∷ row "c" 30 false ∷ []

abbrev sink : Sink
sink = init 2 1 "v" [] [] (some rows)

abbrev clock : ℕ → Option ℕ → MidiEvent
clock ts began = record (voiced clock_tick ts 0 0 0) { clock_batch_start = began }

-- A beat of half a second, twice, a page and an action.
abbrev notes : List Note
notes =
    seen (voiced note_on 100 0 60 90)
    ∷ seen (clock 1000 (some 500))
    ∷ passed 1000
    ∷ turned 1100 "notes"
    ∷ seen (clock 1500 (some 1000))
    ∷ did 1600 "page.next" (plain []) "client"
    ∷ []

abbrev per_span : ℕ → ℕ
per_span span = span

-- The tempo is a line once.
transcript_once :
    transcript per_span notes none
    ≡ line_of (voiced note_on 100 0 60 90)
      ∷ line_of (clock 1000 (some 500))
      ∷ tempo 1000 500
      ∷ page_changed 1100 "notes"
      ∷ line_of (clock 1500 (some 1000))
      ∷ action 1600 "page.next" (plain []) "client"
      ∷ []
unfolding transcript lines_for tempo_lines last_after tempo_after
transcript_once = refl

session_file_example :
    let begun = start no_faults "e" 5 sink in
    let ended = stop none true 2000 (note_all per_span notes begun.0) in
    (lines_of (get ended.0.files "e") ≡ header "e" 5 "v" [] ∷ transcript per_span notes none)
    × (begun.1 ≡ true)
    × (ended.1 ≡ true)
unfolding get
session_file_example = session_file per_span "e" 5 2000 true notes sink refl refl refl

swept_bounded_example :
    (length (unpinned (rows_of (sweep_retention false sink))) ≤ 1)
    × (pinned_rows (rows_of (sweep_retention false sink)) ≡ row "a" 10 true ∷ [])
unfolding load_index sweep_retention sweep_locked
swept_bounded_example = swept_bounded sink (refl, (refl, (refl, (refl, tt))))

abbrev studio : Studio
studio = record { sink = sink; status = Transport.init; dirty = []; notices = [] }

-- The header of a first session cannot be written; a note comes before the answer, and a page after it.
abbrev full_disk : Faults
full_disk = record no_faults { header_write = some 0 }

abbrev meanwhile : List Note
meanwhile = seen (voiced note_on 6 0 60 90) ∷ []

abbrev afterwards : List Note
afterwards = turned 7 "notes" ∷ []

-- What came in meanwhile waits in the buffer of the refused session.
still_buffered :
    let (refused, ok) =
      capture_start_action_dispatch (heard per_span meanwhile) full_disk "e" 5 studio in
    length (heard per_span afterwards refused).sink.buffer ≡ 2
unfolding note note_all record_event record_line record_page_changed start stop begin flush
    open_session sweep_retention sweep_locked load_index capture_start_action_dispatch
    capture_start_call capture_start_return drop_lines
still_buffered = refl
