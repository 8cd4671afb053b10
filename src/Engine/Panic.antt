-- ===== src/Engine/Panic.antt =====
-- `_tick_analyzers`, `_maybe_panic` and `_release_for_panic` of `Engine` (src/midicrt/engine/core.py), for
-- the two analyzers that count held notes: the stuck note analyzer, whose alerts may cause a panic, and
-- the voice monitor, which "overlay.polylimit" and the page "voices" share. The other analyzers and
-- pages are left out. An event object that the engine makes gets the next number.
pub mod Release
pub mod Cooldown
mod Tests
use midicrt.Prelude.{
  ℕ, ◌+◌, ◌-◌, Bool, true, false, ◌&&◌, Option, none, some, String, List, [], ◌∷◌, ◌++◌,
  if◌then◌else◌, ltb, number_test,
}
use midicrt.Prelude.Int.{ℤ}
use midicrt.Dict.{Dict, get, put}
use midicrt.Event.{MidiEvent, note_off}
use midicrt.StuckNotes.Defs.{
  StuckNotes, Alert, Level, warn, crit, held_notes, drain_alerts, handle as handle_held,
}
use midicrt.StuckNotes.Tick.{tick as tick_held}
use midicrt.Voices.Defs.{Voices, handle as handle_voices, tick as tick_voices}

-- `_PANIC_COOLDOWN_S`, in milliseconds.
abbrev pub panic_cooldown : ℕ
panic_cooldown = 3000

-- The marks that a panic leaves in the capture.
pub data PanicMark : Type 0 where
  notes_off : ℕ → PanicMark
  released : ℕ → List ℕ → PanicMark

-- `sent` has the channel and the time of each All Notes Off, the last first.
pub record Watch : Type 0 where
  pub alerts : StuckNotes
  pub voices : Voices
  pub dirty : List String
  pub panic_last : Dict ℕ ℕ
  pub sent : List (ℕ × ℕ)
  pub marks : List PanicMark
  pub emitted : List Alert
  pub next_event : ℕ

unfoldable pub note_dirty : Bool → String → List String → List String
note_dirty changed topic dirty = if changed then dirty ++ topic ∷ [] else dirty

-- `_dispatch_to_state`: analyzers first, then pages; the monitor sees the same object twice.
unfoldable pub dispatch_to_state : MidiEvent → Watch → Watch
dispatch_to_state ev s =
    let (alerts, changed) = handle_held s.alerts ev in
    let (overlay, overlay_changed) = handle_voices s.voices s.next_event ev in
    let (page, page_changed) = handle_voices overlay s.next_event ev in
    record s {
      alerts = alerts;
      voices = page;
      dirty = note_dirty page_changed "page.voices" (
          note_dirty overlay_changed "overlay.polylimit"
            (note_dirty changed "overlay.alerts" s.dirty));
      next_event = s.next_event + 1;
    }

-- The note-off that the engine makes up for a channel from 1 and a note.
abbrev pub release_event : ℕ → ℕ → ℕ → MidiEvent
release_event ch now note = record {
  ts = now;
  source = "panic:release";
  kind = note_off;
  channel = some (ch - 1);
  data1 = some note;
  data2 = some 0;
  clock_batch_start = none;
  sysex_data = none;
  device_id = none;
}

unfoldable pub release_notes : ℕ → ℕ → List ℕ → Watch → Watch
release_notes ch now [] s = s
release_notes ch now (note ∷ notes) s =
    release_notes ch now notes (dispatch_to_state (release_event ch now note) s)

unfoldable pub mark_released : ℕ → List ℕ → Watch → Watch
mark_released ch [] s = s
mark_released ch (n ∷ notes) s = record s { marks = s.marks ++ released ch (n ∷ notes) ∷ [] }

unfoldable pub release_for_panic : ℕ → ℕ → Watch → Watch
release_for_panic ch now s =
    let notes = held_notes s.alerts ch in mark_released ch notes (release_notes ch now notes s)

unfoldable pub cooling : Option ℕ → ℕ → Bool
cooling none now = false
cooling (some last) now = ltb now (last + panic_cooldown)

unfoldable pub note_panic : ℕ → ℕ → Watch → Watch
note_panic ch now s = record s {
  panic_last = put s.panic_last ch now;
  sent = (ch, now) ∷ s.sent;
  marks = s.marks ++ notes_off ch ∷ [];
}

unfoldable pub maybe_panic : ℕ → ℕ → Watch → Watch
maybe_panic ch now s =
    if cooling (get s.panic_last ch) now then s else release_for_panic ch now (note_panic ch now s)

abbrev pub is_crit : Level → Bool
is_crit warn = false
is_crit crit = true

module _ (panic_on_crit : Bool) where
  unfoldable pub report : Alert → ℕ → Watch → Watch
  report alert now s =
      let s' = record s { emitted = s.emitted ++ alert ∷ [] } in
      if panic_on_crit && is_crit alert.level then maybe_panic alert.ch now s' else s'

  unfoldable pub report_all : List Alert → ℕ → Watch → Watch
  report_all [] now s = s
  report_all (alert ∷ rest) now s = report_all rest now (report alert now s)

  module _ (round1 : ℤ → ℤ) where
    -- The alerts that the tick queued are drained before the first of them is reported.
    unfoldable pub tick_alerts : ℕ → Watch → Watch
    tick_alerts now s =
        let (ticked, changed) = tick_held round1 s.alerts now in
        let (queued, drained) = drain_alerts ticked in
        report_all queued now
          (record s { alerts = drained; dirty = note_dirty changed "overlay.alerts" s.dirty })

    -- `_tick_analyzers`
    unfoldable pub tick_analyzers : ℕ → Watch → Watch
    tick_analyzers now s =
        let s' = tick_alerts now s in
        let (voices, changed) = tick_voices s'.voices now in
        record s' { voices = voices; dirty = note_dirty changed "overlay.polylimit" s'.dirty }
