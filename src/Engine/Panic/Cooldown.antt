-- ===== src/Engine/Panic/Cooldown.antt =====
-- How often a channel is sent All Notes Off.
use midicrt.Prelude.{
  ℕ, ◌+◌, ◌≤◌, ◌≡◌, refl, ◌∙◌, Bool, false, ◌&&◌, Bool-cases, Option, none, some, List, [], ◌∷◌,
  ◌++◌, arith, if◌then◌else◌, ◌==◌, number_test, inl, inr,
}
use midicrt.Prelude.Int.{ℤ}
use midicrt.Dict.{get, get-put, get-nil}
use midicrt.Event.{MidiEvent}
use midicrt.StuckNotes.Defs.{StuckNotes, Alert, held_notes}
use midicrt.Voices.Defs.{Voices}
use midicrt.Engine.Panic.{
  Watch, panic_cooldown, cooling, dispatch_to_state, release_event, release_notes, mark_released,
  release_for_panic, note_panic, maybe_panic, is_crit, report, report_all, tick_alerts,
  tick_analyzers,
}

-- The last time that a channel was sent All Notes Off.
unfoldable pub last_sent : ℕ → List (ℕ × ℕ) → Option ℕ
last_sent ch [] = none
last_sent ch ((c, t) ∷ rest) = if c == ch then some t else last_sent ch rest

-- No two on the same channel are less than the cooldown apart.
abbrev pub Spaced : List (ℕ × ℕ) → Type 0
Spaced [] = Unit
Spaced ((ch, t) ∷ rest) =
    ((t' : ℕ) → last_sent ch rest ≡ some t' → t' + panic_cooldown ≤ t) × Spaced rest

record Kept (s : Watch) : Type 0 where
  recorded : (ch : ℕ) → get s.panic_last ch ≡ last_sent ch s.sent
  spaced : Spaced s.sent

-- What has the same panics as a state that is kept is kept.
same-Kept : (s s' : Watch) → s'.panic_last ≡ s.panic_last → s'.sent ≡ s.sent → Kept s → Kept s'
same-Kept s s' last sent h = record {
  recorded = rw (last, sent) h.recorded;
  spaced = rw sent h.spaced;
}

panics-release_notes :
    (ch now : ℕ) (notes : List ℕ) (s : Watch)
    → ((release_notes ch now notes s).panic_last ≡ s.panic_last)
      × ((release_notes ch now notes s).sent ≡ s.sent)
unfolding release_notes dispatch_to_state
panics-release_notes ch now [] s = (refl, refl)
panics-release_notes ch now (note ∷ notes) s =
    panics-release_notes ch now notes (dispatch_to_state (release_event ch now note) s)

panics-mark_released :
    (ch : ℕ) (notes : List ℕ) (s : Watch)
    → ((mark_released ch notes s).panic_last ≡ s.panic_last)
      × ((mark_released ch notes s).sent ≡ s.sent)
unfolding mark_released
panics-mark_released ch [] s = (refl, refl)
panics-mark_released ch (n ∷ notes) s = (refl, refl)

release-Kept : (ch now : ℕ) (s : Watch) → Kept s → Kept (release_for_panic ch now s)
unfolding release_for_panic
release-Kept ch now s h =
    let notes = held_notes s.alerts ch in
    let s' = release_notes ch now notes s in
    let (last', sent') = panics-release_notes ch now notes s in
    let (last, sent) = panics-mark_released ch notes s' in
    same-Kept s (mark_released ch notes s') (last ∙ last') (sent ∙ sent') h

note-Kept :
    (ch now : ℕ) (s : Watch)
    → cooling (get s.panic_last ch) now ≡ false
    → Kept s
    → Kept (note_panic ch now s)
unfolding note_panic cooling last_sent
note-Kept ch now s ready h = record {
  recorded = λ c. rw get-put (ground (arith, h.recorded c));
  spaced = ((λ t e. ground (arith, ready, h.recorded ch, e)), h.spaced);
}

panic-Kept : (ch now : ℕ) (s : Watch) → Kept s → Kept (maybe_panic ch now s)
unfolding maybe_panic
panic-Kept ch now s h = elim (Bool-cases (cooling (get s.panic_last ch) now)) [
  | inl wait ↦ rw wait h
  | inr ready ↦ rw ready (release-Kept ch now (note_panic ch now s) (note-Kept ch now s ready h))
]

-- What the engine's loop passes on: events, and the time.
pub data Act : Type 0 where
  event : MidiEvent → Act
  wall : ℕ → Act

module _ (panic_on_crit : Bool) where
  report-Kept :
      (alert : Alert) (now : ℕ) (s : Watch) → Kept s → Kept (report panic_on_crit alert now s)
  unfolding report
  report-Kept alert now s h =
      let s' = record s { emitted = s.emitted ++ alert ∷ [] } in
      let h' = same-Kept s s' refl refl h in
      elim (Bool-cases (panic_on_crit && is_crit alert.level)) [
        | inl panics ↦ rw panics (panic-Kept alert.ch now s' h')
        | inr calm ↦ rw calm h'
      ]

  report_all-Kept :
      (alerts : List Alert) (now : ℕ) (s : Watch)
      → Kept s
      → Kept (report_all panic_on_crit alerts now s)
  unfolding report_all
  report_all-Kept [] now s h = h
  report_all-Kept (alert ∷ rest) now s h =
      report_all-Kept rest now (report panic_on_crit alert now s) (report-Kept alert now s h)

  module _ (round1 : ℤ → ℤ) where
    tick-Kept : (now : ℕ) (s : Watch) → Kept s → Kept (tick_analyzers panic_on_crit round1 now s)
    unfolding tick_analyzers tick_alerts
    tick-Kept now s h =
        let s' = tick_alerts panic_on_crit round1 now s in
        same-Kept s' (tick_analyzers panic_on_crit round1 now s) refl refl
          (report_all-Kept _ now _ (same-Kept s _ refl refl h))

    unfoldable pub run : List Act → Watch → Watch
    run [] s = s
    run (event ev ∷ rest) s = run rest (dispatch_to_state ev s)
    run (wall now ∷ rest) s = run rest (tick_analyzers panic_on_crit round1 now s)

    run-Kept : (todo : List Act) (s : Watch) → Kept s → Kept (run todo s)
    unfolding run dispatch_to_state
    run-Kept [] s h = h
    run-Kept (event ev ∷ rest) s h =
        run-Kept rest (dispatch_to_state ev s) (same-Kept s _ refl refl h)
    run-Kept (wall now ∷ rest) s h =
        run-Kept rest (tick_analyzers panic_on_crit round1 now s) (tick-Kept now s h)

    abbrev pub start : StuckNotes → Voices → Watch
    start alerts voices = record {
      alerts = alerts;
      voices = voices;
      dirty = [];
      panic_last = [];
      sent = [];
      marks = [];
      emitted = [];
      next_event = 1;
    }

    -- However events and ticks of the clock follow each other, a channel is never sent All Notes Off
    -- within three seconds of the last time.
    pub panics_apart :
        (todo : List Act) (alerts : StuckNotes) (voices : Voices)
        → Spaced (run todo (start alerts voices)).sent
    panics_apart todo alerts voices =
        (run-Kept todo (start alerts voices)
          (record { recorded = λ ch. unfold last_sent in get-nil {V = ℕ} ch; spaced = tt })).spaced
