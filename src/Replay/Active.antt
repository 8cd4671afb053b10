-- ===== src/Replay/Active.antt =====
-- Which notes are held, of `StuckNotesAnalyzer`, when the engine's watch meets events and ticks: it depends
-- on the events and on the marks that panics leave, and on nothing else of the state.
use mathlib.Core.List.{append-nil, append_assoc}
use midicrt.Prelude.{
  ℕ, ◌≡◌, refl, sym, ap, ◌∙◌, subst, Bool, ◌&&◌, Option, none, some, List, [], ◌∷◌, ◌++◌, arith,
  leb, Bool-cases, inl, inr, if_true, if_false, pair_test, number_test,
}
use midicrt.Prelude.Int.{ℤ}
use midicrt.Dict.{Dict, get, remove}
use midicrt.Event.{MidiEvent}
use midicrt.StuckNotes.Defs.{
  Key, Entry, Alert, StuckNotes, init, handle, on_note_on, on_note_off, release, forget, forget_all,
  clear_keys, clear_channel, keys_on, controller, held_notes, drain_alerts,
}
use midicrt.StuckNotes.Tick.{tick as tick_held}
use midicrt.StuckNotes.Counting.{active-set_sustain}
use midicrt.StuckNotes.Invariant.{active-tick}
use midicrt.Engine.Panic.{
  Watch, PanicMark, notes_off, released, dispatch_to_state, release_event, release_notes,
  mark_released, release_for_panic, note_panic, maybe_panic, cooling, is_crit, report, report_all,
  tick_alerts, tick_analyzers, note_dirty,
}

-- The held notes, with how often they are held and since when.
abbrev pub Held : Type 0
Held = Dict Key Entry

-- An analyzer that knows which notes are held, and nothing else.
abbrev bare : Held → StuckNotes
bare d = record (init 0) { active = d }

abbrev pub held : Watch → Held
held s = s.alerts.active

-- What an event does to the held notes.
abbrev pub after_event : MidiEvent → Held → Held
after_event ev d = (handle (bare d) ev).0.active

active-forget_all :
    (s t : StuckNotes) (ks : List Key)
    → s.active ≡ t.active
    → (forget_all s ks).active ≡ (forget_all t ks).active
unfolding forget_all forget
active-forget_all s t [] h = h
active-forget_all s t (k ∷ ks) h =
    active-forget_all (forget s k) (forget t k) ks (ap (λ (d : Held). remove d k) h)

active-clear_keys :
    (s t : StuckNotes) (ks : List Key)
    → s.active ≡ t.active
    → (clear_keys s ks).0.active ≡ (clear_keys t ks).0.active
unfolding clear_keys
active-clear_keys s t [] h = h
active-clear_keys s t (k ∷ ks) h = active-forget_all s t (k ∷ ks) h

active-release :
    (o : Option Entry) (s : StuckNotes) (key : Key)
    → (release o s key).0.active ≡ (release o (bare s.active) key).0.active
unfolding release forget
active-release none s key = refl
active-release (some e) s key = elim (Bool-cases (leb e.count 1)) [
  | inl once ↦ rw once refl
  | inr more ↦ rw more refl
]

active-controller :
    (s : StuckNotes) (ch control : ℕ) (value : Option ℕ)
    → (controller s ch control value).0.active
      ≡ (controller (bare s.active) ch control value).0.active
unfolding controller clear_channel
active-controller s ch control value =
    grind
      (arith, active-set_sustain, active-clear_keys s (bare s.active) (keys_on ch s.active) refl)

-- What is held after an event depends on what was held.
pub active-handle :
    (ev : MidiEvent) (s : StuckNotes) → (handle s ev).0.active ≡ after_event ev s.active
unfolding handle on_note_on on_note_off
active-handle ev s = grind (arith, active-controller s, active-release)

-- Each released note is a note-off of the engine's own.
unfoldable pub after_releases : ℕ → ℕ → List ℕ → Held → Held
after_releases ch now [] d = d
after_releases ch now (note ∷ notes) d =
    after_releases ch now notes (after_event (release_event ch now note) d)

pub held-dispatch :
    (ev : MidiEvent) (s : Watch) → held (dispatch_to_state ev s) ≡ after_event ev (held s)
unfolding dispatch_to_state
held-dispatch ev s = active-handle ev s.alerts

pub held-release :
    (ch now : ℕ) (notes : List ℕ) (s : Watch)
    → held (release_notes ch now notes s) ≡ after_releases ch now notes (held s)
unfolding release_notes after_releases
held-release ch now [] s = refl
held-release ch now (note ∷ notes) s =
    held-release ch now notes (dispatch_to_state (release_event ch now note) s)
    ∙ ap (after_releases ch now notes) (held-dispatch (release_event ch now note) s)

marks-release :
    (ch now : ℕ) (notes : List ℕ) (s : Watch) → (release_notes ch now notes s).marks ≡ s.marks
unfolding release_notes dispatch_to_state
marks-release ch now [] s = refl
marks-release ch now (note ∷ notes) s =
    marks-release ch now notes (dispatch_to_state (release_event ch now note) s)

-- What the marks of a tick say of the held notes.
unfoldable pub after_marks : ℕ → List PanicMark → Held → Held
after_marks now [] d = d
after_marks now (notes_off ch ∷ marks) d = after_marks now marks d
after_marks now (released ch notes ∷ marks) d =
    after_marks now marks (after_releases ch now notes d)

after_marks-append :
    (now : ℕ) (ms ns : List PanicMark) (d : Held)
    → after_marks now (ms ++ ns) d ≡ after_marks now ns (after_marks now ms d)
unfolding after_marks
after_marks-append now [] ns d = refl
after_marks-append now (notes_off ch ∷ ms) ns d = after_marks-append now ms ns d
after_marks-append now (released ch notes ∷ ms) ns d =
    after_marks-append now ms ns (after_releases ch now notes d)

-- A step that changes the held notes as the marks that it leaves say.
pub record Told (now : ℕ) (s s' : Watch) : Type 0 where
  pub new : List PanicMark
  pub left : s'.marks ≡ s.marks ++ new
  pub same : held s' ≡ after_marks now new (held s)

Told-unchanged : (now : ℕ) (s s' : Watch) → s'.marks ≡ s.marks → held s' ≡ held s → Told now s s'
unfolding after_marks
Told-unchanged now s s' marks same = record {
  new = [];
  left = marks ∙ sym (append-nil s.marks);
  same = same;
}

Told-trans : (now : ℕ) (a b c : Watch) → Told now a b → Told now b c → Told now a c
Told-trans now a b c t u = record {
  new = t.new ++ u.new;
  left = u.left ∙ ap (λ ms. ms ++ u.new) t.left ∙ append_assoc a.marks t.new u.new;
  same =
      u.same
      ∙ ap (after_marks now u.new) t.same
      ∙ sym (after_marks-append now t.new u.new (held a));
}

released-Told :
    (ch now : ℕ) (notes : List ℕ) (s : Watch)
    → Told now s (mark_released ch notes (release_notes ch now notes s))
unfolding mark_released after_marks
released-Told ch now [] s =
    Told-unchanged now s _ (marks-release ch now [] s)
      (held-release ch now [] s ∙ (unfold after_releases in refl))
released-Told ch now (n ∷ notes) s = record {
  new = released ch (n ∷ notes) ∷ [];
  left = ap (λ ms. ms ++ released ch (n ∷ notes) ∷ []) (marks-release ch now (n ∷ notes) s);
  same = held-release ch now (n ∷ notes) s;
}

maybe_panic-Told : (ch now : ℕ) (s : Watch) → Told now s (maybe_panic ch now s)
unfolding maybe_panic release_for_panic note_panic after_marks
maybe_panic-Told ch now s =
    let noted = note_panic ch now s in
    let panicked = release_for_panic ch now noted in
    let t : Told now s noted = record { new = notes_off ch ∷ []; left = refl; same = refl } in
    elim (Bool-cases (cooling (get s.panic_last ch) now)) [
      | inl early ↦
          subst (Told now s) (sym (if_true _ s panicked early)) (Told-unchanged now s s refl refl)
      | inr due ↦ subst (Told now s) (sym (if_false _ s panicked due)) (
          Told-trans now s noted panicked t
            (released-Told ch now (held_notes noted.alerts ch) noted))
    ]

module _ (panic_on_crit : Bool) where
  report-Told :
      (alert : Alert) (now : ℕ) (s : Watch) → Told now s (report panic_on_crit alert now s)
  unfolding report
  report-Told alert now s =
      let s' = record s { emitted = s.emitted ++ alert ∷ [] } in
      let t = Told-unchanged now s s' refl refl in
      elim (Bool-cases (panic_on_crit && is_crit alert.level)) [
        | inl grave ↦
            subst (Told now s) (sym (if_true _ (maybe_panic alert.ch now s') s' grave))
              (Told-trans now s s' _ t (maybe_panic-Told alert.ch now s'))
        | inr mild ↦ subst (Told now s) (sym (if_false _ (maybe_panic alert.ch now s') s' mild)) t
      ]

  report_all-Told :
      (alerts : List Alert) (now : ℕ) (s : Watch)
      → Told now s (report_all panic_on_crit alerts now s)
  unfolding report_all
  report_all-Told [] now s = Told-unchanged now s s refl refl
  report_all-Told (alert ∷ rest) now s =
      let s' = report panic_on_crit alert now s in
      Told-trans now s s' _ (report-Told alert now s) (report_all-Told rest now s')

  -- A tick changes the held notes as its marks say.
  pub tick-Told :
      (round1 : ℤ → ℤ) (now : ℕ) (s : Watch)
      → Told now s (tick_analyzers panic_on_crit round1 now s)
  unfolding tick_analyzers tick_alerts drain_alerts
  tick-Told round1 now s =
      let ticked = tick_held round1 s.alerts now in
      let queued = (drain_alerts ticked.0).0 in
      let s' = record s {
        alerts = (drain_alerts ticked.0).1;
        dirty = note_dirty ticked.1 "overlay.alerts" s.dirty;
      } in
      let t = Told-unchanged now s s' refl (active-tick round1 s.alerts now) in
      let u = Told-trans now s s' _ t (report_all-Told queued now s') in
      record { new = u.new; left = u.left; same = u.same }
