-- ===== src/Replay/Held.antt =====
-- What the engine tells the capture while it runs, and the held notes when the session is replayed.
use midicrt.Prelude.{
  ℕ, suc, ◌-◌, ◌≡◌, ◌∙◌, refl, sym, ap, subst, Bool, false, ◌||◌, Option, none, some, String, List,
  [], ◌∷◌, ◌++◌, if◌then◌else◌, leb, ◌==◌, Bool-cases, inl, inr, if_true, if_false, text_test,
  number_test, option_test,
}
use mathlib.Core.Option
use midicrt.Prelude.Int.{ℤ}
use midicrt.Dict.{get}
use midicrt.Event.{MidiEvent}
use midicrt.Actions.Defs.{Value}
use midicrt.StuckNotes.Defs.{Key, Entry}
use midicrt.StuckNotes.Defs as Notes
use midicrt.Capture.{
  Line, header, tempo, action, ActionArgs, plain, panic_channel, panic_notes, line_of, batch_start,
  Sink, lines_of,
}
use midicrt.Capture.Sessions.{no_faults, start, stop}
use midicrt.Capture.Log.{
  Note, seen, did, turned, passed, note_all, transcript, lines_for, tempo_lines, last_after,
}
use midicrt.Capture.Whole.{session_file}
use midicrt.Engine.Panic.{Watch, PanicMark, notes_off, released, tick_analyzers}
use midicrt.Engine.Loop.{Engine, is_own, take_in, handle, after_burst}
use midicrt.Engine.Loop.Queue.{take_in-Heard}
use midicrt.RemoteControl.Desk.{set_current_page}
use midicrt.Replay.{
  Replayed, begun, count_up, midi_event_from_line, apply_panic_release_mark, take_line,
  stream_lines, stream_session,
}
use midicrt.Replay.Active.{
  Held, after_event, after_releases, after_marks, held-dispatch, held-release, tick-Told,
}

-- An event that the engine handles at a time, or a tick of its clock.
pub data Happening : Type 0 where
  heard : ℕ → MidiEvent → Happening
  ticked : ℕ → Happening

-- The actions that the capture is told of for the marks of a panic.
unfoldable pub mark_note : ℕ → PanicMark → Note
mark_note now (notes_off ch) = did now "panic.notes_off" (panic_channel ch) "alert"
mark_note now (released ch notes) = did now "panic.release" (panic_notes ch notes) "alert"

unfoldable pub mark_notes : ℕ → List PanicMark → List Note
mark_notes now [] = []
mark_notes now (m ∷ ms) = mark_note now m ∷ mark_notes now ms

abbrev pub held_by : Engine → Held
held_by e = e.watch.alerts.active

-- What the capture's notes say of the held notes.
abbrev after_args : ℕ → ActionArgs → Held → Held
after_args now (panic_notes ch notes) d = after_releases ch now notes d
after_args now _ d = d

unfoldable after_note : Note → Held → Held
after_note (seen ev) d = after_event ev d
after_note (did now name args origin) d =
    if name == "panic.release" then after_args now args d else d
after_note _ d = d

unfoldable after_notes : List Note → Held → Held
after_notes [] d = d
after_notes (n ∷ ns) d = after_notes ns (after_note n d)

-- The events of a session that do not come from the output of this name.
unfoldable pub Foreign : String → List Note → Type 0
Foreign port [] = Unit
Foreign port (seen ev ∷ ns) = (is_own port ev ≡ false) × Foreign port ns
Foreign port (_ ∷ ns) = Foreign port ns

split-Foreign :
    (port : String) (n : Note) (ns : List Note)
    → Foreign port (n ∷ ns)
    → Foreign port (n ∷ []) × Foreign port ns
unfolding Foreign
split-Foreign port (seen ev) ns h = ((h.0, tt), h.1)
split-Foreign port (did now name args origin) ns h = (tt, h)
split-Foreign port (turned now page) ns h = (tt, h)
split-Foreign port (passed now) ns h = (tt, h)

after_notes-append :
    (ms ns : List Note) (d : Held) → after_notes (ms ++ ns) d ≡ after_notes ns (after_notes ms d)
unfolding after_notes
after_notes-append [] ns d = refl
after_notes-append (m ∷ ms) ns d = after_notes-append ms ns (after_note m d)

after_notes-marks :
    (now : ℕ) (ms : List PanicMark) (d : Held)
    → after_notes (mark_notes now ms) d ≡ after_marks now ms d
unfolding after_notes after_note mark_notes mark_note after_marks
after_notes-marks now [] d = refl
after_notes-marks now (notes_off ch ∷ ms) d = after_notes-marks now ms d
after_notes-marks now (released ch notes ∷ ms) d =
    after_notes-marks now ms (after_releases ch now notes d)

module _ (fnmatch : String → String → Bool) (mix : ℕ → ℤ → ℤ → Value) (escape : String → String)
    (before_suffix : String → Option String) (digits : ℕ → String) (accepted : List ℕ → Bool) where
  -- The engine with its capture: what it does, and what it tells of it.
  module _ (panic_on_crit : Bool) (round1 : ℤ → ℤ) where
    unfoldable pub live_step : Happening → Engine → Engine × List Note
    live_step (heard now ev) e = (
      handle fnmatch mix escape before_suffix digits accepted now ev e,
      if is_own e.port_name ev then [] else seen ev ∷ [],
    )
    live_step (ticked now) e =
        let fresh = record e { watch = record e.watch { marks = [] } } in
        let e' =
          (after_burst fnmatch mix escape before_suffix digits accepted panic_on_crit round1 now
            fresh).0 in
        (e', mark_notes now e'.watch.marks ++ passed now ∷ [])

    unfoldable pub live : List Happening → Engine → Engine × List Note
    live [] e = (e, [])
    live (h ∷ hs) e =
        let (e', told) = live_step h e in let (e'', rest) = live hs e' in (e'', told ++ rest)

    held-step :
        (h : Happening) (e : Engine)
        → held_by (live_step h e).0 ≡ after_notes (live_step h e).1 (held_by e)
    unfolding live_step handle after_burst after_notes after_note
    held-step (heard now ev) e =
        let taken = take_in fnmatch mix escape before_suffix digits accepted now ev e in
        let same = (take_in-Heard fnmatch mix escape before_suffix digits accepted now ev e).2 in
        elim (Bool-cases (is_own e.port_name ev)) [
          | inl own ↦ simp own refl
          | inr other ↦
              simp other (ap (λ (w : Watch). w.alerts.active) same ∙ held-dispatch ev e.watch)
        ]
    held-step (ticked now) e =
        let w = record e.watch { marks = [] } in
        let t = tick-Told panic_on_crit round1 now w in
        let marks = (tick_analyzers panic_on_crit round1 now w).marks in
        t.same
        ∙ ap (λ ms. after_marks now ms (held_by e)) (sym t.left)
        ∙ sym (after_notes-marks now marks (held_by e))
        ∙ sym (after_notes-append (mark_notes now marks) (passed now ∷ []) (held_by e))

    held-live :
        (hs : List Happening) (e : Engine)
        → held_by (live hs e).0 ≡ after_notes (live hs e).1 (held_by e)
    unfolding live after_notes
    held-live [] e = refl
    held-live (h ∷ hs) e =
        let (e', told) = live_step h e in
        held-live hs e'
        ∙ ap (after_notes (live hs e').1) (held-step h e)
        ∙ sym (after_notes-append told (live hs e').1 (held_by e))

  module _ (instant : Bool) (clock : ℕ) (port : String) where
    abbrev stream : List Line → Replayed → Replayed
    stream lines r =
        stream_lines fnmatch mix escape before_suffix digits accepted instant clock lines r

    -- A replay on the port, with these notes held.
    record At (d : Held) (r : Replayed) : Type 0 where
      named : r.engine.port_name ≡ port
      holds : held_by r.engine ≡ d

    stream-append :
        (xs ys : List Line) (r : Replayed) → stream (xs ++ ys) r ≡ stream ys (stream xs r)
    unfolding stream_lines
    stream-append [] ys r = refl
    stream-append (x ∷ xs) ys r = stream-append xs ys _

    tempo-At :
        (bpm : ℕ → ℕ) (began : Option ℕ) (ts : ℕ) (last : Option ℕ) (d : Held) (r : Replayed)
        → At d r
        → At d (stream (tempo_lines bpm began ts last) r)
    unfolding tempo_lines stream_lines take_line
    tempo-At bpm none ts last d r h = h
    tempo-At bpm (some began) ts last d r h =
        let line = tempo ts (bpm (ts - began)) in
        elim (Bool-cases (leb ts began || last == some (bpm (ts - began)))) [
          | inl same ↦ subst (λ l. At d (stream l r)) (sym (if_true _ [] (line ∷ []) same)) h
          | inr other ↦
              subst (λ l. At d (stream l r)) (sym (if_false _ [] (line ∷ []) other))
                (record { named = h.named; holds = h.holds })
        ]

    -- An event from elsewhere reaches the held notes of the replay.
    handle-At :
        (ev : MidiEvent) (d : Held) (e : Engine)
        → is_own port ev ≡ false
        → e.port_name ≡ port
        → held_by e ≡ d
        → let e' = handle fnmatch mix escape before_suffix digits accepted clock ev e in
          (e'.port_name ≡ port) × (held_by e' ≡ after_event ev d)
    unfolding handle
    handle-At ev d e from_outside named holds =
        let other : is_own e.port_name ev ≡ false = ap (λ p. is_own p ev) named ∙ from_outside in
        let (_, same, watch) =
          take_in-Heard fnmatch mix escape before_suffix digits accepted clock ev e in
        simp other (
          same ∙ named,
          ap (λ (w : Watch). w.alerts.active) watch
              ∙ held-dispatch ev e.watch
              ∙ ap (after_event ev) holds,
        )

    event-At :
        (ev : MidiEvent) (d : Held) (r : Replayed)
        → is_own port ev ≡ false
        → At d r
        → At (after_event ev d) (stream (line_of ev ∷ []) r)
    unfolding stream_lines take_line line_of midi_event_from_line is_own Notes.handle
    event-At ev d r from_outside h =
        let read =
          midi_event_from_line ev.ts ev.source ev.kind ev.channel ev.data1 ev.data2
            (batch_start ev.kind ev.clock_batch_start) ev.sysex_data in
        let (named, holds) = handle-At read d r.engine from_outside h.named h.holds in
        record { named = named; holds = holds }

    mark-At :
        (now : ℕ) (args : ActionArgs) (d : Held) (e : Engine)
        → e.port_name ≡ port
        → held_by e ≡ d
        → let e' = apply_panic_release_mark now args e in
          (e'.port_name ≡ port) × (held_by e' ≡ after_args now args d)
    unfolding apply_panic_release_mark
    mark-At now (plain args) d e named holds = (named, holds)
    mark-At now (panic_channel ch) d e named holds = (named, holds)
    mark-At now (panic_notes ch notes) d e named holds =
        (named, held-release ch now notes e.watch ∙ ap (after_releases ch now notes) holds)

    action-At :
        (now : ℕ) (name : String) (args : ActionArgs) (origin : String) (d : Held) (r : Replayed)
        → At d r
        → At (after_note (did now name args origin) d) (stream (action now name args origin ∷ []) r)
    unfolding stream_lines take_line after_note
    action-At now name args origin d r h = elim (Bool-cases (name == "panic.release")) [
      | inl mark ↦
          let (named, holds) = mark-At now args d r.engine h.named h.holds in
          simp mark (record { named = named; holds = holds })
      | inr other ↦ simp other (record { named = h.named; holds = h.holds })
    ]

    line-At :
        (n : Note) (bpm : ℕ → ℕ) (last : Option ℕ) (d : Held) (r : Replayed)
        → Foreign port (n ∷ [])
        → At d r
        → At (after_note n d) (stream (lines_for bpm n last) r)
    unfolding lines_for Foreign after_note
    line-At (seen ev) bpm last d r foreign h =
        let began = batch_start ev.kind ev.clock_batch_start in
        subst (At (after_event ev d))
          (sym (stream-append (line_of ev ∷ []) (tempo_lines bpm began ev.ts last) r))
          (tempo-At bpm began ev.ts last (after_event ev d) _ (event-At ev d r foreign.0 h))
    line-At (did now name args origin) bpm last d r foreign h = action-At now name args origin d r h
    line-At (turned now page) bpm last d r foreign h =
        unfold stream_lines take_line set_current_page in
        record { named = h.named; holds = h.holds }
    line-At (passed now) bpm last d r foreign h = unfold stream_lines in h

    -- The lines of a session bring back the notes that its notes say are held.
    notes-At :
        (ns : List Note) (bpm : ℕ → ℕ) (last : Option ℕ) (d : Held) (r : Replayed)
        → Foreign port ns
        → At d r
        → At (after_notes ns d) (stream (transcript bpm ns last) r)
    unfolding after_notes transcript
    notes-At [] bpm last d r foreign h = unfold stream_lines in h
    notes-At (n ∷ ns) bpm last d r foreign h =
        let (this, rest) = split-Foreign port n ns foreign in
        subst (At (after_notes ns (after_note n d)))
          (sym (stream-append (lines_for bpm n last) (transcript bpm ns (last_after bpm n last)) r))
          (notes-At ns bpm (last_after bpm n last) (after_note n d) _ rest
            (line-At n bpm last d r this h))

-- A session that is recorded while the engine handles events and its clock ticks, panics included, and that
-- is replayed at any positive speed, leaves the replaying engine with the same notes held, each as often and
-- since the same time; it must begin with the notes that the live one began with, and no event may look as
-- if it came from its output. No write fails, and nothing is recorded before.
pub same_held :
    (fnmatch : String → String → Bool) (mix : ℕ → ℤ → ℤ → Value) (escape : String → String)
    (before_suffix : String → Option String) (digits : ℕ → String) (accepted : List ℕ → Bool)
    (panic_on_crit : Bool) (round1 : ℤ → ℤ) (hs : List Happening) (e offline : Engine) (bpm : ℕ → ℕ)
    (id : String) (now later : ℕ) (busy : Bool) (s : Sink) (instant : Bool) (clock speed : ℕ)
    → s.recording ≡ false
    → s.buffer ≡ []
    → get s.files id ≡ none
    → held_by offline ≡ held_by e
    → Foreign offline.port_name
        (live fnmatch mix escape before_suffix digits accepted panic_on_crit round1 hs e).1
    → let (e', told) =
        live fnmatch mix escape before_suffix digits accepted panic_on_crit round1 hs e in
      let recorded = note_all bpm told (start no_faults id now s).0 in
      let file = lines_of (get (stop none busy later recorded).0.files id) in
      Option.map
        (λ (r : Replayed). held_by r.engine)
        (stream_session fnmatch mix escape before_suffix digits accepted instant clock
          (suc speed)
          file
          offline)
      ≡ some (held_by e')
unfolding stream_session stream_lines take_line
same_held fnmatch mix escape before_suffix digits accepted panic_on_crit round1 hs e offline bpm id
      now later busy s instant clock speed idle empty fresh same foreign =
    let (e', told) =
      live fnmatch mix escape before_suffix digits accepted panic_on_crit round1 hs e in
    let first = header id now s.engine_version s.instruments in
    let r = record (begun offline) {
      header_line = some first;
      marks_by_kind = count_up "header" [];
    } in
    let replayed =
      notes-At fnmatch mix escape before_suffix digits accepted instant clock offline.port_name told
        bpm none (held_by offline) r foreign (record { named = refl; holds = refl }) in
    rw (session_file bpm id now later busy told s idle empty fresh).0 (
      ap some (
        replayed.holds
        ∙ ap (after_notes told) same
        ∙ sym
            (held-live fnmatch mix escape before_suffix digits accepted panic_on_crit round1 hs e)))
