-- ===== src/Beats/Lockstep.antt =====
-- What holds of the three beat counters together, and of each by itself.
use midicrt.Prelude.{
  ℕ, ◌+◌, ◌-◌, ◌*◌, ◌%◌, ◌≡◌, refl, List, [], ◌∷◌, ◌++◌, Bool, true, false, arith, eqb,
  if◌then◌else◌,
}
use midicrt.Event.{Kind, MidiEvent, clock_tick, start, stop, continue, run}
use midicrt.Beats.Transport
use midicrt.Beats.Transport.{Transport, bar, beat}
use midicrt.Beats.LoopProgress
use midicrt.Beats.LoopProgress.{LoopProgress, position}
use midicrt.Beats.BeatFlash
use midicrt.Beats.BeatFlash.{BeatFlash}

-- The three states agree on the transport, and the bar marks agree with the beat count.
pub record InStep (t : Transport) (l : LoopProgress) (f : BeatFlash) : Type 0 where
  pub loop_running : l.running ≡ t.running
  pub flash_running : f.running ≡ t.running
  pub loop_beats : l.beats ≡ t.beats
  pub flash_beats : f.beats ≡ t.beats
  pub bar_mark : f.is_bar ≡ (if eqb t.beats 0 then false else eqb (t.beats % 4) 0)

handle-InStep :
    {t : Transport} {l : LoopProgress} {f : BeatFlash} (ev : MidiEvent)
    → InStep t l f
    → InStep (Transport.handle t ev).0 (LoopProgress.handle l ev).0 (BeatFlash.handle f ev).0
unfolding Transport.handle LoopProgress.handle BeatFlash.handle
handle-InStep ev h = ground arith

run-InStep :
    (evs : List MidiEvent) {t : Transport} {l : LoopProgress} {f : BeatFlash}
    → InStep t l f
    → InStep
        (run Transport.handle t evs)
        (run LoopProgress.handle l evs)
        (run BeatFlash.handle f evs)
unfolding run
run-InStep [] h = h
run-InStep (ev ∷ evs) h = run-InStep evs (handle-InStep ev h)

init-InStep : InStep Transport.init LoopProgress.init BeatFlash.init
init-InStep = ground arith

-- After any events, the loop marker is at the beat of the eight bar cycle that BAR and BEAT name.
pub position-bar-beat :
    (evs : List MidiEvent)
    → let t = run Transport.handle Transport.init evs in
      position (run LoopProgress.handle LoopProgress.init evs) ≡ bar t % 8 * 4 + (beat t - 1)
unfolding position bar beat
position-bar-beat evs = omega (arith, run-InStep evs init-InStep)

-- After any events in which a beat was counted since the last start, the flash is marked as a bar
-- flash exactly when the transport's BEAT reads 1, and otherwise it is not marked.
pub is_bar-beat :
    (evs : List MidiEvent)
    → let t = run Transport.handle Transport.init evs in
      (run BeatFlash.handle BeatFlash.init evs).is_bar
      ≡ (if eqb t.beats 0 then false else eqb (beat t) 1)
unfolding beat
is_bar-beat evs = ground (arith, run-InStep evs init-InStep)

abbrev pub is_transport : Kind → Bool
is_transport start = true
is_transport stop = true
is_transport continue = true
is_transport _ = false

-- No start, stop or continue.
abbrev pub Undisturbed : List MidiEvent → Type 0
Undisturbed [] = Unit
Undisturbed (ev ∷ evs) = (is_transport ev.kind ≡ false) × Undisturbed evs

abbrev is_tick : Kind → ℕ
is_tick clock_tick = 1
is_tick _ = 0

unfoldable pub ticks : List MidiEvent → ℕ
ticks [] = 0
ticks (ev ∷ evs) = is_tick ev.kind + ticks evs

step_beats :
    (t : Transport) (ev : MidiEvent)
    → t.running ≡ true
    → is_transport ev.kind ≡ false
    → ((Transport.handle t ev).0.running ≡ true)
      × ((Transport.handle t ev).0.beats ≡ t.beats + is_tick ev.kind)
unfolding Transport.handle
step_beats t ev r h = ground arith

run_beats :
    (t : Transport) (evs : List MidiEvent)
    → t.running ≡ true
    → Undisturbed evs
    → (run Transport.handle t evs).beats ≡ t.beats + ticks evs
unfolding run ticks
run_beats t [] r h = omega arith
run_beats t (ev ∷ evs) r h =
    let (still, counted) = step_beats t ev r h.0 in
    omega (arith, run_beats (Transport.handle t ev).0 evs still h.1)

run-append :
    {S : Type 0} (handle : S → MidiEvent → S × Bool) (s : S) (xs ys : List MidiEvent)
    → run handle s (xs ++ ys) ≡ run handle (run handle s xs) ys
unfolding run
run-append handle s [] ys = refl
run-append handle s (x ∷ xs) ys = run-append handle (handle s x).0 xs ys

start_resets :
    (t : Transport) (ev : MidiEvent)
    → ev.kind ≡ start
    → ((Transport.handle t ev).0.running ≡ true) × ((Transport.handle t ev).0.beats ≡ 0)
unfolding Transport.handle
start_resets t ev e = ground arith

-- After a start that no stop, continue or other start follows, whatever came before it, the
-- number of beats is the number of clock ticks since that start.
pub beats_since_start :
    (before : List MidiEvent) (ev : MidiEvent) (after : List MidiEvent)
    → ev.kind ≡ start
    → Undisturbed after
    → (run Transport.handle Transport.init (before ++ ev ∷ after)).beats ≡ ticks after
beats_since_start before ev after e h =
    let t = run Transport.handle Transport.init before in
    let (running, zeroed) = start_resets t ev e in
    rw run-append (unfold run in omega (arith, run_beats (Transport.handle t ev).0 after running h))

-- An event that the transport analyzer or the loop analyzer reports as not dirty has changed
-- nothing in that analyzer.
pub clean_unchanged :
    (t : Transport) (l : LoopProgress) (ev : MidiEvent)
    → ((Transport.handle t ev).1 ≡ false → (Transport.handle t ev).0 ≡ t)
      × ((LoopProgress.handle l ev).1 ≡ false → (LoopProgress.handle l ev).0 ≡ l)
unfolding Transport.handle LoopProgress.handle
clean_unchanged t l ev = ground arith
