-- ===== src/Event.antt =====
-- The event that every part of the engine exchanges: src/midicrt/engine/core.py, `MidiEvent`.
-- A time is a natural number of milliseconds (the source's float seconds, scaled). `kind` is the
-- source's `type`: the types that the engine tests for are constructors, any other is `other`.
-- The field `summary`, a text for display, is left out.
pub mod Samples
use midicrt.Prelude.{ℕ, String, Option, List, [], ◌∷◌, Bool}

pub data Kind : Type 0 where
  note_on note_off control_change program_change sysex : Kind
  clock_tick start stop continue songpos : Kind
  other : String → Kind

pub record MidiEvent : Type 0 where
  pub ts : ℕ
  pub source : String
  pub kind : Kind
  pub channel : Option ℕ
  pub data1 : Option ℕ
  pub data2 : Option ℕ
  pub clock_batch_start : Option ℕ
  pub sysex_data : Option (List ℕ)
  pub device_id : Option String

-- The state after a list of events, for a handler that returns a state and a dirty flag.
unfoldable pub run {ℓ} : {S : Type ℓ} → (S → MidiEvent → S × Bool) → S → List MidiEvent → S
run handle s [] = s
run handle s (ev ∷ evs) = run handle (handle s ev).0 evs

-- What an analyzer meets between two snapshots: an event, or a tick of the wall clock, which the
-- engine injects with the current time.
pub data Input : Type 0 where
  event : MidiEvent → Input
  wall : ℕ → Input

module _ {ℓ} {S : Type ℓ} (handle : S → MidiEvent → S × Bool) (tick : S → ℕ → S × Bool) where
  unfoldable pub meet : S → Input → S
  meet s (event ev) = (handle s ev).0
  meet s (wall now) = (tick s now).0

  unfoldable pub drive : S → List Input → S
  unfolding meet
  drive s [] = s
  drive s (i ∷ is) = drive (meet s i) is

-- What both the handler and the hook keep holds after any inputs.
pub drive_keeps {ℓ κ} :
    {S : Type ℓ} (handle : S → MidiEvent → S × Bool) (tick : S → ℕ → S × Bool) (P : S → Type κ)
    → ((s : S) (ev : MidiEvent) → P s → P (handle s ev).0)
    → ((s : S) (now : ℕ) → P s → P (tick s now).0)
    → (s : S) (is : List Input) → P s
    → P (drive handle tick s is)
unfolding drive
drive_keeps handle tick P by_event by_tick s [] h = h
drive_keeps handle tick P by_event by_tick s (event ev ∷ is) h =
    drive_keeps handle tick P by_event by_tick (handle s ev).0 is (by_event s ev h)
drive_keeps handle tick P by_event by_tick s (wall now ∷ is) h =
    drive_keeps handle tick P by_event by_tick (tick s now).0 is (by_tick s now h)
