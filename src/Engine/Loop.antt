-- ===== src/Engine/Loop.antt =====
-- The loop of `Engine` (src/midicrt/engine/core.py): `_handle`, `_drain_queue_burst` and the parts of
-- `run` between two flushes, over the learning of bindings, the remote control and the watch over held
-- notes. `heard` and `received` are what the capture and the SysEx store were handed. The notice of a
-- received frame for clients is left out. A round's clock is `now`; where the source reads the clock
-- anew, that reading is `now` too.
pub mod Queue
pub mod Learning
mod Tests
use midicrt.Prelude.{
  ℕ, zero, suc, ◌+◌, Bool, true, false, ◌&&◌, ◌||◌, not, Option, none, some, String, List, [], ◌∷◌,
  ◌++◌, if◌then◌else◌, eqb, ◌==◌, text_test, occurs_in,
}
use midicrt.Prelude.Int.{ℤ}
use midicrt.Event.{Kind, MidiEvent, note_on, note_off, control_change, sysex}
use midicrt.Actions.Defs.{Value}
use midicrt.Bindings.Defs.{Intent, is_learnable_event, handle_with_origin}
use midicrt.Bindings.Learn.{Arm, Learn, capture_learn, tick_learn}
use midicrt.RemoteControl.Desk.{Desk}
use midicrt.RemoteControl.Receiver.{handle_sysex}
use midicrt.Engine.Panic.{Watch, dispatch_to_state, tick_analyzers}

pub record Engine : Type 0 where
  pub port_name : String
  pub replay : Bool
  pub learn : Learn
  pub pending : List Intent
  pub events_total : ℕ
  pub desk : Desk
  pub watch : Watch
  pub heard : List MidiEvent
  pub received : List MidiEvent

-- An event that comes back from the engine's own output.
unfoldable pub is_own : String → MidiEvent → Bool
is_own port_name ev = not (ev.source == "") && occurs_in port_name ev.source

-- `_ACTIVITY_EVENT_TYPES`
unfoldable pub is_activity : Kind → Bool
is_activity note_on = true
is_activity note_off = true
is_activity control_change = true
is_activity _ = false

unfoldable pub count_event : MidiEvent → Engine → Engine
count_event ev e = record e {
  events_total = e.events_total + 1;
  desk = if is_activity ev.kind then record e.desk { last_activity = ev.ts } else e.desk;
}

-- The last step, with what `_maybe_panic` and the analyzers watch.
unfoldable pub show_event : MidiEvent → Engine → Engine
show_event ev e = record e { watch = dispatch_to_state ev e.watch }

-- `_MAX_BURST_PER_TICK`
abbrev pub max_burst : ℕ
max_burst = 500

module _ (fnmatch : String → String → Bool) (mix : ℕ → ℤ → ℤ → Value) (escape : String → String)
    (before_suffix : String → Option String) (digits : ℕ → String) (accepted : List ℕ → Bool) where
  -- The bindings see an event that is not learned from.
  unfoldable pub offer : MidiEvent → Engine → Engine
  offer ev e =
      let (dispatcher, intents) = handle_with_origin fnmatch mix e.learn.dispatcher ev in
      record e {
        learn = record e.learn { dispatcher = dispatcher };
        pending = e.pending ++ intents;
      }

  unfoldable pub learn_or_offer : Option Arm → ℕ → MidiEvent → Engine → Engine
  learn_or_offer none now ev e = offer ev e
  learn_or_offer (some arm) now ev e =
      if is_learnable_event ev
      then record e { learn = capture_learn escape before_suffix digits now arm ev e.learn }
      else offer ev e

  -- A replayed event reaches neither.
  unfoldable pub bind : ℕ → MidiEvent → Engine → Engine
  bind now ev e = if e.replay then e else learn_or_offer e.learn.armed now ev e

  unfoldable pub receive_as : Kind → MidiEvent → Engine → Engine
  receive_as sysex ev e = record e {
    received = e.received ++ ev ∷ [];
    desk = handle_sysex accepted ev e.desk;
  }
  receive_as _ ev e = e

  abbrev pub receive_sysex : MidiEvent → Engine → Engine
  receive_sysex ev e = receive_as ev.kind ev e

  unfoldable pub take_in : ℕ → MidiEvent → Engine → Engine
  take_in now ev e =
      show_event ev
        (receive_sysex ev (count_event ev (bind now ev (record e { heard = e.heard ++ ev ∷ [] }))))

  -- `_handle`
  unfoldable pub handle : ℕ → MidiEvent → Engine → Engine
  handle now ev e = if is_own e.port_name ev then e else take_in now ev e

  -- The rest of a burst: at most so many of the queue's events, and the queue that is left.
  unfoldable pub drain : ℕ → ℕ → List MidiEvent → Engine → List MidiEvent × Engine
  drain now zero queue e = (queue, e)
  drain now (suc n) [] e = ([], e)
  drain now (suc n) (ev ∷ queue) e = drain now n queue (handle now ev e)

  -- `queue.get()` with its timeout, then `_drain_queue_burst`.
  unfoldable pub take_burst : ℕ → List MidiEvent → Engine → List MidiEvent × Engine
  take_burst now [] e = ([], e)
  take_burst now (first ∷ queue) e = drain now 499 queue (handle now first e)

  -- A round of `run`, but for the actions that bindings and behaviors ask for and the pages: `asked` is
  -- what the bindings asked for.
  module _ (panic_on_crit : Bool) (round1 : ℤ → ℤ) where
    unfoldable pub after_burst : ℕ → Engine → Engine × List Intent
    after_burst now e = (
      record e {
        pending = [];
        watch = tick_analyzers panic_on_crit round1 now e.watch;
        learn = tick_learn now e.learn;
      },
      e.pending,
    )

    unfoldable pub round : ℕ → List MidiEvent → Engine → List MidiEvent × (Engine × List Intent)
    round now queue e = let (left, e') = take_burst now queue e in (left, after_burst now e')
