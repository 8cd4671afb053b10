-- ===== src/Lib.antt =====
-- A model of the midicrt engine, the daemon under src/midicrt that listens to MIDI, keeps analyzers
-- and pages up to date and serves their views to clients.
--
-- The parts and how they meet. `MidiInput` turns the messages of the MIDI ports into events and
-- gathers 24 clock pulses into one event. The engine hands each event to the bindings, to every
-- analyzer and to every page; a handler says whether its view changed. A SysEx event may also be a
-- command of a remote control, which turns pages and is answered by a SysEx reply. Between events
-- the engine passes the wall clock to the analyzers and to two behaviors, which ask for a page. The
-- protocol server keeps, for each client, the topics that it subscribes to, and counts the
-- subscribers of a topic, so that the engine builds no view that nobody reads. What clients, keys,
-- bindings and behaviors ask for goes through the registry of actions. While a session is recorded, the
-- capture is told of each event, action and page; the file that it leaves can be replayed through
-- another engine. The marquee scrolls the names of the pages past every client.
--
-- Files and sources:
--   Prelude          Boolean tests, equality as an instance, lists over the native numbers, and signed
--                    differences of times
--   Dict             Python's dictionaries: lookup, storing, removal, and sums over the values
--   Event            `MidiEvent` of src/midicrt/engine/core.py
--   Marquee          src/midicrt/analyzers/marquee.py, and `scroll_window` of
--                    src/midicrt/clients/chrome.py
--   MidiIn           src/midicrt/engine/midi_in.py: `translate`, `_enqueue` and `_on_clock`
--   Beats            src/midicrt/analyzers/transport.py, loopprogress.py and beatflash.py
--   StuckNotes       src/midicrt/analyzers/stucknotes.py: `Defs` handles events, `Tick` the clock
--   Theory           src/midicrt/analyzers/theory.py, `_best_matches` and what is made of its matches
--   Voices           src/midicrt/analyzers/voices.py
--   CcMonitor        src/midicrt/analyzers/ccmonitor.py
--   Behaviors        src/midicrt/behaviors/screensaver.py and pagecycle.py
--   RemoteControl    `Frames` is src/midicrt/engine/sysex.py; `Desk` and `Receiver` are the page
--                    actions (`_page_next`, `_page_prev`, `_page_goto`, `_page_jump`) and the SysEx
--                    handlers (`_handle_sysex` and what it calls) of src/midicrt/engine/core.py
--   Keymap           src/midicrt/engine/keymap.py, and `_recompute_keymap` of
--                    src/midicrt/engine/core.py; `PageKeys` has the keys of single pages
--   Actions          src/midicrt/engine/actions.py: `register` and `dispatch`
--   Bindings         src/midicrt/engine/bindings.py: `Defs` evaluates the bindings, `Validate` is
--                    `validate_binding`; `Learn` is the learning of a binding (`_bind_learn`,
--                    `_capture_learn`, `_tick_learn`, `_bind_cancel`, `_bind_remove`) of
--                    src/midicrt/engine/core.py
--   Engine           src/midicrt/engine/core.py: `Loop` is `_handle`, `_drain_queue_burst` and the
--                    loop of `run`; `Panic` is the alerts of `_tick_analyzers`, `_maybe_panic` and
--                    `_release_for_panic`; `AudioGate` is `_tick_audio_gate`
--   SysexStore       src/midicrt/engine/sysex_store.py, and `_SysexStatusOverlay` of
--                    src/midicrt/engine/core.py
--   Capture          src/midicrt/engine/capture.py, `CaptureSink`: the lines of a session; `Sessions` has
--                    `start`, `stop`, `fail`, `pin` and the index; `Control` is the capture actions
--                    of src/midicrt/engine/core.py, the synchronous ones and those that leave the
--                    sink's half to a worker thread
--   Pages            `SendNotes` is src/midicrt/pages/sendnotes.py, with `_sendnotes_key`, the draining in
--                    `_tick_pages` and the flush in `stop` of src/midicrt/engine/core.py; `Logs` is
--                    src/midicrt/pages/eventlog.py and progchanges.py
--   Replay           src/midicrt/engine/replay.py; `Held` also has what the engine tells the capture
--                    while it runs
--   Server           src/midicrt/engine/server.py: `Defs` has `_dispatch`, `_drop` and the topic counts,
--                    with `major` of src/midicrt/proto.py; `Push` has `_on_engine_message` and
--                    `_push_loop`, with `snapshot_now` and `_flush_dirty` of src/midicrt/engine/core.py
--
-- How the code is rendered. A method becomes a function from the object's state (a record with the
-- fields of `__init__`, without their underscore) to the next state, with the method's answer beside
-- it; a helper stands for an inner part of a method where the method is long. What the source
-- sends, logs to the capture or broadcasts is a list in the state, oldest first where its file does
-- not say otherwise. An exception is `none`. A set is a list. Times and rates are natural numbers of
-- thousandths (milliseconds; of a message per second); the source's floats are rounded nowhere else,
-- and a difference of two times is signed. The loops of the source run over a list or over a number
-- that is given at the start; the burst of the engine takes at most 500 events, as in the source, and
-- the search for a free name of a binding (`_new_binding_id`), which has no bound in the source, has
-- one round more here than there are names, which is enough.
--
-- A start or a stop of the capture that a client asks for runs in a worker thread: the sink's half of it
-- is one step, and the loop goes on before and after that step and before the action returns.
--
-- Parameters, for what the program only calls: rounding to one decimal place (StuckNotes.Tick) and to
-- three (Beats.BeatFlash),
-- Python's `int` of a text and the snapshots and actions behind the server (Server.Defs), Python's
-- conversions and `json.loads` (Actions.Defs), `fnmatch` and float arithmetic (Bindings.Defs),
-- `glob.escape`, the pattern of a client's number and the printing of numbers, of which it is assumed
-- that different numbers print differently (Bindings.Learn), Python's `strip` (SysexStore), which
-- pages are shown or read (Engine.AudioGate), the tempo of a span of time, whether the index of the
-- sessions is locked, a file opens and which write fails (Capture; a file is the lines that its file object
-- was given, and what a failure leaves on the disk is that object's), the printing of numbers and Python's
-- `upper` (Marquee), Python's `lower` (Pages.SendNotes), the tables of chords and scales (Theory), and
-- whether the MIDI output took a frame (RemoteControl.Receiver).
--
-- Not modelled: the clients, but for the line of the marquee; the other pages, and the views of all pages;
-- the harmony, spectrum, tuner, time signature and picture analyzers; the listing and editing of sessions,
-- and the configuration; MIDI ports, sockets, threads and files, which are input and output, and what the loop does while the
-- sink's half of a start or a stop runs. What a
-- page change does to the keymap and to the marquee is left out of RemoteControl.
pub mod Actions
pub mod Beats
pub mod Behaviors
pub mod Bindings
pub mod Capture
pub mod CcMonitor
pub mod Dict
pub mod Engine
pub mod Event
pub mod Keymap
pub mod Marquee
pub mod MidiIn
pub mod Pages
pub mod Prelude
pub mod RemoteControl
pub mod Replay
pub mod Server
pub mod StuckNotes
pub mod SysexStore
pub mod Theory
pub mod Voices
