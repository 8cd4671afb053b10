-- ===== src/Capture/Control.antt =====
-- The capture actions of `Engine` (src/midicrt/engine/core.py). `_capture_start_action` and
-- `_capture_stop_action` are called while the engine is built and when it shuts down; the registered
-- actions are `_capture_start_action_dispatch` and `_capture_stop_action_dispatch`, which leave the
-- sink's half to a worker thread. That half is one step here, and `meanwhile` is what the loop does
-- between it and the return to the action; what the loop does during it is not modelled. `false` is an
-- `ActionError`. The texts of messages are left out. `now` stands for every reading of the clock in one action.
use midicrt.Prelude.{
  ℕ, Bool, true, false, Option, none, some, String, List, [], ◌∷◌, ◌++◌, if◌then◌else◌,
}
use midicrt.Dict.{Dict}
use midicrt.Beats.Transport.{Transport, set_rec}
use midicrt.Capture.{plain, Sink, maybe_flush, record_action}
use midicrt.Capture.Sessions.{Faults, stop, fail, start}

pub data Notice : Type 0 where
  alert : Notice
  capture_started : String → Notice
  capture_stopped : String → Dict String ℕ → Bool → Notice

-- The sink, the status line, and what the engine tells clients.
pub record Studio : Type 0 where
  pub sink : Sink
  pub status : Transport
  pub dirty : List String
  pub notices : List Notice

abbrev pub show_rec : Bool → Studio → Studio
show_rec on e = record e { status = set_rec on e.status; dirty = e.dirty ++ "overlay.status" ∷ [] }

abbrev pub stopped_notice : Option String → Dict String ℕ → Bool → List Notice
stopped_notice none counts failed = []
stopped_notice (some id) counts failed = capture_stopped id counts failed ∷ []

unfoldable pub capture_write_failed : String → Bool → ℕ → Studio → Studio
capture_write_failed error busy now e =
    let told = stopped_notice e.sink.session_id e.sink.counts true in
    show_rec false
      (record e { sink = fail error busy now e.sink; notices = e.notices ++ alert ∷ told })

unfoldable pub tick_capture_flush : Option ℕ → String → Bool → ℕ → Studio → Studio
tick_capture_flush fails error busy now e =
    let (sink, ok) = maybe_flush fails now e.sink in
    let e' = record e { sink = sink } in if ok then e' else capture_write_failed error busy now e'

-- The two halves of a start: the sink's, and the engine's when the sink has returned `ok`.
unfoldable pub capture_start_call : Faults → String → ℕ → Studio → Studio × Bool
capture_start_call f id now e =
    let (sink, ok) = start f id now e.sink in (record e { sink = sink }, ok)

unfoldable pub capture_start_finish : String → Studio → Studio
capture_start_finish id e =
    show_rec true (record e { notices = e.notices ++ capture_started id ∷ [] })

unfoldable pub capture_start_return : String → Bool → Studio → Studio × Bool
capture_start_return id ok e = if ok then (capture_start_finish id e, true) else (e, false)

-- The synchronous version.
unfoldable pub capture_start_action : Faults → String → ℕ → Studio → Studio × Bool
capture_start_action f id now e =
    let (e', ok) = capture_start_call f id now e in capture_start_return id ok e'

-- The registered action: between its halves the loop goes on.
unfoldable pub capture_start_action_dispatch :
    (Studio → Studio) → Faults → String → ℕ → Studio → Studio × Bool
capture_start_action_dispatch meanwhile f id now e =
    let (e', ok) = capture_start_call f id now e in capture_start_return id ok (meanwhile e')

-- The two halves of a stop. The sink returns the session and its counts.
unfoldable pub capture_stop_call : Option ℕ → Bool → ℕ → Studio → Studio × Bool
capture_stop_call fails busy now e =
    let (sink, ok) = stop fails busy now e.sink in (record e { sink = sink }, ok)

unfoldable pub capture_stop_finish : Option String → Dict String ℕ → Studio → Studio
capture_stop_finish id counts e =
    show_rec false (record e { notices = e.notices ++ stopped_notice id counts false })

unfoldable pub capture_stop_return :
    Option String → Dict String ℕ → String → Bool → ℕ → Bool → Studio → Studio × Bool
capture_stop_return id counts error busy now ok e =
    if ok
    then (capture_stop_finish id counts e, true)
    else (capture_write_failed error busy now e, false)

-- A stop is itself recorded, before it stops.
unfoldable pub mark_stop : String → ℕ → Studio → Studio
mark_stop origin now e = record e {
  sink = record_action now "capture.stop" (plain []) origin e.sink;
}

-- The synchronous version.
unfoldable pub capture_stop_action : String → Option ℕ → String → Bool → ℕ → Studio → Studio × Bool
capture_stop_action origin fails error busy now e =
    let marked = mark_stop origin now e in
    let (e', ok) = capture_stop_call fails busy now marked in
    capture_stop_return marked.sink.session_id marked.sink.counts error busy now ok e'

-- The registered action.
unfoldable pub capture_stop_action_dispatch :
    (Studio → Studio) → String → Option ℕ → String → Bool → ℕ → Studio → Studio × Bool
capture_stop_action_dispatch meanwhile origin fails error busy now e =
    let marked = mark_stop origin now e in
    let (e', ok) = capture_stop_call fails busy now marked in
    capture_stop_return marked.sink.session_id marked.sink.counts error busy now ok (meanwhile e')
