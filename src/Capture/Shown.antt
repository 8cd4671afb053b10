-- ===== src/Capture/Shown.antt =====
-- A refused start of a session, and what is recorded after it.
use midicrt.Prelude.{ℕ, List, text_test, number_test, option_test}
use midicrt.Capture.Log.{Note, note_all}
use midicrt.Capture.Control.{Studio}

module _ (bpm : ℕ → ℕ) where
  -- What the loop tells the sink.
  abbrev pub heard : List Note → Studio → Studio
  heard ns e = record e { sink = note_all bpm ns e.sink }
