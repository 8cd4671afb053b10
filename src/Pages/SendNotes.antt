-- ===== src/Pages/SendNotes.antt =====
-- src/midicrt/pages/sendnotes.py, `SendNotesPage`, and what `Engine` of src/midicrt/engine/core.py sends for
-- it: `_sendnotes_key`, the draining in `_tick_pages` and the flush in `stop`. `octave_up` is the octave and
-- one, which is not negative; `lower` is Python's `key.lower()`. Whether the output takes a message is left out.
pub mod Released
use midicrt.Prelude.{
  ℕ, ◌+◌, ◌-◌, ◌*◌, Bool, true, false, Option, none, some, String, List, [], ◌∷◌, ◌++◌,
  if◌then◌else◌, leb, ◌==◌, text_test, max, min,
}
use midicrt.Dict.{Dict, get}

-- A note that sounds until a time.
pub record Gated : Type 0 where
  pub expire_ts : ℕ
  pub note : ℕ
  pub ch : ℕ

pub record SendNotes : Type 0 where
  pub channel : ℕ
  pub octave_up : ℕ
  pub velocity : ℕ
  pub gate_ms : ℕ
  pub active : List Gated

abbrev pub init : SendNotes
init = record { channel = 1; octave_up = 5; velocity = 96; gate_ms = 120; active = [] }

-- `KEYMAP`
abbrev pub keymap : Dict String ℕ
keymap =
    ("z", 0)
    ∷ ("s", 1)
    ∷ ("x", 2)
    ∷ ("d", 3)
    ∷ ("c", 4)
    ∷ ("v", 5)
    ∷ ("g", 6)
    ∷ ("b", 7)
    ∷ ("h", 8)
    ∷ ("n", 9)
    ∷ ("j", 10)
    ∷ ("m", 11)
    ∷ (",", 12)
    ∷ ("l", 13)
    ∷ (".", 14)
    ∷ (";", 15)
    ∷ ("/", 16)
    ∷ []

-- What a key did: nothing, a change of a setting, or a note with its velocity and channel.
pub data Applied : Type 0 where
  unknown : Applied
  adjusted : Applied
  struck : ℕ → ℕ → ℕ → Applied

abbrev pub strike : Option ℕ → ℕ → SendNotes → SendNotes × Applied
strike none now s = (s, unknown)
strike (some offset) now s =
    let note = 12 * s.octave_up + offset in
    (
      record s {
        active =
            s.active ++ record { expire_ts = now + s.gate_ms; note = note; ch = s.channel } ∷ [];
      },
      struck note s.velocity s.channel,
    )

-- A message to the MIDI output.
pub data Send : Type 0 where
  note_on : ℕ → ℕ → ℕ → Send
  note_off : ℕ → ℕ → Send

pub record Desk : Type 0 where
  pub page : SendNotes
  pub sent : List Send

abbrev pub sends_of : Applied → List Send
sends_of unknown = []
sends_of adjusted = []
sends_of (struck note velocity ch) = note_on note velocity ch ∷ []

-- The notes whose gate is over at the front of the queue, and the rest of it.
unfoldable pub drain_expired : ℕ → List Gated → List Gated × List Gated
drain_expired now [] = ([], [])
drain_expired now (g ∷ active) =
    let (gone, left) = drain_expired now active in
    if leb g.expire_ts now then (g ∷ gone, left) else ([], g ∷ active)

unfoldable pub offs : List Gated → List Send
offs [] = []
offs (g ∷ gone) = note_off g.note g.ch ∷ offs gone

module _ (lower : String → String) where
  unfoldable pub apply_key : String → ℕ → SendNotes → SendNotes × Applied
  apply_key key now s =
      if key == ""
      then (s, unknown)
      else if key == ","
      then (record s { channel = max 1 (s.channel - 1) }, adjusted)
      else if key == "."
      then (record s { channel = min 16 (s.channel + 1) }, adjusted)
      else if key == "["
      then (record s { octave_up = s.octave_up - 1 }, adjusted)
      else if key == "]"
      then (record s { octave_up = min 10 (s.octave_up + 1) }, adjusted)
      else if key == "-"
      then (record s { velocity = max 1 (s.velocity - 8) }, adjusted)
      else if key == "="
      then (record s { velocity = min 127 (s.velocity + 8) }, adjusted)
      else if lower key == "g"
      then (record s { gate_ms = max 20 (s.gate_ms - 20) }, adjusted)
      else if lower key == "h"
      then (record s { gate_ms = min 2000 (s.gate_ms + 20) }, adjusted)
      else strike (get keymap (lower key)) now s

  unfoldable pub sendnotes_key : String → ℕ → Desk → Desk
  sendnotes_key key now d =
      let (page, applied) = apply_key key now d.page in
      record { page = page; sent = d.sent ++ sends_of applied }

-- The part of `_tick_pages` that drains this page.
unfoldable pub tick : ℕ → Desk → Desk
tick now d =
    let (gone, left) = drain_expired now d.page.active in
    record { page = record d.page { active = left }; sent = d.sent ++ offs gone }

-- `flush_all`, when the engine stops
unfoldable pub stop : Desk → Desk
stop d = record { page = record d.page { active = [] }; sent = d.sent ++ offs d.page.active }
