-- ===== src/SysexStore.antt =====
-- src/midicrt/engine/sysex_store.py, `SysexStore`, and `_SysexStatusOverlay` of
-- src/midicrt/engine/core.py. The library and its trash are dictionaries from names to documents, for the
-- files that the source writes and moves; none of them is damaged. A failed call (`ValueError`) is `none`.
-- Python's `strip` is a parameter, as is whether the MIDI output takes a frame. A status's text stands for
-- itself, whatever it is made of.
pub mod Library
pub mod Status
mod Tests
use Prim.Native.Char.{code}
use midicrt.Prelude.{
  ℕ, suc, ◌+◌, Bool, true, false, ◌&&◌, ◌||◌, not, Option, none, some, String, List, [], ◌∷◌,
  if◌then◌else◌, leb, eqb, ltb, take, length, get_elem?, max, text_test, ◌==◌,
}
use midicrt.Prelude.Int.{ℤ, pos, negsuc}
use midicrt.Dict.{Dict, get, put, remove}
use midicrt.Event.{MidiEvent}

-- `_decode_manufacturer`
pub data Manufacturer : Type 0 where
  unknown : Manufacturer
  extended : ℕ → ℕ → Manufacturer
  named : String → Manufacturer
  numbered : ℕ → Manufacturer

-- `_MANUFACTURER_NAMES`
unfoldable pub manufacturer_name : ℕ → Option String
manufacturer_name first =
    if eqb first 125
    then some "Non-Commercial"
    else if eqb first 126
    then some "Universal Non-Realtime"
    else if eqb first 127
    then some "Universal Realtime"
    else if eqb first 65
    then some "Roland"
    else if eqb first 66
    then some "Korg"
    else if eqb first 67
    then some "Yamaha"
    else if eqb first 64
    then some "Kawai"
    else none

abbrev pub named_or_numbered : ℕ → Option String → Manufacturer
named_or_numbered first none = numbered first
named_or_numbered first (some name) = named name

unfoldable pub decode_manufacturer : List ℕ → Manufacturer
decode_manufacturer [] = unknown
decode_manufacturer (first ∷ a ∷ b ∷ rest) =
    if eqb first 0 then extended a b else named_or_numbered first (manufacturer_name first)
decode_manufacturer (first ∷ rest) = named_or_numbered first (manufacturer_name first)

-- `data` is `none` where the frame was too large to keep.
pub record RingFrame : Type 0 where
  pub ts : ℕ
  pub source : String
  pub size : ℕ
  pub manufacturer : Manufacturer
  pub bytes : Option (List ℕ)

pub record Document : Type 0 where
  pub saved_ts : ℕ
  pub source : String
  pub size : ℕ
  pub manufacturer : Manufacturer
  pub bytes : List ℕ

pub record Store : Type 0 where
  pub ring_size : ℕ
  pub max_frame_bytes : ℕ
  pub display_time : ℕ
  pub ring : List RingFrame
  pub library : Dict String Document
  pub trash : Dict String Document
  pub status_text : Option String
  pub status_ts : ℕ

-- The store as the engine makes it: `RING_SIZE`, `MAX_FRAME_BYTES` and `SYSEX_DISPLAY_SECS`.
abbrev pub init : Dict String Document → Store
init library = record {
  ring_size = 20;
  max_frame_bytes = 65536;
  display_time = 5000;
  ring = [];
  library = library;
  trash = [];
  status_text = none;
  status_ts = 0;
}

abbrev pub payload : Option (List ℕ) → List ℕ
payload none = []
payload (some bytes) = bytes

unfoldable pub frame_of : ℕ → MidiEvent → RingFrame
frame_of max_frame_bytes ev =
    let bytes = payload ev.sysex_data in
    record {
      ts = ev.ts;
      source = ev.source;
      size = length bytes;
      manufacturer = decode_manufacturer bytes;
      bytes = if leb (length bytes) max_frame_bytes then some bytes else none;
    }

unfoldable pub record_received : MidiEvent → Store → Store
record_received ev s = record s { ring = take s.ring_size (frame_of s.max_frame_bytes ev ∷ s.ring) }

unfoldable pub record_command_status : String → ℕ → Store → Store
record_command_status text ts s = record s { status_text = some text; status_ts = ts }

-- `status_text is not None and now - status_ts < display_secs`
unfoldable pub status_active : ℕ → Store → Bool
status_active now s = elim s.status_text [
  | none ↦ false
  | some text ↦ ltb now (s.status_ts + s.display_time)
]

abbrev pub between : ℕ → ℕ → ℕ → Bool
between lo hi c = leb lo c && leb c hi

-- `[A-Za-z0-9_-]`
unfoldable pub is_name_start : ℕ → Bool
is_name_start c =
    (between b'A' b'Z' c || between b'a' b'z' c)
    || (between b'0' b'9' c || (eqb c b'_' || eqb c b'-'))

-- `[A-Za-z0-9 _.-]`
unfoldable pub is_name_char : ℕ → Bool
is_name_char c = is_name_start c || (eqb c b' ' || eqb c b'.')

unfoldable pub rest_valid : String → Bool
rest_valid String.[] = true
rest_valid (String.◌∷◌ c s) = let rest = rest_valid s in is_name_char (code c) && rest

unfoldable pub text_length : String → ℕ
text_length String.[] = 0
text_length (String.◌∷◌ c s) = suc (text_length s)

-- `_NAME_RE`, of a text without a line's end at its end.
unfoldable pub name_valid : String → Bool
name_valid String.[] = false
name_valid (String.◌∷◌ c s) = is_name_start (code c) && (rest_valid s && leb (text_length s) 62)

module _ (strip : String → String) where
  unfoldable pub sanitize_name : String → Option String
  sanitize_name name = if name_valid (strip name) then some (strip name) else none

  unfoldable pub ring_frame : ℤ → Store → Option RingFrame
  ring_frame (negsuc n) s = none
  ring_frame (pos index) s = get_elem? s.ring index

  unfoldable pub write_frame : String → ℕ → RingFrame → Option (List ℕ) → Store → Option (Store × ℕ)
  write_frame safe now frame none s = none
  write_frame safe now frame (some bytes) s = some (
    record s {
      library = put s.library safe (record {
        saved_ts = now;
        source = frame.source;
        size = frame.size;
        manufacturer = frame.manufacturer;
        bytes = bytes;
      });
    },
    frame.size,
  )

  unfoldable pub save : String → ℤ → ℕ → Store → Option (Store × ℕ)
  save name index now s = elim (sanitize_name name) [
    | none ↦ none
    | some safe ↦ elim (ring_frame index s) [
      | none ↦ none
      | some frame ↦ write_frame safe now frame frame.bytes s
    ]
  ]

  -- The frame that the MIDI output is handed, whether it took it, and its size.
  unfoldable pub play : (List ℕ → Bool) → String → Store → Option (List ℕ × (Bool × ℕ))
  play accepted name s = elim (sanitize_name name) [
    | none ↦ none
    | some safe ↦ elim (get s.library safe) [
      | none ↦ none
      | some doc ↦ some (doc.bytes, (accepted doc.bytes, length doc.bytes))
    ]
  ]

  unfoldable pub delete : String → Store → Option Store
  delete name s = elim (sanitize_name name) [
    | none ↦ none
    | some safe ↦ elim (get s.library safe) [
      | none ↦ none
      | some doc ↦ some (record s { library = remove s.library safe; trash = put s.trash safe doc })
    ]
  ]

-- `_SysexStatusOverlay`: the wrapper's own flag beside the store.
pub record Overlay : Type 0 where
  pub store : Store
  pub active : Bool

-- The view's text, and whether it shows.
unfoldable pub view_model : Overlay → String × Bool
view_model o = ((elim o.store.status_text [ none ↦ "" | some text ↦ text ]), o.active)

unfoldable pub tick : ℕ → Overlay → Overlay × Bool
tick now o =
    let active = status_active now o.store in
    (record o { active = active }, if active then not o.active else o.active)
