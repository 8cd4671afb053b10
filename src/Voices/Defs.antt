-- ===== src/Voices/Defs.antt =====
-- src/midicrt/analyzers/voices.py, `VoiceMonitorAnalyzer`: the state, its events and its clock.
-- Two events are the same object when they have the same number. A channel is counted from 1; the
-- dictionaries `_notes`, `_active` and `_peak` have the keys 1 to 16 for good and stand here as one.
-- No event has a channel over 16. A rounded age is a parameter's work.
use midicrt.Prelude.{
  ℕ, zero, suc, ◌+◌, ◌-◌, Bool, true, false, ◌||◌, not, Option, none, some, List, [], ◌∷◌,
  if◌then◌else◌, eqb, leb, ltb, ◌==◌, number_test, option_test, take, max,
}
use midicrt.Event.{Kind, MidiEvent, note_on, note_off, control_change, start, stop}
use midicrt.Dict.{Dict, get, put, remove}

pub record Channel : Type 0 where
  pub notes : Dict ℕ ℕ
  pub active : ℕ
  pub peak : ℕ

-- An entry of the log of limits that were passed.
pub record Passed : Type 0 where
  pub ts : ℕ
  pub ch : ℕ
  pub note : ℕ
  pub total : ℕ
  pub ch_total : ℕ
  pub ch_limit : ℕ
  pub hit_global : Bool
  pub hit_ch : Bool

pub record Voices : Type 0 where
  pub channels : Dict ℕ Channel
  pub total : ℕ
  pub total_peak : ℕ
  pub limit_global : ℕ
  pub limit_ch : ℕ
  pub events : List Passed
  pub now : Option ℕ
  pub flash_until : ℕ
  pub flash_active : Bool
  pub last_event : Option ℕ
  pub last_dirty : Bool

abbrev pub event_log_len : ℕ
event_log_len = 8

-- `FLASH_DURATION_S`, in milliseconds.
abbrev pub flash_duration : ℕ
flash_duration = 500

abbrev pub silent : Channel
silent = record { notes = []; active = 0; peak = 0 }

-- The channels 1 to n.
unfoldable pub silent_channels : ℕ → Dict ℕ Channel
silent_channels zero = []
silent_channels (suc n) = put (silent_channels n) (suc n) silent

unfoldable pub init : ℕ → ℕ → Voices
init limit_global limit_ch = record {
  channels = silent_channels 16;
  total = 0;
  total_peak = 0;
  limit_global = limit_global;
  limit_ch = limit_ch;
  events = [];
  now = none;
  flash_until = 0;
  flash_active = false;
  last_event = none;
  last_dirty = false;
}

abbrev pub count_of : Option ℕ → ℕ
count_of none = 0
count_of (some n) = n

-- A limit of 0 is no limit.
unfoldable pub check_poly_limit : Voices → ℕ → ℕ → ℕ → ℕ → Voices
check_poly_limit s active ch note ts =
    let hit_global = if ltb 0 s.limit_global then ltb s.limit_global s.total else false in
    let hit_ch = if ltb 0 s.limit_ch then ltb s.limit_ch active else false in
    if hit_global || hit_ch
    then record s {
      events = take event_log_len (
          record {
            ts = ts;
            ch = ch;
            note = note;
            total = s.total;
            ch_total = active;
            ch_limit = s.limit_ch;
            hit_global = hit_global;
            hit_ch = hit_ch;
          }
          ∷ s.events);
      flash_until = ts + flash_duration;
    }
    else s

-- A channel with one more of a note, one less, or none at all.
unfoldable pub struck : Channel → ℕ → Channel
struck c note = record {
  notes = put c.notes note (count_of (get c.notes note) + 1);
  active = c.active + 1;
  peak = max c.peak (c.active + 1);
}

unfoldable pub released : Channel → ℕ → ℕ → Channel
released c note count = record c {
  notes = if leb count 1 then remove c.notes note else put c.notes note (count - 1);
  active = c.active - 1;
}

abbrev pub cleared : Channel → Channel
cleared c = record c { notes = []; active = 0 }

unfoldable pub on_note_on : Voices → ℕ → Channel → ℕ → ℕ → Voices × Bool
on_note_on s ch c note ts =
    let c' = struck c note in
    let s' = record s {
      channels = put s.channels ch c';
      total = s.total + 1;
      total_peak = max s.total_peak (s.total + 1);
    } in
    (check_poly_limit s' c'.active ch note ts, true)

unfoldable pub on_note_off : Voices → ℕ → Channel → ℕ → Voices × Bool
on_note_off s ch c note = elim (get c.notes note) [
  | none ↦ (s, false)
  | some count ↦
      (record s { channels = put s.channels ch (released c note count); total = s.total - 1 }, true)
]

abbrev pub is_empty : Dict ℕ ℕ → Bool
is_empty [] = true
is_empty (_ ∷ _) = false

unfoldable pub clear_channel : Voices → ℕ → Channel → Voices × Bool
clear_channel s ch c =
    if is_empty c.notes
    then (s, false)
    else (record s { channels = put s.channels ch (cleared c); total = s.total - c.active }, true)

unfoldable pub cleared_channels : Dict ℕ Channel → Dict ℕ Channel
cleared_channels [] = []
cleared_channels ((ch, c) ∷ rest) = (ch, cleared c) ∷ cleared_channels rest

unfoldable pub clear_all : Voices → Voices × Bool
clear_all s =
    if eqb s.total 0
    then (s, false)
    else (record s { channels = cleared_channels s.channels; total = 0 }, true)

abbrev pub is_zero : Option ℕ → Bool
is_zero none = false
is_zero (some v) = eqb v 0

unfoldable pub on_channel : Kind → ℕ → Channel → Option ℕ → Option ℕ → ℕ → Voices → Voices × Bool
on_channel note_on ch c (some note) velocity ts s =
    if is_zero velocity then on_note_off s ch c note else on_note_on s ch c note ts
on_channel note_off ch c (some note) velocity ts s = on_note_off s ch c note
on_channel control_change ch c (some control) value ts s =
    if eqb control 120 || eqb control 123 then clear_channel s ch c else (s, false)
on_channel _ ch c _ _ ts s = (s, false)

-- The channel's part of the state is read once, at the head.
unfoldable pub on_voice : Voices → MidiEvent → Voices × Bool
on_voice s ev = elim ev.channel [
  | none ↦ (s, false)
  | some n ↦ elim (get s.channels (n + 1)) [
    | none ↦ (s, false)
    | some c ↦ on_channel ev.kind (n + 1) c ev.data1 ev.data2 ev.ts s
  ]
]

unfoldable pub clears_all : Kind → Bool
clears_all start = true
clears_all stop = true
clears_all _ = false

unfoldable pub handle_uncached : Voices → MidiEvent → Voices × Bool
handle_uncached s ev = if clears_all ev.kind then clear_all s else on_voice s ev

-- The same object, handed over again, is not counted again.
unfoldable pub handle : Voices → ℕ → MidiEvent → Voices × Bool
handle s id ev =
    let answer = handle_uncached (record s { last_event = some id }) ev in
    if s.last_event == some id
    then (s, s.last_dirty)
    else (record (answer.0) { last_dirty = answer.1 }, answer.1)

unfoldable pub tick : Voices → ℕ → Voices × Bool
tick s time =
    let flashing = ltb time s.flash_until in
    (
      record s { now = some time; flash_active = flashing },
      if s.flash_active then not flashing else flashing,
    )
