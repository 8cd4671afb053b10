-- ===== src/StuckNotes/Defs.antt =====
-- src/midicrt/analyzers/stucknotes.py, `StuckNotesAnalyzer`: the state and the handling of events.
-- A channel is counted from 1, as in the source; the sixteen channels of `_sustain` are a function.
-- The input (src/midicrt/engine/midi_in.py, `translate`) sets both data bytes of note and controller
-- events; an event without the byte that the source reads has no effect here.
use midicrt.Prelude.{
  ℕ, ◌+◌, ◌-◌, Bool, true, false, ◌||◌, Option, none, some, List, [], ◌∷◌, if◌then◌else◌, eqb, leb,
  pair_test, number_test, option_test,
}
use midicrt.Prelude.Int.{ℤ}
use midicrt.Event.{Kind, MidiEvent, note_on, note_off, control_change}
use midicrt.Dict.{Dict, get, put, remove}

-- A channel and a note.
abbrev pub Key : Type 0
Key = ℕ × ℕ

pub record Entry : Type 0 where
  pub count : ℕ
  pub last_on : ℕ

-- The source's "none" is the absence of a level.
pub data Level : Type 0 where
  warn crit : Level

pub record Alert : Type 0 where
  pub ch : ℕ
  pub note : ℕ
  pub level : Level
  pub held_s : ℤ

pub record StuckNotes : Type 0 where
  pub active : Dict Key Entry
  pub levels : Dict Key Level
  pub ages : Dict Key ℤ
  pub sustain : ℕ → Bool
  pub pending_alerts : List Alert
  pub hold_after : ℕ
  pub had_stuck : Bool
  pub last_alerting_snapshot : List Alert
  pub last_cleared : Option (List Alert)
  pub cleared_at : Option ℕ

unfoldable pub init : ℕ → StuckNotes
init hold_after = record {
  active = [];
  levels = [];
  ages = [];
  sustain = λ ch. false;
  pending_alerts = [];
  hold_after = hold_after;
  had_stuck = false;
  last_alerting_snapshot = [];
  last_cleared = none;
  cleared_at = none;
}

-- A retrigger counts one more and starts the age anew.
unfoldable pub struck : Option Entry → ℕ → Entry
struck none ts = record { count = 1; last_on = ts }
struck (some e) ts = record { count = e.count + 1; last_on = ts }

unfoldable pub on_note_on : StuckNotes → ℕ → ℕ → ℕ → StuckNotes × Bool
unfolding struck
on_note_on s ch note ts =
    let key : Key = (ch, note) in
    (record s { active = put s.active key (struck (get s.active key) ts) }, true)

-- `del self._active[key]`, and the level and the age with it.
unfoldable pub forget : StuckNotes → Key → StuckNotes
forget s key = record s {
  active = remove s.active key;
  levels = remove s.levels key;
  ages = remove s.ages key;
}

unfoldable pub release : Option Entry → StuckNotes → Key → StuckNotes × Bool
unfolding forget
release none s key = (s, false)
release (some e) s key =
    if leb e.count 1
    then (forget s key, true)
    else (record s { active = put s.active key (record e { count = e.count - 1 }) }, true)

unfoldable pub on_note_off : StuckNotes → ℕ → ℕ → StuckNotes × Bool
unfolding release
on_note_off s ch note = release (get s.active (ch, note)) s (ch, note)

same_bool : Bool → Bool → Bool
same_bool true true = true
same_bool false false = true
same_bool _ _ = false

unfoldable pub set_sustain : StuckNotes → ℕ → Bool → StuckNotes × Bool
unfolding same_bool
set_sustain s ch down =
    if same_bool (s.sustain ch) down
    then (s, false)
    else (record s { sustain = λ c. if eqb c ch then down else s.sustain c }, true)

-- The keys of a channel, in the order of the dictionary.
unfoldable pub keys_on : ℕ → Dict Key Entry → List Key
keys_on ch [] = []
keys_on ch ((key, e) ∷ d) = let rest = keys_on ch d in if eqb key.0 ch then key ∷ rest else rest

unfoldable pub forget_all : StuckNotes → List Key → StuckNotes
forget_all s [] = s
forget_all s (key ∷ rest) = forget_all (forget s key) rest

unfoldable pub clear_keys : StuckNotes → List Key → StuckNotes × Bool
clear_keys s [] = (s, false)
clear_keys s (key ∷ rest) = (forget_all s (key ∷ rest), true)

unfoldable pub clear_channel : StuckNotes → ℕ → StuckNotes × Bool
unfolding clear_keys
clear_channel s ch = clear_keys s (keys_on ch s.active)

abbrev pub is_zero : Option ℕ → Bool
is_zero none = false
is_zero (some v) = eqb v 0

unfoldable pub controller : StuckNotes → ℕ → ℕ → Option ℕ → StuckNotes × Bool
controller s ch control value =
    if eqb control 64
    then (elim value [ none ↦ (s, false) | some v ↦ set_sustain s ch (leb 64 v) ])
    else if eqb control 120 || eqb control 123
    then clear_channel s ch
    else if eqb control 121
    then set_sustain s ch false
    else (s, false)

unfoldable pub dispatch : Kind → ℕ → Option ℕ → Option ℕ → ℕ → StuckNotes → StuckNotes × Bool
unfolding controller
dispatch note_on ch (some note) velocity ts s =
    if is_zero velocity then on_note_off s ch note else on_note_on s ch note ts
dispatch note_off ch (some note) velocity ts s = on_note_off s ch note
dispatch control_change ch (some control) value ts s = controller s ch control value
dispatch _ ch _ _ ts s = (s, false)

unfoldable pub handle : StuckNotes → MidiEvent → StuckNotes × Bool
unfolding dispatch
handle s ev = elim ev.channel [
  | none ↦ (s, false)
  | some c ↦ dispatch ev.kind (c + 1) ev.data1 ev.data2 ev.ts s
]

-- Every note held on the channel, in ascending order.
unfoldable pub insert_note : ℕ → List ℕ → List ℕ
insert_note n [] = n ∷ []
insert_note n (m ∷ ms) = let rest = insert_note n ms in if leb n m then n ∷ m ∷ ms else m ∷ rest

unfoldable pub sort_notes : List Key → List ℕ
unfolding insert_note
sort_notes [] = []
sort_notes (key ∷ rest) = insert_note key.1 (sort_notes rest)

unfoldable pub held_notes : StuckNotes → ℕ → List ℕ
unfolding keys_on sort_notes
held_notes s ch = sort_notes (keys_on ch s.active)

-- The alerts queued since the last call, and the queue emptied.
unfoldable pub drain_alerts : StuckNotes → List Alert × StuckNotes
drain_alerts s = (s.pending_alerts, record s { pending_alerts = [] })
