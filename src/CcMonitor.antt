-- ===== src/CcMonitor.antt =====
-- src/midicrt/analyzers/ccmonitor.py, `CCMonitorAnalyzer`. The sixteen rows of `_recent` are a function of
-- the channel, counted from 1. An entry's `fresh` is its `_fresh`, which is missing at first.
pub mod Bounds
mod Tests
use midicrt.Prelude.{
  ℕ, ◌+◌, ◌-◌, Bool, true, false, ◌&&◌, ◌||◌, not, Option, none, some, List, [], ◌∷◌, ◌++◌,
  if◌then◌else◌, leb, ltb, eqb, max, length, pair_test, number_test,
}
use midicrt.Event.{Kind, MidiEvent, control_change}
use midicrt.Dict.{Dict, get, put, has}

-- A channel and a controller.
abbrev pub Key : Type 0
Key = ℕ × ℕ

pub record Entry : Type 0 where
  pub value : ℕ
  pub ts : ℕ
  pub fresh : Option Bool

pub record CcMonitor : Type 0 where
  pub recent : ℕ → List (ℕ × ℕ)
  pub peak : Dict Key ℕ
  pub tracked : Dict Key Entry
  pub now : Option ℕ

-- `RECENT_PER_CHANNEL`, `MAX_TRACKED` and `FRESH_AFTER_S`, this one in milliseconds.
abbrev pub recent_per_channel : ℕ
recent_per_channel = 6

abbrev pub max_tracked : ℕ
max_tracked = 16

abbrev pub fresh_after : ℕ
fresh_after = 2000

unfoldable pub init : CcMonitor
init = record { recent = λ ch. []; peak = []; tracked = []; now = none }

abbrev pub tail {ℓ} : {A : Type ℓ} → List A → List A
tail [] = []
tail (x ∷ xs) = xs

-- A deque of `recent_per_channel` places takes one more.
unfoldable pub append_recent : List (ℕ × ℕ) → ℕ × ℕ → List (ℕ × ℕ)
append_recent xs x = if leb recent_per_channel (length xs) then tail xs ++ x ∷ [] else xs ++ x ∷ []

abbrev pub peak_of : Option ℕ → ℕ
peak_of none = 0
peak_of (some n) = n

-- The entry that came first makes room for a new one.
unfoldable pub make_room : Key → Dict Key Entry → Dict Key Entry
make_room key d = if not (has d key) && leb max_tracked (length d) then tail d else d

unfoldable pub updated : Option Entry → ℕ → ℕ → Entry
updated none value ts = record { value = value; ts = ts; fresh = none }
updated (some e) value ts = record e { value = value; ts = ts }

unfoldable pub on_control : ℕ → ℕ → ℕ → ℕ → CcMonitor → CcMonitor
on_control ch cc value ts s =
    let key : Key = (ch, cc) in
    let tracked = make_room key s.tracked in
    record s {
      recent = λ c. if eqb c ch then append_recent (s.recent c) (cc, value) else s.recent c;
      peak = put s.peak key (max (peak_of (get s.peak key)) value);
      tracked = put tracked key (updated (get tracked key) value ts);
    }

unfoldable pub dispatch : Kind → Option ℕ → Option ℕ → Option ℕ → ℕ → CcMonitor → CcMonitor × Bool
dispatch control_change (some channel) (some cc) (some value) ts s =
    (on_control (channel + 1) cc value ts s, true)
dispatch _ _ _ _ ts s = (s, false)

unfoldable pub handle : CcMonitor → MidiEvent → CcMonitor × Bool
handle s ev = dispatch ev.kind ev.channel ev.data1 ev.data2 ev.ts s

abbrev pub was_fresh : Option Bool → Bool
was_fresh none = true
was_fresh (some fresh) = fresh

abbrev pub differs : Bool → Bool → Bool
differs a b = if a then not b else b

unfoldable pub tick_entries : ℕ → Dict Key Entry → Dict Key Entry × Bool
tick_entries now [] = ([], false)
tick_entries now ((key, e) ∷ rest) =
    let fresh = ltb now (e.ts + fresh_after) in
    let (rest', changed) = tick_entries now rest in
    ((key, record e { fresh = some fresh }) ∷ rest', differs fresh (was_fresh e.fresh) || changed)

unfoldable pub tick : CcMonitor → ℕ → CcMonitor × Bool
tick s now =
    let (tracked, changed) = tick_entries now s.tracked in
    (record s { now = some now; tracked = tracked }, changed)
