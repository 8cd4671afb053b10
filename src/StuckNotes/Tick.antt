-- ===== src/StuckNotes/Tick.antt =====
-- `StuckNotesAnalyzer.tick`, `_tick_linger` and the alert list of the view. Python's
-- `round(age, 1)` is a parameter: how it breaks ties depends on the binary form of the float.
use midicrt.Prelude.{
  ℕ, ◌+◌, Bool, true, false, ◌||◌, Option, none, some, List, [], ◌∷◌, ◌++◌, if◌then◌else◌, ltb,
  pair_test, number_test,
}
use midicrt.Prelude.Int.{ℤ, pos, sub_ℕ, leb_ℤ, leb_diff}
use midicrt.Dict.{Dict, get, put, remove, is_some}
use midicrt.StuckNotes.Defs.{Key, Entry, Level, warn, crit, Alert, StuckNotes}

-- milliseconds
abbrev pub warn_after : ℕ
warn_after = 2000

abbrev pub crit_after : ℕ
crit_after = 10000

unfoldable pub classify : ℤ → Option Level
classify age =
    if leb_diff crit_after age
    then some crit
    else if leb_diff warn_after age
    then some warn
    else none

abbrev pub same_level : Option Level → Option Level → Bool
same_level none none = true
same_level (some warn) (some warn) = true
same_level (some crit) (some crit) = true
same_level _ _ = false

abbrev pub or_zero : Option ℤ → ℤ
or_zero none = pos 0
or_zero (some age) = age

-- `alerts.sort(key=held_s, reverse=True)`: the largest first, equals in their order.
unfoldable pub insert_alert : Alert → List Alert → List Alert
insert_alert a [] = a ∷ []
insert_alert a (b ∷ bs) =
    let rest = insert_alert a bs in if leb_ℤ b.held_s a.held_s then a ∷ b ∷ bs else b ∷ rest

unfoldable pub sort_alerts : List Alert → List Alert
unfolding insert_alert
sort_alerts [] = []
sort_alerts (a ∷ as') = insert_alert a (sort_alerts as')

-- `self._cleared_at is not None and (now - self._cleared_at) > self._hold_after`
lingered : Option ℕ → ℕ → ℕ → Bool
lingered none hold now = false
lingered (some at) hold now = ltb (at + hold) now

clear_linger : StuckNotes → Option (List Alert) → StuckNotes × Bool
clear_linger s none = (s, false)
clear_linger s (some cleared) = (record s { last_cleared = none; cleared_at = none }, true)

module _ (round1 : ℤ → ℤ) where
  unfoldable pub alerts_of : Dict Key ℤ → Dict Key Level → List Alert
  alerts_of ages [] = []
  alerts_of ages ((key, level) ∷ rest) =
      record { ch = key.0; note = key.1; level = level; held_s = round1 (or_zero (get ages key)) }
      ∷ alerts_of ages rest

  unfoldable pub alerts_list : StuckNotes → List Alert
  unfolding alerts_of sort_alerts
  alerts_list s = sort_alerts (alerts_of s.ages s.levels)

  -- A level that differs from the last one: into "none" it is dropped, else stored and queued.
  unfoldable pub change_level : StuckNotes → Key → ℤ → Option Level → StuckNotes
  change_level s key age none = record s { levels = remove s.levels key }
  change_level s key age (some level) = record s {
    levels = put s.levels key level;
    pending_alerts =
        s.pending_alerts
        ++ record { ch = key.0; note = key.1; level = level; held_s = round1 age } ∷ [];
  }

  -- The rest of a round of the loop, once the age and its level are known.
  unfoldable pub settle : StuckNotes → Key → ℤ → Option Level → StuckNotes × Bool
  settle s key age level =
      let aged = record s { ages = put s.ages key age } in
      if same_level level (get s.levels key)
      then (aged, is_some level)
      else (change_level aged key age level, true)

  -- Under the sustain pedal the level is "none", and the age is not even computed.
  unfoldable pub suspend : StuckNotes → Key → StuckNotes × Bool
  suspend s key = (
    record s { levels = remove s.levels key; ages = remove s.ages key },
    is_some (get s.levels key),
  )

  -- One round of the loop over the active notes.
  unfoldable pub tick_note : StuckNotes → ℕ → Key → Entry → StuckNotes × Bool
  tick_note s now key e =
      if s.sustain key.0
      then suspend s key
      else (let age = sub_ℕ now e.last_on in settle s key age (classify age))

  unfoldable pub tick_notes : StuckNotes → ℕ → Dict Key Entry → StuckNotes × Bool
  tick_notes s now [] = (s, false)
  tick_notes s now ((key, e) ∷ rest) =
      let (s', dirty) = tick_note s now key e in
      let (s'', later) = tick_notes s' now rest in (s'', dirty || later)

  linger_from : Dict Key Level → StuckNotes → ℕ → StuckNotes × Bool
  unfolding lingered clear_linger
  linger_from (l ∷ ls) s now =
      clear_linger (record s { had_stuck = true; last_alerting_snapshot = alerts_list s })
        s.last_cleared
  linger_from [] s now =
      if s.had_stuck
      then (
        record s {
          had_stuck = false;
          last_cleared = some s.last_alerting_snapshot;
          cleared_at = some now;
        },
        true,
      )
      else if lingered s.cleared_at s.hold_after now
      then (record s { last_cleared = none; cleared_at = none }, true)
      else (s, false)

  unfoldable pub tick_linger : StuckNotes → ℕ → StuckNotes × Bool
  unfolding linger_from
  tick_linger s now = linger_from s.levels s now

  unfoldable pub tick : StuckNotes → ℕ → StuckNotes × Bool
  tick s now =
      let (s', dirty) = tick_notes s now s.active in
      let (s'', lingering) = tick_linger s' now in (s'', lingering || dirty)

  pub record View : Type 0 where
    pub alerts : List Alert
    pub cleared : List Alert

  unfoldable pub view_model : StuckNotes → View
  view_model s = record {
    alerts = alerts_list s;
    cleared = elim s.last_cleared [ none ↦ [] | some l ↦ l ];
  }
