-- ===== src/StuckNotes/Escalation.antt =====
-- What one wall clock tick makes of the levels, and which alerts it queues.
use midicrt.Prelude.{
  ℕ, ◌≡◌, ◌∙◌, ap, refl, true, false, Option, none, some, List, [], ◌∷◌, ◌++◌, arith, if◌then◌else◌,
  ◌==◌, ==_iff, pair_test, number_test, leb, ◌+◌, ◌<◌, Bool-cases, inl, inr,
}
use mathlib.Core.Path.{ap₂}
use mathlib.Core.List.{append-nil, append_assoc}
use midicrt.Prelude.Int.{ℤ, sub_ℕ, leb_diff}
use midicrt.Dict.{Dict, get, Distinct, get-put, get-remove}
use midicrt.StuckNotes.Defs.{Key, Entry, Level, Alert, StuckNotes, warn, crit}
use midicrt.StuckNotes.Tick.{
  tick_note, tick_notes, tick, change_level, settle, suspend, classify, same_level,
}
use midicrt.StuckNotes.Invariant.{IsValid, tick_linger-SameNotes}

-- The level that a note should have at a time: none if it is not held or its channel is sustained,
-- "crit" from 10000 milliseconds after it was last struck, "warn" from 2000, and none before.
unfoldable pub due : StuckNotes → ℕ → Key → Option Entry → Option Level
due s now key none = none
due s now key (some e) =
    if s.sustain key.0
    then none
    else if leb (e.last_on + 10000) now
    then some crit
    else if leb (e.last_on + 2000) now
    then some warn
    else none

leb-leb_diff :
    (bound now since : ℕ) → 0 < bound → leb_diff bound (sub_ℕ now since) ≡ leb (since + bound) now
leb-leb_diff bound now since h = ground arith

-- The level of a note by the time since it was last struck.
due-classify :
    (s : StuckNotes) (now : ℕ) (key : Key) (e : Entry)
    → due s now key (some e) ≡ (if s.sustain key.0 then none else classify (sub_ℕ now e.last_on))
unfolding due classify
due-classify s now key e =
    rw (
      leb-leb_diff 10000 now e.last_on (omega arith),
      leb-leb_diff 2000 now e.last_on (omega arith),
    )

same_level_eq : (a b : Option Level) → same_level a b ≡ true → a ≡ b
same_level_eq none none h = refl
same_level_eq (some warn) (some warn) h = refl
same_level_eq (some crit) (some crit) h = refl
same_level_eq none (some b) h = ground arith
same_level_eq (some a) none h = ground arith
same_level_eq (some warn) (some crit) h = cc
same_level_eq (some crit) (some warn) h = cc

module _ (round1 : ℤ → ℤ) where
  levels-change_level :
      (s : StuckNotes) (key k : Key) (age : ℤ) (level : Option Level)
      → get (change_level round1 s key age level).levels k
        ≡ (if key == k then level else get s.levels k)
  unfolding change_level
  levels-change_level s key k age none = get-remove s.levels key k
  levels-change_level s key k age (some level) = get-put s.levels key k level

  levels-settle :
      (s : StuckNotes) (key k : Key) (age : ℤ) (level : Option Level)
      → get (settle round1 s key age level).0.levels k
        ≡ (if key == k then level else get s.levels k)
  unfolding settle
  levels-settle s key k age level =
      grind (arith, levels-change_level, same_level_eq level (get s.levels key), ==_iff key k)

  levels-tick_note :
      (s : StuckNotes) (now : ℕ) (key k : Key) (e : Entry)
      → get (tick_note round1 s now key e).0.levels k
        ≡ (if key == k then due s now key (some e) else get s.levels k)
  unfolding tick_note suspend
  levels-tick_note s now key k e = elim (Bool-cases (s.sustain key.0)) [
    | inl down ↦ rw (due-classify s now key e, down) (get-remove s.levels key k)
    | inr up ↦
        rw (due-classify s now key e, up)
          (levels-settle s key k (sub_ℕ now e.last_on) (classify (sub_ℕ now e.last_on)))
  ]

  sustain-tick_note :
      (s : StuckNotes) (now : ℕ) (key : Key) (e : Entry)
      → (tick_note round1 s now key e).0.sustain ≡ s.sustain
  unfolding tick_note suspend settle change_level
  sustain-tick_note s now key e = elim (Bool-cases (s.sustain key.0)) [
    | inl down ↦ rw down
    | inr up ↦ rw up (go (classify (sub_ℕ now e.last_on)))
  ]
    where
      go :
          (level : Option Level)
          → (settle round1 s key (sub_ℕ now e.last_on) level).0.sustain ≡ s.sustain
      go level = ground arith

  due_note :
      (s : StuckNotes) (now : ℕ) (key k : Key) (e : Entry) (o : Option Entry)
      → due (tick_note round1 s now key e).0 now k o ≡ due s now k o
  unfolding due
  due_note s now key k e none = refl
  due_note s now key k e (some x) = rw sustain-tick_note

  -- The loop gives each listed note its due level and leaves every other level alone.
  abbrev expected : StuckNotes → ℕ → Key → Option Entry → Option Level
  expected s now k none = get s.levels k
  expected s now k (some e) = due s now k (some e)

  levels-tick_notes :
      (s : StuckNotes) (now : ℕ) (l : Dict Key Entry) (k : Key)
      → Distinct l
      → get (tick_notes round1 s now l).0.levels k ≡ expected s now k (get l k)
  unfolding tick_notes get
  levels-tick_notes s now [] k h = refl
  levels-tick_notes s now ((key, e) ∷ rest) k h = grind (
    arith,
    levels-tick_notes (tick_note round1 s now key e).0 now rest k h.1,
    levels-tick_note s now key k e,
    due_note s now key k e,
    ==_iff key k,
  )

  -- On a valid state, a wall clock tick leaves every note with exactly its due level: none if it is
  -- not held or its channel is sustained, else "crit" from ten seconds, "warn" from two.
  pub levels-tick :
      (s : StuckNotes) (now : ℕ) (k : Key)
      → IsValid s
      → get (tick round1 s now).0.levels k ≡ due s now k (get s.active k)
  unfolding tick
  levels-tick s now k h =
      ap (λ (d : Dict Key Level). get d k)
        (tick_linger-SameNotes round1 (tick_notes round1 s now s.active).0 now).levels
      ∙ levels-tick_notes s now s.active k h.distinct
      ∙ settled (get s.active k) refl
    where
      settled : (o : Option Entry) → get s.active k ≡ o → expected s now k o ≡ due s now k o
      settled none e = unfold due in h.levelled k e
      settled (some x) e = refl

  abbrev alert_for : Key → ℤ → Option Level → List Alert
  alert_for key age none = []
  alert_for key age (some level) =
      record { ch = key.0; note = key.1; level = level; held_s = round1 age } ∷ []

  -- The alert of one held note: one if its due level is "warn" or "crit" and not the level it has.
  unfoldable pub raised_by : StuckNotes → ℕ → Key → Entry → List Alert
  unfolding due
  raised_by s now key e =
      if same_level (due s now key (some e)) (get s.levels key)
      then []
      else alert_for key (sub_ℕ now e.last_on) (due s now key (some e))

  unfoldable pub raised : StuckNotes → ℕ → Dict Key Entry → List Alert
  unfolding raised_by
  raised s now [] = []
  raised s now ((key, e) ∷ rest) = raised_by s now key e ++ raised s now rest

  pending-settle :
      (s : StuckNotes) (key : Key) (age : ℤ) (level : Option Level)
      → (settle round1 s key age level).0.pending_alerts
        ≡ s.pending_alerts
          ++ (if same_level level (get s.levels key) then [] else alert_for key age level)
  unfolding settle change_level
  pending-settle s key age none = elim (Bool-cases (same_level none (get s.levels key))) [
    | inl same ↦ rw (same, append-nil)
    | inr new ↦ rw (new, append-nil)
  ]
  pending-settle s key age (some level) =
      elim (Bool-cases (same_level (some level) (get s.levels key))) [
        | inl same ↦ rw (same, append-nil)
        | inr new ↦ rw new
      ]

  none_raises_nothing :
      (key : Key) (age : ℤ) (o : Option Level)
      → (if same_level none o then [] else alert_for key age none) ≡ []
  none_raises_nothing key age none = refl
  none_raises_nothing key age (some l) = ground arith

  pending-tick_note :
      (s : StuckNotes) (now : ℕ) (key : Key) (e : Entry)
      → (tick_note round1 s now key e).0.pending_alerts ≡ s.pending_alerts ++ raised_by s now key e
  unfolding tick_note raised_by suspend
  pending-tick_note s now key e = elim (Bool-cases (s.sustain key.0)) [
    | inl down ↦ rw (due-classify s now key e, down, none_raises_nothing, append-nil)
    | inr up ↦ rw (due-classify s now key e, up) (pending-settle s key (sub_ℕ now e.last_on) _)
  ]

  raised_by-tick_note :
      (s : StuckNotes) (now : ℕ) (key j : Key) (e x : Entry)
      → (key == j) ≡ false
      → raised_by (tick_note round1 s now key e).0 now j x ≡ raised_by s now j x
  unfolding raised_by
  raised_by-tick_note s now key j e x other =
      simp (due_note s now key j e (some x), levels-tick_note s now key j e, other)

  -- A round of the loop changes nothing that the rounds for other notes read.
  raised-tick_note :
      (s : StuckNotes) (now : ℕ) (key : Key) (e : Entry) (l : Dict Key Entry)
      → get l key ≡ none
      → raised (tick_note round1 s now key e).0 now l ≡ raised s now l
  unfolding raised get
  raised-tick_note s now key e [] fresh = refl
  raised-tick_note s now key e ((j, x) ∷ l) fresh =
      ap₂ (λ (a b : List Alert). a ++ b)
        (raised_by-tick_note s now key j e x (ground (arith, ==_iff j key, ==_iff key j)))
        (raised-tick_note s now key e l (ground arith))

  pending-tick_notes :
      (s : StuckNotes) (now : ℕ) (l : Dict Key Entry)
      → Distinct l
      → (tick_notes round1 s now l).0.pending_alerts ≡ s.pending_alerts ++ raised s now l
  unfolding tick_notes raised
  pending-tick_notes s now [] h = rw append-nil
  pending-tick_notes s now ((key, e) ∷ rest) h =
      pending-tick_notes (tick_note round1 s now key e).0 now rest h.1
      ∙ rw (pending-tick_note, raised-tick_note, h.0, append_assoc)

  -- On a valid state, a wall clock tick queues behind the alerts that wait exactly one alert for each
  -- held note whose due level is "warn" or "crit" and differs from the level it had, in the order of
  -- the notes, with the level and the rounded age.
  pub pending-tick :
      (s : StuckNotes) (now : ℕ)
      → IsValid s
      → (tick round1 s now).0.pending_alerts ≡ s.pending_alerts ++ raised s now s.active
  unfolding tick
  pending-tick s now h =
      (tick_linger-SameNotes round1 (tick_notes round1 s now s.active).0 now).pending
      ∙ pending-tick_notes s now s.active h.distinct
