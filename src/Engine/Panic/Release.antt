-- ===== src/Engine/Panic/Release.antt =====
-- What a panic releases.
use midicrt.Prelude.{
  ℕ, zero, suc, ◌+◌, ◌-◌, ◌<◌, ◌≡◌, refl, ap, ◌∙◌, Bool, true, false, Bool-cases, Option-cases,
  Option, none, some, List, [], ◌∷◌, arith, if◌then◌else◌, eqb, leb, ◌==◌, ==_iff, number_test,
  pair_test, inl, inr,
}
use midicrt.Dict.{Dict, get, has, is_some, Distinct, get-put, get-remove}
use midicrt.StuckNotes.Defs.{
  Key, Entry, StuckNotes, held_notes, keys_on, sort_notes, insert_note, on_note_off, release,
  forget, handle as handle_held,
}
use midicrt.StuckNotes.Invariant.{IsValid}
use midicrt.Engine.Panic.{
  Watch, dispatch_to_state, release_event, release_notes, mark_released, release_for_panic,
}

-- How often a note stands in a list.
unfoldable pub times : ℕ → List ℕ → ℕ
times n [] = 0
times n (m ∷ ms) = if eqb m n then times n ms + 1 else times n ms

times-insert_note : (n m : ℕ) (ms : List ℕ) → times n (insert_note m ms) ≡ times n (m ∷ ms)
unfolding insert_note times
times-insert_note n m [] = refl
times-insert_note n m (k ∷ ms) = ground (arith, times-insert_note n m ms)

-- A channel's held notes stand once each in the list that a panic releases.
times-held :
    (ch n : ℕ) (d : Dict Key Entry)
    → Distinct d
    → times n (sort_notes (keys_on ch d)) ≡ (if has d (ch, n) then 1 else 0)
unfolding times sort_notes keys_on get
times-held ch n [] h = refl
times-held ch n ((key, e) ∷ d) h = ground (
  arith,
  times-held ch n d h.1,
  times-insert_note n key.1 (sort_notes (keys_on ch d)),
  h.0,
  ==_iff key (ch, n),
)

handle-release :
    (s : StuckNotes) (ch now note : ℕ)
    → 0 < ch
    → handle_held s (release_event ch now note) ≡ on_note_off s ch note
unfolding handle_held
handle-release s ch now note positive =
    let same : ch - 1 + 1 ≡ ch = omega (arith, positive) in ap (λ c. on_note_off s c note) same

-- The entry of a note after one note-off: one strike less, or gone.
abbrev pub lowered : Option Entry → Option Entry
lowered none = none
lowered (some e) = if leb e.count 1 then none else some (record e { count = e.count - 1 })

active-on_note_off :
    (s : StuckNotes) (ch note : ℕ) (k : Key)
    → get (on_note_off s ch note).0.active k
      ≡ (if (ch, note) == k then lowered (get s.active k) else get s.active k)
unfolding on_note_off release forget
active-on_note_off s ch note k = elim (Option-cases (get s.active (ch, note))) [
  | inl absent ↦
      rw (absent, on_note_off, release) (ground (arith, absent, ==_iff {K = Key} (ch, note) k))
  | inr (e, there) ↦
      rw (there, on_note_off, release)
        (ground (
          arith,
          there,
          ==_iff {K = Key} (ch, note) k,
          get-remove s.active (ch, note) k,
          get-put s.active (ch, note) k (record e { count = e.count - 1 }),
        ))
]

levels-on_note_off :
    (s : StuckNotes) (ch note : ℕ) (k : Key) (e : Entry)
    → get s.active k ≡ some e
    → (((ch, note) == k) ≡ true → 1 < e.count)
    → get (on_note_off s ch note).0.levels k ≡ get s.levels k
unfolding on_note_off release forget
levels-on_note_off s ch note k e there twice = elim (Option-cases (get s.active (ch, note))) [
  | inl absent ↦ rw (absent, on_note_off, release) refl
  | inr (d, at) ↦
      rw (at, on_note_off, release)
        (ground (
          arith,
          there,
          at,
          twice,
          ==_iff {K = Key} (ch, note) k,
          get-remove s.levels (ch, note) k,
        ))
]

lower_times : ℕ → Option Entry → Option Entry
lower_times zero o = o
lower_times (suc n) o = lower_times n (lowered o)

active-dispatch :
    (ch now note : ℕ) (s : Watch) (k : Key)
    → 0 < ch
    → get (dispatch_to_state (release_event ch now note) s).alerts.active k
      ≡ (if (ch, note) == k then lowered (get s.alerts.active k) else get s.alerts.active k)
unfolding dispatch_to_state
active-dispatch ch now note s k positive =
    ap (λ (r : StuckNotes × Bool). get r.0.active k) (handle-release s.alerts ch now note positive)
    ∙ active-on_note_off s.alerts ch note k

lower_more :
    (test : Bool) (n : ℕ) (o : Option Entry)
    → lower_times n (if test then lowered o else o) ≡ lower_times (if test then n + 1 else n) o
unfolding lower_times
lower_more true n o = let next : n + 1 ≡ suc n = omega arith in rw next refl
lower_more false n o = refl

-- Releasing these notes of a channel lowers each as often as it stands in the list.
active-release_notes :
    (ch now : ℕ) (notes : List ℕ) (s : Watch) (k : Key)
    → 0 < ch
    → get (release_notes ch now notes s).alerts.active k ≡ (
        if eqb ch k.0
        then lower_times (times k.1 notes) (get s.alerts.active k)
        else get s.alerts.active k)
unfolding release_notes times
active-release_notes ch now [] s k positive = elim (Bool-cases (eqb ch k.0)) [
  | inl same ↦ rw same (unfold lower_times in refl)
  | inr other ↦ rw other refl
]
active-release_notes ch now (note ∷ notes) s k positive =
    let s' = dispatch_to_state (release_event ch now note) s in
    let step = active-dispatch ch now note s k positive in
    let later = active-release_notes ch now notes s' k positive in
    elim (Bool-cases (eqb ch k.0)) [
      | inl same ↦
          let pair : ((ch, note) == k) ≡ eqb note k.1 =
            ground (arith, same, ==_iff {K = Key} (ch, note) k) in
          let held = get s.alerts.active k in
          let lower = lower_times (times k.1 notes) in
          let first : get s'.alerts.active k ≡ (if eqb note k.1 then lowered held else held) =
            rw (← pair) step in
          let rest : get (release_notes ch now notes s').alerts.active k
              ≡ lower (get s'.alerts.active k) =
            later ∙ (rw same refl) in
          rw same (rest ∙ ap lower first ∙ lower_more (eqb note k.1) (times k.1 notes) held)
      | inr other ↦
          let pair : ((ch, note) == k) ≡ false =
            ground (arith, other, ==_iff {K = Key} (ch, note) k) in
          ground (arith, later, step, other, pair)
    ]

active_marked :
    (ch : ℕ) (notes : List ℕ) (w : Watch) (k : Key)
    → get (mark_released ch notes w).alerts.active k ≡ get w.alerts.active k
unfolding mark_released
active_marked ch [] w k = refl
active_marked ch (n ∷ notes) w k = refl

strike_once : (o : Option Entry) → lower_times (if is_some o then 1 else 0) o ≡ lowered o
unfolding lower_times
strike_once none = refl
strike_once (some e) = refl

one_each :
    (ch : ℕ) (d : Dict Key Entry) (k : Key)
    → Distinct d
    → (if eqb ch k.0
        then lower_times (times k.1 (sort_notes (keys_on ch d))) (get d k)
        else get d k)
      ≡ (if eqb ch k.0 then lowered (get d k) else get d k)
one_each ch d k h = elim (Bool-cases (eqb ch k.0)) [
  | inl same ↦
      let mine : ch ≡ k.0 = ground (arith, same) in
      rw same (
        ap (λ n. lower_times n (get d k))
          (times-held ch k.1 d h ∙ ap (λ c. if has d (c, k.1) then 1 else 0) mine)
        ∙ strike_once (get d k))
  | inr other ↦ rw other refl
]

-- A panic takes one strike from every note that is held on its channel, as one note-off each would:
-- a note that was struck once is released, and the other channels keep their notes.
pub panic_takes_one_strike :
    (ch now : ℕ) (s : Watch) (k : Key)
    → IsValid s.alerts
    → 0 < ch
    → get (release_for_panic ch now s).alerts.active k
      ≡ (if eqb ch k.0 then lowered (get s.alerts.active k) else get s.alerts.active k)
unfolding release_for_panic held_notes
panic_takes_one_strike ch now s k h positive =
    let notes = held_notes s.alerts ch in
    active_marked ch notes (release_notes ch now notes s) k
    ∙ active-release_notes ch now notes s k positive
    ∙ one_each ch s.alerts.active k h.distinct

levels-dispatch :
    (ch now note : ℕ) (s : Watch) (k : Key) (e : Entry)
    → 0 < ch
    → get s.alerts.active k ≡ some e
    → (((ch, note) == k) ≡ true → 1 < e.count)
    → get (dispatch_to_state (release_event ch now note) s).alerts.levels k ≡ get s.alerts.levels k
unfolding dispatch_to_state
levels-dispatch ch now note s k e positive there more =
    ap (λ (r : StuckNotes × Bool). get r.0.levels k) (handle-release s.alerts ch now note positive)
    ∙ levels-on_note_off s.alerts ch note k e there more

levels-release_notes :
    (ch now : ℕ) (notes : List ℕ) (s : Watch) (k : Key) (e : Entry)
    → 0 < ch
    → get s.alerts.active k ≡ some e
    → times k.1 notes < e.count
    → get (release_notes ch now notes s).alerts.levels k ≡ get s.alerts.levels k
unfolding release_notes dispatch_to_state times
levels-release_notes ch now [] s k e positive there few = refl
levels-release_notes ch now (note ∷ notes) s k e positive there few =
    let s' = dispatch_to_state (release_event ch now note) s in
    let step = active-dispatch ch now note s k positive in
    elim (Bool-cases ((ch, note) == k)) [
      | inl mine ↦
          let same : note ≡ k.1 = ground (arith, mine, ==_iff {K = Key} (ch, note) k) in
          let twice : 1 < e.count = ground (arith, few, same) in
          let left : get s'.alerts.active k ≡ some (record e { count = e.count - 1 }) =
            ground (arith, step, mine, there, twice) in
          levels-release_notes ch now notes s' k (record e { count = e.count - 1 }) positive left
            (ground (arith, few, same))
          ∙ levels-dispatch ch now note s k e positive there (λ _. twice)
      | inr other ↦
          let left : get s'.alerts.active k ≡ some e = ground (arith, step, other, there) in
          levels-release_notes ch now notes s' k e positive left (ground (arith, few))
          ∙ levels-dispatch ch now note s k e positive there (λ h. absurd (cc (h, other)))
    ]

levels_marked :
    (ch : ℕ) (notes : List ℕ) (w : Watch) (k : Key)
    → get (mark_released ch notes w).alerts.levels k ≡ get w.alerts.levels k
unfolding mark_released
levels_marked ch [] w k = refl
levels_marked ch (n ∷ notes) w k = refl

-- A note that was struck more than once since it was last released stays held through a panic on its
-- channel, with the time of its last strike and its level as they were.
pub struck_twice_stays :
    (ch n now : ℕ) (s : Watch) (e : Entry)
    → IsValid s.alerts
    → 0 < ch
    → get s.alerts.active (ch, n) ≡ some e
    → 1 < e.count
    → let s' = release_for_panic ch now s in
      (get s'.alerts.active (ch, n) ≡ some (record e { count = e.count - 1 }))
      × (get s'.alerts.levels (ch, n) ≡ get s.alerts.levels (ch, n))
struck_twice_stays ch n now s e h positive there twice =
    let notes = held_notes s.alerts ch in
    let k : Key = (ch, n) in
    let once : times n notes ≡ (if has s.alerts.active k then 1 else 0) =
      unfold held_notes in times-held ch n s.alerts.active h.distinct in
    let few : times n notes < e.count = ground (arith, once, twice) in
    (
      ground (arith, panic_takes_one_strike ch now s k h positive, there, twice),
      unfold release_for_panic in
          levels_marked ch notes (release_notes ch now notes s) k
          ∙ levels-release_notes ch now notes s k e positive there few,
    )
