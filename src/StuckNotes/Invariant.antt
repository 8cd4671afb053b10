-- ===== src/StuckNotes/Invariant.antt =====
-- What holds of the state of `StuckNotesAnalyzer` between two calls.
use midicrt.Prelude.{
  ℕ, ◌<◌, leb, ◌≡◌, ◌∙◌, refl, ◌∙◌, refl, Bool, Option, none, some, List, [], ◌∷◌, arith, ==_iff,
  pair_test, number_test, Bool-cases, inl, inr,
}
use midicrt.Prelude.Int.{ℤ, sub_ℕ}
use midicrt.Event.{MidiEvent, Input, drive, drive_keeps}
use midicrt.Dict.{
  Dict, get, put, Distinct, get-nil, get-put, get-remove, put-Distinct, remove-Distinct, Held,
  Distinct-Held,
}
use midicrt.StuckNotes.Defs.{
  Key, Entry, Level, StuckNotes, init, on_note_on, forget, on_note_off, set_sustain, forget_all,
  clear_channel, handle, struck, release, clear_keys, controller,
}
use midicrt.StuckNotes.Tick.{
  tick_note, tick_notes, tick_linger, tick, change_level, settle, suspend, classify, same_level,
}

-- Levels and ages belong to held notes, a held note has been struck, and no key stands twice.
pub record IsValid (s : StuckNotes) : Type 0 where
  pub levelled : (k : Key) → get s.active k ≡ none → get s.levels k ≡ none
  pub aged : (k : Key) → get s.active k ≡ none → get s.ages k ≡ none
  pub counted : (k : Key) (e : Entry) → get s.active k ≡ some e → 0 < e.count
  pub distinct : Distinct s.active

pub init-IsValid : (hold_after : ℕ) → IsValid (init hold_after)
unfolding init
init-IsValid hold_after = record {
  levelled = λ k h. get-nil k;
  aged = λ k h. get-nil k;
  counted = λ k e h. cc (get-nil {V = Entry} k);
  distinct = tt;
}

store-IsValid :
    (s : StuckNotes) (key : Key) (e : Entry)
    → 0 < e.count
    → IsValid s
    → IsValid (record s { active = put s.active key e })
store-IsValid s key e p h = record {
  levelled = λ k. rw get-put (ground (arith, h.levelled k));
  aged = λ k. rw get-put (ground (arith, h.aged k));
  counted = λ k e'. rw get-put (ground (arith, h.counted k e'));
  distinct = put-Distinct s.active key e h.distinct;
}

forget-IsValid : (s : StuckNotes) (key : Key) → IsValid s → IsValid (forget s key)
unfolding forget
forget-IsValid s key h = record {
  levelled = λ k. simp get-remove (ground (arith, h.levelled k));
  aged = λ k. simp get-remove (ground (arith, h.aged k));
  counted = λ k e. rw get-remove (ground (arith, h.counted k e));
  distinct = remove-Distinct s.active key h.distinct;
}

forget_all-IsValid : (s : StuckNotes) (ks : List Key) → IsValid s → IsValid (forget_all s ks)
unfolding forget_all
forget_all-IsValid s [] h = h
forget_all-IsValid s (key ∷ ks) h = forget_all-IsValid (forget s key) ks (forget-IsValid s key h)

struck_pos : (o : Option Entry) (ts : ℕ) → 0 < (struck o ts).count
unfolding struck
struck_pos none ts = omega arith
struck_pos (some e) ts = omega arith

release-IsValid :
    (o : Option Entry) (s : StuckNotes) (key : Key) → IsValid s → IsValid (release o s key).0
unfolding release
release-IsValid none s key h = h
release-IsValid (some e) s key h = elim (Bool-cases (leb e.count 1)) [
  | inl last ↦ rw last (forget-IsValid s key h)
  | inr more ↦ rw more (store-IsValid s key _ (ground arith) h)
]

clear_keys-IsValid : (s : StuckNotes) (ks : List Key) → IsValid s → IsValid (clear_keys s ks).0
unfolding clear_keys
clear_keys-IsValid s [] h = h
clear_keys-IsValid s (k ∷ ks) h = forget_all-IsValid s (k ∷ ks) h

sustain-IsValid :
    (s : StuckNotes) (sustain : ℕ → Bool) → IsValid s → IsValid (record s { sustain = sustain })
sustain-IsValid s sustain h = record {
  levelled = h.levelled;
  aged = h.aged;
  counted = h.counted;
  distinct = h.distinct;
}

set_sustain-IsValid :
    (s : StuckNotes) (ch : ℕ) (down : Bool) → IsValid s → IsValid (set_sustain s ch down).0
unfolding set_sustain
set_sustain-IsValid s ch down h = ground (arith, sustain-IsValid s _ h)

controller-IsValid :
    (s : StuckNotes) (ch control : ℕ) (value : Option ℕ)
    → IsValid s
    → IsValid (controller s ch control value).0
unfolding controller clear_channel
controller-IsValid s ch control value h = grind (arith, set_sustain-IsValid, clear_keys-IsValid)

on_note_on-IsValid :
    (s : StuckNotes) (ch note ts : ℕ) → IsValid s → IsValid (on_note_on s ch note ts).0
unfolding on_note_on
on_note_on-IsValid s ch note ts h = store-IsValid s (ch, note) _ (struck_pos _ ts) h

pub on_note_off-IsValid :
    (s : StuckNotes) (ch note : ℕ) → IsValid s → IsValid (on_note_off s ch note).0
unfolding on_note_off
on_note_off-IsValid s ch note h = release-IsValid (get s.active (ch, note)) s (ch, note) h

pub handle-IsValid : (s : StuckNotes) (ev : MidiEvent) → IsValid s → IsValid (handle s ev).0
unfolding handle
handle-IsValid s ev h = grind (arith, on_note_on-IsValid, on_note_off-IsValid, controller-IsValid)

change_level-IsValid :
    (round1 : ℤ → ℤ) (s : StuckNotes) (key : Key) (age : ℤ) (level : Option Level) (e : Entry)
    → get s.active key ≡ some e
    → IsValid s
    → IsValid (change_level round1 s key age level)
unfolding change_level
change_level-IsValid round1 s key age none e held h = record {
  levelled = λ k. rw get-remove (ground (arith, h.levelled k));
  aged = h.aged;
  counted = h.counted;
  distinct = h.distinct;
}
change_level-IsValid round1 s key age (some level) e held h = record {
  levelled = λ k. rw get-put (ground (arith, h.levelled k, ==_iff key k));
  aged = h.aged;
  counted = h.counted;
  distinct = h.distinct;
}

-- The age of a held note is stored.
aged-IsValid :
    (s : StuckNotes) (key : Key) (age : ℤ) (e : Entry)
    → get s.active key ≡ some e
    → IsValid s
    → IsValid (record s { ages = put s.ages key age })
aged-IsValid s key age e held h = record {
  levelled = h.levelled;
  aged = λ k. rw get-put (ground (arith, h.aged k, ==_iff key k));
  counted = h.counted;
  distinct = h.distinct;
}

module _ (round1 : ℤ → ℤ) where
  suspend-IsValid : (s : StuckNotes) (key : Key) → IsValid s → IsValid (suspend round1 s key).0
  unfolding suspend
  suspend-IsValid s key h = record {
    levelled = λ k. rw get-remove (ground (arith, h.levelled k));
    aged = λ k. rw get-remove (ground (arith, h.aged k));
    counted = h.counted;
    distinct = h.distinct;
  }

  settle-IsValid :
      (s : StuckNotes) (key : Key) (age : ℤ) (level : Option Level) (e : Entry)
      → get s.active key ≡ some e
      → IsValid s
      → IsValid (settle round1 s key age level).0
  unfolding settle
  settle-IsValid s key age level e held h =
      let aged = aged-IsValid s key age e held h in
      let changed = change_level-IsValid round1 _ key age level e held aged in
      elim (Bool-cases (same_level level (get s.levels key))) [
        | inl same ↦ rw same aged
        | inr new ↦ rw new changed
      ]

  active-settle :
      (s : StuckNotes) (key : Key) (age : ℤ) (level : Option Level)
      → (settle round1 s key age level).0.active ≡ s.active
  unfolding settle change_level
  active-settle s key age level = ground arith

  pub active-tick_note :
      (s : StuckNotes) (now : ℕ) (key : Key) (e : Entry)
      → (tick_note round1 s now key e).0.active ≡ s.active
  unfolding tick_note suspend
  active-tick_note s now key e = grind (arith, active-settle)

  tick_note-IsValid :
      (s : StuckNotes) (now : ℕ) (key : Key) (e : Entry)
      → get s.active key ≡ some e
      → IsValid s
      → IsValid (tick_note round1 s now key e).0
  unfolding tick_note
  tick_note-IsValid s now key e held h =
      let age = sub_ℕ now e.last_on in
      elim (Bool-cases (s.sustain key.0)) [
        | inl down ↦ rw down (suspend-IsValid s key h)
        | inr up ↦ rw up (settle-IsValid s key age (classify age) e held h)
      ]

  tick_notes-IsValid :
      (s : StuckNotes) (now : ℕ) (l : Dict Key Entry)
      → Held s.active l
      → IsValid s
      → IsValid (tick_notes round1 s now l).0
  unfolding tick_notes
  tick_notes-IsValid s now [] held h = h
  tick_notes-IsValid s now ((key, e) ∷ rest) held h =
      tick_notes-IsValid (tick_note round1 s now key e).0 now rest (rw active-tick_note held.1)
        (tick_note-IsValid s now key e held.0 h)

  active-tick_notes :
      (s : StuckNotes) (now : ℕ) (l : Dict Key Entry)
      → (tick_notes round1 s now l).0.active ≡ s.active
  unfolding tick_notes
  active-tick_notes s now [] = refl
  active-tick_notes s now ((key, e) ∷ rest) =
      active-tick_notes (tick_note round1 s now key e).0 now rest ∙ active-tick_note s now key e

  -- The linger bookkeeping leaves the notes, their levels and their ages alone.
  pub record SameNotes (s s' : StuckNotes) : Type 0 where
    pub active : s'.active ≡ s.active
    pub levels : s'.levels ≡ s.levels
    pub ages : s'.ages ≡ s.ages
    pub sustain : s'.sustain ≡ s.sustain
    pub pending : s'.pending_alerts ≡ s.pending_alerts

  pub tick_linger-SameNotes : (s : StuckNotes) (now : ℕ) → SameNotes s (tick_linger round1 s now).0
  unfolding tick_linger
  tick_linger-SameNotes s now = ground arith

  pub active-tick : (s : StuckNotes) (now : ℕ) → (tick round1 s now).0.active ≡ s.active
  unfolding tick
  active-tick s now = (tick_linger-SameNotes _ now).active ∙ active-tick_notes s now s.active

  SameNotes-IsValid : {s s' : StuckNotes} → SameNotes s s' → IsValid s → IsValid s'
  SameNotes-IsValid e h = record {
    levelled = λ k. rw (e.active, e.levels) (h.levelled k);
    aged = λ k. rw (e.active, e.ages) (h.aged k);
    counted = λ k x. rw e.active (h.counted k x);
    distinct = rw e.active h.distinct;
  }

  pub tick-IsValid : (s : StuckNotes) (now : ℕ) → IsValid s → IsValid (tick round1 s now).0
  unfolding tick
  tick-IsValid s now h =
      let passed = tick_notes-IsValid s now s.active (Distinct-Held s.active h.distinct) h in
      SameNotes-IsValid (tick_linger-SameNotes _ now) passed

  -- After any events and wall clock ticks from the initial state, a level or an age is kept only for a
  -- note that is held, every held note has been struck at least once, and no note is tracked twice.
  pub drive-IsValid :
      (hold_after : ℕ) (is : List Input) → IsValid (drive handle (tick round1) (init hold_after) is)
  drive-IsValid hold_after is =
      drive_keeps handle (tick round1) IsValid handle-IsValid tick-IsValid (init hold_after) is
        (init-IsValid hold_after)
