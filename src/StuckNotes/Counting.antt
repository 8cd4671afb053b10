-- ===== src/StuckNotes/Counting.antt =====
-- How often a note is held, against a count over the events alone.
use midicrt.Prelude.{
  ℕ, ◌+◌, ◌-◌, ◌<◌, ◌≡◌, ◌∙◌, ap, refl, Bool, false, Option, none, some, List, [], ◌∷◌, arith,
  if◌then◌else◌, eqb, ◌==◌, ==_iff, pair_test, number_test, elem, ◌&&◌,
}
use midicrt.Prelude.Int.{ℤ}
use midicrt.Event.{Kind, MidiEvent, note_on, note_off, control_change, Input, event, wall, drive}
use midicrt.Dict.{Dict, get, has, get-nil, get-put, get-remove}
use midicrt.StuckNotes.Defs.{
  Key, Entry, StuckNotes, init, on_note_on, forget, on_note_off, set_sustain, keys_on, forget_all,
  clear_channel, clear_keys, controller, release, is_zero, handle,
}
use midicrt.StuckNotes.Tick.{tick}
use midicrt.StuckNotes.Invariant.{IsValid, init-IsValid, handle-IsValid, tick-IsValid, active-tick}

-- What one event on the note's channel does to the number of times that the note is held: a
-- note-on with a velocity adds one, a note-off or a note-on without velocity takes one away, All
-- Sound Off and All Notes Off take all, anything else none.
abbrev pub tally : Kind → ℕ → Option ℕ → Option ℕ → ℕ → ℕ
tally note_on note (some n) velocity held =
    if eqb n note then (if is_zero velocity then held - 1 else held + 1) else held
tally note_off note (some n) velocity held = if eqb n note then held - 1 else held
tally control_change note (some c) value held =
    if eqb c 120 then 0 else if eqb c 123 then 0 else held
tally _ note _ _ held = held

abbrev pub on_channel : Option ℕ → ℕ → Bool
on_channel none ch = false
on_channel (some c) ch = eqb (c + 1) ch

-- The count over the events alone, for a channel from 1 and a note.
unfoldable pub times_held : Key → List Input → ℕ → ℕ
times_held key [] held = held
times_held key (event ev ∷ is) held =
    times_held key is
      (if on_channel ev.channel key.0 then tally ev.kind key.1 ev.data1 ev.data2 held else held)
times_held key (wall now ∷ is) held = times_held key is held

abbrev pub count_of : Option Entry → ℕ
count_of none = 0
count_of (some e) = e.count

get-forget_all :
    (s : StuckNotes) (ks : List Key) (k : Key)
    → get (forget_all s ks).active k ≡ (if elem k ks then none else get s.active k)
unfolding forget_all forget
get-forget_all s [] k = refl
get-forget_all s (j ∷ ks) k =
    ground (arith, get-forget_all (forget s j) ks k, get-remove s.active j k)

pub elem-keys_on :
    (ch : ℕ) (d : Dict Key Entry) (k : Key) → elem k (keys_on ch d) ≡ (has d k && eqb k.0 ch)
unfolding keys_on get
elem-keys_on ch [] k = refl
elem-keys_on ch ((j, e) ∷ d) k = ground (arith, elem-keys_on ch d k, ==_iff j k)

get-clear_keys :
    (s : StuckNotes) (ks : List Key) (k : Key)
    → get (clear_keys s ks).0.active k ≡ (if elem k ks then none else get s.active k)
unfolding clear_keys
get-clear_keys s [] k = refl
get-clear_keys s (j ∷ ks) k = get-forget_all s (j ∷ ks) k

-- Clearing a channel releases every note of it and no other.
pub get-clear_channel :
    (s : StuckNotes) (ch : ℕ) (k : Key)
    → get (clear_channel s ch).0.active k ≡ (if eqb k.0 ch then none else get s.active k)
unfolding clear_channel
get-clear_channel s ch k =
    ground (arith, get-clear_keys s (keys_on ch s.active) k, elem-keys_on ch s.active k)

pub active-set_sustain :
    (s : StuckNotes) (ch : ℕ) (down : Bool) → (set_sustain s ch down).0.active ≡ s.active
unfolding set_sustain
active-set_sustain s ch down = ground arith

count-on_note_on :
    (s : StuckNotes) (ch note ts : ℕ) (k : Key)
    → count_of (get (on_note_on s ch note ts).0.active k)
      ≡ (if (ch, note) == k then count_of (get s.active k) + 1 else count_of (get s.active k))
unfolding on_note_on
count-on_note_on s ch note ts k = simp get-put (ground (arith, ==_iff {K = Key} (ch, note) k))

count-release :
    (o : Option Entry) (s : StuckNotes) (key k : Key)
    → get s.active key ≡ o
    → ((e : Entry) → o ≡ some e → 0 < e.count)
    → count_of (get (release o s key).0.active k)
      ≡ (if key == k then count_of (get s.active k) - 1 else count_of (get s.active k))
unfolding release forget
count-release none s key k p pos = ground (arith, ==_iff key k)
count-release (some e) s key k p pos =
    grind (arith, pos e refl, get-remove {V = Entry}, get-put {V = Entry}, ==_iff key k)

pub count-on_note_off :
    (s : StuckNotes) (ch note : ℕ) (k : Key)
    → IsValid s
    → count_of (get (on_note_off s ch note).0.active k)
      ≡ (if (ch, note) == k then count_of (get s.active k) - 1 else count_of (get s.active k))
unfolding on_note_off
count-on_note_off s ch note k h =
    count-release (get s.active (ch, note)) s (ch, note) k refl (h.counted (ch, note))

count-controller :
    (s : StuckNotes) (ch control : ℕ) (value : Option ℕ) (k : Key)
    → count_of (get (controller s ch control value).0.active k) ≡ (
        if eqb k.0 ch
        then (if eqb control 120
            then 0
            else if eqb control 123
            then 0
            else count_of (get s.active k))
        else count_of (get s.active k))
unfolding controller
count-controller s ch control value k = grind (arith, active-set_sustain, get-clear_channel s ch k)

pub count-handle :
    (s : StuckNotes) (ev : MidiEvent) (k : Key)
    → IsValid s
    → count_of (get (handle s ev).0.active k) ≡ (
        if on_channel ev.channel k.0
        then tally ev.kind k.1 ev.data1 ev.data2 (count_of (get s.active k))
        else count_of (get s.active k))
unfolding handle
count-handle s ev k h = grind (arith, count-controller, count-on_note_off, count-on_note_on)

count-follow :
    (round1 : ℤ → ℤ) (s : StuckNotes) (is : List Input) (k : Key)
    → IsValid s
    → count_of (get (drive handle (tick round1) s is).active k)
      ≡ times_held k is (count_of (get s.active k))
unfolding drive times_held
count-follow round1 s [] k h = refl
count-follow round1 s (event ev ∷ is) k h =
    rw (← count-handle s ev k h) (count-follow round1 (handle s ev).0 is k (handle-IsValid s ev h))
count-follow round1 s (wall now ∷ is) k h =
    count-follow round1 (tick round1 s now).0 is k (tick-IsValid round1 s now h)
    ∙ ap (λ (d : Dict Key Entry). times_held k is (count_of (get d k))) (active-tick round1 s now)

-- After any events and wall clock ticks from the initial state, a note is held as often as the
-- events alone say: note-ons less note-offs, never below 0, and 0 after All Sound Off or All Notes
-- Off on its channel. A stray note-off, the sustain pedal and the wall clock change no count.
pub count-drive :
    (round1 : ℤ → ℤ) (hold_after : ℕ) (is : List Input) (k : Key)
    → count_of (get (drive handle (tick round1) (init hold_after) is).active k) ≡ times_held k is 0
count-drive round1 hold_after is k =
    count-follow round1 (init hold_after) is k (init-IsValid hold_after)
    ∙ ap (times_held k is) (unfold init in ap count_of (get-nil {V = Entry} k))
