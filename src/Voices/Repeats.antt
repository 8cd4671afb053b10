-- ===== src/Voices/Repeats.antt =====
-- The voice monitor when it is handed an event twice, and when the transport starts or stops.
use midicrt.Prelude.{
  ℕ, ◌<◌, ◌≡◌, refl, sym, ap, ◌∙◌, true, Bool-cases, Option, none, some, [], ◌∷◌, arith, eqb, ◌==◌,
  ==_refl, number_test, option_test, inl, inr,
}
use midicrt.Event.{MidiEvent}
use midicrt.Dict.{Dict, get, total}
use midicrt.Voices.Defs.{
  Channel, Voices, check_poly_limit, on_note_on, on_note_off, clear_channel, clear_all, on_channel,
  on_voice, clears_all, handle_uncached, handle, cleared,
}
use midicrt.Voices.Fits.{itself}
use midicrt.Voices.Counts.{IsValid, get-cleared, active-le-total}

last_event-on_channel : (s : Voices) (ev : MidiEvent) → (on_voice s ev).0.last_event ≡ s.last_event
unfolding on_voice on_channel on_note_on on_note_off clear_channel check_poly_limit
last_event-on_channel s ev = ground arith

last_event-handle_uncached :
    (s : Voices) (ev : MidiEvent) → (handle_uncached s ev).0.last_event ≡ s.last_event
unfolding handle_uncached clear_all
last_event-handle_uncached s ev = ground (arith, last_event-on_channel s ev)

-- An event object that is handed over a second time, right after the first, gets the first answer
-- again and changes nothing.
pub second_time :
    (s : Voices) (id : ℕ) (ev ev' : MidiEvent)
    → let first = handle s id ev in handle first.0 id ev' ≡ (first.0, first.1)
unfolding handle
second_time s id ev ev' = elim (Bool-cases (s.last_event == some id)) [
  | inl again ↦ rw (again, again) refl
  | inr new ↦
      let marked = record s { last_event = some id } in
      let kept : ((handle_uncached marked ev).0.last_event == some id) ≡ true =
        rw (last_event-handle_uncached marked ev) (==_refl {K = Option ℕ} (some id)) in
      rw (new, kept) refl
]

empty_when_zero :
    (d : Dict ℕ ℕ) → ((n k : ℕ) → get d n ≡ some k → 0 < k) → total itself d ≡ 0 → d ≡ []
unfolding total get
empty_when_zero [] held none_held = refl
empty_when_zero ((n, k) ∷ d) held none_held =
    absurd (ground (arith, held n k (rw (==_refl n) refl), none_held))

abbrev Silent : Voices → Type 0
Silent s =
    (s.total ≡ 0)
    × ((ch : ℕ) (c : Channel) → get s.channels ch ≡ some c → (c.notes ≡ []) × (c.active ≡ 0))

zero-Silent : (s : Voices) → IsValid s → s.total ≡ 0 → Silent s
zero-Silent s h zero_total = (
  zero_total,
  λ ch c at.
      let fits = h.parts ch c at in
      let none_held : c.active ≡ 0 = omega (arith, active-le-total s ch c h at, zero_total) in
      (empty_when_zero c.notes fits.held (sym fits.counted ∙ none_held), none_held),
)

cleared_is_silent :
    (o : Option Channel) (d : Channel)
    → elim o [ none ↦ none | some c ↦ some (cleared c) ] ≡ some d
    → (d.notes ≡ []) × (d.active ≡ 0)
cleared_is_silent none d h = cc
cleared_is_silent (some c) d h =
    let same : cleared c ≡ d = cc h in
    (ap (λ (e : Channel). e.notes) (sym same), ap (λ (e : Channel). e.active) (sym same))

clear_all-Silent : (s : Voices) → IsValid s → Silent (clear_all s).0
unfolding clear_all
clear_all-Silent s h = elim (Bool-cases (eqb s.total 0)) [
  | inl none_held ↦ rw none_held (zero-Silent s h (ground (arith, none_held)))
  | inr some_held ↦
      rw some_held (refl, λ ch c. rw get-cleared (cleared_is_silent (get s.channels ch) c))
]

-- When the transport starts or stops, no channel holds a note any more, whether or not the monitor
-- reports a change.
pub start_or_stop_silences :
    (s : Voices) (ev : MidiEvent) (ch : ℕ) (c : Channel)
    → IsValid s
    → clears_all ev.kind ≡ true
    → get (handle_uncached s ev).0.channels ch ≡ some c
    → ((handle_uncached s ev).0.total ≡ 0) × (c.notes ≡ []) × (c.active ≡ 0)
unfolding handle_uncached
start_or_stop_silences s ev ch c h clears =
    let silent = clear_all-Silent s h in
    rw clears (λ at. (silent.0, (silent.1 ch c at).0, (silent.1 ch c at).1))
