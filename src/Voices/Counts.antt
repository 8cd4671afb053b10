-- ===== src/Voices/Counts.antt =====
-- What the voice monitor counts: held notes of a channel, held notes of all channels, and peaks.
use midicrt.Prelude.{
  ℕ, zero, suc, ◌+◌, ◌-◌, ◌≤◌, ◌<◌, ◌≡◌, refl, sym, subst, Bool, Bool-cases, Option-cases, Option,
  none, some, List, [], ◌∷◌, arith, eqb, ◌==◌, number_test, option_test, length, length-take-le,
  max, inl, inr,
}
use midicrt.Event.{Kind, MidiEvent}
use midicrt.Dict.{Dict, get, put, get-nil, get-put, total, total-put, weight-le-total}
use midicrt.Voices.Defs.{
  Channel, Voices, silent, silent_channels, init, check_poly_limit, struck, released, cleared,
  on_note_on, on_note_off, is_empty, clear_channel, cleared_channels, clear_all, on_channel,
  on_voice, clears_all, handle_uncached, handle, tick, event_log_len,
}
use midicrt.Voices.Fits.{itself, active_of, Fits, struck-Fits, released-Fits, cleared-Fits}

pub record IsValid (s : Voices) : Type 0 where
  pub parts : (ch : ℕ) (c : Channel) → get s.channels ch ≡ some c → Fits c
  pub summed : s.total ≡ total active_of s.channels
  pub topped : s.total ≤ s.total_peak
  pub logged : length s.events ≤ event_log_len

store-IsValid :
    (s : Voices) (ch : ℕ) (c c' : Channel) (n top : ℕ)
    → IsValid s
    → get s.channels ch ≡ some c
    → Fits c'
    → n + c.active ≡ s.total + c'.active
    → n ≤ top
    → IsValid (record s { channels = put s.channels ch c'; total = n; total_peak = top })
store-IsValid s ch c c' n top h at fits moved below = record {
  parts = λ j d. rw get-put (ground (arith, h.parts j d, fits));
  summed = ground (arith, h.summed, moved, total-put active_of s.channels ch c');
  topped = below;
  logged = h.logged;
}

check-IsValid :
    (s : Voices) (active ch note ts : ℕ)
    → IsValid s
    → IsValid (check_poly_limit s active ch note ts)
unfolding check_poly_limit
check-IsValid s active ch note ts h = record {
  parts = λ j d. ground (arith, h.parts j d);
  summed = ground (arith, h.summed);
  topped = ground (arith, h.topped);
  logged = ground (arith, h.logged, length-take-le 7 s.events);
}

on_note_on-IsValid :
    (s : Voices) (ch : ℕ) (c : Channel) (note ts : ℕ)
    → IsValid s
    → get s.channels ch ≡ some c
    → IsValid (on_note_on s ch c note ts).0
unfolding on_note_on
on_note_on-IsValid s ch c note ts h at = check-IsValid _ (struck c note).active ch note ts (
    store-IsValid s ch c (struck c note) (s.total + 1) (max s.total_peak (s.total + 1)) h at
      (struck-Fits c note (h.parts ch c at)) (unfold struck in omega arith) (omega arith))

pub active-le-total :
    (s : Voices) (ch : ℕ) (c : Channel)
    → IsValid s
    → get s.channels ch ≡ some c
    → c.active ≤ s.total
active-le-total s ch c h at = ground (arith, h.summed, weight-le-total active_of s.channels ch)

on_note_off-IsValid :
    (s : Voices) (ch : ℕ) (c : Channel) (note : ℕ)
    → IsValid s
    → get s.channels ch ≡ some c
    → IsValid (on_note_off s ch c note).0
unfolding on_note_off
on_note_off-IsValid s ch c note h at = elim (Option-cases (get c.notes note)) [
  | inl stray ↦ rw (stray, on_note_off) h
  | inr (k, there) ↦
      let fits = h.parts ch c at in
      let one : 0 < c.active =
        ground (arith, fits.counted, fits.held note k there, weight-le-total itself c.notes note) in
      rw (there, on_note_off)
        (store-IsValid s ch c (released c note k) (s.total - 1) s.total_peak h at
          (released-Fits c note k there fits)
          (unfold released in omega (arith, one, active-le-total s ch c h at))
          (omega (arith, h.topped)))
]

clear_channel-IsValid :
    (s : Voices) (ch : ℕ) (c : Channel)
    → IsValid s
    → get s.channels ch ≡ some c
    → IsValid (clear_channel s ch c).0
unfolding clear_channel
clear_channel-IsValid s ch c h at = elim (Bool-cases (is_empty c.notes)) [
  | inl empty ↦ rw empty h
  | inr some_held ↦ rw some_held (
      store-IsValid s ch c (cleared c) (s.total - c.active) s.total_peak h at (cleared-Fits c)
        (omega (arith, active-le-total s ch c h at)) (omega (arith, h.topped)))
]

pub get-cleared :
    (d : Dict ℕ Channel) (ch : ℕ)
    → get (cleared_channels d) ch ≡ elim (get d ch) [ none ↦ none | some c ↦ some (cleared c) ]
unfolding cleared_channels get
get-cleared [] ch = refl
get-cleared ((j, c) ∷ d) ch = ground (arith, get-cleared d ch)

total-cleared : (d : Dict ℕ Channel) → total active_of (cleared_channels d) ≡ 0
unfolding cleared_channels total
total-cleared [] = refl
total-cleared ((j, c) ∷ d) = omega (arith, total-cleared d)

pub cleared_part :
    (o : Option Channel) (d : Channel)
    → elim o [ none ↦ none | some c ↦ some (cleared c) ] ≡ some d
    → Fits d
cleared_part none d h = cc
cleared_part (some c) d h = let same : cleared c ≡ d = cc h in subst Fits same (cleared-Fits c)

clear_all-IsValid : (s : Voices) → IsValid s → IsValid (clear_all s).0
unfolding clear_all
clear_all-IsValid s h = elim (Bool-cases (eqb s.total 0)) [
  | inl none_held ↦ rw none_held h
  | inr some_held ↦ rw some_held (record {
    parts = λ j d. rw get-cleared (cleared_part (get s.channels j) d);
    summed = sym (total-cleared s.channels);
    topped = omega arith;
    logged = h.logged;
  })
]

on_channel-IsValid :
    (kind : Kind) (ch : ℕ) (c : Channel) (data1 data2 : Option ℕ) (ts : ℕ) (s : Voices)
    → IsValid s
    → get s.channels ch ≡ some c
    → IsValid (on_channel kind ch c data1 data2 ts s).0
unfolding on_channel
on_channel-IsValid kind ch c data1 data2 ts s h at =
    grind (arith, on_note_on-IsValid, on_note_off-IsValid, clear_channel-IsValid)

on_voice-IsValid : (s : Voices) (ev : MidiEvent) → IsValid s → IsValid (on_voice s ev).0
unfolding on_voice
on_voice-IsValid s ev h = grind (arith, on_channel-IsValid)

handle_uncached-IsValid :
    (s : Voices) (ev : MidiEvent) → IsValid s → IsValid (handle_uncached s ev).0
unfolding handle_uncached
handle_uncached-IsValid s ev h = elim (Bool-cases (clears_all ev.kind)) [
  | inl clears ↦ rw clears (clear_all-IsValid s h)
  | inr other ↦ rw other (on_voice-IsValid s ev h)
]

marked-IsValid :
    (s : Voices) (last : Option ℕ) (dirty : Bool)
    → IsValid s
    → IsValid (record s { last_event = last; last_dirty = dirty })
marked-IsValid s last dirty h = record {
  parts = h.parts;
  summed = h.summed;
  topped = h.topped;
  logged = h.logged;
}

handle-IsValid : (s : Voices) (id : ℕ) (ev : MidiEvent) → IsValid s → IsValid (handle s id ev).0
unfolding handle
handle-IsValid s id ev h =
    let answer = handle_uncached (record s { last_event = some id }) ev in
    elim (Bool-cases (s.last_event == some id)) [
      | inl again ↦ rw again h
      | inr new ↦ rw new (
          marked-IsValid answer.0 answer.0.last_event answer.1 (
            handle_uncached-IsValid (record s { last_event = some id }) ev
              (marked-IsValid s (some id) s.last_dirty h)))
    ]

tick-IsValid : (s : Voices) (now : ℕ) → IsValid s → IsValid (tick s now).0
unfolding tick
tick-IsValid s now h = record {
  parts = h.parts;
  summed = h.summed;
  topped = h.topped;
  logged = h.logged;
}

silent-Fits : Fits silent
silent-Fits = cleared-Fits silent

silent_channels-Fits : (n ch : ℕ) (c : Channel) → get (silent_channels n) ch ≡ some c → Fits c
unfolding silent_channels
silent_channels-Fits zero ch c h = cc (get-nil {V = Channel} ch)
silent_channels-Fits (suc n) ch c h =
    let step : get (put (silent_channels n) (suc n) silent) ch ≡ some c → Fits c =
      rw get-put (grind (arith, silent_channels-Fits n ch c, silent-Fits)) in
    step h

total-silent_channels : (n : ℕ) → total active_of (silent_channels n) ≡ 0
unfolding silent_channels
total-silent_channels zero = unfold total in refl
total-silent_channels (suc n) =
    ground (arith, total-silent_channels n, total-put active_of (silent_channels n) (suc n) silent)

init-IsValid : (limit_global limit_ch : ℕ) → IsValid (init limit_global limit_ch)
unfolding init
init-IsValid limit_global limit_ch = record {
  parts = silent_channels-Fits 16;
  summed = sym (total-silent_channels 16);
  topped = omega arith;
  logged = omega arith;
}

-- What the engine calls: the handler with an event object, or the clock.
pub data Call : Type 0 where
  given : ℕ → MidiEvent → Call
  wall : ℕ → Call

unfoldable pub calls : List Call → Voices → Voices
calls [] s = s
calls (given id ev ∷ rest) s = calls rest (handle s id ev).0
calls (wall now ∷ rest) s = calls rest (tick s now).0

calls-IsValid_from : (todo : List Call) (s : Voices) → IsValid s → IsValid (calls todo s)
unfolding calls
calls-IsValid_from [] s h = h
calls-IsValid_from (given id ev ∷ rest) s h = calls-IsValid_from rest _ (handle-IsValid s id ev h)
calls-IsValid_from (wall now ∷ rest) s h = calls-IsValid_from rest _ (tick-IsValid s now h)

-- After any events and ticks the count of a channel is the sum of the counts of its notes, each at
-- least 1, and at most the channel's peak; the total is the sum over the channels and at most the
-- total peak; and the log of passed limits has at most eight entries.
pub calls-IsValid :
    (todo : List Call) (limit_global limit_ch : ℕ)
    → IsValid (calls todo (init limit_global limit_ch))
calls-IsValid todo limit_global limit_ch =
    calls-IsValid_from todo _ (init-IsValid limit_global limit_ch)
