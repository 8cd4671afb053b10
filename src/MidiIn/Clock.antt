-- ===== src/MidiIn/Clock.antt =====
-- How `MidiInput` gathers clock pulses into beats.
use midicrt.Prelude.{
  ℕ, ◌+◌, ◌/◌, ◌%◌, ◌<◌, ◌≡◌, true, Option, some, String, List, [], ◌∷◌, ◌++◌, arith, ltb, length,
  length-append,
}
use midicrt.MidiIn.Defs.{Input, clock, on_clock, enqueue, tick_event}

module _ (source : String) (device_id : Option String) where
  -- Clock pulses at these times.
  unfoldable pub pulses : List ℕ → Input → Input
  pulses [] s = s
  pulses (now ∷ rest) s = pulses rest (enqueue source now device_id clock s)

  -- Twenty-four pulses make a beat: after any number of them the count is what is left over of the
  -- beats, and the queue has one more event for each beat.
  pub pulses_make_beats :
      (times : List ℕ) (s : Input)
      → s.clock_count < 24
      → ((pulses times s).clock_count ≡ (s.clock_count + length times) % 24)
        × (length (pulses times s).queue ≡ length s.queue + (s.clock_count + length times) / 24)
  unfolding pulses enqueue on_clock
  pulses_make_beats [] s below = omega (arith, below)
  pulses_make_beats (now ∷ rest) s below = ground (
    arith,
    pulses_make_beats rest (on_clock source now device_id s),
    length-append s.queue (tick_event source now device_id s.clock_batch_start ∷ []),
  )

  -- A whole beat, from one boundary to the next: its event is stamped with the last pulse and carries
  -- the boundary that was kept before, and the last pulse becomes the boundary.
  pub beat_spans_boundaries :
      (times : List ℕ) (last : ℕ) (s : Input)
      → s.clock_count + length times ≡ 23
      → pulses (times ++ last ∷ []) s ≡ record {
        clock_count = 0;
        clock_batch_start = some last;
        queue = s.queue ++ tick_event source last device_id s.clock_batch_start ∷ [];
      }
  unfolding pulses enqueue on_clock
  beat_spans_boundaries [] last s whole = ground (arith, whole)
  beat_spans_boundaries (now ∷ rest) last s whole =
      let short : ltb (s.clock_count + 1) 24 ≡ true = ground (arith, whole) in
      rw (short, pulses)
        (beat_spans_boundaries rest last (record s { clock_count = s.clock_count + 1 })
          (omega (arith, whole)))
