-- ===== src/SysexStore/Library.antt =====
-- From the frames that come in to the frames that are played.
use midicrt.Prelude.{
  ℕ, zero, suc, ◌≤◌, ◌<◌, ◌≡◌, refl, ap, ◌∙◌, Bool, true, Option, none, some, String, List, [], ◌∷◌,
  arith, leb, take, length, get_elem?, text_test, ==_refl,
}
use midicrt.Prelude.Int.{pos}
use midicrt.Dict.{Dict, get-put}
use midicrt.Event.{MidiEvent}
use midicrt.SysexStore.{
  Store, Document, RingFrame, init, payload, frame_of, record_received, sanitize_name, ring_frame,
  write_frame, save, play,
}

-- The store after frames came in, the last of them first.
unfoldable pub after_frames : List MidiEvent → Store → Store
after_frames [] s = s
after_frames (ev ∷ earlier) s = record_received ev (after_frames earlier s)

sizes_after :
    (evs : List MidiEvent) (library : Dict String Document)
    → let s = after_frames evs (init library) in (s.ring_size ≡ 20) × (s.max_frame_bytes ≡ 65536)
unfolding after_frames record_received
sizes_after [] library = (refl, refl)
sizes_after (ev ∷ evs) library = sizes_after evs library

get_elem?-take {ℓ} :
    {A : Type ℓ} (n i : ℕ) (xs : List A) → i < n → get_elem? (take n xs) i ≡ get_elem? xs i
get_elem?-take zero i xs h = absurd (omega (arith, h))
get_elem?-take (suc n) i [] h = refl
get_elem?-take (suc n) zero (x ∷ xs) h = refl
get_elem?-take (suc n) (suc i) (x ∷ xs) h = get_elem?-take n i xs (omega (arith, h))

-- The ring holds the last frames, the newest first.
ring_after :
    (evs : List MidiEvent) (library : Dict String Document) (i : ℕ) (ev : MidiEvent)
    → i < 20
    → get_elem? evs i ≡ some ev
    → get_elem? (after_frames evs (init library)).ring i ≡ some (frame_of 65536 ev)
unfolding after_frames record_received
ring_after [] library i ev few at = absurd (cc at)
ring_after (e ∷ evs) library zero ev few at =
    let (size, bytes) = sizes_after evs library in
    let same : e ≡ ev = cc at in rw (size, bytes) (ap (λ x. some (frame_of 65536 x)) same)
ring_after (e ∷ evs) library (suc i) ev few at =
    let (size, bytes) = sizes_after evs library in
    rw (size, bytes)
      (get_elem?-take 20 (suc i) (frame_of 65536 e ∷ (after_frames evs (init library)).ring) few
        ∙ ring_after evs library i ev (omega (arith, few)) at)

module _ (strip : String → String) (accepted : List ℕ → Bool) where
  -- What playing a name hands to the output after a save.
  unfoldable pub play_saved : String → Option (Store × ℕ) → Option (List ℕ × (Bool × ℕ))
  play_saved name none = none
  play_saved name (some (s, size)) = play strip accepted name s

  play_written :
      (name safe : String) (now : ℕ) (frame : RingFrame) (bytes : List ℕ) (s : Store)
      → sanitize_name strip name ≡ some safe
      → play_saved name (write_frame strip safe now frame (some bytes) s)
        ≡ some (bytes, (accepted bytes, length bytes))
  unfolding play_saved write_frame play
  play_written name safe now frame bytes s valid =
      rw (valid, play, get-put, ==_refl {K = String} safe) refl

  -- A frame among the last twenty, of 64 KiB at most, that is saved under a valid name is what playing
  -- this name hands to the MIDI output, byte for byte, whatever the library held before.
  pub saved_plays :
      (evs : List MidiEvent) (library : Dict String Document) (i now : ℕ) (ev : MidiEvent)
      (name safe : String)
      → get_elem? evs i ≡ some ev
      → i < 20
      → length (payload ev.sysex_data) ≤ 65536
      → sanitize_name strip name ≡ some safe
      → let bytes = payload ev.sysex_data in
        play_saved name (save strip name (pos i) now (after_frames evs (init library)))
        ≡ some (bytes, (accepted bytes, length bytes))
  unfolding save ring_frame frame_of
  saved_plays evs library i now ev name safe at few small valid =
      let bytes = payload ev.sysex_data in
      let s = after_frames evs (init library) in
      let fits : leb (length bytes) 65536 ≡ true = ground (arith, small) in
      let there = ring_after evs library i ev few at in
      let kept : (frame_of 65536 ev).bytes ≡ some bytes = unfold frame_of in rw fits refl in
      let saved : save strip name (pos i) now s
          ≡ write_frame strip safe now (frame_of 65536 ev) (some bytes) s =
        unfold save in rw (valid, save, there, kept) refl in
      ap (λ r. play_saved name r) saved
      ∙ play_written name safe now (frame_of 65536 ev) bytes s valid
