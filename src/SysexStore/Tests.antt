-- ===== src/SysexStore/Tests.antt =====
-- Two frames that come in, and one that is saved and played.
use midicrt.Prelude.{ℕ, ◌≡◌, refl, Bool, true, none, some, String, List, [], ◌∷◌, arith}
use midicrt.Prelude.Int.{pos}
use midicrt.Event.{MidiEvent}
use midicrt.Event.Samples.{exclusive}
use midicrt.SysexStore.{
  Overlay, init, record_command_status, sanitize_name, name_valid, rest_valid, is_name_start,
  is_name_char, text_length, save, manufacturer_name, decode_manufacturer, extended, named,
}
use midicrt.SysexStore.Library.{after_frames, play_saved, saved_plays}

abbrev same : String → String
same t = t

abbrev taken : List ℕ → Bool
taken bytes = true

abbrev frames : List MidiEvent
frames = exclusive 2000 (0 ∷ 32 ∷ 41 ∷ 7 ∷ []) ∷ exclusive 1000 (67 ∷ 1 ∷ []) ∷ []

execution : Unit {0}
unfolding sanitize_name name_valid rest_valid is_name_start is_name_char text_length
    manufacturer_name decode_manufacturer
execution = tt

makers :
    (decode_manufacturer (0 ∷ 32 ∷ 41 ∷ 7 ∷ []) ≡ extended 32 41)
    × (decode_manufacturer (67 ∷ 1 ∷ []) ≡ named "Yamaha")
unfolding execution
makers = (refl, refl)

names : (sanitize_name same "../up" ≡ none) × (sanitize_name same "a.b c" ≡ some "a.b c")
unfolding execution
names = (refl, refl)

saved_plays_example :
    play_saved same taken "yamaha 1"
      (save same "yamaha 1" (pos 1) 3000 (after_frames frames (init [])))
    ≡ some (67 ∷ 1 ∷ [], (true, 2))
unfolding execution
saved_plays_example =
    saved_plays same taken frames [] 1 3000 (exclusive 1000 (67 ∷ 1 ∷ [])) "yamaha 1" "yamaha 1"
      refl (omega arith) (omega arith) refl

abbrev showing : Overlay
showing = record { store = record_command_status "PAGE 1" 1000 (init []); active = true }
