-- ===== src/Engine/AudioGate/Tests.antt =====
-- A page that is shown, left and left alone.
use midicrt.Prelude.{ℕ, ◌≡◌, refl, Bool, true, String, List, [], ◌∷◌, ◌==◌, text_test}
use midicrt.Dict.{get, put}
use midicrt.Engine.AudioGate.{
  Gate, start_capture, stop_capture, closed, start_page, stop_page, tick_page, tick_pages,
  tick_audio_gate,
}
use midicrt.Engine.AudioGate.Starts.{Alternating, ticks, starts_and_stops}

execution : Unit {0}
unfolding get put start_page stop_page tick_page tick_pages tick_audio_gate ticks
execution = tt

abbrev names : List String
names = "spectrum" ∷ "tuner" ∷ []

abbrev shows : String → String → Bool
shows page name = name == page

abbrev todo : List (ℕ × (String → Bool))
todo =
    (1000, shows "tuner")
    ∷ (100, shows "voices")
    ∷ (4900, shows "voices")
    ∷ (200, shows "voices")
    ∷ []

abbrev after : Gate
after = ticks names todo 0 (closed true)

calls_after : after.calls ≡ ("tuner", (stop_capture, 6200)) ∷ ("tuner", (start_capture, 1000)) ∷ []
unfolding execution
calls_after = refl

starts_and_stops_example : Alternating after.calls
starts_and_stops_example = starts_and_stops names todo 0 true
