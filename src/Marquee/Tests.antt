-- ===== src/Marquee/Tests.antt =====
-- The marquee of three pages, one of them without a number.
use midicrt.Prelude.{
  ℕ, ◌≡◌, refl, String, List, [], ◌∷◌, arith, if◌then◌else◌, eqb, length, take, chars, text_test,
}
use midicrt.Dict.{get, put}
use midicrt.Marquee.{
  Text, header_scroll_speed, autoconnect_window_size, init, entries_of, sorted_entries,
  sort_entries, insert_entry, token, joined, marquee_text, offsets_from, page_start_offsets, tick,
  scrolled, reset_to_page, scroll_window, marquee_window_text,
}
use midicrt.Marquee.Window.{Act, passes, turns, act, run, line_filled, turned_leftmost}

abbrev printed : ℕ → Text
printed n = if eqb n 1 then chars "1" else if eqb n 13 then chars "13" else chars "?"

abbrev same : String → Text
same name = chars name

abbrev roster : List String
roster = "voices" ∷ "screensaver" ∷ "harmony" ∷ []

-- What the tests compute with.
execution : Unit {0}
unfolding get put autoconnect_window_size init entries_of sorted_entries sort_entries insert_entry
    token joined marquee_text offsets_from page_start_offsets tick scrolled reset_to_page
    scroll_window marquee_window_text act run
execution = tt

text_of_three : marquee_text printed same roster ≡ chars "[1:HARMONY]  [13:VOICES]"
unfolding execution
text_of_three = refl

abbrev acts : List Act
acts = passes 1000 ∷ turns "voices" 1500 ∷ passes 2800 ∷ passes 900 ∷ []

-- After 1.3 seconds the window has moved on by five characters.
scrolls_on :
    marquee_window_text
      (run (passes 1000 ∷ turns "voices" 1500 ∷ passes 2800 ∷ []) (init printed same roster 4000))
      12
    ≡ chars "OICES]    [1"
unfolding execution
scrolls_on = refl

windows : (autoconnect_window_size 30 20 ≡ 15) × (autoconnect_window_size 14 20 ≡ 8)
unfolding execution
windows = (refl, refl)

line_filled_example :
    length (marquee_window_text (run acts (init printed same roster header_scroll_speed)) 20) ≡ 20
unfolding execution
line_filled_example = line_filled printed same roster header_scroll_speed acts 20

turned_leftmost_example :
    let m = run acts (init printed same roster header_scroll_speed) in
    let turned = (reset_to_page m "voices" 3000).0 in
    (take 11 (marquee_window_text turned 20) ≡ chars "[13:VOICES]")
    × (take 11 (marquee_window_text (tick turned 3000).0 20) ≡ chars "[13:VOICES]")
unfolding execution
turned_leftmost_example =
    turned_leftmost printed same roster header_scroll_speed acts "voices" 3000 20
      (chars "[13:VOICES]") refl refl (omega arith) (omega arith) (omega arith) (omega arith)
