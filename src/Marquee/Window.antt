-- ===== src/Marquee/Window.antt =====
-- What a client shows of the marquee, while it scrolls and while pages are turned.
use mathlib.Core.List.{append_assoc}
use mathlib.Core.Option.{none-ne-some}
use native.Mathlib.Nat.{mod-lt, mod-eq_of_lt}
use midicrt.Prelude.{
  ℕ, zero, suc, ◌+◌, ◌%◌, ◌≤◌, ◌<◌, ◌≡◌, ◌∙◌, refl, sym, ap, subst, Bool, true, false, ◌||◌, Option,
  none, some, String, List, [], ◌∷◌, ◌++◌, arith, leb, text_test, Bool-cases, inl, inr, if_true,
  if_false, elem, length, length-append, length-drop, take, drop, min,
}
use midicrt.Prelude.Int.{ℤ, pos, negsuc, sub_ℕ}
use midicrt.Dict.{Dict, get, is_some}
use midicrt.RemoteControl.Desk.{page_ids}
use midicrt.Marquee.{
  Text, gap, Marquee, init, marquee_text, page_start_offsets, scrolled, move_to, tick, reset_from,
  reset_to_page, is_nil, scroll_window, marquee_window_text, or_now,
}
use midicrt.Marquee.Places.{StartsAt, token_of, token_for, offsets-Placed, offsets-all}

-- A tick of the clock, or a page that is turned to.
pub data Act : Type 0 where
  passes : ℕ → Act
  turns : String → ℕ → Act

unfoldable pub act : Act → Marquee → Marquee
act (passes now) m = (tick m now).0
act (turns page now) m = (reset_to_page m page now).0

unfoldable pub run : List Act → Marquee → Marquee
run [] m = m
run (a ∷ acts) m = run acts (act a m)

-- A marquee of this text, at an offset within it.
pub record Shows (text : Text) (offsets : Dict String ℕ) (speed : ℕ) (m : Marquee) : Type 0 where
  pub same : m.text ≡ text
  pub twice : m.doubled ≡ (text ++ gap) ++ (text ++ gap)
  pub period : m.modulo ≡ length text + 4
  pub places : m.page_offsets ≡ offsets
  pub moving : m.speed ≡ speed
  pub within : m.offset < m.modulo

scrolled-lt : (speed modulo base : ℕ) (z : ℤ) → 0 < modulo → scrolled speed modulo base z < modulo
unfolding scrolled
scrolled-lt speed modulo base (pos n) h = mod-lt _ h
scrolled-lt speed modulo base (negsuc n) h = mod-lt _ h

module _ (text : Text) (offsets : Dict String ℕ) (speed : ℕ) where
  moved-Shows :
      (offset : ℕ) (m : Marquee)
      → Shows text offsets speed m
      → offset < m.modulo
      → Shows text offsets speed (move_to offset m).0
  moved-Shows offset m h lt = record {
    same = h.same;
    twice = h.twice;
    period = h.period;
    places = h.places;
    moving = h.moving;
    within = lt;
  }

  tick-Shows :
      (now : ℕ) (m : Marquee) → Shows text offsets speed m → Shows text offsets speed (tick m now).0
  unfolding tick
  tick-Shows now m h =
      let anchored = record m { anchor = some (or_now m.anchor now) } in
      let z = sub_ℕ now (or_now m.anchor now) in
      let h' : Shows text offsets speed anchored = record {
        same = h.same;
        twice = h.twice;
        period = h.period;
        places = h.places;
        moving = h.moving;
        within = h.within;
      } in
      let positive : 0 < m.modulo = omega (arith, h.period) in
      moved-Shows _ anchored h' (elim (Bool-cases (leb m.modulo 0 || leb m.speed 0)) [
        | inl still ↦ subst (λ o. o < m.modulo) (sym (if_true _ 0 _ still)) positive
        | inr on ↦
            subst (λ o. o < m.modulo) (sym (if_false _ 0 _ on))
              (scrolled-lt m.speed m.modulo m.base_offset z positive)
      ])

  reset-Shows :
      (target : Option ℕ) (now : ℕ) (m : Marquee)
      → Shows text offsets speed m
      → Shows text offsets speed (reset_from target m now).0
  reset-Shows none now m h = h
  reset-Shows (some target) now m h =
      let positive : 0 < m.modulo = omega (arith, h.period) in
      let moved = record m { anchor = some now; base_offset = target % m.modulo } in
      let h' : Shows text offsets speed moved = record {
        same = h.same;
        twice = h.twice;
        period = h.period;
        places = h.places;
        moving = h.moving;
        within = h.within;
      } in
      elim (Bool-cases (leb m.modulo 0)) [
        | inl empty ↦
            subst (λ (r : Marquee × Bool). Shows text offsets speed r.0)
              (sym (if_true _ (m, false) _ empty)) h
        | inr some_text ↦
            subst (λ (r : Marquee × Bool). Shows text offsets speed r.0)
              (sym (if_false _ (m, false) _ some_text))
              (moved-Shows (target % m.modulo) moved h' (mod-lt target positive))
      ]

  act-Shows :
      (a : Act) (m : Marquee) → Shows text offsets speed m → Shows text offsets speed (act a m)
  unfolding act reset_to_page
  act-Shows (passes now) m h = tick-Shows now m h
  act-Shows (turns page now) m h = reset-Shows (get m.page_offsets page) now m h

  run-Shows :
      (acts : List Act) (m : Marquee)
      → Shows text offsets speed m
      → Shows text offsets speed (run acts m)
  unfolding run
  run-Shows [] m h = h
  run-Shows (a ∷ acts) m h = run-Shows acts (act a m) (act-Shows a m h)

init-Shows :
    (digits : ℕ → Text) (upper : String → Text) (roster : List String) (speed : ℕ)
    → Shows
        (marquee_text digits upper roster)
        (page_start_offsets digits upper roster)
        speed
        (init digits upper roster speed)
unfolding init
init-Shows digits upper roster speed = record {
  same = refl;
  twice = refl;
  period = refl;
  places = refl;
  moving = refl;
  within = omega arith;
}

length-take : (n : ℕ) (t : Text) → length (take n t) ≡ min n (length t)
length-take zero t = omega arith
length-take (suc n) [] = omega arith
length-take (suc n) (c ∷ t) = omega (arith, length-take n t)

drop-append : (a b : Text) → drop (length a) (a ++ b) ≡ b
drop-append [] b = refl
drop-append (c ∷ a) b = drop-append a b

take-take_append : (p x : Text) (w : ℕ) → length p ≤ w → take (length p) (take w (p ++ x)) ≡ p
take-take_append [] x w h = refl
take-take_append (c ∷ p) x zero h = absurd (omega (arith, h))
take-take_append (c ∷ p) x (suc w) h = ap (λ t. c ∷ t) (take-take_append p x w (omega (arith, h)))

not_nil : (t : Text) → 0 < length t → is_nil t ≡ false
not_nil [] h = absurd (omega (arith, h))
not_nil (c ∷ t) h = refl

-- What is shown of a text that is too wide.
window_slice :
    (text doubled : Text) (offset width : ℕ)
    → 0 < width
    → width < length text
    → offset < length doubled
    → scroll_window text doubled offset width ≡ take width (drop offset doubled)
unfolding scroll_window
window_slice text doubled offset width some_width wide within =
    let none_left : leb width 0 ≡ false = ground (arith, some_width) in
    let too_wide : leb (length text) width ≡ false = ground (arith, wide) in
    let slice = take width (drop (offset % length doubled) doubled) in
    if_false _ [] _ none_left
    ∙ if_false _ text _ too_wide
    ∙ if_false _ [] slice (not_nil doubled (omega (arith, within)))
    ∙ ap (λ o. take width (drop o doubled)) (mod-eq_of_lt within)

length-doubled :
    (text : Text) (offsets : Dict String ℕ) (speed : ℕ) (m : Marquee)
    → Shows text offsets speed m
    → length m.doubled ≡ m.modulo + m.modulo
length-doubled text offsets speed m h =
    ap length h.twice
    ∙ omega (arith, length-append (text ++ gap) (text ++ gap), length-append text gap, h.period)

length-window :
    (text : Text) (offsets : Dict String ℕ) (speed : ℕ) (m : Marquee) (width : ℕ)
    → Shows text offsets speed m
    → length (marquee_window_text m width) ≡ min width (length text)
unfolding marquee_window_text scroll_window
length-window text offsets speed m width h = elim (Bool-cases (leb width 0)) [
  | inl nothing ↦ ap length (if_true (leb width 0) [] _ nothing) ∙ ground (arith, nothing)
  | inr some_width ↦ elim (Bool-cases (leb (length m.text) width)) [
    | inl fits ↦
        ap length (
          if_false (leb width 0) [] _ some_width
          ∙ if_true (leb (length m.text) width) m.text _ fits)
        ∙ ap length h.same
        ∙ ground (arith, fits, ap length h.same)
    | inr wide ↦
        let wide_text : width < length m.text = ground (arith, wide) in
        let doubled = length-doubled text offsets speed m h in
        ap length (
          window_slice m.text m.doubled m.offset width (ground (arith, some_width)) wide_text
            (omega (arith, doubled, h.within)))
        ∙ length-take width (drop m.offset m.doubled)
        ∙ ap (min width) (length-drop m.offset m.doubled)
        ∙ omega (arith, doubled, h.within, h.period, wide_text, ap length h.same)
  ]
]

-- Whatever is turned to and however often the clock ticks, also backwards, a client of any width gets a full
-- line of the marquee: as many characters as fit, or the whole text if it is shorter than the line.
pub line_filled :
    (digits : ℕ → Text) (upper : String → Text) (roster : List String) (speed : ℕ) (acts : List Act)
    (width : ℕ)
    → length (marquee_window_text (run acts (init digits upper roster speed)) width)
      ≡ min width (length (marquee_text digits upper roster))
line_filled digits upper roster speed acts width =
    length-window _ (page_start_offsets digits upper roster) speed _ width
      (run-Shows _ _ speed acts _ (init-Shows digits upper roster speed))

no_time : (now : ℕ) → sub_ℕ now now ≡ pos 0
no_time now = if_true (leb now now) _ _ (ground arith) ∙ ap pos (omega arith)

scrolled-still : (speed modulo base : ℕ) → base < modulo → scrolled speed modulo base (pos 0) ≡ base
unfolding scrolled
scrolled-still speed modulo base h = ap (λ n. n % modulo) (omega arith) ∙ mod-eq_of_lt h

reset_tick :
    (target now : ℕ) (m : Marquee)
    → target < m.modulo
    → 0 < m.speed
    → (tick (reset_from (some target) m now).0 now).0.offset ≡ target
unfolding tick
reset_tick target now m within moves =
    let turned =
      move_to (target % m.modulo)
        (record m { anchor = some now; base_offset = target % m.modulo }) in
    let reset : reset_from (some target) m now ≡ turned =
      if_false (leb m.modulo 0) (m, false) turned (ground (arith, within)) in
    let still : (leb m.modulo 0 || leb m.speed 0) ≡ false = ground (arith, within, moves) in
    let small = mod-eq_of_lt within in
    rw (reset, still)
      (ap (scrolled m.speed m.modulo (target % m.modulo)) (no_time now)
        ∙ ap (λ b. scrolled m.speed m.modulo b (pos 0)) small
        ∙ scrolled-still m.speed m.modulo target within)

some_of : (o : Option ℕ) → is_some o ≡ true → (n : ℕ) × (o ≡ some n)
some_of none h = absurd (cc h)
some_of (some n) h = (n, refl)

numbered :
    (digits : ℕ → Text) (upper : String → Text) (name : String) (id : Option ℕ) (part : Text)
    → token_of digits upper name id ≡ some part
    → is_some id ≡ true
numbered digits upper name none part h = absurd (none-ne-some part h)
numbered digits upper name (some id) part h = refl

-- The slice at a part's place begins with the part, also in the doubled text.
slice_starts :
    (o width : ℕ) (part text more : Text)
    → StartsAt o part text
    → length part ≤ width
    → take (length part) (take width (drop o (text ++ more))) ≡ part
slice_starts o width part text more (before, after, whole, place) fits =
    subst (λ n. take (length part) (take width (drop n (text ++ more))) ≡ part) place
      (subst (λ t. take (length part) (take width (drop (length before) (t ++ more))) ≡ part)
        (sym whole)
        (ap (λ t. take (length part) (take width t))
            (ap (drop (length before)) (append_assoc before (part ++ after) more)
              ∙ drop-append before ((part ++ after) ++ more)
              ∙ append_assoc part after more)
          ∙ take-take_append part (after ++ more) width fits))

at_left :
    (text : Text) (offsets : Dict String ℕ) (speed : ℕ) (m : Marquee) (o width : ℕ) (part : Text)
    → Shows text offsets speed m
    → m.offset ≡ o
    → StartsAt o part text
    → length part ≤ width
    → 0 < width
    → width < length text
    → take (length part) (marquee_window_text m width) ≡ part
unfolding marquee_window_text
at_left text offsets speed m o width part h here starts fits some_width wide =
    let doubled = length-doubled text offsets speed m h in
    ap (take (length part)) (
      window_slice m.text m.doubled m.offset width some_width
        (omega (arith, wide, ap length h.same)) (omega (arith, doubled, h.within))
      ∙ ap (λ n. take width (drop n m.doubled)) here
      ∙ ap (λ t. take width (drop o t)) (h.twice ∙ append_assoc text gap (text ++ gap)))
    ∙ slice_starts o width part text (gap ++ (text ++ gap)) starts fits

offset-reset :
    (target now : ℕ) (m : Marquee)
    → target < m.modulo
    → (reset_from (some target) m now).0.offset ≡ target
offset-reset target now m within =
    ap (λ (r : Marquee × Bool). r.0.offset)
      (if_false (leb m.modulo 0) (m, false) _ (ground (arith, within)))
    ∙ mod-eq_of_lt within

before_end : (o : ℕ) (part text : Text) → StartsAt o part text → o ≤ length text
before_end o part text (before, after, whole, place) =
    omega (arith, ap length whole, length-append before (part ++ after), place)

-- A page of the roster that is turned to, after whatever happened before, is shown at once at the left edge
-- of a line that is too short for the whole marquee but holds the page's entry, and the next tick leaves it
-- there if no time has passed. The page must have a number, and the marquee must scroll.
pub turned_leftmost :
    (digits : ℕ → Text) (upper : String → Text) (roster : List String) (speed : ℕ) (acts : List Act)
    (page : String) (now width : ℕ) (part : Text)
    → elem page roster ≡ true
    → token_for digits upper page ≡ some part
    → length part ≤ width
    → 0 < width
    → width < length (marquee_text digits upper roster)
    → 0 < speed
    → let m = run acts (init digits upper roster speed) in
      let turned = (reset_to_page m page now).0 in
      (take (length part) (marquee_window_text turned width) ≡ part)
      × (take (length part) (marquee_window_text (tick turned now).0 width) ≡ part)
unfolding reset_to_page
turned_leftmost digits upper roster speed acts page now width part listed named fits some_width wide
      moves =
    let text = marquee_text digits upper roster in
    let offsets = page_start_offsets digits upper roster in
    let m = run acts (init digits upper roster speed) in
    let h = run-Shows text offsets speed acts _ (init-Shows digits upper roster speed) in
    let (o, placed) = some_of (get offsets page) (
      offsets-all digits upper roster page listed
        (numbered digits upper page (get page_ids page) part named)) in
    let starts = offsets-Placed digits upper roster page o part placed named in
    let within : o < m.modulo = omega (arith, before_end o part text starts, h.period) in
    let found : get m.page_offsets page ≡ some o = ap (λ d. get d page) h.places ∙ placed in
    let turned = reset_from (some o) m now in
    let h' = reset-Shows text offsets speed (some o) now m h in
    subst
      (λ t.
        (take (length part) (marquee_window_text (reset_from t m now).0 width) ≡ part)
        × (take (length part) (marquee_window_text (tick (reset_from t m now).0 now).0 width)
            ≡ part))
      (sym found)
      (
        at_left text offsets speed turned.0 o width part h' (offset-reset o now m within) starts
            fits some_width wide,
        at_left text offsets speed (tick turned.0 now).0 o width part
            (tick-Shows text offsets speed now turned.0 h')
            (reset_tick o now m within (omega (arith, moves, h.moving))) starts fits some_width
            wide,
      )
