-- ===== src/Behaviors/Tests.antt =====
-- Concrete runs of the two behaviors.
use mathlib.Core.Option.{some-injective}
use midicrt.Prelude.{
  subst, elem, false, ℕ, ◌≡◌, ◌≢◌, refl, true, false, none, some, String, List, [], ◌∷◌, arith,
  ==_iff, text_test,
}
use midicrt.Behaviors.Intent.{page_goto}
use midicrt.Behaviors.Screensaver
use midicrt.Behaviors.Screensaver.{Screensaver, track}
use midicrt.Behaviors.Screensaver.Restore.{covers_and_restores}
use midicrt.Behaviors.PageCycle
use midicrt.Behaviors.PageCycle.{
  PageCycle, is_known, seek, next_target, fire, notify_page_action, warn_missing,
}
use midicrt.Behaviors.PageCycle.Targets.{next_in_roster}
use midicrt.Behaviors.PageCycle.Spacing.{Tick, at, Silent, switches_apart}

abbrev saver : Screensaver
saver = Screensaver.init true 60000 "screensaver"

abbrev idle : Screensaver
idle = (Screensaver.tick saver 1000 1000 "harmony").0

fires : (Screensaver.tick idle 61000 1000 "harmony").1 ≡ some (page_goto (some "screensaver"))
unfolding Screensaver.tick
fires = refl

acts : (Screensaver.tick idle 61000 1000 "harmony").1 ≢ none
acts e = ground (arith, fires, e)

fresh_activity : ◌≢◌ {A = ℕ} 61500 1000
fresh_activity = omega arith

covers_and_restores_example :
    let s' = (Screensaver.tick idle 61000 1000 "harmony").0 in
    ((Screensaver.tick idle 61000 1000 "harmony").1 ≡ some (page_goto (some idle.screensaver_page)))
    × (Screensaver.tick s' 61600 1000 idle.screensaver_page ≡ (s', none))
    × ((Screensaver.tick s' 61600 61500 idle.screensaver_page).1
        ≡ some (page_goto (some "harmony")))
    × ((Screensaver.tick s' 61600 61500 idle.screensaver_page).0.active ≡ false)
unfolding Screensaver.tick
covers_and_restores_example =
    covers_and_restores idle 61000 1000 "harmony" 61600 61500 refl acts fresh_activity

abbrev showing : Screensaver
showing = (Screensaver.tick idle 61000 1000 "harmony").0

notes_page : ◌≢◌ {A = String} "notes" "screensaver"
notes_page e = ground (arith, ==_iff {K = String} "notes" "screensaver", e)

other_page : ◌≢◌ {A = String} "voices" "screensaver"
other_page e = ground (arith, ==_iff {K = String} "voices" "screensaver", e)

abbrev cycle : PageCycle
cycle =
    record (PageCycle.init true 300000 ("notes" ∷ "gone" ∷ "pianoroll" ∷ []) 3600000 "screensaver"
      (some ("pianoroll" ∷ "notes" ∷ []))) { last_switch = some 0; position = 1 }

rotates : (PageCycle.tick cycle 300000 0 "notes").1 ≡ some (page_goto (some "pianoroll"))
unfolding PageCycle.tick fire next_target seek warn_missing
rotates = refl

rotates_on : (PageCycle.tick cycle 300000 0 "notes").1 ≢ none
rotates_on e = ground (arith, rotates, e)

-- The page that is not in the roster is passed over.
next_in_roster_example :
    ((PageCycle.tick cycle 300000 0 "notes").1 ≡ some (page_goto (some "pianoroll")))
    × ((PageCycle.tick cycle 300000 0 "notes").0.position ≡ 3)
next_in_roster_example =
    next_in_roster cycle 300000 0 0 "notes" 1 ("pianoroll" ∷ "notes" ∷ []) "pianoroll" refl refl
      refl (λ until h. absurd (cc h)) (omega arith) notes_page refl (omega arith) refl refl
      (λ j other lt found.
        let first : j ≡ 0 = omega arith in
        let name : some "gone" ≡ some other = rw first at found in
        subst (λ o. elem o ("pianoroll" ∷ "notes" ∷ []) ≡ false) (some-injective "gone" other name)
          refl)

abbrev soon : List Tick
soon = at 300033 0 "pianoroll" ∷ at 400000 0 "screensaver" ∷ at 599999 0 "notes" ∷ []

switches_apart_example : Silent (PageCycle.tick cycle 300000 0 "notes").0 soon
switches_apart_example = switches_apart cycle 300000 0 "notes" soon rotates_on (omega arith)
