-- ===== src/Behaviors/Screensaver/Restore.antt =====
-- The screensaver comes back to the page that it covered, and yields to a manual change.
use midicrt.Prelude.{
  ℕ, ◌+◌, ◌<◌, ◌≡◌, ◌≢◌, true, false, none, some, String, arith, ==_iff, ==_refl, text_test,
  number_test, option_test,
}
use midicrt.Behaviors.Intent.{page_goto}
use midicrt.Behaviors.Screensaver.{Screensaver, tick}

-- When an inactive screensaver acts on a tick, it asks for its own page. From then on a tick that
-- shows that page and no new activity, at any time, changes nothing and asks for nothing, and the
-- first tick there with new activity asks for the page that was covered and ends the activation.
pub covers_and_restores :
    (s : Screensaver) (now last : ℕ) (page : String) (t fresh : ℕ)
    → s.active ≡ false
    → (tick s now last page).1 ≢ none
    → fresh ≢ last
    → let s' = (tick s now last page).0 in
      ((tick s now last page).1 ≡ some (page_goto (some s.screensaver_page)))
      × (tick s' t last s.screensaver_page ≡ (s', none))
      × ((tick s' t fresh s.screensaver_page).1 ≡ some (page_goto (some page)))
      × ((tick s' t fresh s.screensaver_page).0.active ≡ false)
unfolding tick
covers_and_restores s now last page t fresh idle acts new =
    ground (arith, ==_refl s.screensaver_page, ==_iff page s.screensaver_page)

-- A tick that finds the active screensaver's page replaced by another asks for nothing and ends the
-- activation, and until the full idle time has passed since then no tick with the same activity asks
-- for anything, whatever page it shows.
pub override_grace :
    (s : Screensaver) (now last : ℕ) (page other : String) (later : ℕ)
    → s.enabled ≡ true
    → s.active ≡ true
    → page ≢ s.screensaver_page
    → later < now + s.after
    → let s' = (tick s now last page).0 in
      ((tick s now last page).1 ≡ none)
      × (s'.active ≡ false)
      × ((tick s' later last other).1 ≡ none)
unfolding tick
override_grace s now last page other later on active moved early =
    ground (arith, ==_iff page s.screensaver_page, ==_iff other s.screensaver_page)
