-- ===== src/Behaviors/Screensaver/Idle.antt =====
-- The screensaver only acts after the full idle time, and never asks for no page.
use midicrt.Prelude.{
  ℕ, ◌+◌, ◌≤◌, ◌≡◌, ◌≢◌, Bool, true, false, Option, none, some, String, arith, ==_iff, text_test,
  number_test, option_test,
}
use midicrt.Dict.{is_some}
use midicrt.Behaviors.Intent.{page_goto}
use midicrt.Behaviors.Screensaver.{Screensaver, init, tick}

-- The states that ticks lead to from a fresh behavior, where no activity lies in the future.
pub data Reach (fresh : Screensaver) : Screensaver → Type 0 where
  here : Reach fresh fresh
  ticked :
      {s : Screensaver} (now last : ℕ) (page : String)
      → last ≤ now
      → Reach fresh s
      → Reach fresh (tick s now last page).0

abbrev LeOption : Option ℕ → Option ℕ → Type 0
LeOption (some a) (some b) = a ≤ b
LeOption _ _ = Unit

-- A covered page is remembered exactly while active, and the idle reference is not before the last
-- activity that was seen.
pub record IsSteady (s : Screensaver) : Type 0 where
  pub covered : is_some s.previous_page ≡ s.active
  pub reference : LeOption s.last_seen_activity s.idle_reference
  pub seen : is_some s.last_seen_activity ≡ is_some s.idle_reference

tick-IsSteady :
    (s : Screensaver) (now last : ℕ) (page : String)
    → last ≤ now
    → IsSteady s
    → IsSteady (tick s now last page).0
unfolding tick
tick-IsSteady s now last page le h = ground (arith, h)

Reach-IsSteady :
    {enabled : Bool} {after : ℕ} {page : String} {s : Screensaver}
    → Reach (init enabled after page) s
    → IsSteady s
Reach-IsSteady here = ground arith
Reach-IsSteady (ticked now last page le r) = tick-IsSteady _ now last page le (Reach-IsSteady r)

-- From a fresh screensaver, after any ticks none of which came before its activity, a tick with the
-- last activity at `last` that asks for anything asks for a page that exists. If the screensaver was
-- inactive, the idle time has passed since that activity and another page is showing; if it was
-- active, its own page is showing.
pub acts_when_idle :
    (enabled : Bool) (after : ℕ) (saver : String) (s : Screensaver) (now last : ℕ) (page : String)
    → Reach (init enabled after saver) s
    → last ≤ now
    → (tick s now last page).1 ≢ none
    → ((tick s now last page).1 ≢ some (page_goto none))
      × (s.active ≡ false → (last + s.after ≤ now) × (page ≢ s.screensaver_page))
      × (s.active ≡ true → page ≡ s.screensaver_page)
unfolding tick
acts_when_idle enabled after saver s now last page r le acts =
    ground (arith, Reach-IsSteady r, ==_iff page s.screensaver_page)
