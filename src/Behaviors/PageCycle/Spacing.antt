-- ===== src/Behaviors/PageCycle/Spacing.antt =====
-- When the rotation may act: not under the screensaver, not twice within an interval, and not while
-- a person's page change pauses it.
use native.Mathlib.Nat.{le_refl}
use midicrt.Prelude.{
  ℕ, ◌+◌, ◌≤◌, ◌<◌, ◌≡◌, ◌≢◌, refl, Option, none, some, String, List, [], ◌∷◌, arith, ==_iff,
  text_test, length,
}
use midicrt.Behaviors.PageCycle.{PageCycle, notify_page_action, next_target, fire, tick}
use midicrt.Behaviors.PageCycle.Targets.{SameConfig, seek-SameConfig}

-- The times and pages of successive ticks.
pub data Tick : Type 0 where
  at : ℕ → ℕ → String → Tick

unfoldable pub ticks : PageCycle → List Tick → PageCycle
ticks s [] = s
ticks s (at now last_activity current ∷ rest) = ticks (tick s now last_activity current).0 rest

-- None of the ticks asks for anything.
abbrev pub Silent : PageCycle → List Tick → Type 0
Silent s [] = Unit
Silent s (at now last_activity current ∷ rest) =
    ((tick s now last_activity current).1 ≡ none) × Silent (tick s now last_activity current).0 rest

-- The ticks lie from one time up to before another.
abbrev pub Within : ℕ → ℕ → List Tick → Type 0
Within from until [] = Unit
Within from until (at now last_activity current ∷ rest) =
    (from ≤ now) × (now < until) × Within from until rest

-- The rotation last switched, or was blocked, not before a time.
abbrev NotBefore : Option ℕ → ℕ → Type 0
NotBefore none from = ⊥
NotBefore (some t) from = from ≤ t

fire-SameConfig :
    (s : PageCycle) (now : ℕ) → SameConfig (record s { last_switch = some now }) (fire s now).0
unfolding fire next_target
fire-SameConfig s now = seek-SameConfig (length s.pages) 0 (record s { last_switch = some now })

silent_tick :
    (s : PageCycle) (from now last_activity : ℕ) (current : String)
    → NotBefore s.last_switch from
    → from ≤ now
    → now < from + s.interval
    → ((tick s now last_activity current).1 ≡ none)
      × NotBefore (tick s now last_activity current).0.last_switch from
      × ((tick s now last_activity current).0.interval ≡ s.interval)
unfolding tick
silent_tick s from now last_activity current h le lt = ground arith

Silent-ticks :
    (s : PageCycle) (from : ℕ) (l : List Tick)
    → NotBefore s.last_switch from
    → Within from (from + s.interval) l
    → Silent s l
Silent-ticks s from [] h w = tt
Silent-ticks s from (at now last_activity current ∷ rest) h w =
    let (silent, later, same) = silent_tick s from now last_activity current h w.0 w.1 in
    (silent, Silent-ticks (tick s now last_activity current).0 from rest later (rw same w.2))

acting_tick :
    (s : PageCycle) (now last_activity : ℕ) (current : String)
    → (tick s now last_activity current).1 ≢ none
    → ((tick s now last_activity current).0.last_switch ≡ some now)
      × ((tick s now last_activity current).0.interval ≡ s.interval)
unfolding tick
acting_tick s now last_activity current acts =
    grind (arith, fire-SameConfig s now, fire-SameConfig (record s { paused_until = none }) now)

-- After a tick that asks for a page, no tick within the interval that follows asks for anything,
-- whatever pages show, and whether or not the screensaver comes and goes meanwhile.
pub switches_apart :
    (s : PageCycle) (now last_activity : ℕ) (current : String) (later : List Tick)
    → (tick s now last_activity current).1 ≢ none
    → Within now (now + s.interval) later
    → Silent (tick s now last_activity current).0 later
switches_apart s now last_activity current later acts w =
    let (from, same) = acting_tick s now last_activity current acts in
    Silent-ticks (tick s now last_activity current).0 now later (rw from (le_refl now)) (rw same w)

paused_tick :
    (s : PageCycle) (until now last_activity : ℕ) (current : String)
    → s.paused_until ≡ some until
    → now < until
    → ((tick s now last_activity current).1 ≡ none)
      × ((tick s now last_activity current).0.paused_until ≡ some until)
unfolding tick
paused_tick s until now last_activity current p lt = ground arith

paused_ticks :
    (s : PageCycle) (until : ℕ) (l : List Tick)
    → s.paused_until ≡ some until
    → Within 0 until l
    → Silent s l
paused_ticks s until [] p w = tt
paused_ticks s until (at now last_activity current ∷ rest) p w =
    let (silent, still) = paused_tick s until now last_activity current p w.1 in
    (silent, paused_ticks (tick s now last_activity current).0 until rest still w.2)

-- After a page action of a client, no tick before the end of the pause asks for anything; a page action
-- of any other origin, such as a binding's or the rotation's own, changes nothing.
pub human_pause :
    (s : PageCycle) (origin : String) (now : ℕ) (later : List Tick)
    → (origin ≡ "client"
        → Within 0 (now + s.user_pause) later
        → Silent (notify_page_action s origin now) later)
      × (origin ≢ "client" → notify_page_action s origin now ≡ s)
unfolding notify_page_action
human_pause s origin now later = (
  λ client w.
      rw ((==_iff origin "client").1 client) (paused_ticks _ (now + s.user_pause) later refl w),
  λ other. ground (arith, ==_iff origin "client"),
)
