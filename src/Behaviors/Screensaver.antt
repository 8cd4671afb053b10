-- ===== src/Behaviors/Screensaver.antt =====
-- src/midicrt/behaviors/screensaver.py, `ScreensaverBehavior`. Times are milliseconds; the source's
-- `now - ref < after_s` is written `now < ref + after`, which is the same also where the difference
-- is negative.
pub mod Restore
pub mod Idle
use midicrt.Prelude.{
  ℕ, ◌+◌, Bool, true, false, not, Option, none, some, String, if◌then◌else◌, ltb, ◌==◌, text_test,
  number_test, option_test,
}
use midicrt.Behaviors.Intent.{Intent, page_goto}

pub record Screensaver : Type 0 where
  pub enabled : Bool
  pub after : ℕ
  pub screensaver_page : String
  pub active : Bool
  pub previous_page : Option String
  pub activity_at_activation : Option ℕ
  pub last_seen_activity : Option ℕ
  pub idle_reference : Option ℕ

abbrev pub init : Bool → ℕ → String → Screensaver
init enabled after page = record {
  enabled = enabled;
  after = after;
  screensaver_page = page;
  active = false;
  previous_page = none;
  activity_at_activation = none;
  last_seen_activity = none;
  idle_reference = none;
}

-- The first call, and every call that sees new activity, takes the activity as the reference.
unfoldable pub track : Screensaver → ℕ → Screensaver
track s last =
    if s.idle_reference == none
    then record s { last_seen_activity = some last; idle_reference = some last }
    else if s.last_seen_activity == some last
    then s
    else record s { last_seen_activity = some last; idle_reference = some last }

-- `now - self._idle_reference_ts < self.after_s`; after `track` there is a reference.
abbrev pub within_grace : Option ℕ → ℕ → ℕ → Bool
within_grace none after now = false
within_grace (some ref) after now = ltb now (ref + after)

when_idle : Screensaver → ℕ → ℕ → String → Screensaver × Option Intent
when_idle s now last current =
    if current == s.screensaver_page
    then (s, none)
    else if within_grace s.idle_reference s.after now
    then (s, none)
    else (
      record s { active = true; previous_page = some current; activity_at_activation = some last },
      some (page_goto (some s.screensaver_page)),
    )

when_active : Screensaver → ℕ → ℕ → String → Screensaver × Option Intent
when_active s now last current =
    if not (current == s.screensaver_page)
    then (
      record s {
        active = false;
        previous_page = none;
        activity_at_activation = none;
        idle_reference = some now;
      },
      none,
    )
    else if s.activity_at_activation == some last
    then (s, none)
    else (
      record s { active = false; previous_page = none; activity_at_activation = none },
      some (page_goto s.previous_page),
    )

proceed : Screensaver → ℕ → ℕ → String → Screensaver × Option Intent
unfolding when_idle when_active
proceed s now last current =
    if s.active then when_active s now last current else when_idle s now last current

unfoldable pub tick : Screensaver → ℕ → ℕ → String → Screensaver × Option Intent
unfolding track proceed
tick s now last current = if s.enabled then proceed (track s last) now last current else (s, none)
