-- ===== src/Behaviors/PageCycle.antt =====
-- src/midicrt/behaviors/pagecycle.py, `PageCycleBehavior`. Times are milliseconds. `position` is the
-- source's `_cursor + 1` before it is reduced by the number of pages, so it starts at 0.
pub mod Targets
pub mod Spacing
use midicrt.Prelude.{
  ℕ, zero, suc, ◌+◌, ◌%◌, Bool, true, false, Option, none, some, String, List, [], ◌∷◌, ◌++◌,
  if◌then◌else◌, ltb, ◌==◌, text_test, elem, length, get_elem?,
}
use midicrt.Behaviors.Intent.{Intent, page_goto}

pub record PageCycle : Type 0 where
  pub enabled : Bool
  pub interval : ℕ
  pub pages : List String
  pub user_pause : ℕ
  pub screensaver_page : String
  pub known_pages : Option (List String)
  pub last_switch : Option ℕ
  pub paused_until : Option ℕ
  pub was_blocked : Bool
  pub position : ℕ
  pub warned_missing : List String

abbrev pub init : Bool → ℕ → List String → ℕ → String → Option (List String) → PageCycle
init enabled interval pages user_pause screensaver_page known_pages = record {
  enabled = enabled;
  interval = interval;
  pages = pages;
  user_pause = user_pause;
  screensaver_page = screensaver_page;
  known_pages = known_pages;
  last_switch = none;
  paused_until = none;
  was_blocked = false;
  position = 0;
  warned_missing = [];
}

-- The one member of `_HUMAN_ORIGINS`.
abbrev pub is_human : String → Bool
is_human origin = origin == "client"

unfoldable pub notify_page_action : PageCycle → String → ℕ → PageCycle
notify_page_action s origin now =
    if is_human origin then record s { paused_until = some (now + s.user_pause) } else s

-- `self._known_pages is None or name in self._known_pages`
abbrev pub is_known : Option (List String) → String → Bool
is_known none name = true
is_known (some names) name = elem name names

unfoldable pub warn_missing : PageCycle → String → PageCycle
warn_missing s name =
    if elem name s.warned_missing
    then s
    else record s { warned_missing = s.warned_missing ++ name ∷ [] }

-- The rounds that are left of `for step in range(1, n + 1)`, the next of which looks at the page
-- `offset` places on from the cursor.
unfoldable pub seek : ℕ → ℕ → PageCycle → PageCycle × Option String
seek zero offset s = (s, none)
seek (suc left) offset s =
    let idx = (s.position + offset) % length s.pages in
    elim (get_elem? s.pages idx) [
      | none ↦ (s, none)
      | some name ↦ elim (is_known s.known_pages name) [
        | true ↦ (record s { position = idx + 1 }, some name)
        | false ↦ seek left (offset + 1) (warn_missing s name)
      ]
    ]

unfoldable pub next_target : PageCycle → PageCycle × Option String
next_target s = seek (length s.pages) 0 s

abbrev intent_of : Option String → Option Intent
intent_of none = none
intent_of (some name) = some (page_goto (some name))

unfoldable pub fire : PageCycle → ℕ → PageCycle × Option Intent
fire s now =
    let (s', target) = next_target (record s { last_switch = some now }) in (s', intent_of target)

abbrev pub before : Option ℕ → ℕ → Bool
before none now = false
before (some t) now = ltb now t

wait_interval : PageCycle → ℕ → ℕ → PageCycle × Option Intent
wait_interval s last now = if ltb now (last + s.interval) then (s, none) else fire s now

unblocked : Option ℕ → PageCycle → ℕ → PageCycle × Option Intent
unfolding wait_interval
unblocked none s now = (record s { last_switch = some now }, none)
unblocked (some last) s now =
    if before s.paused_until now
    then (s, none)
    else wait_interval (record s { paused_until = none }) last now

unfoldable pub tick : PageCycle → ℕ → ℕ → String → PageCycle × Option Intent
unfolding unblocked
tick s now last_activity current =
    if s.enabled
    then (if current == s.screensaver_page
        then (record s { was_blocked = true }, none)
        else if s.was_blocked
        then (record s { was_blocked = false; last_switch = some now }, none)
        else unblocked s.last_switch s now)
    else (s, none)
