-- ===== src/Behaviors/PageCycle/Targets.antt =====
-- Which page the rotation picks.
use native.Mathlib.Nat.{mod-lt, mod-eq_of_lt, add-mod_right, zero-add}
use midicrt.Prelude.{
  get_elem?-some, ℕ, zero, suc, ◌+◌, ◌%◌, ◌≤◌, ◌<◌, ◌≡◌, ◌≢◌, ◌∙◌, ap, true, false, none, some,
  String, List, [], ◌∷◌, arith, ==_iff, text_test, elem, length, get_elem?, Bool-cases,
  Option-cases, inl, inr, leb, leb→le, ◌-◌,
}
use midicrt.Behaviors.Intent.{page_goto}
use midicrt.Behaviors.PageCycle.{PageCycle, is_known, warn_missing, seek, next_target, fire, tick}

elem-get_elem? :
    (xs : List String) (i : ℕ) (x : String) → get_elem? xs i ≡ some x → elem x xs ≡ true
elem-get_elem? [] i x h = cc
elem-get_elem? (y ∷ ys) zero x h = ground (arith, ==_iff y x)
elem-get_elem? (y ∷ ys) (suc i) x h = ground (arith, elem-get_elem? ys i x h)

-- What a search keeps: the configuration.
pub record SameConfig (s s' : PageCycle) : Type 0 where
  pub enabled : s'.enabled ≡ s.enabled
  pub interval : s'.interval ≡ s.interval
  pub pages : s'.pages ≡ s.pages
  pub user_pause : s'.user_pause ≡ s.user_pause
  pub screensaver_page : s'.screensaver_page ≡ s.screensaver_page
  pub known_pages : s'.known_pages ≡ s.known_pages
  pub last_switch : s'.last_switch ≡ s.last_switch
  pub paused_until : s'.paused_until ≡ s.paused_until
  pub was_blocked : s'.was_blocked ≡ s.was_blocked

warn_missing-SameConfig : (s : PageCycle) (name : String) → SameConfig s (warn_missing s name)
unfolding warn_missing
warn_missing-SameConfig s name = ground arith

position-warn_missing :
    (s : PageCycle) (name : String) → (warn_missing s name).position ≡ s.position
unfolding warn_missing
position-warn_missing s name = ground arith

pub seek-SameConfig : (left offset : ℕ) (s : PageCycle) → SameConfig s (seek left offset s).0
unfolding seek
seek-SameConfig zero offset s = ground arith
seek-SameConfig (suc left) offset s = grind (
  arith,
  warn_missing-SameConfig,
  λ (n : String). seek-SameConfig left (offset + 1) (warn_missing s n),
)

-- What a search finds is a configured page of the roster.
seek_sound :
    (left offset : ℕ) (s : PageCycle) (name : String)
    → (seek left offset s).1 ≡ some name
    → (elem name s.pages ≡ true) × (is_known s.known_pages name ≡ true)
unfolding seek
seek_sound zero offset s name h = cc
seek_sound (suc left) offset s name h = grind (
  arith,
  elem-get_elem? s.pages ((s.position + offset) % length s.pages) name,
  λ (n : String). seek_sound left (offset + 1) (warn_missing s n) name,
  warn_missing-SameConfig,
)

-- A search that finds nothing has looked at every place that it had rounds for.
seek_complete :
    (left offset : ℕ) (s : PageCycle) (k : ℕ) (name : String)
    → (seek left offset s).1 ≡ none
    → 0 < length s.pages
    → k < left
    → get_elem? s.pages ((s.position + (offset + k)) % length s.pages) ≡ some name
    → is_known s.known_pages name ≡ false
unfolding seek
seek_complete zero offset s k name h some_page lt at = absurd (omega arith)
seek_complete (suc left) offset s zero name h some_page lt at =
    let here : s.position + (offset + 0) ≡ s.position + offset = omega arith in
    grind (arith, rw here at at)
seek_complete (suc left) offset s (suc k) name h some_page lt at =
    let there : s.position + (offset + 1 + k) ≡ s.position + (offset + suc k) = omega arith in
    grind (
      arith,
      get_elem?-some s.pages ((s.position + offset) % length s.pages) (mod-lt _ some_page),
      λ (n : String) (e : (seek left (offset + 1) (warn_missing s n)).1 ≡ none).
          seek_complete left (offset + 1) (warn_missing s n) k name e,
      warn_missing-SameConfig,
      position-warn_missing,
      there,
    )

fire_known :
    (s : PageCycle) (now : ℕ) (name : String)
    → (fire s now).1 ≡ some (page_goto (some name))
    → (elem name s.pages ≡ true) × (is_known s.known_pages name ≡ true)
unfolding fire next_target
fire_known s now name h =
    seek_sound (length s.pages) 0 (record s { last_switch = some now }) name (ground arith)

-- Whatever page a tick asks for is one of the configured pages and in the roster.
pub target_known :
    (s : PageCycle) (now last_activity : ℕ) (current name : String)
    → (tick s now last_activity current).1 ≡ some (page_goto (some name))
    → (elem name s.pages ≡ true) × (is_known s.known_pages name ≡ true)
unfolding tick
target_known s now last_activity current name h =
    grind (arith, fire_known s now name, fire_known (record s { paused_until = none }) now name)

-- If some configured page is in the roster, a search finds a target, wherever the cursor stands.
pub target_found :
    (s : PageCycle) (i : ℕ) (name : String)
    → s.position ≤ length s.pages
    → i < length s.pages
    → get_elem? s.pages i ≡ some name
    → is_known s.known_pages name ≡ true
    → (next_target s).1 ≢ none
unfolding next_target
target_found s i name bound lt at known missed = elim (Bool-cases (leb s.position i)) [
  | inl ahead ↦
      let place : (s.position + (0 + (i - s.position))) % length s.pages ≡ i =
        ap (λ (m : ℕ). m % length s.pages) (omega (arith, leb→le s.position i ahead))
        ∙ mod-eq_of_lt lt in
      let absent =
        seek_complete (length s.pages) 0 s (i - s.position) name missed (omega arith) (omega arith)
          (rw place at) in
      cc
  | inr behind ↦
      let turn : (s.position + (0 + (i + length s.pages - s.position))) % length s.pages ≡ i =
        ap (λ (m : ℕ). m % length s.pages) (omega arith)
        ∙ add-mod_right i (length s.pages)
        ∙ mod-eq_of_lt lt in
      let absent =
        seek_complete (length s.pages) 0 s (i + length s.pages - s.position) name missed
          (omega arith) (ground arith) (rw turn at) in
      cc
]

-- A search passes over the pages that are not in the roster and stops behind the first that is.
seek_first :
    (k left offset : ℕ) (s : PageCycle) (roster : List String) (name : String)
    → s.known_pages ≡ some roster
    → 0 < length s.pages
    → k < left
    → get_elem? s.pages ((s.position + (offset + k)) % length s.pages) ≡ some name
    → elem name roster ≡ true
    → ((j : ℕ) (other : String)
        → j < k
        → get_elem? s.pages ((s.position + (offset + j)) % length s.pages) ≡ some other
        → elem other roster ≡ false)
    → ((seek left offset s).1 ≡ some name)
      × ((seek left offset s).0.position ≡ (s.position + (offset + k)) % length s.pages + 1)
unfolding seek
seek_first k zero offset s roster name known some_page lt at in_it before = absurd (omega arith)
seek_first zero (suc left) offset s roster name known some_page lt at in_it before =
    let here : s.position + (offset + 0) ≡ s.position + offset = omega arith in grind (arith, here)
seek_first (suc k) (suc left) offset s roster name known some_page lt at in_it before =
    let place = (s.position + offset) % length s.pages in
    let (first, found) = get_elem?-some s.pages place (mod-lt _ some_page) in
    let here : s.position + (offset + 0) ≡ s.position + offset = omega arith in
    let absent : elem first roster ≡ false = before 0 first (omega arith) (rw here found) in
    let s' = warn_missing s first in
    let same = warn_missing-SameConfig s first in
    let still = position-warn_missing s first in
    let next : (j : ℕ) → s'.position + (offset + 1 + j) ≡ s.position + (offset + suc j) =
      λ j. omega (arith, still) in
    let rest =
      seek_first k left (offset + 1) s' roster name (same.known_pages ∙ known)
        (rw same.pages some_page) (omega arith) (rw (same.pages, next k) at) in_it
        (λ j other lt at'. before (suc j) other (omega arith) (rw (same.pages, next j) at at')) in
    let rest' : ((seek left (offset + 1) s').1 ≡ some name)
        × ((seek left (offset + 1) s').0.position
            ≡ (s.position + (offset + suc k)) % length s.pages + 1) =
      (
        rest.0,
        rest.1
            ∙ ap (λ (m : ℕ). m % length s'.pages + 1) (next k)
            ∙ ap (λ (ps : List String). (s.position + (offset + suc k)) % length ps + 1) same.pages,
      ) in
    grind (arith, found, absent, rest'.0, rest'.1)

fire_first :
    (k : ℕ) (s : PageCycle) (now : ℕ) (roster : List String) (name : String)
    → s.known_pages ≡ some roster
    → k < length s.pages
    → get_elem? s.pages ((s.position + k) % length s.pages) ≡ some name
    → elem name roster ≡ true
    → ((j : ℕ) (other : String)
        → j < k
        → get_elem? s.pages ((s.position + j) % length s.pages) ≡ some other
        → elem other roster ≡ false)
    → ((fire s now).1 ≡ some (page_goto (some name)))
      × ((fire s now).0.position ≡ (s.position + k) % length s.pages + 1)
unfolding fire next_target
fire_first k s now roster name known lt at in_it before =
    let found =
      seek_first k (length s.pages) 0 (record s { last_switch = some now }) roster name known
        (omega arith) lt (rw (zero-add k) at) in_it
        (λ j other lt at'. before j other lt (rw (zero-add j) at at')) in
    (rw (found.0), rw (zero-add k) at (found.1))

-- When the rotation is on, no pause by a user lasts beyond now, the interval since the last switch is
-- over, and the page shown is not the screen saver and was not at the last tick, a tick asks for the
-- first page in the roster, counted from the cursor on and round the configured pages: those before it
-- that are not in the roster are passed over, and the cursor moves behind it.
pub next_in_roster :
    (s : PageCycle) (now last last_activity : ℕ) (current : String) (k : ℕ) (roster : List String)
    (name : String)
    → s.enabled ≡ true
    → s.was_blocked ≡ false
    → s.last_switch ≡ some last
    → ((until : ℕ) → s.paused_until ≡ some until → until ≤ now)
    → last + s.interval ≤ now
    → current ≢ s.screensaver_page
    → s.known_pages ≡ some roster
    → k < length s.pages
    → get_elem? s.pages ((s.position + k) % length s.pages) ≡ some name
    → elem name roster ≡ true
    → ((j : ℕ) (other : String)
        → j < k
        → get_elem? s.pages ((s.position + j) % length s.pages) ≡ some other
        → elem other roster ≡ false)
    → ((tick s now last_activity current).1 ≡ some (page_goto (some name)))
      × ((tick s now last_activity current).0.position ≡ (s.position + k) % length s.pages + 1)
unfolding tick
next_in_roster s now last last_activity current k roster name on clear switched free over other
      known lt at in_it before =
    let found =
      fire_first k (record s { paused_until = none }) now roster name known lt at in_it before in
    elim (Option-cases s.paused_until) [
      | inl unpaused ↦ grind (arith, found, unpaused, ==_iff current s.screensaver_page)
      | inr (until, there) ↦
          grind (arith, found, there, free until there, ==_iff current s.screensaver_page)
    ]
