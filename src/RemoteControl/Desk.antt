-- ===== src/RemoteControl/Desk.antt =====
-- The part of `Engine` (src/midicrt/engine/core.py) that the page actions and the remote control
-- change. `sent` is every frame handed to the MIDI output, `notices` every event broadcast, `marks`
-- every mark offered to the capture, each oldest first. Left out are the keymap's tables and the
-- marquee, which `_set_current_page` brings to the new page.
use midicrt.Prelude.{
  ℕ, ◌+◌, ◌-◌, ◌%◌, Bool, ◌&&◌, Option, none, some, String, List, [], ◌∷◌, ◌++◌, if◌then◌else◌, leb,
  ◌==◌, text_test, elem, length, get_elem?,
}
use midicrt.Prelude.Int.{ℤ, pos, negsuc}
use midicrt.Dict.{Dict, has}
use midicrt.RemoteControl.Frames.{FrameError}

pub data Notice : Type 0 where
  page_changed : String → Notice
  keymap_changed : Notice
  sysex_command : Option ℕ → Option ℕ → List ℕ → Option FrameError → Notice

pub data Mark : Type 0 where
  page_mark : String → Mark
  goto_mark : String → Mark
  enable_mark : Bool → Mark

pub data Detail : Type 0 where
  no_cmd bad_version unknown missing_page missing_arg capture_fail needs_version : Detail
  caps_sent caps_local_only screen_on screen_off cycle_on cycle_off : Detail
  invalid_page : ℕ → Detail
  to_page : String → Detail

-- The parts that `build_status_text` writes into one text.
pub record Status : Type 0 where
  pub version : Option ℕ
  pub cmd : ℕ
  pub ok : Bool
  pub detail : Detail

pub record Desk : Type 0 where
  pub pages : List String
  pub current_page : String
  pub last_activity : ℕ
  pub cycling : Bool
  pub status : Option (Status × ℕ)
  pub sent : List (List ℕ)
  pub notices : List Notice
  pub marks : List Mark

-- `PAGE_IDS` of src/midicrt/analyzers/marquee.py.
abbrev pub page_ids : Dict String ℕ
page_ids =
    ("help", 0)
    ∷ ("harmony", 1)
    ∷ ("sendnotes", 2)
    ∷ ("ccmonitor", 4)
    ∷ ("ccdashboard", 5)
    ∷ ("eventlog", 6)
    ∷ ("progchanges", 7)
    ∷ ("pianoroll", 8)
    ∷ ("spectrum", 9)
    ∷ ("tuner", 10)
    ∷ ("chordkey", 11)
    ∷ ("voices", 13)
    ∷ ("config", 14)
    ∷ ("img2txtviz", 17)
    ∷ []

unfoldable pub set_current_page : String → Desk → Desk
set_current_page name s = record s {
  current_page = name;
  marks = s.marks ++ page_mark name ∷ [];
  notices = s.notices ++ page_changed name ∷ keymap_changed ∷ [];
}

-- `order.index(page)`, which raises when the page is not in the list.
unfoldable pub index : String → List String → Option ℕ
index page [] = none
index page (x ∷ xs) =
    let rest = index page xs in
    if x == page then some 0 else elim rest [ none ↦ none | some i ↦ some (i + 1) ]

-- The page at a place that is computed from the current one's; `none` is an exception.
unfoldable pub turn : (ℕ → ℕ) → Desk → Option Desk
turn step s = elim (index s.current_page s.pages) [
  | none ↦ none
  | some i ↦ elim (get_elem? s.pages (step i)) [
    | none ↦ none
    | some name ↦ some (set_current_page name s)
  ]
]

unfoldable pub page_next : Desk → Option Desk
page_next s = turn (λ i. (i + 1) % length s.pages) s

-- Python's `(i - 1) % n`, which is not negative.
unfoldable pub page_prev : Desk → Option Desk
page_prev s = turn (λ i. (i + length s.pages - 1) % length s.pages) s

-- A page of the first version that is not in the roster is passed over; any other unknown page is
-- an `ActionError`.
unfoldable pub page_goto : String → Desk → Option Desk
page_goto name s =
    if elem name s.pages
    then some (set_current_page name s)
    else if has page_ids name
    then some s
    else none

unfoldable pub page_jump : ℤ → Desk → Option Desk
page_jump (negsuc n) s = some s
page_jump (pos position) s =
    if leb 1 position && leb position (length s.pages)
    then elim (get_elem? s.pages (position - 1)) [
      | none ↦ none
      | some name ↦ some (set_current_page name s)
    ]
    else some s

unfoldable pub pagecycle_enable : Bool → Desk → Desk
pagecycle_enable enabled s = record s { cycling = enabled }

-- An exception leaves the state as it was.
abbrev pub or_same : Option Desk → Desk → Desk
or_same none s = s
or_same (some s') s = s'
