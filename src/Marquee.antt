-- ===== src/Marquee.antt =====
-- src/midicrt/analyzers/marquee.py, `MarqueeAnalyzer`, and the part of the line that a client shows of it
-- (`scroll_window` of src/midicrt/clients/chrome.py). A text is a list of characters here; `digits` prints a
-- number, and `upper` is Python's `name.upper()`. The speed is in thousandths of a character per second.
pub mod Places
pub mod Window
mod Tests
use Prim.Native.Char.{Char}
use midicrt.Prelude.{
  ℕ, suc, ◌+◌, ◌-◌, ◌*◌, ◌/◌, ◌%◌, Bool, true, false, ◌||◌, not, Option, none, some, String, List,
  [], ◌∷◌, ◌++◌, if◌then◌else◌, eqb, leb, text_test, length, take, drop, min, max, chars,
}
use midicrt.Prelude.Int.{ℤ, pos, negsuc, sub_ℕ}
use midicrt.Dict.{Dict, get, put}
use midicrt.RemoteControl.Desk.{page_ids}

abbrev pub Text : Type 0
Text = List Char

-- `HEADER_SCROLL_SPEED`
abbrev pub header_scroll_speed : ℕ
header_scroll_speed = 4000

abbrev pub gap : Text
gap = chars "    "

abbrev pub join : Text
join = chars "  "

abbrev pub page_titles : Dict String String
page_titles =
    ("help", "HELP")
    ∷ ("harmony", "HARMONY")
    ∷ ("sendnotes", "SEND NOTES")
    ∷ ("ccmonitor", "CC MONITOR")
    ∷ ("ccdashboard", "CC DASHBOARD")
    ∷ ("eventlog", "EVENT LOG")
    ∷ ("progchanges", "PROGRAM CHANGES")
    ∷ ("pianoroll", "PIANOROLL")
    ∷ ("spectrum", "SPECTRUM")
    ∷ ("tuner", "TUNER")
    ∷ ("chordkey", "CHORD+KEY")
    ∷ ("voices", "VOICES")
    ∷ ("config", "CONFIG")
    ∷ ("img2txtviz", "IMG2TXT")
    ∷ []

pub record Entry : Type 0 where
  pub id : ℕ
  pub name : String
  pub title : Text

-- `autoconnect_window_size`
unfoldable pub autoconnect_window_size : ℕ → ℕ → ℕ
autoconnect_window_size msg_len max_avail =
    if eqb max_avail 0
    then 0
    else if leb msg_len 12
    then min msg_len max_avail
    else min max_avail (max 8 (msg_len / 2))

-- Python's `sorted` by the id, which keeps the order of equals.
unfoldable pub insert_entry : Entry → List Entry → List Entry
insert_entry e [] = e ∷ []
insert_entry e (f ∷ es) =
    let rest = insert_entry e es in if leb e.id f.id then e ∷ f ∷ es else f ∷ rest

unfoldable pub sort_entries : List Entry → List Entry
sort_entries [] = []
sort_entries (e ∷ es) = insert_entry e (sort_entries es)

-- `anchor` is the time from which the text scrolls.
pub record Marquee : Type 0 where
  pub text : Text
  pub doubled : Text
  pub modulo : ℕ
  pub speed : ℕ
  pub anchor : Option ℕ
  pub offset : ℕ
  pub base_offset : ℕ
  pub page_offsets : Dict String ℕ

module _ (digits : ℕ → Text) (upper : String → Text) where
  abbrev pub title_of : String → Option String → Text
  title_of name none = upper name
  title_of name (some title) = chars title

  abbrev pub entry_of : String → Option ℕ → List Entry
  entry_of name none = []
  entry_of name (some id) =
      record { id = id; name = name; title = title_of name (get page_titles name) } ∷ []

  unfoldable pub entries_of : List String → List Entry
  entries_of [] = []
  entries_of (name ∷ roster) = entry_of name (get page_ids name) ++ entries_of roster

  unfoldable pub sorted_entries : List String → List Entry
  sorted_entries roster = sort_entries (entries_of roster)

  unfoldable pub token : Entry → Text
  token e = chars "[" ++ digits e.id ++ chars ":" ++ e.title ++ chars "]"

  unfoldable pub joined : List Entry → Text
  joined [] = []
  joined (e ∷ []) = token e
  joined (e ∷ f ∷ es) = token e ++ join ++ joined (f ∷ es)

  unfoldable pub marquee_text : List String → Text
  marquee_text roster = joined (sorted_entries roster)

  unfoldable pub offsets_from : ℕ → List Entry → Dict String ℕ → Dict String ℕ
  offsets_from place [] offsets = offsets
  offsets_from place (e ∷ []) offsets = put offsets e.name place
  offsets_from place (e ∷ f ∷ es) offsets =
      offsets_from (place + length (token e) + length join) (f ∷ es) (put offsets e.name place)

  unfoldable pub page_start_offsets : List String → Dict String ℕ
  page_start_offsets roster = offsets_from 0 (sorted_entries roster) []

  unfoldable pub init : List String → ℕ → Marquee
  init roster speed_cps =
      let text = marquee_text roster in
      record {
        text = text;
        doubled = (text ++ gap) ++ (text ++ gap);
        modulo = length text + length gap;
        speed = speed_cps;
        anchor = none;
        offset = 0;
        base_offset = 0;
        page_offsets = page_start_offsets roster;
      }

abbrev pub or_now : Option ℕ → ℕ → ℕ
or_now none now = now
or_now (some anchor) now = anchor

-- `(base + int(speed * elapsed)) % modulo`; `int` rounds towards 0, and Python's `%` is not negative.
unfoldable pub scrolled : ℕ → ℕ → ℕ → ℤ → ℕ
scrolled speed modulo base (pos n) = (base + speed * n / 1000000) % modulo
scrolled speed modulo base (negsuc n) =
    (base + (modulo - (speed * suc n / 1000000) % modulo)) % modulo

-- A new offset, and whether it is another.
abbrev pub move_to : ℕ → Marquee → Marquee × Bool
move_to offset m = (record m { offset = offset }, not (eqb offset m.offset))

unfoldable pub tick : Marquee → ℕ → Marquee × Bool
tick m now =
    let anchor = or_now m.anchor now in
    let anchored = record m { anchor = some anchor } in
    move_to
      (if leb m.modulo 0 || leb m.speed 0
        then 0
        else scrolled m.speed m.modulo m.base_offset (sub_ℕ now anchor))
      anchored

abbrev pub reset_from : Option ℕ → Marquee → ℕ → Marquee × Bool
reset_from none m now = (m, false)
reset_from (some target) m now =
    if leb m.modulo 0
    then (m, false)
    else move_to (target % m.modulo)
        (record m { anchor = some now; base_offset = target % m.modulo })

unfoldable pub reset_to_page : Marquee → String → ℕ → Marquee × Bool
reset_to_page m page_name now = reset_from (get m.page_offsets page_name) m now

abbrev pub is_nil : Text → Bool
is_nil [] = true
is_nil (c ∷ cs) = false

unfoldable pub scroll_window : Text → Text → ℕ → ℕ → Text
scroll_window text doubled offset width =
    if leb width 0
    then []
    else if leb (length text) width
    then text
    else if is_nil doubled
    then []
    else take width (drop (offset % length doubled) doubled)

unfoldable pub marquee_window_text : Marquee → ℕ → Text
marquee_window_text m width = scroll_window m.text m.doubled m.offset width
