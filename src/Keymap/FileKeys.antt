-- ===== src/Keymap/FileKeys.antt =====
-- What the keys of a page do, from the file of src/midicrt/engine/keymap.py to `_recompute_keymap` of `Engine`
-- (src/midicrt/engine/core.py).
use midicrt.Prelude.{
  ◌≡◌, ◌∙◌, refl, ap, Bool, true, false, ◌&&◌, ◌||◌, not, Option, none, some, String, List, [], ◌∷◌,
  if◌then◌else◌, Bool-cases, inl, inr, ◌==◌, ==_iff, text_test, arith, elem, starts_with,
}
use midicrt.Dict.{Dict, get, put, has, keys, put-Distinct, elem-keys, Distinct}
use midicrt.Actions.Defs.{Value}
use midicrt.Keymap.{
  KeyEntry, bare, table, malformed, Schemas, is_client, all_in, args_match_schema, bare_usable,
  table_usable, entry_usable, filter_known_actions, overlay, RawValue, shaped,
  split_global_and_pages, id_goto_bindings, default_keymap, load_keymap, or_empty, recompute_keymap,
}
use midicrt.Keymap.PageKeys.{
  load_page_keymaps, default_page_keymaps, or_else, get-overlay, section-merge,
}
use midicrt.Keymap.Reading.{
  global_entry, section_entries, asked, or_else-shape_of, get-shaped, shaped-Distinct, get-global,
  global-Distinct, get-sections, sections-Distinct, or_empty-shaped_section,
}

-- Every one of these names is among those.
unfoldable pub among : List String → List String → Bool
among [] those = true
among (name ∷ names) those = if elem name those then among names those else false

abbrev pub takes : List String → Option (Dict String String) → Bool
takes names none = false
takes names (some schema) = if among names (keys schema) then among (keys schema) names else false

-- Whether an entry can be served: a text that names one of the client's own actions, or an action of the
-- roster without arguments; a table that names an action of the roster with exactly its arguments.
unfoldable pub can_serve : Schemas → KeyEntry → Bool
can_serve actions (bare name) = starts_with "client." name || takes [] (get actions name)
can_serve actions (table name args) =
    if starts_with "client." name then false else takes (keys args) (get actions name)
can_serve actions malformed = false

unfoldable pub served : Schemas → Option KeyEntry → Option KeyEntry
served actions none = none
served actions (some e) = if can_serve actions e then some e else none

all_in-among :
    {V : Type 0} (names : List String) (d : Dict String V)
    → all_in names (λ name. has d name) ≡ among names (keys d)
unfolding all_in among
all_in-among [] d = refl
all_in-among (name ∷ names) d = ground (arith, elem-keys d name, all_in-among names d)

args_match-takes :
    (args : Dict String Value) (o : Option (Dict String String))
    → table_usable args o ≡ takes (keys args) o
unfolding args_match_schema
args_match-takes args none = refl
args_match-takes args (some schema) =
    ground (arith, all_in-among (keys args) schema, all_in-among (keys schema) args)

bare-takes : (o : Option (Dict String String)) → bare_usable o ≡ takes [] o
unfolding among
bare-takes none = refl
bare-takes (some []) = refl
bare-takes (some ((k, v) ∷ schema)) = refl

entry_usable-can_serve :
    (actions : Schemas) (e : KeyEntry) → entry_usable actions e ≡ can_serve actions e
unfolding entry_usable can_serve is_client
entry_usable-can_serve actions (bare name) = rw (bare-takes (get actions name)) (ground arith)
entry_usable-can_serve actions (table name args) = rw (args_match-takes args (get actions name))
entry_usable-can_serve actions malformed = refl

get-filter :
    (actions : Schemas) (d : Dict String KeyEntry) (key : String)
    → Distinct d
    → get (filter_known_actions actions d) key ≡ served actions (get d key)
unfolding filter_known_actions served get
get-filter actions [] key apart = refl
get-filter actions ((k, e) ∷ d) key (fresh, apart) =
    ground (arith, entry_usable-can_serve actions e, get-filter actions d key apart, ==_iff k key)

filter-Distinct :
    (actions : Schemas) (d : Dict String KeyEntry)
    → Distinct d
    → Distinct (filter_known_actions actions d)
unfolding filter_known_actions served
filter-Distinct actions [] apart = tt
filter-Distinct actions ((k, e) ∷ d) (fresh, apart) = elim (Bool-cases (can_serve actions e)) [
  | inl fits ↦
      rw (entry_usable-can_serve actions e, fits)
        (get-filter actions d k apart ∙ ap (served actions) fresh, filter-Distinct actions d apart)
  | inr useless ↦ rw (entry_usable-can_serve actions e, useless) (filter-Distinct actions d apart)
]

overlay-Distinct :
    (under over : Dict String KeyEntry) → Distinct under → Distinct (overlay under over)
unfolding overlay
overlay-Distinct under [] apart = apart
overlay-Distinct under ((k, e) ∷ over) apart =
    overlay-Distinct (put under k e) over (put-Distinct under k e apart)

-- Whether no key stands twice, as a test.
apart : Dict String KeyEntry → Bool
apart [] = true
apart ((k, e) ∷ d) = let rest = apart d in not (has d k) && rest

apart-Distinct : (d : Dict String KeyEntry) → apart d ≡ true → Distinct d
unfolding apart
apart-Distinct [] h = tt
apart-Distinct ((k, e) ∷ d) h = ground (arith, apart-Distinct d)

all_apart : Dict String (Dict String KeyEntry) → Bool
unfolding apart
all_apart [] = true
all_apart ((page, d) ∷ rest) = let later = all_apart rest in apart d && later

all_apart-Distinct :
    (sections : Dict String (Dict String KeyEntry)) (page : String)
    → all_apart sections ≡ true
    → Distinct (or_empty (get sections page))
unfolding all_apart get
all_apart-Distinct [] page h = tt
all_apart-Distinct ((p, d) ∷ rest) page h = elim (Bool-cases (p == page)) [
  | inl same ↦ rw same (apart-Distinct d (ground arith))
  | inr other ↦ rw other (all_apart-Distinct rest page (ground arith))
]

default_page_keymaps-Distinct :
    (page : String) → Distinct (or_empty (get default_page_keymaps page))
unfolding all_apart apart get default_page_keymaps
default_page_keymaps-Distinct page = all_apart-Distinct default_page_keymaps page refl

default_keymap-Distinct : Distinct default_keymap
unfolding apart get default_keymap id_goto_bindings
default_keymap-Distinct = apart-Distinct default_keymap refl

-- The entry that a key has on a page: that of the file's section of the page, if it names an action, else
-- that of the program for the page.
abbrev pub page_entry : Dict String RawValue → String → String → Option KeyEntry
page_entry raw page key =
    asked (get (section_entries (get raw page)) key)
      (get (or_empty (get default_page_keymaps page)) key)

-- The entry that a key has on every page.
abbrev pub every_entry : Dict String RawValue → String → Option KeyEntry
every_entry raw key = asked (global_entry (get raw key)) (get default_keymap key)

-- What a key does on a page, when no key stands twice in the file or in the section of the page: what its
-- entry for the page says, if the roster of actions can serve it; else what its entry for every page says,
-- if the roster can serve that; else nothing. Each of the two entries is the file's where that is a text or a
-- table with an action and arguments, and the program's own otherwise; an entry of the file that the
-- roster cannot serve is dropped, and the program's own entry beneath it does not come back.
pub key_on_page :
    (actions : Schemas) (raw : Dict String RawValue) (page key : String)
    → Distinct raw
    → Distinct (section_entries (get raw page))
    → get (recompute_keymap actions (load_keymap raw) (load_page_keymaps raw) page).keymap key
      ≡ or_else (served actions (page_entry raw page key)) (served actions (every_entry raw key))
unfolding recompute_keymap load_keymap load_page_keymaps
key_on_page actions raw page key once once_in =
    let own = or_empty (get default_page_keymaps page) in
    let entries = section_entries (get raw page) in
    let merged : or_empty (get (load_page_keymaps raw) page) ≡ overlay own (shaped entries) =
      section-merge default_page_keymaps (split_global_and_pages raw).1 page
        (sections-Distinct raw once)
      ∙ ap (overlay own)
          (ap or_empty (get-sections raw page once) ∙ or_empty-shaped_section (get raw page)) in
    let here : get (overlay own (shaped entries)) key ≡ page_entry raw page key =
      get-overlay own (shaped entries) key (shaped-Distinct entries once_in)
      ∙ ap (λ o. or_else o (get own key)) (get-shaped entries key once_in)
      ∙ or_else-shape_of (get entries key) (get own key) in
    let everywhere : get (load_keymap raw) key ≡ every_entry raw key =
      get-overlay default_keymap (split_global_and_pages raw).0 key (global-Distinct raw once)
      ∙ ap (λ o. or_else o (get default_keymap key)) (get-global raw key once)
      ∙ or_else-shape_of (global_entry (get raw key)) (get default_keymap key) in
    let global = filter_known_actions actions (load_keymap raw) in
    let of_page = filter_known_actions actions (overlay own (shaped entries)) in
    let page_apart = overlay-Distinct own (shaped entries) (default_page_keymaps-Distinct page) in
    let global_apart =
      overlay-Distinct default_keymap (split_global_and_pages raw).0 default_keymap-Distinct in
    ap (λ d. get (overlay global (filter_known_actions actions d)) key) merged
    ∙ get-overlay global of_page key (filter-Distinct actions _ page_apart)
    ∙ ap (λ o. or_else o (get global key))
        (get-filter actions _ key page_apart ∙ ap (served actions) here)
    ∙ ap (or_else (served actions (page_entry raw page key)))
        (get-filter actions _ key global_apart ∙ ap (served actions) everywhere)
