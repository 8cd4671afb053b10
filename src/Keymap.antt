-- ===== src/Keymap.antt =====
-- src/midicrt/engine/keymap.py, and `_recompute_keymap` of `Engine` (src/midicrt/engine/core.py): the keys
-- that a client may press, out of tables that a file may have filled with anything. An entry that is
-- neither a text nor a table with the text of an action is `malformed`. The reading of the file is
-- left out.
pub mod PageKeys
pub mod Reading
pub mod FileKeys
pub mod Usable
mod Tests
use midicrt.Prelude.{
  ℕ, ◌-◌, ltb, get_elem?, Bool, true, false, ◌&&◌, Option, none, some, String, List, [], ◌∷◌,
  if◌then◌else◌, text_test, starts_with,
}
use midicrt.Dict.{Dict, get, put, has, keys}
use midicrt.Actions.Defs.{Value, text}
use midicrt.RemoteControl.Desk.{page_ids}

pub data KeyEntry : Type 0 where
  bare : String → KeyEntry
  table : String → Dict String Value → KeyEntry
  malformed : KeyEntry

abbrev pub Schemas : Type 0
Schemas = Dict String (Dict String String)

-- The names of the client's own pseudo-actions.
unfoldable pub is_client : String → Bool
is_client name = starts_with "client." name

unfoldable pub all_in : List String → (String → Bool) → Bool
all_in [] known = true
all_in (name ∷ names) known = let rest = all_in names known in known name && rest

-- `_validate_args_table_against_schema`: `set(args) == set(schema)`
unfoldable pub args_match_schema : Dict String Value → Dict String String → Bool
args_match_schema args schema =
    all_in (keys args) (λ name. has schema name) && all_in (keys schema) (λ name. has args name)

abbrev pub bare_usable : Option (Dict String String) → Bool
bare_usable none = false
bare_usable (some []) = true
bare_usable (some (arg ∷ schema)) = false

abbrev pub table_usable : Dict String Value → Option (Dict String String) → Bool
table_usable args none = false
table_usable args (some schema) = args_match_schema args schema

unfoldable pub entry_usable : Schemas → KeyEntry → Bool
entry_usable actions (bare name) = if is_client name then true else bare_usable (get actions name)
entry_usable actions (table name args) =
    if is_client name then false else table_usable args (get actions name)
entry_usable actions malformed = false

unfoldable pub filter_known_actions : Schemas → Dict String KeyEntry → Dict String KeyEntry
filter_known_actions actions [] = []
filter_known_actions actions ((key, entry) ∷ keymap) =
    let rest = filter_known_actions actions keymap in
    if entry_usable actions entry then (key, entry) ∷ rest else rest

-- `{**under, **over}`: the keys of `over` hide those of `under`.
unfoldable pub overlay : {V : Type 0} → Dict String V → Dict String V → Dict String V
overlay under [] = under
overlay under ((key, v) ∷ over) = overlay (put under key v) over

-- An entry of the file: a text, a table with an "action" and its "args" (none where these are not of
-- the right kind; no "args" are empty ones), or anything else.
pub data RawEntry : Type 0 where
  words : String → RawEntry
  action_table : Option String → Option (Dict String Value) → RawEntry
  odd : RawEntry

-- A value of the file's table of keys: an entry, or the section of a page.
pub data RawValue : Type 0 where
  entry : RawEntry → RawValue
  section : Dict String RawEntry → RawValue

-- `_validate_entry_shape`
unfoldable pub validate_entry_shape : RawEntry → Option KeyEntry
validate_entry_shape (words name) = some (bare name)
validate_entry_shape (action_table (some action) (some args)) = some (table action args)
validate_entry_shape _ = none

abbrev pub add_entry : String → Option KeyEntry → Dict String KeyEntry → Dict String KeyEntry
add_entry key none rest = rest
add_entry key (some e) rest = (key, e) ∷ rest

-- The entries of a section that have a shape.
unfoldable pub shaped : Dict String RawEntry → Dict String KeyEntry
shaped [] = []
shaped ((key, raw) ∷ rest) = add_entry key (validate_entry_shape raw) (shaped rest)

-- `_split_global_and_pages`
unfoldable pub split_global_and_pages :
    Dict String RawValue → Dict String KeyEntry × Dict String (Dict String KeyEntry)
split_global_and_pages [] = ([], [])
split_global_and_pages ((key, entry raw) ∷ rest) =
    let (global, pages) = split_global_and_pages rest in
    (add_entry key (validate_entry_shape raw) global, pages)
split_global_and_pages ((page, section entries) ∷ rest) =
    let (global, pages) = split_global_and_pages rest in (global, (page, shaped entries) ∷ pages)

-- The key of a page's number: a digit, or a shifted digit from 10 on.
abbrev pub digit_row : List String
digit_row = "0" ∷ "1" ∷ "2" ∷ "3" ∷ "4" ∷ "5" ∷ "6" ∷ "7" ∷ "8" ∷ "9" ∷ []

abbrev pub shifted_digit_row : List String
shifted_digit_row = ")" ∷ "!" ∷ "@" ∷ "#" ∷ "$" ∷ "%" ∷ "^" ∷ "&" ∷ "*" ∷ "(" ∷ []

unfoldable pub goto_entry : String → KeyEntry
goto_entry name = table "page.goto" (("name", text name) ∷ [])

-- `_default_v1_id_goto_bindings`; the source raises for a number that is not below 20.
unfoldable pub id_goto_bindings : Dict String ℕ → Dict String KeyEntry
id_goto_bindings [] = []
id_goto_bindings ((name, id) ∷ rest) =
    let key = if ltb id 10 then get_elem? digit_row id else get_elem? shifted_digit_row (id - 10) in
    let later = id_goto_bindings rest in
    elim key [ none ↦ later | some k ↦ (k, goto_entry name) ∷ later ]

-- `DEFAULT_KEYMAP`
unfoldable pub default_keymap : Dict String KeyEntry
default_keymap =
    ("q", bare "client.quit")
    ∷ ("c", bare "eventlog.clear")
    ∷ ("n", bare "page.next")
    ∷ ("?", bare "client.help_toggle")
    ∷ ("KEY_ESCAPE", bare "client.help_toggle")
    ∷ id_goto_bindings page_ids

-- `load_keymap`, of what the file holds.
unfoldable pub load_keymap : Dict String RawValue → Dict String KeyEntry
load_keymap raw = overlay default_keymap (split_global_and_pages raw).0

pub record Keymaps : Type 0 where
  pub keymap_global : Dict String KeyEntry
  pub keymap_page : Dict String KeyEntry
  pub keymap : Dict String KeyEntry

abbrev pub or_empty : Option (Dict String KeyEntry) → Dict String KeyEntry
or_empty none = []
or_empty (some entries) = entries

-- `_recompute_keymap`, of the raw tables and the page that is shown.
unfoldable pub recompute_keymap :
    Schemas → Dict String KeyEntry → Dict String (Dict String KeyEntry) → String → Keymaps
recompute_keymap actions raw_global raw_pages current_page =
    let global = filter_known_actions actions raw_global in
    let page = filter_known_actions actions (or_empty (get raw_pages current_page)) in
    record { keymap_global = global; keymap_page = page; keymap = overlay global page }
