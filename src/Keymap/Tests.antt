-- ===== src/Keymap/Tests.antt =====
-- A table of keys, some of which are of no use.
use midicrt.Prelude.{
  ℕ, ◌+◌, ◌≡◌, refl, false, Option, none, some, String, [], ◌∷◌, text_test, starts_with,
}
use midicrt.Dict.{Dict, get, put, keys}
use midicrt.Actions.Defs.{Value, text, Action, Registry, describe}
use midicrt.Keymap.{
  Schemas, words, odd, entry, section, overlay, validate_entry_shape, shaped,
  split_global_and_pages, goto_entry, id_goto_bindings, default_keymap, load_keymap,
  recompute_keymap, KeyEntry, bare, table, malformed, is_client, all_in, args_match_schema,
  entry_usable, filter_known_actions, RawValue,
}
use midicrt.Keymap.PageKeys.{load_page_keymaps, default_page_keymaps, merge_pages, with_one}
use midicrt.Keymap.Reading.{asked}
use midicrt.Keymap.FileKeys.{among, can_serve, served, key_on_page}
use midicrt.Keymap.Usable.{Works, left_keys_work}

abbrev convert : String → Value → Option Value
convert type_name value = some value

abbrev shown : Value → String
shown value = "?"

abbrev no_json : String → Option Value
no_json t = none

abbrev action : Dict String String → Action convert shown no_json ℕ
action schema = record {
  handler = λ d origin s. (s + 1, some []);
  schema = schema;
  defaults = [];
  wants_origin = false;
}

abbrev registry : Registry convert shown no_json ℕ
registry = ("page.next", action []) ∷ ("page.goto", action (("name", "str") ∷ [])) ∷ []

abbrev no_hook : String → Dict String Value → String → Dict String Value → ℕ → ℕ
no_hook name d origin result s = s

abbrev to_page : KeyEntry
to_page = table "page.goto" (("name", text "voices") ∷ [])

key_execution : Unit {0}
unfolding load_page_keymaps default_page_keymaps merge_pages asked among can_serve served
key_execution = tt

abbrev keymap : Dict String KeyEntry
keymap =
    ("q", bare "client.quit")
    ∷ ("n", bare "page.next")
    ∷ ("g", bare "page.goto")
    ∷ ("3", to_page)
    ∷ ("x", table "client.quit" [])
    ∷ ("y", malformed)
    ∷ ("z", bare "page.nxet")
    ∷ []

execution : Unit {0}
unfolding get describe is_client starts_with all_in args_match_schema entry_usable
    filter_known_actions put overlay validate_entry_shape shaped split_global_and_pages goto_entry
    id_goto_bindings default_keymap load_keymap recompute_keymap
execution = tt

left :
    keys (filter_known_actions (describe convert shown no_json ℕ registry) keymap)
    ≡ "q" ∷ "n" ∷ "3" ∷ []
unfolding execution
left = refl

left_keys_work_example : Works convert shown no_json ℕ no_hook registry "client" 0 to_page
unfolding execution
left_keys_work_example =
    left_keys_work convert shown no_json ℕ no_hook registry keymap
      (("voices", ("3", malformed) ∷ []) ∷ []) "voices" "3" to_page "client" 0 refl

-- The file hides a key of the program, and the page of number 13 is reached by a shifted 3.
loaded :
    let keys =
      load_keymap
        (("n", entry (words "page.prev")) ∷ ("q", entry odd) ∷ ("voices", section []) ∷ []) in
    (get keys "n" ≡ some (bare "page.prev"))
    × (get keys "q" ≡ some (bare "client.quit"))
    × (get keys "#" ≡ some (goto_entry "voices"))
unfolding execution
loaded = (refl, refl, refl)

-- A file that sets one key of the piano roll, one to an action that there is none of, and one to nothing
-- that has the shape of an entry.
abbrev file : Dict String RawValue
file =
    ("pianoroll", section (("p", words "page.next") ∷ ("d", words "page.nxet") ∷ ("*", odd) ∷ []))
    ∷ ("x", entry (words "page.next"))
    ∷ []

abbrev roster : Schemas
roster =
    ("page.next", [])
    ∷ ("pianoroll.channels", ("spec", "str") ∷ [])
    ∷ ("pianoroll.channel_toggle", ("channel", "int") ∷ [])
    ∷ []

abbrev on_piano_roll : String → Option KeyEntry
on_piano_roll key =
    get (recompute_keymap roster (load_keymap file) (load_page_keymaps file) "pianoroll").keymap key

key_on_page_example : on_piano_roll "p" ≡ some (bare "page.next")
unfolding execution key_execution
key_on_page_example =
    key_on_page roster file "pianoroll" "p" (refl, (refl, tt)) (refl, (refl, (refl, tt)))

-- The entry without a shape leaves the program's own; the one without an action takes it away.
kept_default : on_piano_roll "*" ≡ some (with_one "pianoroll.channels" "spec" (text ""))
unfolding execution key_execution
kept_default = refl

taken_away : on_piano_roll "d" ≡ none
unfolding execution key_execution
taken_away = refl
