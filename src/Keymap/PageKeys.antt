-- ===== src/Keymap/PageKeys.antt =====
-- The keys of single pages of src/midicrt/engine/keymap.py: those that come with the program, and what a file
-- puts on top of them.
use midicrt.Prelude.{
  ◌≡◌, ◌∙◌, refl, sym, ap, Option, none, some, String, [], ◌∷◌, if_true, if_false, Bool-cases, inl,
  inr, ◌==◌, ==_iff, text_test, map,
}
use midicrt.Dict.{Dict, get, put, get-put, Distinct}
use midicrt.Actions.Defs.{Value, text, number, another}
use midicrt.Keymap.{KeyEntry, bare, table, RawValue, overlay, split_global_and_pages, or_empty}

unfoldable pub merge_pages :
    Dict String (Dict String KeyEntry)
    → Dict String (Dict String KeyEntry)
    → Dict String (Dict String KeyEntry)
merge_pages merged [] = merged
merge_pages merged ((page, overrides) ∷ rest) =
    merge_pages (put merged page (overlay (or_empty (get merged page)) overrides)) rest

-- A negative number or a fraction is a value of another kind here.
abbrev pub with_one : String → String → Value → KeyEntry
with_one action arg value = table action ((arg, value) ∷ [])

abbrev pub send_key : String → String × KeyEntry
send_key key = (key, with_one "sendnotes.key" "key" (text key))

abbrev pub pianoroll_keys : Dict String KeyEntry
pianoroll_keys =
    ("[", with_one "pianoroll.zoom" "delta" another)
    ∷ ("]", with_one "pianoroll.zoom" "delta" another)
    ∷ ("p", bare "pianoroll.projection_toggle")
    ∷ ("d", with_one "pianoroll.channel_toggle" "channel" (number 10))
    ∷ ("*", with_one "pianoroll.channels" "spec" (text ""))
    ∷ ("KEY_UP", with_one "pianoroll.pan" "delta" (number 1))
    ∷ ("KEY_DOWN", with_one "pianoroll.pan" "delta" another)
    ∷ []

abbrev pub sendnotes_keys : Dict String KeyEntry
sendnotes_keys = map send_key (
    "z" ∷ "s" ∷ "x" ∷ "d" ∷ "c" ∷ "v" ∷ "g" ∷ "b" ∷ "h" ∷ "j" ∷ "m" ∷ "l" ∷ "n" ∷ ";" ∷ "/" ∷ ","
    ∷ "." ∷ "[" ∷ "]" ∷ "-" ∷ "=" ∷ [])

-- `DEFAULT_PAGE_KEYMAPS`
unfoldable pub default_page_keymaps : Dict String (Dict String KeyEntry)
default_page_keymaps =
    ("pianoroll", pianoroll_keys)
    ∷ ("img2txtviz", ("i", bare "img2txtviz.invert") ∷ ("c", bare "img2txtviz.charset") ∷ [])
    ∷ ("sendnotes", sendnotes_keys)
    ∷ (
      "spectrum",
      ("[", with_one "spectrum.bins" "delta" another)
          ∷ ("]", with_one "spectrum.bins" "delta" (number 8))
          ∷ [],
    )
    ∷ []

-- `load_page_keymaps`, of what the file holds.
unfoldable pub load_page_keymaps : Dict String RawValue → Dict String (Dict String KeyEntry)
load_page_keymaps raw = merge_pages default_page_keymaps (split_global_and_pages raw).1

abbrev pub or_else : Option KeyEntry → Option KeyEntry → Option KeyEntry
or_else none under = under
or_else (some e) under = some e

-- An entry of the upper table, if it has one, else of the lower.
pub get-overlay :
    (under over : Dict String KeyEntry) (key : String)
    → Distinct over
    → get (overlay under over) key ≡ or_else (get over key) (get under key)
unfolding overlay get
get-overlay under [] key apart = refl
get-overlay under ((k, e) ∷ over) key (fresh, apart) =
    get-overlay (put under k e) over key apart ∙ elim (Bool-cases (k == key)) [
      | inl same ↦
          let names : k ≡ key = (==_iff k key).0 same in
          ap (λ o. or_else o (get (put under k e) key)) (sym (ap (get over) names) ∙ fresh)
          ∙ get-put under k key e
          ∙ if_true (k == key) (some e) (get under key) same
          ∙ sym (
              ap (λ o. or_else o (get under key)) (if_true (k == key) (some e) (get over key) same))
      | inr other ↦
          ap (or_else (get over key))
            (get-put under k key e ∙ if_false (k == key) (some e) (get under key) other)
          ∙ sym (
              ap (λ o. or_else o (get under key))
                (if_false (k == key) (some e) (get over key) other))
    ]

pub section-merge :
    (d files : Dict String (Dict String KeyEntry)) (page : String)
    → Distinct files
    → or_empty (get (merge_pages d files) page)
      ≡ overlay (or_empty (get d page)) (or_empty (get files page))
unfolding merge_pages overlay get
section-merge d [] page apart = refl
section-merge d ((p, over) ∷ files) page (fresh, apart) =
    let merged = overlay (or_empty (get d p)) over in
    section-merge (put d p merged) files page apart ∙ elim (Bool-cases (p == page)) [
      | inl same ↦
          let names : p ≡ page = (==_iff p page).0 same in
          ap (λ o. overlay (or_empty (get (put d p merged) page)) (or_empty o))
            (sym (ap (get files) names) ∙ fresh)
          ∙ ap or_empty
              (get-put d p page merged ∙ if_true (p == page) (some merged) (get d page) same)
          ∙ ap (λ q. overlay (or_empty (get d q)) over) names
          ∙ sym (
              ap (λ o. overlay (or_empty (get d page)) (or_empty o))
                (if_true (p == page) (some over) (get files page) same))
      | inr other ↦
          ap (λ o. overlay (or_empty o) (or_empty (get files page)))
            (get-put d p page merged ∙ if_false (p == page) (some merged) (get d page) other)
          ∙ sym (
              ap (λ o. overlay (or_empty (get d page)) (or_empty o))
                (if_false (p == page) (some over) (get files page) other))
    ]
