-- ===== src/Keymap/Reading.antt =====
-- What a file of keys names, and what `_split_global_and_pages` of src/midicrt/engine/keymap.py reads in it.
use midicrt.Prelude.{
  ◌≡◌, ◌∙◌, refl, ap, Option, none, some, String, [], ◌∷◌, if◌then◌else◌, ◌==◌, ==_iff, text_test,
  arith,
}
use midicrt.Dict.{Dict, get, Distinct}
use midicrt.Keymap.{
  KeyEntry, bare, table, RawEntry, words, action_table, odd, RawValue, entry, section,
  validate_entry_shape, add_entry, shaped, split_global_and_pages, or_empty,
}
use midicrt.Keymap.PageKeys.{or_else}

-- What the file says of a key outside every section, and what a section says.
abbrev pub global_entry : Option RawValue → Option RawEntry
global_entry (some (entry raw)) = some raw
global_entry _ = none

abbrev pub section_entries : Option RawValue → Dict String RawEntry
section_entries (some (section entries)) = entries
section_entries _ = []

-- The entry of a key: what the file says, if it names an action, else what comes with the program.
unfoldable pub asked : Option RawEntry → Option KeyEntry → Option KeyEntry
asked none own = own
asked (some (words name)) own = some (bare name)
asked (some (action_table (some action) (some args))) own = some (table action args)
asked (some (action_table (some action) none)) own = own
asked (some (action_table none args)) own = own
asked (some odd) own = own

abbrev pub shape_of : Option RawEntry → Option KeyEntry
shape_of none = none
shape_of (some raw) = validate_entry_shape raw

pub or_else-shape_of :
    (raw : Option RawEntry) (own : Option KeyEntry) → or_else (shape_of raw) own ≡ asked raw own
unfolding validate_entry_shape asked
or_else-shape_of none own = refl
or_else-shape_of (some (words name)) own = refl
or_else-shape_of (some (action_table (some action) (some args))) own = refl
or_else-shape_of (some (action_table (some action) none)) own = refl
or_else-shape_of (some (action_table none args)) own = refl
or_else-shape_of (some odd) own = refl

get-add_entry :
    (k key : String) (o : Option KeyEntry) (rest : Dict String KeyEntry)
    → get rest k ≡ none
    → get (add_entry k o rest) key ≡ (if k == key then o else get rest key)
unfolding get
get-add_entry k key none rest fresh = ground (arith, ==_iff k key)
get-add_entry k key (some e) rest fresh = refl

add_entry-Distinct :
    (k : String) (o : Option KeyEntry) (rest : Dict String KeyEntry)
    → get rest k ≡ none
    → Distinct rest
    → Distinct (add_entry k o rest)
add_entry-Distinct k none rest fresh apart = apart
add_entry-Distinct k (some e) rest fresh apart = (fresh, apart)

pub get-shaped :
    (entries : Dict String RawEntry) (key : String)
    → Distinct entries
    → get (shaped entries) key ≡ shape_of (get entries key)
unfolding shaped get
get-shaped [] key apart = refl
get-shaped ((k, raw) ∷ rest) key (fresh, apart) =
    get-add_entry k key (validate_entry_shape raw) (shaped rest)
      (get-shaped rest k apart ∙ ap shape_of fresh)
    ∙ ground (arith, get-shaped rest key apart)

pub shaped-Distinct :
    (entries : Dict String RawEntry) → Distinct entries → Distinct (shaped entries)
unfolding shaped
shaped-Distinct [] apart = tt
shaped-Distinct ((k, raw) ∷ rest) (fresh, apart) =
    add_entry-Distinct k (validate_entry_shape raw) (shaped rest)
      (get-shaped rest k apart ∙ ap shape_of fresh) (shaped-Distinct rest apart)

pub get-global :
    (raw : Dict String RawValue) (key : String)
    → Distinct raw
    → get (split_global_and_pages raw).0 key ≡ shape_of (global_entry (get raw key))
unfolding split_global_and_pages get
get-global [] key apart = refl
get-global ((k, entry e) ∷ rest) key (fresh, apart) =
    get-add_entry k key (validate_entry_shape e) (split_global_and_pages rest).0
      (get-global rest k apart ∙ ap (λ o. shape_of (global_entry o)) fresh)
    ∙ ground (arith, get-global rest key apart)
get-global ((k, section entries) ∷ rest) key (fresh, apart) =
    ground (arith, get-global rest key apart, ==_iff k key)

pub global-Distinct :
    (raw : Dict String RawValue) → Distinct raw → Distinct (split_global_and_pages raw).0
unfolding split_global_and_pages
global-Distinct [] apart = tt
global-Distinct ((k, entry e) ∷ rest) (fresh, apart) =
    add_entry-Distinct k (validate_entry_shape e) (split_global_and_pages rest).0
      (get-global rest k apart ∙ ap (λ o. shape_of (global_entry o)) fresh)
      (global-Distinct rest apart)
global-Distinct ((k, section entries) ∷ rest) (fresh, apart) = global-Distinct rest apart

abbrev pub shaped_section : Option RawValue → Option (Dict String KeyEntry)
shaped_section (some (section entries)) = some (shaped entries)
shaped_section _ = none

pub get-sections :
    (raw : Dict String RawValue) (page : String)
    → Distinct raw
    → get (split_global_and_pages raw).1 page ≡ shaped_section (get raw page)
unfolding split_global_and_pages get
get-sections [] page apart = refl
get-sections ((k, entry e) ∷ rest) page (fresh, apart) =
    ground (arith, get-sections rest page apart, ==_iff k page)
get-sections ((k, section entries) ∷ rest) page (fresh, apart) =
    ground (arith, get-sections rest page apart)

pub sections-Distinct :
    (raw : Dict String RawValue) → Distinct raw → Distinct (split_global_and_pages raw).1
unfolding split_global_and_pages
sections-Distinct [] apart = tt
sections-Distinct ((k, entry e) ∷ rest) (fresh, apart) = sections-Distinct rest apart
sections-Distinct ((k, section entries) ∷ rest) (fresh, apart) =
    (get-sections rest k apart ∙ ap shaped_section fresh, sections-Distinct rest apart)

pub or_empty-shaped_section :
    (o : Option RawValue) → or_empty (shaped_section o) ≡ shaped (section_entries o)
unfolding shaped
or_empty-shaped_section none = refl
or_empty-shaped_section (some (entry raw)) = refl
or_empty-shaped_section (some (section entries)) = refl
