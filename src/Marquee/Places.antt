-- ===== src/Marquee/Places.antt =====
-- Where in the marquee's text the entry of a page begins.
use mathlib.Core.List.{append-nil, append_assoc}
use mathlib.Core.Option.{some-injective, none-ne-some}
use midicrt.Prelude.{
  ℕ, ◌+◌, ◌≡◌, ◌∙◌, refl, sym, ap, subst, true, ◌||◌, ◌&&◌, Option, none, some, String, List, [],
  ◌∷◌, ◌++◌, arith, leb, text_test, ◌==◌, ==_iff, Bool-cases, inl, inr, if_true, if_false, All,
  elem, map, length, length-append, All-append,
}
use midicrt.Dict.{Dict, get, put, get-put, get-nil, has, is_some}
use midicrt.RemoteControl.Desk.{page_ids}
use midicrt.Marquee.{
  Text, Entry, join, title_of, page_titles, insert_entry, sort_entries, entry_of, entries_of,
  sorted_entries, token, joined, marquee_text, offsets_from, page_start_offsets,
}

-- A part of a text that begins at a place.
abbrev pub StartsAt : ℕ → Text → Text → Type 0
StartsAt o part text =
    (before : Text) × (after : Text) × (text ≡ before ++ (part ++ after)) × (length before ≡ o)

module _ (digits : ℕ → Text) (upper : String → Text) where
  -- The entry of a page, as the marquee shows it.
  abbrev pub token_of : String → Option ℕ → Option Text
  token_of name none = none
  token_of name (some id) = some (
      token digits upper (record {
        id = id;
        name = name;
        title = title_of digits upper name (get page_titles name);
      }))

  abbrev pub token_for : String → Option Text
  token_for name = token_of name (get page_ids name)

  -- An entry that belongs to its name.
  abbrev Named : Entry → Type 0
  Named e = token_for e.name ≡ some (token digits upper e)

  Named-entry :
      (name : String) (id : Option ℕ)
      → get page_ids name ≡ id
      → All Named (entry_of digits upper name id)
  Named-entry name none h = tt
  Named-entry name (some id) h = (ap (token_of name) h, tt)

  entries-Named : (roster : List String) → All Named (entries_of digits upper roster)
  unfolding entries_of
  entries-Named [] = tt
  entries-Named (name ∷ roster) =
      All-append Named _ (entries_of digits upper roster)
        (Named-entry name (get page_ids name) refl) (entries-Named roster)

  insert-Named :
      (e : Entry) (es : List Entry) → Named e → All Named es → All Named (insert_entry e es)
  unfolding insert_entry
  insert-Named e [] h k = (h, tt)
  insert-Named e (f ∷ es) h k = elim (Bool-cases (leb e.id f.id)) [
    | inl first ↦ subst (All Named) (sym (if_true _ (e ∷ f ∷ es) _ first)) (h, k)
    | inr later ↦
        subst (All Named) (sym (if_false _ (e ∷ f ∷ es) _ later)) (k.0, insert-Named e es h k.1)
  ]

  sort-Named : (es : List Entry) → All Named es → All Named (sort_entries es)
  unfolding sort_entries
  sort-Named [] h = tt
  sort-Named (e ∷ es) h = insert-Named e (sort_entries es) h.0 (sort-Named es h.1)

  -- Every place that the dictionary has for a page is where its entry begins.
  abbrev Placed : Text → Dict String ℕ → Type 0
  Placed text offsets =
      (name : String) (o : ℕ) (part : Text)
      → get offsets name ≡ some o
      → token_for name ≡ some part
      → StartsAt o part text

  put-Placed :
      (text : Text) (offsets : Dict String ℕ) (e : Entry) (o : ℕ)
      → Named e
      → StartsAt o (token digits upper e) text
      → Placed text offsets
      → Placed text (put offsets e.name o)
  put-Placed text offsets e o named here before name o' part h k =
      let got = sym (get-put offsets e.name name o) ∙ h in
      elim (Bool-cases (e.name == name)) [
        | inl same ↦
            let names : e.name ≡ name = (==_iff e.name name).0 same in
            let places : o ≡ o' =
              some-injective o o' (sym (if_true _ (some o) (get offsets name) same) ∙ got) in
            let parts : token digits upper e ≡ part =
              some-injective _ _ (sym named ∙ ap token_for names ∙ k) in
            subst (λ o. StartsAt o part text) places
              (subst (λ part. StartsAt o part text) parts here)
        | inr other ↦
            before name o' part (sym (if_false _ (some o) (get offsets name) other) ∙ got) k
      ]

  places :
      (es : List Entry) (done text : Text) (offsets : Dict String ℕ)
      → All Named es
      → text ≡ done ++ joined digits upper es
      → Placed text offsets
      → Placed text (offsets_from digits upper (length done) es offsets)
  unfolding joined offsets_from
  places [] done text offsets named whole h = h
  places (e ∷ []) done text offsets named whole h =
      put-Placed text offsets e (length done) named.0
        (done, [], whole ∙ ap (λ t. done ++ t) (sym (append-nil (token digits upper e))), refl) h
  places (e ∷ f ∷ es) done text offsets named whole h =
      let this = token digits upper e in
      let rest = joined digits upper (f ∷ es) in
      let passed = this ++ join in
      let longer : length (done ++ passed) ≡ length done + length this + length join =
        omega (arith, length-append done passed, length-append this join) in
      subst
        (λ n. Placed text (offsets_from digits upper n (f ∷ es) (put offsets e.name (length done))))
        longer
        (places (f ∷ es) (done ++ passed) text (put offsets e.name (length done)) named.1
          (whole ∙ sym (append_assoc done passed rest))
          (put-Placed text offsets e (length done) named.0
            (done, join ++ rest, whole ∙ ap (λ t. done ++ t) (append_assoc this join rest), refl)
            h))

  -- The entry of a page begins in the text where the dictionary says.
  pub offsets-Placed :
      (roster : List String) (name : String) (o : ℕ) (part : Text)
      → get (page_start_offsets digits upper roster) name ≡ some o
      → token_for name ≡ some part
      → StartsAt o part (marquee_text digits upper roster)
  unfolding page_start_offsets marquee_text sorted_entries
  offsets-Placed roster =
      places (sort_entries (entries_of digits upper roster)) [] _ []
        (sort-Named (entries_of digits upper roster) (entries-Named roster)) refl
        (λ name o part h k. absurd (none-ne-some o (sym (get-nil name) ∙ h)))

  abbrev names : List Entry → List String
  names es = map (λ (e : Entry). e.name) es

  has-put : (d : Dict String ℕ) (k j : String) (v : ℕ) → has (put d k v) j ≡ (k == j || has d j)
  has-put d k j v = ground (arith, get-put d k j v)

  has-offsets_from :
      (es : List Entry) (o : ℕ) (offsets : Dict String ℕ) (name : String)
      → (elem name (names es) || has offsets name) ≡ true
      → has (offsets_from digits upper o es offsets) name ≡ true
  unfolding offsets_from
  has-offsets_from [] o offsets name h = h
  has-offsets_from (e ∷ []) o offsets name h = ground (arith, h, has-put offsets e.name name o)
  has-offsets_from (e ∷ f ∷ es) o offsets name h =
      has-offsets_from (f ∷ es) _ (put offsets e.name o) name
        (ground (arith, h, has-put offsets e.name name o))

  names-insert :
      (e : Entry) (es : List Entry) (name : String)
      → elem name (names (insert_entry e es)) ≡ (e.name == name || elem name (names es))
  unfolding insert_entry
  names-insert e [] name = refl
  names-insert e (f ∷ es) name = ground (arith, names-insert e es name)

  names-sort :
      (es : List Entry) (name : String) → elem name (names (sort_entries es)) ≡ elem name (names es)
  unfolding sort_entries
  names-sort [] name = refl
  names-sort (e ∷ es) name =
      names-insert e (sort_entries es) name ∙ ap (λ b. e.name == name || b) (names-sort es name)

  names-entry :
      (page name : String) (id : Option ℕ) (es : List Entry)
      → elem name (names (entry_of digits upper page id ++ es))
        ≡ ((page == name && is_some id) || elem name (names es))
  names-entry page name none es = ground arith
  names-entry page name (some id) es = ground arith

  names-entries :
      (roster : List String) (name : String)
      → elem name roster ≡ true
      → has page_ids name ≡ true
      → elem name (names (entries_of digits upper roster)) ≡ true
  unfolding entries_of
  names-entries [] name h k = h
  names-entries (page ∷ roster) name h k =
      let rest = entries_of digits upper roster in
      names-entry page name (get page_ids page) rest ∙ elim (Bool-cases (page == name)) [
        | inl same ↦
            let numbered : has page_ids page ≡ true =
              subst (λ p. has page_ids p ≡ true) (sym ((==_iff page name).0 same)) k in
            ap (λ b. (b && has page_ids page) || elem name (names rest)) same
            ∙ ap (λ b. b || elem name (names rest)) numbered
        | inr other ↦
            let listed : elem name roster ≡ true =
              sym (ap (λ b. b || elem name roster) other) ∙ h in
            ap (λ b. (b && has page_ids page) || elem name (names rest)) other
            ∙ names-entries roster name listed k
      ]

  -- Every page of the roster that has a number has a place.
  pub offsets-all :
      (roster : List String) (name : String)
      → elem name roster ≡ true
      → has page_ids name ≡ true
      → has (page_start_offsets digits upper roster) name ≡ true
  unfolding page_start_offsets sorted_entries
  offsets-all roster name h k =
      let listed =
        names-sort (entries_of digits upper roster) name ∙ names-entries roster name h k in
      has-offsets_from (sort_entries (entries_of digits upper roster)) 0 [] name
        (ap (λ b. b || has {V = ℕ} [] name) listed)
