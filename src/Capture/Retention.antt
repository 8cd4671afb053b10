-- ===== src/Capture/Retention.antt =====
-- How many sessions a sweep leaves, and which.
use midicrt.Prelude.{
  ℕ, zero, suc, ◌+◌, ◌-◌, ◌≤◌, ◌≡◌, refl, sym, ap, ◌∙◌, subst, Bool, true, false, not, Option, none,
  some, String, List, [], ◌∷◌, arith, if◌then◌else◌, leb, ==_iff, ==_refl, text_test, elem, keep,
  length, take, Bool-cases, inl, inr, if_true, if_false,
}
use midicrt.Capture.{Row, Sink}
use midicrt.Capture.Sessions.{
  load_index, load_from, insert_row, by_start, unpinned, ids_of, victims, remove_files,
  sweep_locked, sweep_retention,
}

-- The number of rows that pass a test.
abbrev count : (Row → Bool) → List Row → ℕ
count p [] = 0
count p (r ∷ rows) = if p r then suc (count p rows) else count p rows

count-insert_row :
    (p : Row → Bool) (r : Row) (rows : List Row) → count p (insert_row r rows) ≡ count p (r ∷ rows)
unfolding insert_row
count-insert_row p r [] = refl
count-insert_row p r (q ∷ rows) = ground (arith, count-insert_row p r rows)

count-by_start : (p : Row → Bool) (rows : List Row) → count p (by_start rows) ≡ count p rows
unfolding by_start
count-by_start p [] = refl
count-by_start p (r ∷ rows) =
    ground (arith, count-by_start p rows, count-insert_row p r (by_start rows))

count-take : (p : Row → Bool) (n : ℕ) (rows : List Row) → count p (take n rows) ≤ count p rows
count-take p zero rows = omega arith
count-take p (suc n) [] = omega arith
count-take p (suc n) (r ∷ rows) = ground (arith, count-take p n rows)

any_row : Row → Bool
any_row r = true

length-count : (rows : List Row) → length rows ≡ count any_row rows
unfolding any_row
length-count [] = refl
length-count (r ∷ rows) = ap suc (length-count rows)

length-by_start : (rows : List Row) → length (by_start rows) ≡ length rows
length-by_start rows =
    length-count (by_start rows) ∙ count-by_start any_row rows ∙ sym (length-count rows)

length-take : (n : ℕ) (rows : List Row) → n ≤ length rows → length (take n rows) ≡ n
length-take zero rows h = refl
length-take (suc n) [] h = absurd (omega (arith, h))
length-take (suc n) (r ∷ rows) h = ap suc (length-take n rows (omega (arith, h)))

-- Rows whose ids all stand in a list.
abbrev Listed : List String → List Row → Type 0
Listed ids [] = Unit
Listed ids (r ∷ rows) = (elem r.id ids ≡ true) × Listed ids rows

count-Listed :
    (ids : List String) (rows : List Row)
    → Listed ids rows
    → count (λ r. elem r.id ids) rows ≡ length rows
count-Listed ids [] h = refl
count-Listed ids (r ∷ rows) h = ground (arith, h.0, count-Listed ids rows h.1)

wider-Listed :
    (id : String) (ids : List String) (rows : List Row) → Listed ids rows → Listed (id ∷ ids) rows
wider-Listed id ids [] h = tt
wider-Listed id ids (r ∷ rows) h = (ground (arith, h.0), wider-Listed id ids rows h.1)

ids_of-Listed : (rows : List Row) → Listed (ids_of rows) rows
ids_of-Listed [] = tt
ids_of-Listed (r ∷ rows) =
    (rw (==_refl r.id) refl, wider-Listed r.id (ids_of rows) rows (ids_of-Listed rows))

-- What is kept of a list and what is not make up the list.
count-kept :
    (p : Row → Bool) (rows : List Row)
    → length (keep (λ r. not (p r)) rows) + count p rows ≡ length rows
count-kept p [] = refl
count-kept p (r ∷ rows) = ground (arith, count-kept p rows)

keep-unpinned : (p : Row → Bool) (rows : List Row) → unpinned (keep p rows) ≡ keep p (unpinned rows)
keep-unpinned p [] = refl
keep-unpinned p (r ∷ rows) = ground (arith, keep-unpinned p rows)

-- The rows that a sweep leaves.
abbrev left_by : ℕ → List Row → List Row
left_by retention rows = keep (λ r. not (elem r.id (ids_of (victims retention rows)))) rows

few_left :
    (retention : ℕ) (rows : List Row) → length (unpinned (left_by retention rows)) ≤ retention - 1
unfolding victims
few_left retention rows =
    let free = unpinned rows in
    let excess = length free - (retention - 1) in
    let chosen = take excess (by_start free) in
    let gone = λ (r : Row). elem r.id (ids_of chosen) in
    let many : count gone free ≡ count gone (by_start free) = sym (count-by_start gone free) in
    let all : count gone chosen ≡ length chosen =
      count-Listed (ids_of chosen) chosen (ids_of-Listed chosen) in
    let size : length chosen ≡ excess =
      length-take excess (by_start free) (omega (arith, length-by_start free)) in
    rw (keep-unpinned (λ r. not (gone r)) rows)
      (omega (arith, count-kept gone free, many, count-take gone excess (by_start free), all, size))

-- No id stands twice.
abbrev pub Apart : List Row → Type 0
Apart [] = Unit
Apart (r ∷ rows) = (elem r.id (ids_of rows) ≡ false) × Apart rows

-- No pinned row has an id of the list.
abbrev Clear : List String → List Row → Type 0
Clear ids [] = Unit
Clear ids (r ∷ rows) = (r.pinned ≡ true → elem r.id ids ≡ false) × Clear ids rows

abbrev pub pinned_rows : List Row → List Row
pinned_rows rows = keep (λ r. r.pinned) rows

elem-unpinned :
    (x : String) (rows : List Row)
    → elem x (ids_of rows) ≡ false
    → elem x (ids_of (unpinned rows)) ≡ false
elem-unpinned x [] h = refl
elem-unpinned x (r ∷ rows) h = ground (arith, h, elem-unpinned x rows)

more-Clear :
    (i : String) (ids : List String) (rows : List Row)
    → elem i (ids_of rows) ≡ false
    → Clear ids rows
    → Clear (i ∷ ids) rows
more-Clear i ids [] h k = tt
more-Clear i ids (r ∷ rows) h k = (
  (λ pinned. ground (arith, h, k.0 pinned, ==_iff r.id i, ==_iff i r.id)),
  more-Clear i ids rows (ground (arith, h)) k.1,
)

unpinned-Clear : (rows : List Row) → Apart rows → Clear (ids_of (unpinned rows)) rows
unpinned-Clear [] h = tt
unpinned-Clear (r ∷ rows) h = elim (Bool-cases r.pinned) [
  | inl pinned ↦
      let same : unpinned (r ∷ rows) ≡ unpinned rows =
        if_false (not r.pinned) (r ∷ unpinned rows) (unpinned rows) (ap not pinned) in
      subst (λ u. Clear (ids_of u) (r ∷ rows)) (sym same)
        ((λ _. elem-unpinned r.id rows h.0), unpinned-Clear rows h.1)
  | inr free ↦
      let same : unpinned (r ∷ rows) ≡ r ∷ unpinned rows =
        if_true (not r.pinned) (r ∷ unpinned rows) (unpinned rows) (ap not free) in
      subst (λ u. Clear (ids_of u) (r ∷ rows)) (sym same)
        (
          (λ pinned. absurd (cc (pinned, free))),
          more-Clear r.id (ids_of (unpinned rows)) rows h.0 (unpinned-Clear rows h.1),
        )
]

smaller-Clear :
    (ids ids' : List String) (rows : List Row)
    → ((x : String) → elem x ids' ≡ true → elem x ids ≡ true)
    → Clear ids rows
    → Clear ids' rows
smaller-Clear ids ids' [] fewer h = tt
smaller-Clear ids ids' (r ∷ rows) fewer h =
    ((λ pinned. ground (arith, h.0 pinned, fewer r.id)), smaller-Clear ids ids' rows fewer h.1)

keep-Clear :
    (ids : List String) (rows : List Row)
    → Clear ids rows
    → pinned_rows (keep (λ r. not (elem r.id ids)) rows) ≡ pinned_rows rows
keep-Clear ids [] h = refl
keep-Clear ids (r ∷ rows) h = ground (arith, h.0, keep-Clear ids rows h.1)

elem-insert_row :
    (x : String) (r : Row) (rows : List Row)
    → elem x (ids_of (insert_row r rows)) ≡ elem x (ids_of (r ∷ rows))
unfolding insert_row
elem-insert_row x r [] = refl
elem-insert_row x r (q ∷ rows) = ground (arith, elem-insert_row x r rows)

elem-by_start :
    (x : String) (rows : List Row) → elem x (ids_of (by_start rows)) ≡ elem x (ids_of rows)
unfolding by_start
elem-by_start x [] = refl
elem-by_start x (r ∷ rows) =
    ground (arith, elem-by_start x rows, elem-insert_row x r (by_start rows))

elem-take :
    (x : String) (n : ℕ) (rows : List Row)
    → elem x (ids_of (take n rows)) ≡ true
    → elem x (ids_of rows) ≡ true
elem-take x zero rows h = absurd (cc h)
elem-take x (suc n) [] h = absurd (cc h)
elem-take x (suc n) (r ∷ rows) h = ground (arith, h, elem-take x n rows)

pinned_left :
    (retention : ℕ) (rows : List Row)
    → Apart rows
    → pinned_rows (left_by retention rows) ≡ pinned_rows rows
unfolding victims
pinned_left retention rows h =
    let free = unpinned rows in
    let excess = length free - (retention - 1) in
    keep-Clear (ids_of (take excess (by_start free))) rows (
      smaller-Clear (ids_of free) (ids_of (take excess (by_start free))) rows
        (λ x e. sym (elem-by_start x free) ∙ elem-take x excess (by_start free) e)
        (unpinned-Clear rows h))

-- The rows of the index, which is rebuilt if it is damaged.
abbrev pub rows_of : Sink → List Row
rows_of s = (load_index s).1

load_keeps :
    (o : Option (List Row)) (s : Sink)
    → s.index ≡ o
    → ((load_from o s).0.index ≡ some (load_from o s).1)
      × ((load_from o s).0.retention ≡ s.retention)
load_keeps none s h = (refl, refl)
load_keeps (some rows) s h = (h, refl)

rows_of-index : (s : Sink) (rows : List Row) → s.index ≡ some rows → rows_of s ≡ rows
unfolding load_index
rows_of-index s rows h = ap (λ o. (load_from o s).1) h

-- A sweep of the index that another process does not hold leaves one place, at least, for a session that
-- nobody pinned, and every session that is pinned; the ids of the index must differ.
pub swept_bounded :
    (s : Sink)
    → Apart (rows_of s)
    → let s' = sweep_retention false s in
      (length (unpinned (rows_of s')) ≤ s.retention - 1)
      × (pinned_rows (rows_of s') ≡ pinned_rows (rows_of s))
unfolding sweep_retention sweep_locked
swept_bounded s h =
    let (loaded, rows) = load_index s in
    let (index, same) : (loaded.index ≡ some rows) × (loaded.retention ≡ s.retention) =
      unfold load_index in load_keeps s.index s refl in
    let left = left_by loaded.retention rows in
    let gone = ids_of (victims loaded.retention rows) in
    let swept = record loaded { files = remove_files gone loaded.files; index = some left } in
    elim (Bool-cases (leb (length (unpinned rows)) (loaded.retention - 1))) [
      | inl few ↦ rw few (
          subst (λ x. (length (unpinned x) ≤ s.retention - 1) × (pinned_rows x ≡ pinned_rows rows))
            (sym (rows_of-index loaded rows index)) (ground (arith, few, same), refl))
      | inr many ↦ rw many (
          subst (λ x. (length (unpinned x) ≤ s.retention - 1) × (pinned_rows x ≡ pinned_rows rows))
            (sym (rows_of-index swept left refl))
            (
              subst (λ n. length (unpinned left) ≤ n - 1) same (few_left loaded.retention rows),
              pinned_left loaded.retention rows h,
            ))
    ]
