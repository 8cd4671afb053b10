-- ===== src/RemoteControl/Turning.antt =====
-- Turning pages: where the page actions and the remote control lead.
use native.Mathlib.Nat.{mod-lt, mod-eq_of_lt, add-mod_right, mod_self}
use midicrt.Prelude.{
  ℕ, zero, suc, ◌+◌, ◌-◌, ◌%◌, ◌<◌, ◌≡◌, refl, ap, sym, ◌∙◌, true, false, Bool-cases, Option, some,
  String, List, [], ◌∷◌, arith, ◌==◌, ==_iff, text_test, number_test, elem, length, get_elem?,
  get_elem?-some, get_elem?-elem, ltb, inl, inr,
}
use midicrt.RemoteControl.Desk.{Desk, set_current_page, index, turn, page_next, page_prev}

-- No page stands twice in the roster.
abbrev pub Roster : List String → Type 0
Roster [] = Unit
Roster (x ∷ xs) = (elem x xs ≡ false) × Roster xs

-- The current page stands in the roster.
abbrev pub Shown : Desk → Type 0
Shown s = elem s.current_page s.pages ≡ true

index-elem :
    (page : String) (xs : List String)
    → elem page xs ≡ true
    → (i : ℕ) × (index page xs ≡ some i) × (i < length xs)
unfolding index
index-elem page [] h = ground (arith, h)
index-elem page (x ∷ xs) h = elim (Bool-cases (x == page)) [
  | inl here ↦ (0, rw here refl, omega arith)
  | inr later ↦
      let (i, at, below) = index-elem page xs (ground (arith, h, later)) in
      (suc i, (rw (later, at) ground arith), omega (arith, below))
]

-- In a roster the page at a place has that place as its index.
index-get_elem? :
    (xs : List String) (i : ℕ) (x : String)
    → Roster xs
    → get_elem? xs i ≡ some x
    → index x xs ≡ some i
unfolding index
index-get_elem? [] i x r h = cc
index-get_elem? (y ∷ xs) zero x r h = ground (arith, h, ==_iff y x)
index-get_elem? (y ∷ xs) (suc i) x r h =
    ground (arith, r, index-get_elem? xs i x r.1 h, get_elem?-elem xs i x h, ==_iff y x)

-- Turning to a place in the roster shows the page there.
turn-step :
    (step : ℕ → ℕ) (s : Desk) (i : ℕ)
    → Roster s.pages
    → index s.current_page s.pages ≡ some i
    → step i < length s.pages
    → (s' : Desk) × (turn step s ≡ some s')
      × (s'.pages ≡ s.pages)
      × (index s'.current_page s.pages ≡ some (step i))
unfolding turn set_current_page
turn-step step s i r at below =
    let (name, there) = get_elem?-some s.pages (step i) below in
    (
      set_current_page name s,
      rw (at, there, turn) refl,
      refl,
      index-get_elem? s.pages (step i) name r there,
    )

forth_back : (i n : ℕ) → i < n → ((i + 1) % n + n - 1) % n ≡ i
forth_back i n lt =
    let back : i + 1 + n - 1 ≡ i + n = omega arith in
    let home : i % n ≡ i = mod-eq_of_lt lt in
    elim (Bool-cases (ltb (i + 1) n)) [
      | inl inside ↦
          let first : (i + 1) % n ≡ i + 1 = mod-eq_of_lt (ground (arith, inside)) in
          rw (first, back, add-mod_right i n) home
      | inr last ↦
          let whole : i + 1 ≡ n = ground (arith, last, lt) in
          let first : (i + 1) % n ≡ 0 = rw whole (mod_self n) in
          let rest : 0 + n - 1 ≡ i = omega (arith, whole) in rw (first, rest) home
    ]

back_forth : (i n : ℕ) → i < n → ((i + n - 1) % n + 1) % n ≡ i
back_forth zero n lt =
    let last : (0 + n - 1) % n ≡ 0 + n - 1 = mod-eq_of_lt (omega (arith, lt)) in
    let whole : 0 + n - 1 + 1 ≡ n = omega (arith, lt) in rw (last, whole) (mod_self n)
back_forth (suc j) n lt =
    let shift : suc j + n - 1 ≡ j + n = omega arith in
    let small : j % n ≡ j = mod-eq_of_lt (omega (arith, lt)) in
    rw (shift, add-mod_right j n, small)
      (let up : (j + 1) % n ≡ j + 1 = mod-eq_of_lt (omega (arith, lt)) in omega (arith, up))

index-injective :
    (xs : List String) (i : ℕ) (x y : String) → index x xs ≡ some i → index y xs ≡ some i → x ≡ y
unfolding index
index-injective [] i x y h k = cc
index-injective (z ∷ xs) i x y h k =
    grind (arith, λ (j : ℕ). index-injective xs j x y, ==_iff z x, ==_iff z y)

-- The page that two turns lead to.
abbrev pub LeadsBack : (Desk → Option Desk) → (Desk → Option Desk) → Desk → Type 0
LeadsBack first second s =
    (s' : Desk) × (s'' : Desk) × (first s ≡ some s')
    × (second s' ≡ some s'')
    × (s''.current_page ≡ s.current_page)

turn-LeadsBack :
    (step unstep : ℕ → ℕ → ℕ) (s : Desk)
    → Roster s.pages
    → Shown s
    → ((n i : ℕ) → i < n → (step n i < n) × (unstep n (step n i) ≡ i))
    → LeadsBack (λ s. turn (step (length s.pages)) s) (λ s. turn (unstep (length s.pages)) s) s
turn-LeadsBack step unstep s r shown inverse =
    let n = length s.pages in
    let (i, at, below) = index-elem s.current_page s.pages shown in
    let (inside, home) = inverse n i below in
    let (s', turned, same, at') = turn-step (step n) s i r at inside in
    let n' = length s'.pages in
    let home' : unstep n' (step n i) ≡ i = rw same home in
    let inside' : unstep n' (step n i) < n' = rw (home', same) below in
    let (s'', returned, _, last) =
      turn-step (unstep n') s' (step n i) (rw same r) (rw same at') inside' in
    let back : index s''.current_page s.pages ≡ some i =
      ap (index s''.current_page) (sym same) ∙ last ∙ ap some home' in
    (s', s'', turned, returned, index-injective s.pages i s''.current_page s.current_page back at)

-- In a roster without duplicates that has the current page, the actions to the next and to the
-- previous page succeed, and each undoes the other.
pub next_and_prev_undo :
    (s : Desk)
    → Roster s.pages
    → Shown s
    → LeadsBack page_next page_prev s × LeadsBack page_prev page_next s
unfolding page_next page_prev
next_and_prev_undo s r shown =
    let forth = λ (n i : ℕ). (i + 1) % n in
    let back = λ (n i : ℕ). (i + n - 1) % n in
    (
      turn-LeadsBack forth back s r shown
          (λ n i lt. (mod-lt (i + 1) (omega (arith, lt)), forth_back i n lt)),
      turn-LeadsBack back forth s r shown
          (λ n i lt. (mod-lt (i + n - 1) (omega (arith, lt)), back_forth i n lt)),
    )
