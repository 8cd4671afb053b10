-- ===== src/Server/Topics.antt =====
-- Lists of topics without duplicates, and what raising and lowering the counts of such a list does.
use midicrt.Prelude.{
  ℕ, ◌+◌, ◌-◌, ◌≡◌, refl, Bool, true, false, not, ◌&&◌, ◌||◌, String, List, [], ◌∷◌, ◌++◌, arith,
  if◌then◌else◌, ◌==◌, ==_iff, ==_refl, text_test, number_test, elem, keep,
}
use midicrt.Dict.{Dict, get, put, remove, get-put, get-remove}
use midicrt.Server.Defs.{count_of, incref, decref, dedupe, minus, meet}

unfoldable pub times : String → List String → ℕ
times t [] = 0
times t (x ∷ xs) = if x == t then times t xs + 1 else times t xs

-- No topic stands twice.
abbrev pub Once : List String → Type 0
Once [] = Unit
Once (x ∷ xs) = (elem x xs ≡ false) × Once xs

pub times-Once :
    (t : String) (xs : List String) → Once xs → times t xs ≡ (if elem t xs then 1 else 0)
unfolding times
times-Once t [] h = refl
times-Once t (x ∷ xs) h = ground (arith, times-Once t xs h.1, ==_iff x t)

pub elem-keep :
    (p : String → Bool) (t : String) (xs : List String) → elem t (keep p xs) ≡ (elem t xs && p t)
elem-keep p t [] = refl
elem-keep p t (x ∷ xs) = ground (arith, elem-keep p t xs, ==_iff x t)

pub keep-Once : (p : String → Bool) (xs : List String) → Once xs → Once (keep p xs)
keep-Once p [] h = tt
keep-Once p (x ∷ xs) h = ground (arith, keep-Once p xs h.1, elem-keep p x xs)

pub elem-dedupe : (t : String) (xs : List String) → elem t (dedupe xs) ≡ elem t xs
unfolding dedupe
elem-dedupe t [] = refl
elem-dedupe t (x ∷ xs) = ground (arith, elem-dedupe t xs, elem-dedupe x xs, ==_iff x t)

pub dedupe-Once : (xs : List String) → Once (dedupe xs)
unfolding dedupe
dedupe-Once [] = tt
dedupe-Once (x ∷ xs) = ground (arith, dedupe-Once xs)

pub elem-append : (t : String) (xs ys : List String) → elem t (xs ++ ys) ≡ (elem t xs || elem t ys)
elem-append t [] ys = refl
elem-append t (x ∷ xs) ys = ground (arith, elem-append t xs ys)

pub elem-minus :
    (t : String) (xs ys : List String) → elem t (minus xs ys) ≡ (elem t xs && not (elem t ys))
unfolding minus
elem-minus t xs ys = elem-keep (λ x. not (elem x ys)) t xs

pub elem-meet : (t : String) (xs ys : List String) → elem t (meet xs ys) ≡ (elem t xs && elem t ys)
unfolding meet
elem-meet t xs ys = elem-keep (λ x. elem x ys) t xs

pub minus-Once : (xs ys : List String) → Once xs → Once (minus xs ys)
unfolding minus
minus-Once xs ys h = keep-Once _ xs h

pub meet-Once : (xs ys : List String) → Once xs → Once (meet xs ys)
unfolding meet
meet-Once xs ys h = keep-Once _ xs h

pub append-Once :
    (xs ys : List String)
    → Once xs
    → Once ys
    → ((t : String) → elem t xs ≡ true → elem t ys ≡ false)
    → Once (xs ++ ys)
append-Once [] ys h k apart = k
append-Once (x ∷ xs) ys h k apart = (
  rw elem-append (ground (arith, apart x, ==_refl x)),
  append-Once xs ys h.1 k (λ t e. apart t (ground arith)),
)

pub count-incref :
    (counts : Dict String ℕ) (ts : List String) (t : String)
    → count_of (get (incref counts ts) t) ≡ count_of (get counts t) + times t ts
unfolding incref times
count-incref counts [] t = omega arith
count-incref counts (x ∷ ts) t = ground (
  arith,
  count-incref (put counts x (count_of (get counts x) + 1)) ts t,
  get-put counts x t (count_of (get counts x) + 1),
  ==_iff x t,
)

pub count-decref :
    (counts : Dict String ℕ) (ts : List String) (t : String)
    → count_of (get (decref counts ts) t) ≡ count_of (get counts t) - times t ts
unfolding decref times
count-decref counts [] t = omega arith
count-decref counts (x ∷ ts) t =
    let count = count_of (get counts x) in
    ground (
      arith,
      count-decref (remove counts x) ts t,
      count-decref (put counts x (count - 1)) ts t,
      get-put counts x t (count - 1),
      get-remove counts x t,
      ==_iff x t,
    )
