-- ===== src/Bindings/Learn/Fresh.antt =====
-- The search for a new binding id.
use Prim.Native.String.{◌++◌ as ◌+++◌}
use text.Mathlib.TextLemmas.{append_cancel_left, append-nil, append-eq-nil_iff}
use midicrt.Prelude.{
  ℕ, zero, suc, ◌+◌, ◌≤◌, ◌<◌, ◌≡◌, ◌≢◌, refl, sym, Bool, true, false, not, Bool-cases, Option, ◌∙◌,
  String, List, [], ◌∷◌, arith, ◌==◌, ==_iff, text_test, elem, keep, length, inl, inr,
}
use midicrt.Bindings.Defs.{Binding}
use midicrt.Bindings.Learn.{ids, candidate, free_id, new_binding_id}

-- Without one of its members a list is shorter.
length-keep-le : (p : String → Bool) (xs : List String) → length (keep p xs) ≤ length xs
length-keep-le p [] = omega arith
length-keep-le p (x ∷ xs) = ground (arith, length-keep-le p xs)

length-keep-lt :
    (name : String) (xs : List String)
    → elem name xs ≡ true
    → length (keep (λ x. not (x == name)) xs) < length xs
length-keep-lt name [] h = cc
length-keep-lt name (x ∷ xs) h =
    ground (arith, h, length-keep-lt name xs, length-keep-le (λ y. not (y == name)) xs)

elem-keep_other :
    (name other : String) (xs : List String)
    → other ≢ name
    → elem other (keep (λ x. not (x == name)) xs) ≡ elem other xs
elem-keep_other name other [] h = refl
elem-keep_other name other (x ∷ xs) h =
    ground (arith, elem-keep_other name other xs h, ==_iff x name, ==_iff x other, h)

module _ (escape : String → String) (before_suffix : String → Option String) (digits : ℕ → String)
    (digits_differ : (m n : ℕ) → digits m ≡ digits n → m ≡ n) where
  grows : (base tail : String) → base ≢ base +++ ("_" +++ tail)
  grows base tail h =
      let empty : "" ≡ "_" +++ tail =
        append_cancel_left base "" ("_" +++ tail) (append-nil base ∙ h) in
      let no_bar : ◌≡◌ {A = String} "_" "" =
        ((append-eq-nil_iff {p = "_"} {q = tail}).0 (sym empty)).0 in
      ground (arith, no_bar, ==_iff {K = String} "_" "")

  candidate_inj :
      (base : String) (m n : ℕ)
      → candidate escape before_suffix digits base m ≡ candidate escape before_suffix digits base n
      → m ≡ n
  unfolding candidate
  candidate_inj base zero zero h = refl
  candidate_inj base zero (suc n) h = absurd (grows base (digits (suc n)) h)
  candidate_inj base (suc m) zero h = absurd (grows base (digits (suc m)) (sym h))
  candidate_inj base (suc m) (suc n) h =
      digits_differ (suc m) (suc n) (append_cancel_left "_" _ _ (append_cancel_left base _ _ h))

  -- Among the candidates from `n` on, the search passes over at most as many as there are ids.
  free_id_free :
      (fuel n : ℕ) (base : String) (existing left : List String)
      → length left < fuel
      → ((k : ℕ)
          → n ≤ k
          → elem (candidate escape before_suffix digits base k) existing
            ≡ elem (candidate escape before_suffix digits base k) left)
      → elem (free_id escape before_suffix digits fuel n base existing) existing ≡ false
  unfolding free_id
  free_id_free zero n base existing left short agree = absurd (omega (arith, short))
  free_id_free (suc fuel) n base existing left short agree =
      let name = candidate escape before_suffix digits base n in
      elim (Bool-cases (elem name existing)) [
        | inl taken ↦
            rw (taken, free_id)
              (free_id_free fuel (n + 1) base existing (keep (λ x. not (x == name)) left)
                (let less = length-keep-lt name left (sym (agree n (omega arith)) ∙ taken) in
                  omega (arith, short, less))
                (λ k above.
                  let other : candidate escape before_suffix digits base k ≢ name = λ e.
                    let same : k ≡ n = candidate_inj base k n e in omega (arith, same, above) in
                  agree k (omega (arith, above)) ∙ sym (elem-keep_other name _ left other)))
        | inr free ↦ rw (free, free_id) free
      ]

  -- The search for a new id ends with an id that no binding has, however many there are.
  pub new_binding_id_fresh :
      (now : ℕ) (bs : List Binding)
      → elem (new_binding_id escape before_suffix digits now bs) (ids bs) ≡ false
  unfolding new_binding_id
  new_binding_id_fresh now bs =
      free_id_free (length (ids bs) + 1) 0 _ (ids bs) (ids bs) (omega arith) (λ k above. refl)
