-- ===== src/Bindings/Learn/Relearn.antt =====
-- What a captured control leaves in the list of bindings.
use midicrt.Prelude.{
  ℕ, ◌≡◌, refl, sym, ap, ◌∙◌, Bool, true, false, ◌&&◌, not, Bool-cases, Option, String, List, [],
  ◌∷◌, ◌++◌, arith, if◌then◌else◌, ◌==◌, ==_iff, ==_refl, text_test, elem, keep, All, inl, inr,
}
use midicrt.Bindings.Defs.{BindingMatch, Binding, set_bindings}
use midicrt.Bindings.History.{has_id, Apart}
use midicrt.Bindings.Learn.{
  Arm, Learn, should_replace_on_relearn, remove_id, remove_all, replaced_by, ids, save_bindings,
  new_binding_id, learned, bind_match,
}
use midicrt.Bindings.Learn.Fresh.{new_binding_id_fresh}

keep_same {ℓ} :
    {A : Type ℓ} (p q : A → Bool) (xs : List A) → All (λ x. p x ≡ q x) xs → keep p xs ≡ keep q xs
keep_same p q [] h = refl
keep_same p q (x ∷ xs) h = rw (h.0, keep_same p q xs h.1) refl

keep_everywhere {ℓ} :
    {A : Type ℓ} (p q : A → Bool) (xs : List A) → ((x : A) → p x ≡ q x) → keep p xs ≡ keep q xs
keep_everywhere p q [] h = refl
keep_everywhere p q (x ∷ xs) h = rw (h x, keep_everywhere p q xs h) refl

keep-keep {ℓ} :
    {A : Type ℓ} (p q : A → Bool) (xs : List A) → keep p (keep q xs) ≡ keep (λ x. q x && p x) xs
keep-keep p q [] = refl
keep-keep p q (x ∷ xs) = elim (Bool-cases (q x)) [
  | inl kept ↦ rw (kept, keep-keep p q xs) refl
  | inr gone ↦ rw (gone, keep-keep p q xs) refl
]

keep_all {ℓ} : {A : Type ℓ} (xs : List A) → keep (λ x. true) xs ≡ xs
keep_all [] = refl
keep_all (x ∷ xs) = ap (λ ys. x ∷ ys) (keep_all xs)

remove_all-keep :
    (gone bs : List Binding) → remove_all gone bs ≡ keep (λ b. not (has_id b.id gone)) bs
unfolding remove_all remove_id
remove_all-keep [] bs = sym (keep_all bs)
remove_all-keep (g ∷ gone) bs =
    remove_all-keep gone (keep (λ b. not (b.id == g.id)) bs)
    ∙ keep-keep (λ (b : Binding). not (has_id b.id gone)) (λ b. not (b.id == g.id)) bs
    ∙ keep_everywhere _ _ bs (λ b. ground (arith, ==_iff b.id g.id, ==_iff g.id b.id))

has_id-keep :
    (p : Binding → Bool) (id : String) (bs : List Binding)
    → has_id id bs ≡ false
    → has_id id (keep p bs) ≡ false
has_id-keep p id [] h = refl
has_id-keep p id (b ∷ bs) h = ground (arith, h, has_id-keep p id bs)

-- With ids apart, the ids of the members that pass a test are those of no other members.
others_apart :
    (p : Binding → Bool) (b : Binding) (bs kept : List Binding)
    → has_id b.id bs ≡ false
    → All (λ c. has_id c.id kept ≡ p c) bs
    → All (λ c. has_id c.id (if p b then b ∷ kept else kept) ≡ p c) bs
others_apart p b [] kept apart h = tt
others_apart p b (c ∷ cs) kept apart h = (
  ground (arith, apart, h.0, ==_iff b.id c.id, ==_iff c.id b.id),
  others_apart p b cs kept (ground (arith, apart)) h.1,
)

chosen_ids :
    (p : Binding → Bool) (bs : List Binding)
    → Apart bs
    → All (λ b. has_id b.id (keep p bs) ≡ p b) bs
chosen_ids p [] apart = tt
chosen_ids p (b ∷ bs) apart = (
  ground (arith, has_id-keep p b.id bs apart.0, ==_refl b.id),
  others_apart p b bs (keep p bs) apart.0 (chosen_ids p bs apart.1),
)

every_not :
    (p q : Binding → Bool) (bs : List Binding)
    → All (λ b. p b ≡ q b) bs
    → All (λ b. not (p b) ≡ not (q b)) bs
every_not p q [] h = tt
every_not p q (b ∷ bs) h = (ap not h.0, every_not p q bs h.1)

left_over :
    (p : Binding → Bool) (bs : List Binding)
    → Apart bs
    → remove_all (keep p bs) bs ≡ keep (λ b. not (p b)) bs
left_over p bs apart =
    remove_all-keep (keep p bs) bs
    ∙ keep_same _ _ bs (every_not (λ b. has_id b.id (keep p bs)) p bs (chosen_ids p bs apart))

keep-Apart : (p : Binding → Bool) (bs : List Binding) → Apart bs → Apart (keep p bs)
keep-Apart p [] apart = tt
keep-Apart p (b ∷ bs) apart = elim (Bool-cases (p b)) [
  | inl kept ↦ rw kept (has_id-keep p b.id bs apart.0, keep-Apart p bs apart.1)
  | inr gone ↦ rw gone (keep-Apart p bs apart.1)
]

has_id-append :
    (id : String) (bs : List Binding) (new : Binding)
    → has_id id (bs ++ new ∷ []) ≡ (if new.id == id then true else has_id id bs)
has_id-append id [] new = refl
has_id-append id (b ∷ bs) new = ground (arith, has_id-append id bs new)

append-Apart :
    (bs : List Binding) (new : Binding)
    → Apart bs
    → elem new.id (ids bs) ≡ false
    → Apart (bs ++ new ∷ [])
append-Apart [] new apart fresh = (refl, tt)
append-Apart (b ∷ bs) new apart fresh = (
  ground (arith, has_id-append b.id bs new, apart.0, fresh, ==_iff new.id b.id, ==_iff b.id new.id),
  append-Apart bs new apart.1 (ground (arith, fresh)),
)

module _ (escape : String → String) (before_suffix : String → Option String) (digits : ℕ → String)
    (digits_differ : (m n : ℕ) → digits m ≡ digits n → m ≡ n) where
  -- Capturing a control when the ids of the bindings differ: exactly the bindings that the control
  -- replaces are gone, the others stay in their order, the new one stands last, the ids still differ,
  -- and the dispatcher and the saved file have the same bindings.
  pub captured :
      (now : ℕ) (arm : Arm) (match : BindingMatch) (s : Learn)
      → Apart s.file
      → let s' = bind_match escape before_suffix digits now arm match s in
        let left = keep (λ (b : Binding). not (should_replace_on_relearn b.match match)) s.file in
        let new =
          learned escape before_suffix digits arm match
            (new_binding_id escape before_suffix digits now left) in
        (s'.file ≡ left ++ new ∷ [])
        × Apart s'.file
        × (s'.dispatcher.bindings ≡ s'.file)
        × (s'.saved ≡ s'.file)
  unfolding bind_match save_bindings set_bindings
  captured now arm match s apart =
      let replaced = λ (b : Binding). should_replace_on_relearn b.match match in
      let left = keep (λ (b : Binding). not (replaced b)) s.file in
      let same : remove_all (replaced_by match s.file) s.file ≡ left =
        unfold replaced_by in left_over replaced s.file apart in
      let fresh = new_binding_id_fresh escape before_suffix digits digits_differ now left in
      let new =
        learned escape before_suffix digits arm match
          (new_binding_id escape before_suffix digits now left) in
      rw same (
        refl,
        append-Apart left new (keep-Apart (λ b. not (replaced b)) s.file apart)
            (unfold learned in fresh),
        refl,
        refl,
      )
