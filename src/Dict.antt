-- ===== src/Dict.antt =====
-- Python's `dict`: an association list in the order in which the keys were first stored. A key that
-- is stored again keeps its place; a removed key that comes back stands last. The operations stay
-- shut outside this module: their clients use `dict_laws`.
use midicrt.Prelude.{
  ℕ, ◌+◌, ◌≤◌, ◌≡◌, refl, Bool, true, false, Option, none, some, List, [], ◌∷◌, arith,
  if◌then◌else◌, HasTest, ◌==◌, ==_iff, ==_refl, elem, length,
}

abbrev pub Dict {ℓ} : Type ℓ → Type ℓ → Type ℓ
Dict K V = List (K × V)

abbrev pub is_some {ℓ} : {A : Type ℓ} → Option A → Bool
is_some none = false
is_some (some a) = true

module _ {ℓ} {K V : Type ℓ} ⦃t : HasTest K⦄ where
  -- d.get(k)
  unfoldable pub get : Dict K V → K → Option V
  get [] k = none
  get ((j, v) ∷ d) k = if j == k then some v else get d k

  -- d[k] = v
  unfoldable pub put : Dict K V → K → V → Dict K V
  put [] k v = (k, v) ∷ []
  put ((j, w) ∷ d) k v = let rest = put d k v in if j == k then (j, v) ∷ d else (j, w) ∷ rest

  -- d.pop(k, None)
  unfoldable pub remove : Dict K V → K → Dict K V
  remove [] k = []
  remove ((j, v) ∷ d) k = let rest = remove d k in if j == k then rest else (j, v) ∷ rest

  -- k in d
  abbrev pub has : Dict K V → K → Bool
  has d k = is_some (get d k)

  abbrev pub keys : Dict K V → List K
  keys [] = []
  keys ((j, v) ∷ d) = j ∷ keys d

  -- No key stands twice.
  abbrev pub Distinct : Dict K V → Type ℓ
  Distinct [] = Unit
  Distinct ((j, v) ∷ d) = (get d j ≡ none) × Distinct d

  pub get-nil : (k : K) → get [] k ≡ none
  unfolding get
  get-nil k = refl

  pub get-put :
      (d : Dict K V) (k j : K) (v : V) → get (put d k v) j ≡ (if k == j then some v else get d j)
  unfolding get put
  get-put [] k j v = refl
  get-put ((i, w) ∷ d) k j v = ground (arith, get-put d k j v, ==_iff i k, ==_iff i j, ==_iff k j)

  pub get-remove :
      (d : Dict K V) (k j : K) → get (remove d k) j ≡ (if k == j then none else get d j)
  unfolding get remove
  get-remove [] k j = ground arith
  get-remove ((i, w) ∷ d) k j = ground (arith, get-remove d k j, ==_iff i k, ==_iff i j, ==_iff k j)

  pub put-Distinct : (d : Dict K V) (k : K) (v : V) → Distinct d → Distinct (put d k v)
  unfolding put
  put-Distinct [] k v h = (get-nil k, tt)
  put-Distinct ((i, w) ∷ d) k v h =
      ground (arith, put-Distinct d k v h.1, get-put d k i v, ==_iff i k, ==_iff k i)

  pub remove-Distinct : (d : Dict K V) (k : K) → Distinct d → Distinct (remove d k)
  unfolding remove
  remove-Distinct [] k h = h
  remove-Distinct ((i, w) ∷ d) k h = ground (arith, remove-Distinct d k h.1, get-remove d k i)

  pub elem-keys : (d : Dict K V) (k : K) → elem k (keys d) ≡ has d k
  unfolding get
  elem-keys [] k = refl
  elem-keys ((i, w) ∷ d) k = ground (arith, elem-keys d k)

  -- Every entry of the second dictionary is what the first holds under its key.
  abbrev pub Held : Dict K V → Dict K V → Type ℓ
  Held d [] = Unit
  Held d ((k, v) ∷ rest) = (get d k ≡ some v) × Held d rest

  Held-cons : (j : K) (w : V) (d l : Dict K V) → get d j ≡ none → Held d l → Held ((j, w) ∷ d) l
  unfolding get
  Held-cons j w d [] fresh h = tt
  Held-cons j w d ((k, v) ∷ l) fresh h = (ground (arith, ==_iff j k), Held-cons j w d l fresh h.1)

  pub Distinct-Held : (d : Dict K V) → Distinct d → Held d d
  unfolding get
  Distinct-Held [] h = tt
  Distinct-Held ((j, w) ∷ d) h = (rw (==_refl j) refl, Held-cons j w d d h.0 (Distinct-Held d h.1))

  -- Storing a new key makes the dictionary one longer, storing a known one does not.
  pub length-put :
      (d : Dict K V) (k : K) (v : V)
      → length (put d k v) ≡ (if has d k then length d else length d + 1)
  unfolding put get
  length-put [] k v = refl
  length-put ((i, w) ∷ d) k v = ground (arith, length-put d k v)

pub ruleset dict_laws = (get-nil, get-put, get-remove)

abbrev pub weight_at {ℓ} : {V : Type ℓ} → (V → ℕ) → Option V → ℕ
weight_at weight none = 0
weight_at weight (some v) = weight v

-- The sum of a weight over the values.
module _ {ℓ} {K V : Type ℓ} ⦃t : HasTest K⦄ (weight : V → ℕ) where
  unfoldable pub total : Dict K V → ℕ
  total [] = 0
  total ((k, v) ∷ d) = weight v + total d

  pub total-put :
      (d : Dict K V) (k : K) (v : V)
      → total (put d k v) + weight_at weight (get d k) ≡ total d + weight v
  unfolding total put get
  total-put [] k v = omega arith
  total-put ((j, w) ∷ d) k v = ground (arith, total-put d k v)

  total_absent : (d : Dict K V) (k : K) → get d k ≡ none → total (remove d k) ≡ total d
  unfolding total remove get
  total_absent [] k h = refl
  total_absent ((j, w) ∷ d) k h = ground (arith, total_absent d k)

  pub total-remove :
      (d : Dict K V) (k : K)
      → Distinct d
      → total (remove d k) + weight_at weight (get d k) ≡ total d
  unfolding total remove get
  total-remove [] k h = omega arith
  total-remove ((j, w) ∷ d) k h = ground (arith, total-remove d k h.1, total_absent d k, ==_iff j k)

  pub weight-le-total : (d : Dict K V) (k : K) → weight_at weight (get d k) ≤ total d
  unfolding total get
  weight-le-total [] k = omega arith
  weight-le-total ((j, w) ∷ d) k = ground (arith, weight-le-total d k)
