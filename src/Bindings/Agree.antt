-- ===== src/Bindings/Agree.antt =====
-- Schemas and arguments with the same names, and how `validate_binding` finds them.
use midicrt.Prelude.{
  ◌≡◌, refl, sym, ◌∙◌, Bool, true, false, ◌&&◌, not, none, some, String, List, [], ◌∷◌, arith, ◌==◌,
  ==_iff, text_test, option_test, elem, keep,
}
use midicrt.Dict.{Dict, get, put, has, keys, elem-keys, get-put}
use midicrt.Actions.Defs.{Value}
use midicrt.Bindings.Defs.{Args, fill_keys}
use midicrt.Bindings.Validate.{check_lists, check_names}

keep-nil :
    (p : String → Bool) (xs : List String) (k : String)
    → keep p xs ≡ []
    → elem k xs ≡ true
    → p k ≡ false
keep-nil p [] k h e = cc
keep-nil p (x ∷ xs) k h e = ground (arith, h, e, keep-nil p xs k, ==_iff x k)

elem-keep :
    (p : String → Bool) (xs : List String) (k : String) → elem k (keep p xs) ≡ (elem k xs && p k)
elem-keep p [] k = refl
elem-keep p (x ∷ xs) k = ground (arith, elem-keep p xs k, ==_iff x k)

-- The names of the schema and of the arguments are the same.
abbrev pub Agree : Dict String String → Args → Type 0
Agree schema args = (k : String) → has schema k ≡ has args k

none_lists : (ms es : List String) → check_lists ms es ≡ none → (ms ≡ []) × (es ≡ [])
unfolding check_lists
none_lists [] [] h = (refl, refl)
none_lists [] (e ∷ es) h = cc
none_lists (m ∷ ms) es h = cc

same_names :
    (declared provided : List String) (k : String)
    → check_lists
        (keep (λ name. not (elem name provided)) declared)
        (keep (λ name. not (elem name declared)) provided)
      ≡ none
    → elem k declared ≡ elem k provided
same_names declared provided k h =
    let (no_missing, no_extra) = none_lists _ _ h in
    ground (
      arith,
      keep-nil (λ name. not (elem name provided)) declared k no_missing,
      keep-nil (λ name. not (elem name declared)) provided k no_extra,
    )

pub plain-Agree :
    (schema : Dict String String) (args : Args)
    → check_names none schema args ≡ none
    → Agree schema args
unfolding check_names
plain-Agree schema args h k =
    sym (elem-keys schema k) ∙ same_names (keys schema) (keys args) k h ∙ elem-keys args k

pub elem-fill_keys : (args : Args) (k : String) → elem k (fill_keys args) ≡ true → has args k ≡ true
unfolding fill_keys get
elem-fill_keys [] k h = cc
elem-fill_keys ((j, none) ∷ args) k h = ground (arith, h, elem-fill_keys args k)
elem-fill_keys ((j, some v) ∷ args) k h = ground (arith, h, elem-fill_keys args k)

pub filled-Agree :
    (fill : String) (schema : Dict String String) (args : Args)
    → check_names (some fill) schema args ≡ none
    → has schema fill ≡ true
    → has args fill ≡ true
    → Agree schema args
unfolding check_names
filled-Agree fill schema args h in_schema in_args k =
    let others = λ (name : String). not (name == fill) in
    ground (
      arith,
      same_names (keep others (keys schema)) (keep others (keys args)) k h,
      elem-keep others (keys schema) k,
      elem-keep others (keys args) k,
      elem-keys schema k,
      elem-keys args k,
      in_schema,
      in_args,
      ==_iff k fill,
    )

-- The arguments of an intent have the same names as those of its binding.
pub put-Agree :
    (fill : String) (v : Value) (schema : Dict String String) (args : Args)
    → has args fill ≡ true
    → Agree schema args
    → Agree schema (put args fill (some v))
put-Agree fill v schema args in_args h k =
    ground (arith, h k, in_args, get-put args fill k (some v), ==_iff fill k)
