-- ===== src/Bindings/Learn/Valid.antt =====
-- A binding that is learned passes the check that it passed when it was armed.
use midicrt.Prelude.{ℕ, ◌≡◌, subst, Option-cases, Option, none, some, String, text_test, inl, inr}
use midicrt.Prelude.Int.{ℤ}
use midicrt.Dict.{Dict, get}
use midicrt.Bindings.Defs.{Mode, BindingMatch, Args}
use midicrt.Bindings.Validate.{validate_binding}
use midicrt.Bindings.Learn.{Arm, Learn, float_args, template, probe, arm_valid, bind_learn, learned}

-- What is armed has passed the check.
IsArmed : Dict String (Dict String String) → Option Arm → Type 0
IsArmed actions none = Unit
IsArmed actions (some arm) =
    validate_binding (probe arm.action arm.args arm.mode (arm.lo, arm.hi)) actions ≡ none

abbrev AllArmed : Dict String (Dict String String) → Option Learn → Type 0
AllArmed actions none = Unit
AllArmed actions (some s) = IsArmed actions s.armed

arm_valid-IsArmed :
    (action : String) (mode : Mode) (now : ℕ) (filled : Args × (ℤ × ℤ))
    (actions : Dict String (Dict String String)) (s : Learn)
    → AllArmed actions (arm_valid action mode now filled actions s)
unfolding arm_valid IsArmed
arm_valid-IsArmed action mode now (args, ends) actions s =
    elim (Option-cases (validate_binding (probe action args mode ends) actions)) [
      | inl fine ↦ rw (fine, arm_valid) fine
      | inr (fault, wrong) ↦ rw (wrong, arm_valid) tt
    ]

bind_learn-IsArmed :
    (action : String) (mode : Mode) (args : Args) (range : Option (Option (ℤ × ℤ))) (now : ℕ)
    (actions : Dict String (Dict String String)) (s : Learn)
    → AllArmed actions (bind_learn action mode args range now actions s)
unfolding bind_learn
bind_learn-IsArmed action mode args range now actions s = elim (Option-cases (get actions action)) [
  | inl absent ↦ rw (absent, bind_learn) tt
  | inr (schema, known) ↦ elim (Option-cases (template mode args range (float_args schema))) [
    | inl wrong ↦ rw (known, wrong, bind_learn) tt
    | inr (filled, fine) ↦
        rw (known, fine, bind_learn) (arm_valid-IsArmed action mode now filled actions s)
  ]
]

-- A binding learned from any control after a successful `bind.learn` passes the check of bindings
-- against the same actions.
pub learned_passes :
    (action : String) (mode : Mode) (args : Args) (range : Option (Option (ℤ × ℤ))) (now : ℕ)
    (actions : Dict String (Dict String String)) (s s' : Learn) (arm : Arm)
    (escape : String → String) (before_suffix : String → Option String) (digits : ℕ → String)
    (match : BindingMatch) (id : String)
    → bind_learn action mode args range now actions s ≡ some s'
    → s'.armed ≡ some arm
    → validate_binding (learned escape before_suffix digits arm match id) actions ≡ none
unfolding learned IsArmed validate_binding
learned_passes action mode args range now actions s s' arm escape before_suffix digits match id ok
      is_armed =
    let on_success : IsArmed actions s'.armed =
      subst (AllArmed actions) ok (bind_learn-IsArmed action mode args range now actions s) in
    subst (IsArmed actions) is_armed on_success
