-- ===== src/Engine/AudioGate/Starts.antt =====
-- The order and the distance of the calls.
use midicrt.Prelude.{
  ℕ, ◌+◌, ◌≤◌, ◌≡◌, refl, sym, ◌∙◌, Bool, true, false, Option, none, some, String, List, [], ◌∷◌,
  arith, if◌then◌else◌, leb, ◌==◌, text_test, number_test, Bool-cases, inl, inr,
}
use midicrt.Dict.{get, put, get-put, get-nil}
use midicrt.Engine.AudioGate.{
  Gate, Call, start_capture, stop_capture, stop_debounce, closed, flag, since_of, start_page,
  stop_page, tick_page, tick_pages, tick_audio_gate,
}

abbrev is_start : Call → Bool
is_start start_capture = true
is_start stop_capture = false

-- The last call for a page.
unfoldable pub last_call : String → List (String × (Call × ℕ)) → Option (Call × ℕ)
last_call name [] = none
last_call name ((n, call) ∷ rest) = if n == name then some call else last_call name rest

abbrev pub is_on : Option (Call × ℕ) → Bool
is_on none = false
is_on (some (call, t)) = is_start call

-- A start follows a stop and a stop a start, and a stop comes five seconds after the start or later.
abbrev pub Follows : Call → ℕ → Option (Call × ℕ) → Type 0
Follows start_capture now before = is_on before ≡ false
Follows stop_capture now none = ⊥
Follows stop_capture now (some (call, t)) = (is_start call ≡ true) × (t + stop_debounce ≤ now)

abbrev pub Alternating : List (String × (Call × ℕ)) → Type 0
Alternating [] = Unit
Alternating ((name, (call, now)) ∷ rest) = Follows call now (last_call name rest) × Alternating rest

record IsSound (now : ℕ) (s : Gate) : Type 0 where
  agrees : (n : String) → flag (get s.started n) ≡ is_on (last_call n s.calls)
  past : (n : String) (c : Call) (t : ℕ) → last_call n s.calls ≡ some (c, t) → t ≤ now
  later :
      (n : String) (c : Call) (t since : ℕ)
      → last_call n s.calls ≡ some (c, t)
      → since_of (get s.unwanted_since n) ≡ some since
      → t ≤ since
  alternating : Alternating s.calls

wait-IsSound : (now d : ℕ) (s : Gate) → IsSound now s → IsSound (now + d) s
wait-IsSound now d s h = record {
  agrees = h.agrees;
  past = λ n c t e. omega (arith, h.past n c t e);
  later = h.later;
  alternating = h.alternating;
}

-- A page is wanted, and was started before.
wanted-IsSound :
    (name : String) (now : ℕ) (s : Gate)
    → IsSound now s
    → IsSound now (record s { unwanted_since = put s.unwanted_since name none })
wanted-IsSound name now s h = record {
  agrees = h.agrees;
  past = h.past;
  later = λ n c t since e. rw get-put (ground (arith, h.later n c t since e));
  alternating = h.alternating;
}

call-IsSound :
    (name : String) (call : Call) (now : ℕ) (s : Gate)
    → IsSound now s
    → Follows call now (last_call name s.calls)
    → IsSound now (record s {
      started = put s.started name (is_start call);
      unwanted_since = put s.unwanted_since name none;
      calls = (name, (call, now)) ∷ s.calls;
    })
unfolding last_call
call-IsSound name call now s h follows = record {
  agrees = λ n. rw get-put (ground (arith, h.agrees n));
  past = λ n c t. ground (arith, h.past n c t);
  later = λ n c t since. rw get-put (ground (arith, h.later n c t since));
  alternating = (follows, h.alternating);
}

-- A page is no longer wanted.
unwanted-IsSound :
    (name : String) (now : ℕ) (s : Gate)
    → IsSound now s
    → IsSound now (record s { unwanted_since = put s.unwanted_since name (some now) })
unwanted-IsSound name now s h = record {
  agrees = h.agrees;
  past = h.past;
  later = λ n c t since e. rw get-put (ground (arith, h.later n c t since e, h.past n c t e));
  alternating = h.alternating;
}

Follows-start :
    (now : ℕ) (last : Option (Call × ℕ)) → is_on last ≡ false → Follows start_capture now last
Follows-start now last h = h

Follows-stop :
    (now since : ℕ) (last : Option (Call × ℕ))
    → is_on last ≡ true
    → ((c : Call) (t : ℕ) → last ≡ some (c, t) → t ≤ since)
    → since + stop_debounce ≤ now
    → Follows stop_capture now last
Follows-stop now since none on order long = absurd (cc on)
Follows-stop now since (some (c, t)) on order long = (on, omega (arith, order c t refl, long))

stop-IsSound :
    (name : String) (now : ℕ) (since : Option ℕ) (s : Gate)
    → IsSound now s
    → flag (get s.started name) ≡ true
    → since_of (get s.unwanted_since name) ≡ since
    → IsSound now (stop_page name now since s)
unfolding stop_page
stop-IsSound name now none s h on e = unwanted-IsSound name now s h
stop-IsSound name now (some since) s h on e = elim (Bool-cases (leb (since + stop_debounce) now)) [
  | inl long ↦ rw long (
      call-IsSound name stop_capture now s h (
        Follows-stop now since (last_call name s.calls) (sym (h.agrees name) ∙ on)
          (λ c t at. h.later name c t since at e) (ground (arith, long))))
  | inr short ↦ rw short h
]

tick_page-IsSound :
    (name : String) (wanted : Bool) (now : ℕ) (s : Gate)
    → IsSound now s
    → IsSound now (tick_page name wanted now s)
unfolding tick_page start_page
tick_page-IsSound name true now s h = elim (Bool-cases (flag (get s.started name))) [
  | inl on ↦ rw on (wanted-IsSound name now s h)
  | inr off ↦ rw off (call-IsSound name start_capture now s h (sym (h.agrees name) ∙ off))
]
tick_page-IsSound name false now s h = elim (Bool-cases (flag (get s.started name))) [
  | inl on ↦ rw on (stop-IsSound name now (since_of (get s.unwanted_since name)) s h on refl)
  | inr off ↦ rw off h
]

tick_pages-IsSound :
    (names : List String) (wanted : String → Bool) (now : ℕ) (s : Gate)
    → IsSound now s
    → IsSound now (tick_pages names wanted now s)
unfolding tick_pages
tick_pages-IsSound [] wanted now s h = h
tick_pages-IsSound (name ∷ names) wanted now s h =
    tick_pages-IsSound names wanted now _ (tick_page-IsSound name (wanted name) now s h)

tick-IsSound :
    (names : List String) (wanted : String → Bool) (now : ℕ) (s : Gate)
    → IsSound now s
    → IsSound now (tick_audio_gate names wanted now s)
unfolding tick_audio_gate
tick-IsSound names wanted now s h = elim (Bool-cases s.enabled) [
  | inl on ↦ simp on (tick_pages-IsSound names wanted now s h)
  | inr off ↦ simp off h
]

-- Ticks, each after a delay and with what is wanted then.
unfoldable pub ticks : List String → List (ℕ × (String → Bool)) → ℕ → Gate → Gate
ticks names [] now s = s
ticks names ((delay, wanted) ∷ rest) now s =
    ticks names rest (now + delay) (tick_audio_gate names wanted (now + delay) s)

-- The calls after some ticks are sound.
calls-Alternating :
    (names : List String) (todo : List (ℕ × (String → Bool))) (now : ℕ) (s : Gate)
    → IsSound now s
    → Alternating (ticks names todo now s).calls
unfolding ticks
calls-Alternating names [] now s h = h.alternating
calls-Alternating names ((delay, wanted) ∷ rest) now s h =
    calls-Alternating names rest (now + delay) _
      (tick-IsSound names wanted (now + delay) s (wait-IsSound now delay s h))

-- Whatever pages are shown and subscribed to as time goes on, each page's starts and stops alternate, a
-- start first, and a stop comes five seconds after the start or later.
pub starts_and_stops :
    (names : List String) (todo : List (ℕ × (String → Bool))) (now : ℕ) (enabled : Bool)
    → Alternating (ticks names todo now (closed enabled)).calls
starts_and_stops names todo now enabled =
    calls-Alternating names todo now (closed enabled) (record {
      agrees = λ n. unfold last_call in (rw (get-nil {V = Bool}) refl);
      past = λ n c t e. absurd (unfold last_call in cc e);
      later = λ n c t since e. absurd (unfold last_call in cc e);
      alternating = tt;
    })
