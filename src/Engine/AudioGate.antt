-- ===== src/Engine/AudioGate.antt =====
-- `_tick_audio_gate` of `Engine` (src/midicrt/engine/core.py): the pages that listen to audio are started
-- and stopped. `wanted` says which of them is shown or subscribed to. `calls` has what the pages' hooks
-- were called for, the last call first.
pub mod Starts
mod Tests
use midicrt.Prelude.{
  ℕ, ◌+◌, ◌-◌, Bool, true, false, Option, none, some, String, List, [], ◌∷◌, if◌then◌else◌, leb,
  text_test, number_test,
}
use midicrt.Dict.{Dict, get, put}

-- `_AUDIO_CAPTURE_STOP_DEBOUNCE_S`, in milliseconds.
abbrev pub stop_debounce : ℕ
stop_debounce = 5000

pub data Call : Type 0 where
  start_capture stop_capture : Call

-- `unwanted_since` holds no time for a page that is wanted, or not started.
pub record Gate : Type 0 where
  pub enabled : Bool
  pub started : Dict String Bool
  pub unwanted_since : Dict String (Option ℕ)
  pub calls : List (String × (Call × ℕ))

abbrev pub closed : Bool → Gate
closed enabled = record { enabled = enabled; started = []; unwanted_since = []; calls = [] }

-- `.get(name, False)` and `.get(name)`
abbrev pub flag : Option Bool → Bool
flag none = false
flag (some b) = b

abbrev pub since_of : Option (Option ℕ) → Option ℕ
since_of none = none
since_of (some since) = since

unfoldable pub start_page : String → ℕ → Bool → Gate → Gate
start_page name now started s =
    let s' = record s { unwanted_since = put s.unwanted_since name none } in
    if started then s' else record s' {
      started = put s'.started name true;
      calls = (name, (start_capture, now)) ∷ s'.calls;
    }

unfoldable pub stop_page : String → ℕ → Option ℕ → Gate → Gate
stop_page name now none s = record s { unwanted_since = put s.unwanted_since name (some now) }
stop_page name now (some since) s =
    if leb (since + stop_debounce) now
    then record s {
      started = put s.started name false;
      unwanted_since = put s.unwanted_since name none;
      calls = (name, (stop_capture, now)) ∷ s.calls;
    }
    else s

unfoldable pub tick_page : String → Bool → ℕ → Gate → Gate
tick_page name wanted now s =
    let started = flag (get s.started name) in
    if wanted
    then start_page name now started s
    else if started
    then stop_page name now (since_of (get s.unwanted_since name)) s
    else s

unfoldable pub tick_pages : List String → (String → Bool) → ℕ → Gate → Gate
tick_pages [] wanted now s = s
tick_pages (name ∷ names) wanted now s =
    tick_pages names wanted now (tick_page name (wanted name) now s)

unfoldable pub tick_audio_gate : List String → (String → Bool) → ℕ → Gate → Gate
tick_audio_gate names wanted now s = if s.enabled then tick_pages names wanted now s else s
