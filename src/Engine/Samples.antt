-- ===== src/Engine/Samples.antt =====
-- An engine for the tests, and concrete functions for what the program only calls.
use midicrt.Prelude.{ℕ, Bool, true, false, Option, none, some, String, List, [], ◌∷◌}
use midicrt.Prelude.Int.{ℤ, pos}
use midicrt.Actions.Defs.{Value, number}
use midicrt.StuckNotes.Defs.{init}
use midicrt.Voices.Defs.{init as init_voices}
use midicrt.Bindings.Defs.{trigger, set_bindings}
use midicrt.Bindings.Learn.{Arm, Learn}
use midicrt.RemoteControl.Desk.{Desk}
use midicrt.Engine.Panic.Cooldown.{start}
use midicrt.Engine.Loop.{Engine}

abbrev pub any : String → String → Bool
any source pattern = true

abbrev pub mixed : ℕ → ℤ → ℤ → Value
mixed n lo hi = number n

abbrev pub same : String → String
same t = t

abbrev pub no_suffix : String → Option String
no_suffix t = none

abbrev pub one_stroke : ℕ → String
one_stroke n = "i"

abbrev pub exact : ℤ → ℤ
exact age = age

abbrev pub all : List ℕ → Bool
all frame = true

abbrev pub desk : Desk
desk = record {
  pages = "voices" ∷ "notes" ∷ [];
  current_page = "notes";
  last_activity = 0;
  cycling = false;
  status = none;
  sent = [];
  notices = [];
  marks = [];
}

abbrev pub arm : Arm
arm = record {
  action = "page.next";
  mode = trigger;
  args = [];
  lo = pos 0;
  hi = pos 1000;
  armed_at = 0;
}

abbrev pub learning : Learn
learning = record {
  file = [];
  saved = [];
  dispatcher = set_bindings [];
  armed = some arm;
  notices = [];
}

abbrev pub engine : Engine
engine = record {
  port_name = "midicrt";
  replay = false;
  learn = learning;
  pending = [];
  events_total = 0;
  desk = desk;
  watch = start true exact (init 15000) (init_voices 16 8);
  heard = [];
  received = [];
}
