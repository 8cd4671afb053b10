-- ===== src/RemoteControl/Frames.antt =====
-- src/midicrt/engine/sysex.py: the frames of the remote control, without their F0 and F7.
use midicrt.Prelude.{
  ℕ, ◌+◌, ◌-◌, ◌≡◌, true, ◌&&◌, Option, none, some, List, [], ◌∷◌, arith, if◌then◌else◌, ltb, eqb,
  elem, number_test,
}

-- `PREFIX` is 125, 109, 99.
abbrev pub frame : List ℕ → List ℕ
frame rest = 125 ∷ 109 ∷ 99 ∷ rest

abbrev pub version_base : ℕ
version_base = 64

-- `SUPPORTED_PROTOCOL_VERSIONS`; `highest` is its largest member.
abbrev pub supported : List ℕ
supported = 1 ∷ []

abbrev pub highest : ℕ
highest = 1

pub data FrameError : Type 0 where
  missing_cmd unsupported_version : FrameError

pub record Parsed : Type 0 where
  pub version : Option ℕ
  pub cmd : Option ℕ
  pub args : List ℕ
  pub error : Option FrameError

abbrev pub parse_versioned : ℕ → List ℕ → Parsed
parse_versioned marker [] = record {
  version = none;
  cmd = none;
  args = [];
  error = some missing_cmd;
}
parse_versioned marker (cmd ∷ args) =
    if eqb marker version_base
    then record { version = some highest; cmd = some cmd; args = args; error = none }
    else if elem (marker - version_base) supported
    then record {
      version = some (marker - version_base);
      cmd = some cmd;
      args = args;
      error = none;
    }
    else record {
      version = some (marker - version_base);
      cmd = some cmd;
      args = args;
      error = some unsupported_version;
    }

abbrev pub parse_marker : ℕ → List ℕ → Parsed
parse_marker marker rest =
    if ltb marker version_base
    then record { version = none; cmd = some marker; args = rest; error = none }
    else parse_versioned marker rest

-- `none` when the frame is not addressed to the program.
unfoldable pub parse_command : List ℕ → Option Parsed
parse_command (a ∷ b ∷ c ∷ marker ∷ rest) =
    if eqb a 125 && (eqb b 109 && eqb c 99) then some (parse_marker marker rest) else none
parse_command _ = none

unfoldable pub build_reply : ℕ → ℕ → ℕ → List ℕ → List ℕ
build_reply version cmd status payload = frame ((version_base + version) ∷ cmd ∷ status ∷ payload)

-- A reply to a supported version reads back as a command of that version, whose arguments are the
-- reply's status and payload.
pub parse_command-build_reply :
    (version cmd status : ℕ) (payload : List ℕ)
    → elem version supported ≡ true
    → parse_command (build_reply version cmd status payload)
      ≡ some
          (record { version = some version; cmd = some cmd; args = status ∷ payload; error = none })
unfolding parse_command build_reply
parse_command-build_reply version cmd status payload known = ground arith
