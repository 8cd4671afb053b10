-- ===== src/Behaviors/Intent.antt =====
-- What a behavior asks the engine to dispatch.
use midicrt.Prelude.{String, Option}

-- `("page.goto", {"name": name})`; the name is None where the source passes None on.
pub data Intent : Type 0 where
  page_goto : Option String → Intent
