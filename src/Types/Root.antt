-- ===== src/Types/Root.antt =====
-- types/root.go: where a participant's history begins.
use paradigm.Prelude.{String, [], ℤ, pos, negsuc, nat_eq, int_eq, string_eq, pair_eq, Map}

pub record Root : Type 0 where
  pub x : String
  pub y : String
  pub index : ℤ
  pub round : ℤ
  pub others : Map String String

-- `Root{}`
abbrev pub zero_root : Root
zero_root = record { x = ""; y = ""; index = pos 0; round = pos 0; others = [] }

-- `NewBaseRoot`
abbrev pub new_base_root : Root
new_base_root = record { x = ""; y = ""; index = negsuc 0; round = negsuc 0; others = [] }
