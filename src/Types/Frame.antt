-- ===== src/Types/Frame.antt =====
-- types/frame.go: the roots of the participants and the comets above them.
use paradigm.Prelude.{String, List, Map}
use paradigm.Types.Comet.{Comet}
use paradigm.Types.Root.{Root}

pub record Frame : Type 0 where
  pub roots : Map String Root
  pub comets : List Comet
