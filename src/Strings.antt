-- ===== src/Strings.antt =====
-- What the program uses of Go's strings package, whose tables of letters and of white space are not
-- in the repository: an interface.
use omm.Prelude.{String, List, Option}

pub record Strings : Type 0 where
  -- `Split(s, "\n")`
  pub lines : String → List String
  pub fields : String → List String
  pub trim_space : String → String
  -- what `Cut(s, ":")` gives before the colon, or none without one
  pub before_colon : String → Option String
  pub to_lower : String → String
