-- ===== src/Registrar/Keeps.antt =====
-- typecheck.cpp: the registration of declarations, on whatever nodes.
use janguage.Base.{◌≡◌, ℕ, ok}
use janguage.Nodes.{NodePointer}
use janguage.Checker.{State}
use janguage.Registrar.{visit}
use janguage.Registrar.Visits.{Kept-visit}
use janguage.Registrar.Registers.{Registers, Registers-Keeping}

module _ (fuel : ℕ) (p : NodePointer) (s s' : State) (b : Unit {0})
    (run : visit fuel p s ≡ ok (b, s')) where
  -- Where `visit` returns, the nodes that there were are as they were, each table of declarations has
  -- got entries at its end only, the names of each table are different if they were, the errors so far
  -- are kept, and the current block and procedure are what they were.
  pub visit-Registers : Registers s s'
  visit-Registers = (Kept-visit Registers Registers-Keeping fuel p).from s b s' run
