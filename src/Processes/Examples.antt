-- ===== src/Processes/Examples.antt =====
-- A worker that is interrupted twice.
use abhishek_bhat2005_reachi.Base.{true, List, [], ◌∷◌}
use abhishek_bhat2005_reachi.Processes.{Signal, Start}

abbrev start : Start
start = record { configured = true; connects = true; seeds = true; reconciles = true }

abbrev both : List Signal
both = Signal.interrupt ∷ Signal.terminate ∷ []
