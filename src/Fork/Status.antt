-- ===== src/Fork/Status.antt =====
-- do_fork of scripts/bake.py: once the base can be forked, when it fails and which status it returns.
use nether.Prelude.{ℕ, ◌+◌, ◌≤◌, ◌<◌, String, ◌≡◌, ◌≢◌, Bool, true, false}
use nether.Prelude.Outcome.{Outcome, returned, raised}
use nether.Prelude.Action.{◌>>◌}
use nether.Errors.{Exc}
use nether.Vm.{Host, World, contains, cmd, uconn}

module _ (h : Host) (path : String) where
  -- What __info__ on a new connection gives.
  abbrev pub asked : World → Outcome Exc String × World
  asked = do uconn h path; cmd h "__info__"

  -- There is a reply, not empty and without "ERR".
  pub IsReply : Outcome Exc String → Type 0
  IsReply (returned r) = (r ≢ "") × (contains "ERR" r ≡ false)
  IsReply (raised x) = ⊥

  -- The polls up to the deadline, each 300 microseconds after the end of the one before: whether the
  -- last one has a reply, and the world at its end.
  pub data Polled (deadline : ℕ) : World → Bool → World → Type 0 where
    over : {w : World} → deadline ≤ w.clock → Polled deadline w false w
    replies :
        {w : World} → w.clock < deadline → IsReply (asked w).0 → Polled deadline w true (asked w).1
    silent :
        {w v : World} {b : Bool}
        → w.clock < deadline
        → ¬ IsReply (asked w).0
        → Polled deadline (record (asked w).1 { clock = (asked w).1.clock + 300 }) b v
        → Polled deadline w b v
