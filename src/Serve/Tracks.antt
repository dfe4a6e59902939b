-- ===== src/Serve/Tracks.antt =====
-- Each VM that fork_serve.py and pool_serve.py launch with these helpers is in their list `procs`.
use nether.Prelude.{ℕ, zero, suc, String, none, some}
use nether.Prelude.Action.{pure, ◌>>=◌}
use nether.Lab.{Site, hit, try_or}
use nether.Lab.Preserved.{IsTracked, Preserves, Preserves-bind, Preserves-if, Preserves-pure}
use nether.Lab.Tracks.{lab_rules, Tracks-attempts}
use nether.Lab.Stops.{IsCalm, end_rules}
use nether.Serve.{Place, serves, base_folder, wait_up, worker}

module _ {X : Type 0} (L : Site X) where
  pub IsCalm-base_folder : (P : Place) (base conf : String) → IsCalm (base_folder L P base conf)
  unfolding base_folder
  IsCalm-base_folder P base conf = search end_rules

  pub Tracks-wait_up : (s : ℕ) → Preserves IsTracked (wait_up L s)
  unfolding wait_up
  Tracks-wait_up s = search (lab_rules, Tracks-attempts)

  Tracks-answer :
      (path : String) → Preserves IsTracked (try_or none (hit L path >>= λ r. pure (some r)))
  Tracks-answer path = search lab_rules

  pub Tracks-worker : (n : ℕ) (iid path : String) → Preserves IsTracked (worker L n iid path)
  unfolding worker
  Tracks-worker zero iid path = search lab_rules
  Tracks-worker (suc n) iid path = Preserves-bind IsTracked _ _ (Tracks-answer path) (λ v.
      Preserves-if IsTracked (serves L iid v) _ _ (Preserves-pure IsTracked v)
        (Tracks-worker n iid path))
