-- ===== src/Serve/Fork/Stops.antt =====
-- main of scripts/fork_serve.py kills each VM that it launches.
use nether.Prelude.{Among, ◌<◌, ℕ, zero, suc, String, ◌≡◌, false, Option, none, some}
use nether.Prelude.Int.{ℤ}
use nether.Lab.{killed, Site, Lab, is_stuck}
use nether.Lab.Preserved.{IsTracked, Preserves, Preserves-bind, Preserves-pure, Preserves-option}
use nether.Lab.Tracks.{lab_rules, Tracks-until, Tracks-act}
use nether.Lab.Stops.{Ends, end_rules}
use nether.Serve.{Place}
use nether.Serve.Tracks.{Tracks-wait_up, Tracks-worker, IsCalm-base_folder}
use nether.Serve.Fork.{
  wait_base, warm_base, drive_round, serve_round, hits, burst, judge, bill, fork_body, fork_main,
}

module _ {X : Type 0} (L : Site X) (P : Place) (srv : String) (number : String → Option ℤ) where
  Tracks-wait_base : (base : String) → Preserves IsTracked (wait_base L P srv number base)
  unfolding wait_base
  Tracks-wait_base base = search (lab_rules, Tracks-until) depth 12

  Tracks-warm_base : (base : String) → Preserves IsTracked (warm_base L P srv number base)
  unfolding warm_base
  Tracks-warm_base base = search (lab_rules, Tracks-wait_base, Tracks-wait_up) depth 30

  Tracks-drive_round : (fctl : String) → Preserves IsTracked (drive_round L P srv number fctl)
  unfolding drive_round
  Tracks-drive_round fctl = search lab_rules depth 12

  Tracks-serve_round : (fdata : String) → Preserves IsTracked (serve_round L P srv number fdata)
  unfolding serve_round
  Tracks-serve_round fdata = search lab_rules depth 12

  Tracks-hits : (n : ℕ) (last path : String) → Preserves IsTracked (hits L P srv number n last path)
  unfolding hits
  Tracks-hits zero last path = search lab_rules
  Tracks-hits (suc n) last path = search (lab_rules, Tracks-hits n)

  Tracks-burst : (n : ℕ) (iid path : String) → Preserves IsTracked (burst L P srv number n iid path)
  unfolding burst
  Tracks-burst zero iid path = search lab_rules
  Tracks-burst (suc n) iid path = search (lab_rules, Tracks-burst n, Tracks-worker)

  Tracks-judge : (iid base fork : String) → Preserves IsTracked (judge L P srv number iid base fork)
  unfolding judge
  Tracks-judge iid base fork =
      search
        (lab_rules, Tracks-until, Tracks-drive_round, Tracks-serve_round, Tracks-hits, Tracks-burst)
        depth 40

  Tracks-bill : (s : ℕ) (fork : String) → Preserves IsTracked (bill L P srv number s fork)
  unfolding bill
  Tracks-bill s fork = search lab_rules depth 12

  Tracks-fork_body : (base fork : String) → Preserves IsTracked (fork_body L P srv number base fork)
  unfolding fork_body
  Tracks-fork_body base fork = Preserves-bind IsTracked _ _ (Tracks-warm_base base) (λ b.
      Preserves-option IsTracked b _ _ (Preserves-pure IsTracked (some 1)) (λ p.
        Preserves-bind IsTracked _ _ (Tracks-act L _) (λ u.
          Preserves-bind IsTracked _ _ (Tracks-judge p.1 base fork) (λ u'.
            Preserves-bind IsTracked _ _ (Tracks-bill p.0 fork)
              (λ u''. Preserves-pure IsTracked none)))))

  Ends-fork_main : Ends (fork_main L P srv number)
  unfolding fork_main
  Ends-fork_main = search (end_rules, IsCalm-base_folder, Tracks-fork_body) depth 30

  -- When fork_serve.py, begun without processes, comes to an end, by a return or an exception, then
  -- each VM that it launched was sent a kill.
  pub fork_main-IsClosed :
      (w : Lab X)
      → w.made ≡ 0
      → is_stuck (fork_main L P srv number w).0 ≡ false
      → (p : ℕ) → p < (fork_main L P srv number w).1.made
      → Among (killed p) (fork_main L P srv number w).1.trace
  fork_main-IsClosed w none_made n = Ends-fork_main.at w none_made n
