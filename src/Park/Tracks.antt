-- ===== src/Park/Tracks.antt =====
-- Each VM that a park proof launches with these helpers is in its list `procs`.

use nether.Prelude.{ℕ, String}
use nether.Lab.{Site, killed}
use nether.Lab.Preserved.{IsTracked, Preserves, Preserves-bind, Preserves-option}
use nether.Lab.Tracks.{lab_rules, Tracks-fail, Tracks-act, Tracks-wait, Tracks-fail_if}
use nether.Park.{nonzero, reach, boot, wake_up, fork_conf, left_itself}

module _ {X : Type 0} (L : Site X) where
  Tracks-reach : (sock : String) (t0 timeout : ℕ) → Preserves IsTracked (reach L sock t0 timeout)
  unfolding reach
  Tracks-reach sock t0 timeout = search lab_rules

  pub Tracks-boot : (base : String) → Preserves IsTracked (boot L base)
  unfolding boot
  Tracks-boot base = search (lab_rules, Tracks-reach)

  pub Tracks-wake_up : (dir sock : String) → Preserves IsTracked (wake_up L dir sock)
  unfolding wake_up
  Tracks-wake_up dir sock = search (lab_rules, Tracks-reach)

  pub Tracks-fork_conf :
      (dir snap sock esock : String) → Preserves IsTracked (fork_conf L dir snap sock esock)
  unfolding fork_conf
  Tracks-fork_conf dir snap sock esock = search lab_rules

  pub Tracks-left_itself : (p : ℕ) (m1 m2 : String) → Preserves IsTracked (left_itself L p m1 m2)
  unfolding left_itself
  Tracks-left_itself p m1 m2 = Preserves-bind IsTracked _ _ (Tracks-wait L p) (λ rc.
      Preserves-option IsTracked rc _ _
        (Preserves-bind IsTracked _ _ (Tracks-fail m2) (λ u. Tracks-act L (killed p)))
        (λ code. Tracks-fail_if (nonzero code) m1))

  pub ruleset park_rules =
      (lab_rules, Tracks-boot, Tracks-wake_up, Tracks-fork_conf, Tracks-left_itself)
