-- ===== src/Park.antt =====
-- The park proofs: scripts/park_multi_proof.py, park_await_proof.py and park_timer_proof.py. Each
-- parks a VM whose guest waits for an upstream, and wakes it. What is printed and measured only to be
-- printed is left out.
pub mod Broker
pub mod Multi
pub mod Await
pub mod Timer
pub mod Density
pub mod Tracks
use nether.Prelude.{ℕ, String, ◌<>◌, Bool, true, not, none, some, ◌==◌}
use nether.Prelude.Int.{ℤ, pos, negsuc}
use nether.Prelude.Action.{pure, ◌>>=◌, ◌>>◌}
use nether.Lab.{
  Site, Script, linked, wrote, bound, killed, gets, fail, fail_if, act, wait, await_path, start, uc,
}
use nether.Serve.{Place}

-- rc != 0
abbrev pub nonzero : ℤ → Bool
nonzero (pos n) = not (n == 0)
nonzero (negsuc n) = true

module _ {X : Type 0} (L : Site X) where
  -- The base's folder with its conf, and the broker's listener.
  unfoldable pub egress_base : Place → String → String → Script X (Unit {0})
  unfolding act
  egress_base P base esock = do
    act L (linked (P.nb <> "/kernels") (L.join base "kernels"))
    act L (
        wrote (L.join base "nether.conf") (
          ("control_socket=c.sock\negress_socket=" <> esock)
          <> "\negress_port=9090\nram_mb=512\ncpus=2\n"))
    act L (bound esock)

  -- The connection to a control socket, once that is there or the time since `t0` is over.
  unfoldable pub reach : String → ℕ → ℕ → Script X ℕ
  unfolding await_path uc
  reach sock t0 timeout = do await_path L sock t0 timeout 300; uc L sock

  -- A VM launched in the base's folder, and its connection: 40 seconds are counted from the launch on.
  unfoldable pub boot : String → Script X (ℕ × ℕ)
  unfolding start reach
  boot base = do
    p ← start L base
    t0 ← gets (λ w. w.clock)
    s ← reach (L.join base "c.sock") t0 40_000_000
    pure (p, s)

  -- A fork launched in its folder, and its connection: 30 seconds are counted from before the launch.
  unfoldable pub wake_up : String → String → Script X (ℕ × ℕ)
  unfolding start reach
  wake_up dir sock = do
    t0 ← gets (λ w. w.clock)
    p ← start L dir
    s ← reach (L.join dir sock) t0 30_000_000
    pure (p, s)

  -- The conf of a fork.
  unfoldable pub fork_conf : String → String → String → String → Script X (Unit {0})
  unfolding act
  fork_conf dir snap sock esock = act L (
      wrote (L.join dir "nether.conf") (
        ((((("restore=1\nrestore_from=" <> snap) <> "\ncontrol_socket=") <> sock)
            <> "\negress_socket=")
          <> esock)
        <> "\n"))

  -- The reply to __park__, and the process that is to exit by itself within 10 seconds.
  unfoldable pub left_itself : ℕ → String → String → Script X (Unit {0})
  unfolding wait fail_if fail act
  left_itself p nonzero_exit no_exit = do
    rc ← wait L p
    elim rc [
      | some code ↦ fail_if (nonzero code) nonzero_exit
      | none ↦ do fail no_exit; act L (killed p)
    ]
