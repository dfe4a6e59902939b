-- ===== src/Vm/Waits.antt =====
-- wait_sock of scripts/bake.py: the loop ends, and how.
use nether.Prelude.{
  ℕ, zero, suc, ◌+◌, ◌*◌, ◌/◌, ◌≤◌, ◌<◌, String, ◌≡◌, refl, ◌⊎◌, inl, inr, Bool, true, false, arith,
  leb, Bool-cases, leb→le,
}
use nether.Prelude.Outcome.{Outcome, returned}
use nether.Errors.{Exc}
use nether.Vm.{Host, World, wait_from, wait_sock}

module _ (h : Host) (path : String) where
  -- What a wait ends with: the socket is there before the deadline, or the deadline has passed.
  abbrev pub Ended : ℕ → Outcome Exc Bool × World → Type 0
  Ended deadline (r, w) =
      ((r ≡ returned true) × (h.socket_exists path w.clock ≡ true) × (w.clock < deadline))
      ⊎ ((r ≡ returned false) × (deadline ≤ w.clock))

  wait_from-Ended :
      (fuel t0 timeout : ℕ) (w : World)
      → t0 + timeout ≤ w.clock + 300 * fuel
      → Ended (t0 + timeout) (wait_from h fuel path t0 timeout w)
  unfolding wait_from
  wait_from-Ended zero t0 timeout w enough = inr (refl, omega arith)
  wait_from-Ended (suc fuel) t0 timeout w enough =
      let later =
        wait_from-Ended fuel t0 timeout (record w { clock = w.clock + 300 }) (omega arith) in
      elim (Bool-cases (leb (t0 + timeout) w.clock)) [
        | inl over ↦ rw over (inr (refl, ground arith))
        | inr early ↦ rw early (elim (Bool-cases (h.socket_exists path w.clock)) [
          | inl there ↦ rw there (inl (refl, there, ground arith))
          | inr absent ↦ rw absent later
        ])
      ]

  -- wait_sock returns True only while the socket is there and before its timeout, and False only
  -- once the timeout has passed; it always returns one of the two.
  pub wait_sock-Ended :
      (timeout : ℕ) (w : World) → Ended (w.clock + timeout) (wait_sock h path timeout w)
  unfolding wait_sock
  wait_sock-Ended timeout w = wait_from-Ended (timeout / 300 + 2) w.clock timeout w (omega arith)

  module _ (since : ℕ) (stays : (t : ℕ) → since ≤ t → h.socket_exists path t ≡ true) where
    absent_before : (t : ℕ) → h.socket_exists path t ≡ false → t < since
    absent_before t absent = elim (Bool-cases (leb since t)) [
      | inl reached ↦ absurd (ground (arith, stays t (leb→le since t reached)))
      | inr before ↦ ground arith
    ]

    wait_from-appears :
        (fuel t0 timeout : ℕ) (w : World)
        → t0 + timeout ≤ w.clock + 300 * fuel
        → w.clock < t0 + timeout
        → since + 300 ≤ t0 + timeout
        → (wait_from h fuel path t0 timeout w).0 ≡ returned true
    unfolding wait_from
    wait_from-appears zero t0 timeout w enough early room = absurd (omega arith)
    wait_from-appears (suc fuel) t0 timeout w enough early room =
        elim (Bool-cases (h.socket_exists path w.clock)) [
          | inl there ↦ ground arith
          | inr absent ↦
              let before : w.clock < since = absent_before w.clock absent in
              ground (arith, wait_from-appears fuel t0 timeout (record w { clock = w.clock + 300 }))
        ]

    -- If the socket appears 300 microseconds before the timeout or earlier, and stays, then
    -- wait_sock returns True.
    pub wait_sock-appears :
        (timeout : ℕ) (w : World)
        → 0 < timeout
        → since + 300 ≤ w.clock + timeout
        → (wait_sock h path timeout w).0 ≡ returned true
    unfolding wait_sock
    wait_sock-appears timeout w some_time room =
        wait_from-appears (timeout / 300 + 2) w.clock timeout w (omega arith) (omega arith) room
