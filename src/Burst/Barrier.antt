-- ===== src/Burst/Barrier.antt =====
-- The barrier of scripts/swerver_guest_burst.py, which a worker that cannot connect does not reach.
use nether.Prelude.{
  ℕ, zero, suc, ◌+◌, ◌-◌, ◌≤◌, ◌<◌, ◌≡◌, refl, ◌∙◌, String, Bool, true, false, Option, none, some,
  List, [], ◌∷◌, ◌==◌, ltb, arith, if◌then◌else◌, Bool-cases, inl, inr, min, ltb→lt,
}
use nether.Prelude.Outcome.{returned, raised}
use nether.Os.{Bytes}
use nether.Lab.{Site, Lab, Trace, connected, uc, try_or, after_act}
use nether.Lab.Reads.{stuck}
use nether.Burst.{Url, ensure_arrives, arrive_all, count_some, past_barrier, burst, burst_main}

-- How many connections were made.
unfoldable pub taken : Trace → ℕ
taken [] = 0
taken (connected c p ∷ t) = taken t + 1
taken (a ∷ t) = taken t

module _ {X : Type 0} (L : Site X) (uuid : ℕ → String)
    (first_line body_part rstrip : String → String) (address : Url → String)
    (reply : Bytes → Option (ℕ × String)) where
  module _ (control : String) (k : ℕ)
      (backlog : (t : Trace) (c : ℕ) → L.accepts t c control ≡ ltb (taken t) k) where
    -- Of n workers, as many arrive as the socket takes.
    arrive_all-taken :
        (n : ℕ) (w : Lab X)
        → (arrived : List (Option ℕ)) × (w' : Lab X) × (arrive_all
              (ensure_arrives L uuid first_line body_part rstrip address reply control)
              n
              w
            ≡ (returned arrived, w'))
          × (count_some arrived ≡ min n (k - taken w.trace))
    unfolding arrive_all count_some taken ensure_arrives uc try_or after_act
    arrive_all-taken zero w = ([], w, refl, omega arith)
    arrive_all-taken (suc n) w = elim (Bool-cases (ltb (taken w.trace) k)) [
      | inl e ↦
          let accepting : L.accepts w.trace w.clock control ≡ true = backlog w.trace w.clock ∙ e in
          let w1 : Lab X = record (after_act L (connected w.conns control) w) {
            conns = w.conns + 1;
            inbox = λ c. if c == w.conns then [] else w.inbox c;
          } in
          let (arrived, w', r, c) = arrive_all-taken n w1 in
          let lt : taken w.trace < k = ltb→lt (taken w.trace) k e in
          rw accepting (some w.conns ∷ arrived, w', rw r refl, omega (arith, c, lt))
      | inr e ↦
          let refusing : L.accepts w.trace w.clock control ≡ false = backlog w.trace w.clock ∙ e in
          let (arrived, w', r, c) = arrive_all-taken n w in
          let le : k ≤ taken w.trace = ground (arith, e) in
          rw refusing (none ∷ arrived, w', rw r refl, omega (arith, c, le))
    ]

    -- If the socket takes only some of the connections that the workers make, and a barrier lets none
    -- go before all have come, then main never ends: a worker that is refused does not come to the
    -- barrier, and the others wait for it there.
    pub burst_main-stuck :
        (opens : ℕ → ℕ → Bool) (n : ℕ) (w : Lab X)
        → ((m j : ℕ) → j < m → opens m j ≡ false)
        → taken w.trace < k
        → k - taken w.trace < suc n
        → (burst_main L uuid first_line body_part rstrip address reply opens control none
            (suc n)
            w).0
          ≡ raised stuck
    unfolding burst_main burst past_barrier
    burst_main-stuck opens n w shut lo hi =
        let (arrived, w', r, c) = arrive_all-taken (suc n) w in
        let some_wait : opens (suc n) (count_some arrived) ≡ false =
          shut (suc n) (count_some arrived) (omega (arith, c, hi)) in
        let not_none : (count_some arrived == 0) ≡ false = ground (arith, c, lo, hi) in
        rw r (rw (not_none, some_wait) refl)
