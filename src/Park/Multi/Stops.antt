-- ===== src/Park/Multi/Stops.antt =====
-- main of scripts/park_multi_proof.py kills each VM that it launches.

use nether.Prelude.{
  Among, ◌<◌, ℕ, zero, suc, String, ◌<>◌, ◌≡◌, false, List, [], ◌∷◌, ◌<◌, if◌then◌else◌, ltb, leb,
  length, str_eq,
}
use nether.Prelude.Dict.{Dict, lookup}
use nether.Lab.{Site, Lab, killed, cmd, is_stuck}
use nether.Lab.Preserved.{IsTracked, Preserves, Preserves-bind, Preserves-option}
use nether.Lab.Tracks.{if-tracks, lab_rules, Tracks-until, Tracks-cmd, Tracks-cat, Tracks-sleep}
use nether.Lab.Stops.{end_rules, Ends, IsCalm, IsClosed}
use nether.Serve.{Place}
use nether.Park.Tracks.{park_rules}
use nether.Park.{egress_base}
use nether.Park.Broker.{Shared, tags}
use nether.Park.Multi.{
  gather_round, gather, gather_for, note_all, park_all, wake_all, multi_body, multi_main,
}

module _ (L : Site Shared) (P : Place) (req4 : String) where
  Tracks-note_all : (ms : List String) → Preserves IsTracked (note_all L P req4 ms)
  unfolding note_all
  Tracks-note_all ms = record { at = λ w h. h }

  Tracks-gather_round :
      (s : ℕ) (gs : List String) (got : Dict String)
      → Preserves IsTracked (gather_round L P req4 s gs got)
  unfolding gather_round
  Tracks-gather_round s [] got = search lab_rules
  Tracks-gather_round s (g ∷ gs) got =
      Preserves-option IsTracked (lookup g got) _ _
        (Preserves-bind IsTracked _ _ (Tracks-cat L (cmd L) (Tracks-cmd L) s ("/tmp/r-" <> g))
          (λ v. Tracks-gather_round s gs (if str_eq v "" then got else (g, v) ∷ got)))
        (λ v. Tracks-gather_round s gs got)

  Tracks-gather :
      (fuel deadline s : ℕ) (got : Dict String)
      → Preserves IsTracked (gather L P req4 fuel deadline s got)
  unfolding gather
  Tracks-gather zero deadline s got = record { at = λ w h. h }
  Tracks-gather (suc fuel) deadline s got = record {
    at = λ w h.
        let more =
          (Preserves-bind IsTracked _ _ (Tracks-gather_round s tags got) (λ got'.
              Preserves-bind IsTracked _ _ (Tracks-sleep L 300)
                (λ u. Tracks-gather fuel deadline s got'))).at
            w h in
        if-tracks (leb deadline w.clock) _ _ h
          (if-tracks (ltb (length got) (length tags)) _ _ more h);
  }

  Tracks-gather_for : (timeout t_r s : ℕ) → Preserves IsTracked (gather_for L P req4 timeout t_r s)
  unfolding gather_for
  Tracks-gather_for timeout t_r s = Tracks-gather _ _ s []

  Tracks-park_all : (s : ℕ) → Preserves IsTracked (park_all L P req4 s)
  unfolding park_all
  Tracks-park_all s = search (lab_rules, Tracks-until) depth 20

  Tracks-wake_all :
      (base fork esock : String) → Preserves IsTracked (wake_all L P req4 base fork esock)
  unfolding wake_all
  Tracks-wake_all base fork esock = search (park_rules, Tracks-gather_for, Tracks-note_all) depth 20

  Tracks-multi_body :
      (base fork esock : String) → Preserves IsTracked (multi_body L P req4 base fork esock)
  unfolding multi_body
  Tracks-multi_body base fork esock = search (park_rules, Tracks-park_all, Tracks-wake_all) depth 20

  IsClosed-note_all : (ms : List String) → Preserves IsClosed (note_all L P req4 ms)
  unfolding note_all
  IsClosed-note_all ms = record { at = λ w h. h }

  IsCalm-egress_base : (base esock : String) → IsCalm (egress_base L P base esock)
  unfolding egress_base
  IsCalm-egress_base base esock = search end_rules

  Ends-multi_main : Ends (multi_main L P req4)
  unfolding multi_main
  Ends-multi_main =
      search (end_rules, IsCalm-egress_base, IsClosed-note_all, Tracks-multi_body) depth 30

  -- When park_multi_proof.py, begun without processes, comes to an end, by a return, an exception or
  -- an early exit, then each VM that it launched was sent a kill.
  pub multi_main-IsClosed :
      (w : Lab Shared)
      → w.made ≡ 0
      → is_stuck (multi_main L P req4 w).0 ≡ false
      → (p : ℕ) → p < (multi_main L P req4 w).1.made
      → Among (killed p) (multi_main L P req4 w).1.trace
  multi_main-IsClosed w none_made n = Ends-multi_main.at w none_made n
