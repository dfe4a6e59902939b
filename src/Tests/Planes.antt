-- ===== src/Tests/Planes.antt =====
-- The theorems on the data plane, the burst, the materialized base and the old reader, at short runs.
use nether.Prelude.{
  ℕ, Bool, leb, ◌≡◌, ◌↔◌, ◌≢◌, refl, true, false, Option, none, some, List, [], ◌∷◌, arith, String,
  ltb, Among, ◌≤◌, ◌+◌, ◌<◌, length, ◌+◌,
}
use nether.Prelude.Int.{ℤ, pos}
use nether.Prelude.Outcome.{Outcome, returned, raised}
use nether.Os.{Bytes}
use nether.Errors.{Exc}
use nether.Wire.{chunk, rs, newline, has, after, before, read_until, read_framed}
use nether.Wire.Framing.{flat, frame_bytes}
use nether.Wire.Framing.Bytewise.{write_escaped}
use nether.Wire.Settle.{Timed, bare, is_bare, read_v1_settle, untimed}
use nether.Wire.Settle.Late.{read_v1_settle-truncates}
use nether.Lab.{Site, Lab}
use nether.Lab.Reads.{Stop, stuck}
use nether.Materialize.{Sizes, shared, materialize_main}
use nether.Materialize.Child.{child_file, child_file-IsChild}
use nether.Materialize.Verdict.{IsChild, materialize_main_iff}
use nether.Plane.Pacing.{Run, cap_kbps, run, pacing_main}
use nether.Plane.Pacing.Verdict.{IsPaced, pacing_main_iff}
use nether.Plane.Relay.{curls}
use nether.Plane.Relay.Rounds.{curls-over}
use nether.Burst.{recv_frame, percentile, burst_main}
use nether.Burst.Frames.{recv_frame-frame}
use nether.Burst.Rank.{at_most, below, index_of, percentile-rank}
use nether.Burst.Barrier.{taken, burst_main-stuck}
use nether.Tests.Labs.{site, begin, place}

abbrev to_int : Bytes → Option ℤ
to_int b = some (pos 3)

-- "OK a\n", a second line, and the exit "3".
abbrev first_line : Bytes
first_line = 0x4f ∷ 0x4b ∷ 0x20 ∷ 0x61 ∷ newline ∷ []

abbrev both_lines : Bytes
both_lines = 0x4f ∷ 0x4b ∷ 0x20 ∷ 0x61 ∷ newline ∷ 0x62 ∷ newline ∷ []

abbrev second_piece : Bytes
second_piece = 0x62 ∷ newline ∷ rs ∷ 0x33 ∷ newline ∷ []

abbrev three : Bytes
three = 0x33 ∷ []

-- The second piece comes 40 after the first, or 90.
abbrev reply : ℕ → Timed
reply gap = (10, chunk first_line) ∷ (gap, chunk second_piece) ∷ []

read_v1_settle-truncates_example :
    ((read_v1_settle 50 1200 (reply 90)).0 ≡ returned (bare (before newline first_line)))
    × ((read_framed to_int (untimed (reply 90))).0 ≡ returned (both_lines, some (pos 3)))
    × (before newline first_line ≢ both_lines)
unfolding has flat frame_bytes write_escaped untimed is_bare
read_v1_settle-truncates_example =
    read_v1_settle-truncates both_lines three [] refl to_int (pos 3) 50 1200 10 90 first_line
      (chunk second_piece) [] refl (omega arith) refl (omega arith) tt refl

recv_frame-frame_example :
    (recv_frame to_int (untimed (reply 90))).0 ≡ returned (write_escaped both_lines, pos 3)
unfolding has flat frame_bytes write_escaped untimed
recv_frame-frame_example =
    recv_frame-frame both_lines three refl refl to_int (pos 3) (untimed (reply 90)) refl tt refl

percentile_test : percentile (40 ∷ 10 ∷ 30 ∷ 20 ∷ []) 50 ≡ returned 20
unfolding percentile
percentile_test = refl

percentile-rank_example :
    (v : ℕ) × (percentile (40 ∷ 10 ∷ 30 ∷ []) 95 ≡ returned v)
    × Among v (40 ∷ 10 ∷ 30 ∷ [])
    × (below v (40 ∷ 10 ∷ 30 ∷ []) ≤ index_of 3 95)
    × (index_of 3 95 < at_most v (40 ∷ 10 ∷ 30 ∷ []))
percentile-rank_example = percentile-rank 40 (10 ∷ 30 ∷ []) 95 (omega arith)

-- The control socket takes two connections.
abbrev small_backlog : Site (Unit {0})
small_backlog = record (site "" true (λ x. x)) { accepts = λ t c p. ltb (taken t) 2 }

-- A barrier that opens once all threads have come.
abbrev full : ℕ → ℕ → Bool
full n k = leb n k

full_opens : (m j : ℕ) → j < m → full m j ≡ false
full_opens m j h = ground (arith, h)

burst_main-stuck_example :
    (burst_main small_backlog
      (λ n. "u")
      (λ s. s)
      (λ s. s)
      (λ s. s)
      (λ u. "a")
      (λ b. none)
      full
      "/c"
      none
      3
      (begin tt)).0
    ≡ raised stuck
unfolding taken
burst_main-stuck_example =
    burst_main-stuck small_backlog (λ n. "u") (λ s. s) (λ s. s) (λ s. s) (λ u. "a") (λ b. none) "/c"
      2 (λ t c. refl) full 2 (begin tt) full_opens (omega arith) (omega arith)

-- Pages of one byte.
abbrev small_sizes : Sizes
small_sizes = record { page = 1; moff = 2; npages = 102 }

-- The binary leaves the child.
abbrev leaves_child : Bytes → Bytes → Outcome Exc (ℤ × Option Bytes × ℕ × ℕ)
leaves_child base diff = returned (pos 0, some (child_file small_sizes), 900, 880)

materialize_main_iff_example : (materialize_main small_sizes leaves_child ≡ returned 0) ↔ (
    (◌≡◌ {A = ℤ} (pos 0) (pos 0))
    × (out : Bytes) × (◌≡◌ {A = Option Bytes} (some (child_file small_sizes)) (some out))
    × IsChild small_sizes out
    × (shared small_sizes 900 880 ≡ true))
materialize_main_iff_example =
    materialize_main_iff small_sizes (omega arith) leaves_child (pos 0)
      (some (child_file small_sizes)) 900 880 refl

child_passes : materialize_main small_sizes leaves_child ≡ returned 0
unfolding shared
child_passes =
    (materialize_main_iff small_sizes (omega arith) leaves_child (pos 0)
        (some (child_file small_sizes)) 900 880 refl).1
      (refl, child_file small_sizes, refl, child_file-IsChild small_sizes, refl)

-- Each reply ends the stream, and each line of each text gives the rate 0.
abbrev plane_site : Site (Unit {0})
plane_site = record (site "OK UP ready" true (λ x. x)) {
  recvs = λ t. chunk (rs ∷ 0x30 ∷ newline ∷ []) ∷ chunk [] ∷ [];
}

abbrev rates : String → List String
rates s = "data_rate_kbps=0" ∷ []

abbrev zero_rate : String → Option ℤ
zero_rate s = some (pos 0)

abbrev first_run : Outcome Stop Run × Lab (Unit {0})
first_run = run plane_site place (λ t. false) rates zero_rate "serve" 0 (begin tt)

-- The capped run, with no sample beside its transfer.
abbrev second_run : Outcome Stop Run × Lab (Unit {0})
second_run = run plane_site place (λ t. false) rates zero_rate "serve" cap_kbps first_run.1

abbrev measured : Option ℕ → Run
measured small = record { adv = some (pos 0); big_bytes = 3; big_us = 3; small_max = small }

pacing_main_iff_example :
    ((pacing_main plane_site place (λ t. false) rates zero_rate "serve" (begin tt)).0 ≡ returned 0)
    ↔ IsPaced (measured none) (measured (some 0))
unfolding run has read_until after
pacing_main_iff_example =
    pacing_main_iff plane_site place (λ t. false) rates zero_rate "serve" (begin tt) first_run.1
      second_run.1 (measured none) (measured (some 0)) refl refl

curls-over_example :
    (ls : List ℕ) × (w : Lab (Unit {0})) × (curls plane_site place "serve" "/d" (begin tt)
      ≡ (returned ls, w))
    × (0 + 3_000_000 ≤ w.clock)
    × (0 < length ls)
curls-over_example = curls-over plane_site place "serve" "/d" (λ t d. refl) (begin tt)
