-- ===== src/Tests/Wires.antt =====
-- The theorems on the control socket at short streams.
use nether.Prelude.{◌≡◌, refl, Option, none, some, List, [], ◌∷◌}
use nether.Prelude.Int.{ℤ, pos}
use nether.Prelude.Outcome.{returned}
use nether.Os.{Bytes}
use nether.Wire.{Recv, chunk, has, read_framed}
use nether.Wire.Framing.{flat, frame_bytes, read_framed-frame}
use nether.Wire.Framing.Bytewise.{write_escaped}
use nether.Wire.Spin.{spin_frame, spin_frame-never_ends}
use nether.Vm.{wait_sock}
use nether.Vm.Waits.{Ended, wait_sock-Ended}
use nether.Tests.Setup.{host, world}

-- A body with a delimiter byte, and the exit "0".
abbrev body : Bytes
body = 0x61 ∷ 0x1e ∷ []

abbrev zero_exit : Bytes
zero_exit = 0x30 ∷ []

abbrev to_int : Bytes → Option ℤ
to_int b = elim b [ [] ↦ none | x ∷ xs ↦ some (pos 0) ]

-- Their frame in three pieces.
abbrev pieces : List Recv
pieces = chunk (0x61 ∷ 0x1f ∷ []) ∷ chunk (0x5e ∷ 0x1e ∷ 0x30 ∷ []) ∷ chunk (0x0a ∷ []) ∷ []

read_framed-frame_example : (read_framed to_int pieces).0 ≡ returned (body, some (pos 0))
unfolding has flat frame_bytes write_escaped
read_framed-frame_example =
    read_framed-frame body zero_exit [] refl to_int (pos 0) pieces refl tt refl

spin_frame-never_ends_example : spin_frame 5 [] (chunk (0x4f ∷ []) ∷ []) ≡ none
unfolding has flat
spin_frame-never_ends_example = spin_frame-never_ends 5 [] (chunk (0x4f ∷ []) ∷ []) tt refl

wait_sock-Ended_example : Ended host "/w/b.sock" 600 (wait_sock host "/w/b.sock" 600 world)
wait_sock-Ended_example = wait_sock-Ended host "/w/b.sock" 600 world
