-- ===== src/Wire.antt =====
-- The control socket as the scripts read it: scripts/bake.py (frame, cmd, meta), scripts/proto_v2.py
-- (unescape, read_framed), and the copies of these in the other scripts. A socket is the sequence
-- of what its next `recv` calls give; what a peer sends in one piece may come in several.
pub mod Framing
pub mod Settle
pub mod Spin
use Prim.Native.Nat.{bit_xor}
use nether.Prelude.{
  ℕ, Bool, true, false, Option, none, some, List, [], ◌∷◌, ◌++◌, ◌==◌, if◌then◌else◌,
}
use nether.Prelude.Int.{ℤ}
use nether.Prelude.Outcome.{Outcome, returned, raised, ◌>>=◌}
use nether.Os.{Bytes}
use nether.Errors.{Exc, os_error, value_error}

-- What one `recv` gives: bytes (none at the end of the stream), or a timeout or another OSError.
pub data Recv : Type 0 where
  chunk : Bytes → Recv
  fails : Recv

abbrev pub rs : ℕ
rs = 0x1e

abbrev pub newline : ℕ
newline = 0x0a

-- bytes([x]) in b
unfoldable pub has : ℕ → Bytes → Bool
has x [] = false
has x (b ∷ bs) = if b == x then true else has x bs

-- b[:b.index(x)], and all of b where x is not in it: b.split(bytes([x]))[0]
unfoldable pub before : ℕ → Bytes → Bytes
before x [] = []
before x (b ∷ bs) = if b == x then [] else b ∷ before x bs

-- b[b.index(x) + 1:]
unfoldable pub after : ℕ → Bytes → Bytes
after x [] = []
after x (b ∷ bs) = if b == x then bs else after x bs

-- What a reading loop ends with: the stop byte was met, or the stream ended first.
pub data Read : Type 0 where
  met ended : Bytes → Read

-- `while x not in b: c = s.recv(n); if not c: break; b += c`. Where nothing more is to come, the
-- call times out.
unfoldable pub read_until : ℕ → Bytes → List Recv → Outcome Exc Read × List Recv
read_until x b [] = if has x b then (returned (met b), []) else (raised os_error, [])
read_until x b (chunk [] ∷ evs) =
    if has x b then (returned (met b), chunk [] ∷ evs) else (returned (ended b), evs)
read_until x b (chunk (c ∷ cs) ∷ evs) =
    let rest = read_until x (b ++ (c ∷ cs)) evs in
    if has x b then (returned (met b), chunk (c ∷ cs) ∷ evs) else rest
read_until x b (fails ∷ evs) =
    if has x b then (returned (met b), fails ∷ evs) else (raised os_error, evs)

abbrev pub bytes_of : Read → Bytes
bytes_of (met b) = b
bytes_of (ended b) = b

-- frame(s) of bake.py; a stream that ends early gives what came.
unfoldable pub frame : List Recv → Outcome Exc Bytes × List Recv
unfolding read_until
frame evs = let (r, evs') = read_until rs [] evs in ((do b ← r; returned (bytes_of b)), evs')

-- The undecoded reply of cmd(s, line) of bake.py: frame(s).split(b"\x1e")[0]
unfoldable pub cmd_reply : List Recv → Outcome Exc Bytes × List Recv
unfolding frame before
cmd_reply evs = let (r, evs') = frame evs in ((do b ← r; returned (before rs b)), evs')

-- The undecoded and unstripped reply of meta(s, line) of bake.py
unfoldable pub meta_reply : List Recv → Outcome Exc Bytes × List Recv
unfolding read_until
meta_reply evs =
    let (r, evs') = read_until newline [] evs in ((do b ← r; returned (bytes_of b)), evs')

-- The loop of unescape(b) of proto_v2.py, from the value of `esc` on.
unescape_from : Bool → Bytes → Bytes
unescape_from esc [] = []
unescape_from true (x ∷ b) = bit_xor x 0x40 ∷ unescape_from false b
unescape_from false (x ∷ b) =
    let escaped = unescape_from true b in
    let literal = x ∷ unescape_from false b in if x == 0x1f then escaped else literal

unfoldable pub unescape : Bytes → Bytes
unfolding unescape_from
unescape = unescape_from false

-- The end of read_framed, from what came: a frame without its newline is a ValueError, and so is
-- an exit that `int` does not read.
unfoldable pub framed_reply : (Bytes → Option ℤ) → Bytes → Outcome Exc (Bytes × Option ℤ)
framed_reply to_int buf =
    if has newline (after rs buf)
    then elim (to_int (before newline (after rs buf))) [
      | none ↦ raised value_error
      | some e ↦ returned (unescape (before rs buf), some e)
    ]
    else raised value_error

-- The second loop of read_framed: `while b"\n" not in buf[rs + 1:]`.
unfoldable pub read_exit : Bytes → List Recv → Outcome Exc Bytes × List Recv
read_exit b [] = if has newline (after rs b) then (returned b, []) else (raised os_error, [])
read_exit b (chunk [] ∷ evs) =
    if has newline (after rs b) then (returned b, chunk [] ∷ evs) else (returned b, evs)
read_exit b (chunk (c ∷ cs) ∷ evs) =
    let rest = read_exit (b ++ (c ∷ cs)) evs in
    if has newline (after rs b) then (returned b, chunk (c ∷ cs) ∷ evs) else rest
read_exit b (fails ∷ evs) =
    if has newline (after rs b) then (returned b, fails ∷ evs) else (raised os_error, evs)

unfoldable pub finish_framed :
    (Bytes → Option ℤ) → Outcome Exc Read × List Recv → Outcome Exc (Bytes × Option ℤ) × List Recv
unfolding read_exit framed_reply unescape
finish_framed to_int (raised e, evs) = (raised e, evs)
finish_framed to_int (returned (ended b), evs) = (returned (unescape b, none), evs)
finish_framed to_int (returned (met b), evs) =
    let (r, evs') = read_exit b evs in ((do buf ← r; framed_reply to_int buf), evs')

-- read_framed(s) of proto_v2.py; `to_int` is `int` of bytes, and none where that raises.
unfoldable pub read_framed :
    (Bytes → Option ℤ) → List Recv → Outcome Exc (Bytes × Option ℤ) × List Recv
unfolding finish_framed read_until
read_framed to_int evs = finish_framed to_int (read_until rs [] evs)
