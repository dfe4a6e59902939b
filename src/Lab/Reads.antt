-- ===== src/Lab/Reads.antt =====
-- The reading loops of the proof scripts: framed, frame and meta, and the body of an HTTP reply. A
-- loop that does not test for the end of the stream waits for ever there.
pub mod Framed
use nether.Prelude.{ℕ, ◌&&◌, Option, none, some, List, [], ◌∷◌, ◌++◌, ◌==◌, if◌then◌else◌}
use nether.Prelude.Int.{ℤ}
use nether.Prelude.Outcome.{Outcome, returned, raised, ◌>>=◌}
use nether.Os.{Bytes}
use nether.Errors.{Exc, os_error, value_error}
use nether.Wire.{
  Recv, chunk, fails, Read, met, ended, bytes_of, rs, newline, has, before, after, read_until,
  unescape,
}

-- How a script's code ends without a value: an Exception, SystemExit, or never.
pub data Stop : Type 0 where
  exception : Exc → Stop
  leaves stuck : Stop

-- while b"\x1e" not in b: b += s.recv(4096)
spin_until : ℕ → Bytes → List Recv → Outcome Stop Bytes × List Recv
spin_until x b [] = if has x b then (returned b, []) else (raised (exception os_error), [])
spin_until x b (chunk [] ∷ evs) =
    if has x b then (returned b, chunk [] ∷ evs) else (raised stuck, evs)
spin_until x b (chunk (c ∷ cs) ∷ evs) =
    let rest = spin_until x (b ++ (c ∷ cs)) evs in
    if has x b then (returned b, chunk (c ∷ cs) ∷ evs) else rest
spin_until x b (fails ∷ evs) =
    if has x b then (returned b, fails ∷ evs) else (raised (exception os_error), evs)

-- frame(s).split(b"\x1e")[0] of fork_serve.py and pool_serve.py
unfoldable pub frame : List Recv → Outcome Stop Bytes × List Recv
unfolding spin_until
frame evs = let (r, evs') = spin_until rs [] evs in ((do b ← r; returned (before rs b)), evs')

-- while b"\n" not in b[rs + 1:]: b += s.recv(64)
spin_exit : Bytes → List Recv → Outcome Stop Bytes × List Recv
spin_exit b [] =
    if has newline (after rs b) then (returned b, []) else (raised (exception os_error), [])
spin_exit b (chunk [] ∷ evs) =
    if has newline (after rs b) then (returned b, chunk [] ∷ evs) else (raised stuck, evs)
spin_exit b (chunk (c ∷ cs) ∷ evs) =
    let rest = spin_exit (b ++ (c ∷ cs)) evs in
    if has newline (after rs b) then (returned b, chunk (c ∷ cs) ∷ evs) else rest
spin_exit b (fails ∷ evs) =
    if has newline (after rs b)
    then (returned b, fails ∷ evs)
    else (raised (exception os_error), evs)

-- return un(b[:rs]), int(b[rs + 1:b.index(b"\n", rs + 1)])
parsed : (Bytes → Option ℤ) → Bytes → Outcome Stop (Bytes × Option ℤ)
parsed to_int b = elim (to_int (before newline (after rs b))) [
  | none ↦ raised (exception value_error)
  | some e ↦ returned (unescape (before rs b), some e)
]

finish :
    (Bytes → Option ℤ) → Outcome Exc Read × List Recv → Outcome Stop (Bytes × Option ℤ) × List Recv
unfolding spin_exit parsed
finish to_int (raised e, evs) = (raised (exception e), evs)
finish to_int (returned (ended b), evs) = (returned (unescape b, none), evs)
finish to_int (returned (met b), evs) =
    let (r, evs') = spin_exit b evs in ((do buf ← r; parsed to_int buf), evs')

-- framed(s)
unfoldable pub framed : (Bytes → Option ℤ) → List Recv → Outcome Stop (Bytes × Option ℤ) × List Recv
unfolding finish
framed to_int evs = finish to_int (read_until rs [] evs)

lifted : Outcome Exc Read → Outcome Stop Bytes
lifted (returned r) = returned (bytes_of r)
lifted (raised e) = raised (exception e)

-- The undecoded reply of meta(s, line)
unfoldable pub meta_line : List Recv → Outcome Stop Bytes × List Recv
unfolding lifted
meta_line evs = let (r, evs') = read_until newline [] evs in (lifted r, evs')

-- while True: try: c = d.recv(4096) except Exception: break; if not c: break; buf += c
read_from : Bytes → List Recv → Bytes × List Recv
read_from b [] = (b, [])
read_from b (chunk [] ∷ evs) = (b, evs)
read_from b (chunk (c ∷ cs) ∷ evs) = read_from (b ++ (c ∷ cs)) evs
read_from b (fails ∷ evs) = (b, evs)

unfoldable pub read_all : List Recv → Outcome Stop Bytes × List Recv
unfolding read_from
read_all evs = let (b, evs') = read_from [] evs in (returned b, evs')

-- b.startswith(b"\r\n\r\n"), and what follows
head_end : Bytes → Option Bytes
head_end (a ∷ b ∷ c ∷ d ∷ rest) =
    if (a == 0x0d) && ((b == 0x0a) && ((c == 0x0d) && (d == 0x0a))) then some rest else none
head_end _ = none

-- buf.split(b"\r\n\r\n", 1)[1], if it is there
after_head : Bytes → Option Bytes
unfolding head_end
after_head [] = none
after_head (b ∷ bs) =
    let later = after_head bs in elim (head_end (b ∷ bs)) [ some rest ↦ some rest | none ↦ later ]

-- body = buf.split(b"\r\n\r\n", 1)[1] if b"\r\n\r\n" in buf else buf
unfoldable pub body_of : Bytes → Bytes
unfolding after_head
body_of buf = elim (after_head buf) [ some body ↦ body | none ↦ buf ]
