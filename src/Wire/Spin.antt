-- ===== src/Wire/Spin.antt =====
-- The readers that leave bytes behind or do not see the end of the stream: cmd and then meta of
-- scripts/bake.py, and the frame of scripts/fork_serve.py and scripts/pool_serve.py.
use mathlib.Core.List.{append-nil, append_assoc}
use nether.Prelude.{
  ℕ, zero, suc, ◌<◌, ◌≡◌, refl, true, false, Option, none, some, List, [], ◌∷◌, ◌++◌, arith,
  if◌then◌else◌, Bool-cases, inl, inr, length,
}
use nether.Prelude.Outcome.{Outcome, returned, raised}
use nether.Os.{Bytes}
use nether.Errors.{Exc, os_error}
use nether.Wire.{Recv, chunk, fails, met, rs, newline, has, read_until}
use nether.Wire.Framing.{IsData, flat}
use nether.Wire.Framing.Bytewise.{has-append}

module _ (x : ℕ) where
  read_until-has :
      (b : Bytes) (evs : List Recv) → has x b ≡ true → read_until x b evs ≡ (returned (met b), evs)
  unfolding read_until
  read_until-has b [] h = rw h
  read_until-has b (chunk [] ∷ evs) h = rw h
  read_until-has b (chunk (c ∷ cs) ∷ evs) h = rw h
  read_until-has b (fails ∷ evs) h = rw h

  -- A first piece that has the stop byte is all that is read.
  pub read_until-first :
      (c : Bytes) (evs : List Recv)
      → has x c ≡ true
      → read_until x [] (chunk c ∷ evs) ≡ (returned (met c), evs)
  unfolding read_until has
  read_until-first [] evs h = cc
  read_until-first (c ∷ cs) evs h = read_until-has (c ∷ cs) evs h

-- The exit line of a reply, in a piece of its own, and what comes behind it.
abbrev pub late : Bytes → List Recv → List Recv
late exit evs = chunk (exit ++ (newline ∷ [])) ∷ evs

-- frame(s) of fork_serve.py and pool_serve.py, `while b"\x1e" not in b: b += s.recv(4096)`, over a
-- stream that has ended behind `evs`, where each recv gives b"". `none`: the fuel ran out.
unfoldable pub spin_frame : ℕ → Bytes → List Recv → Option (Outcome Exc Bytes)
spin_frame zero b evs = none
spin_frame (suc fuel) b [] =
    let rest = spin_frame fuel b [] in if has rs b then some (returned b) else rest
spin_frame (suc fuel) b (chunk c ∷ evs) =
    let rest = spin_frame fuel (b ++ c) evs in if has rs b then some (returned b) else rest
spin_frame (suc fuel) b (fails ∷ evs) =
    if has rs b then some (returned b) else some (raised os_error)

-- If the peer closes the stream before the delimiter and no recv fails, the loop of frame in
-- fork_serve.py and pool_serve.py does not end: no number of rounds is enough.
pub spin_frame-never_ends :
    (fuel : ℕ) (b : Bytes) (evs : List Recv)
    → IsData evs
    → has rs (b ++ flat evs) ≡ false
    → spin_frame fuel b evs ≡ none
unfolding spin_frame flat
spin_frame-never_ends zero b evs d h = refl
spin_frame-never_ends (suc fuel) b [] d h =
    rw (rw append-nil at h) (spin_frame-never_ends fuel b [] d h)
spin_frame-never_ends (suc fuel) b (chunk [] ∷ evs) d h = elim d [ ]
spin_frame-never_ends (suc fuel) b (chunk (c ∷ cs) ∷ evs) d h = elim (Bool-cases (has rs b)) [
  | inl m ↦ absurd (ground (arith, has-append rs b (c ∷ (cs ++ flat evs)) m))
  | inr n ↦ rw n (spin_frame-never_ends fuel (b ++ (c ∷ cs)) evs d (rw append_assoc h))
]
spin_frame-never_ends (suc fuel) b (fails ∷ evs) d h = elim d [ ]

-- If the delimiter comes and no recv fails, more rounds of that loop than there are pieces are
-- enough, and the result has the delimiter.
pub spin_frame-ends :
    (fuel : ℕ) (b : Bytes) (evs : List Recv)
    → length evs < fuel
    → IsData evs
    → has rs (b ++ flat evs) ≡ true
    → (r : Bytes) × (spin_frame fuel b evs ≡ some (returned r)) × (has rs r ≡ true)
unfolding spin_frame flat
spin_frame-ends zero b evs l d h = absurd (omega arith)
spin_frame-ends (suc fuel) b [] l d h = let m : has rs b ≡ true = rw append-nil at h in (b, rw m, m)
spin_frame-ends (suc fuel) b (chunk [] ∷ evs) l d h = elim d [ ]
spin_frame-ends (suc fuel) b (chunk (c ∷ cs) ∷ evs) l d h = elim (Bool-cases (has rs b)) [
  | inl m ↦ (b, rw m, m)
  | inr n ↦ rw n (spin_frame-ends fuel (b ++ (c ∷ cs)) evs (omega arith) d (rw append_assoc h))
]
spin_frame-ends (suc fuel) b (fails ∷ evs) l d h = elim d [ ]
