-- ===== src/Lab/Reads/Framed.antt =====
-- framed of the proof scripts beside read_framed of scripts/proto_v2.py, from which it was copied with
-- a shorter second loop.
use nether.Prelude.{
  ◌≡◌, refl, ap, Bool, true, false, Option, List, [], ◌∷◌, ◌++◌, ◌⊎◌, inl, inr, Bool-cases,
  Option-cases,
}
use nether.Prelude.Int.{ℤ}
use nether.Prelude.Outcome.{Outcome, returned, raised, ◌>>=◌}
use nether.Os.{Bytes}
use nether.Errors.{Exc, os_error, value_error}
use nether.Wire.{
  Recv, chunk, fails, Read, met, ended, rs, newline, has, before, after, read_until, read_exit,
  framed_reply, finish_framed, read_framed,
}
use nether.Lab.Reads.{Stop, exception, stuck, spin_exit, parsed, finish, framed}

-- The exit's newline has come.
abbrev has_exit : Bytes → Bool
has_exit b = has newline (after rs b)

-- How the two second loops end: alike, or one spins where the other breaks off without a newline.
data Tandem : Outcome Stop Bytes × List Recv → Outcome Exc Bytes × List Recv → Type 0 where
  reads :
      (b : Bytes) (evs : List Recv) → has_exit b ≡ true → Tandem (returned b, evs) (returned b, evs)
  breaks : (evs : List Recv) → Tandem (raised (exception os_error), evs) (raised os_error, evs)
  spins :
      (b : Bytes) (evs : List Recv)
      → has_exit b ≡ false
      → Tandem (raised stuck, evs) (returned b, evs)

Tandem-exit : (b : Bytes) (evs : List Recv) → Tandem (spin_exit b evs) (read_exit b evs)
unfolding spin_exit read_exit
Tandem-exit b [] = elim (Bool-cases (has_exit b)) [
  | inl e ↦ rw e (reads b [] e)
  | inr e ↦ rw e (breaks [])
]
Tandem-exit b (chunk [] ∷ evs) = elim (Bool-cases (has_exit b)) [
  | inl e ↦ rw e (reads b (chunk [] ∷ evs) e)
  | inr e ↦ rw e (spins b evs e)
]
Tandem-exit b (chunk (c ∷ cs) ∷ evs) = elim (Bool-cases (has_exit b)) [
  | inl e ↦ rw e (reads b (chunk (c ∷ cs) ∷ evs) e)
  | inr e ↦ rw e (Tandem-exit (b ++ (c ∷ cs)) evs)
]
Tandem-exit b (fails ∷ evs) = elim (Bool-cases (has_exit b)) [
  | inl e ↦ rw e (reads b (fails ∷ evs) e)
  | inr e ↦ rw e (breaks evs)
]

abbrev pub as_stop : {A : Type 0} → Outcome Exc A → Outcome Stop A
as_stop (returned a) = returned a
as_stop (raised e) = raised (exception e)

-- The same, or no end against a ValueError.
abbrev pub Agrees :
    Outcome Stop (Bytes × Option ℤ) × List Recv
    → Outcome Exc (Bytes × Option ℤ) × List Recv
    → Type 0
Agrees x y = (x ≡ (as_stop y.0, y.1)) ⊎ ((x.0 ≡ raised stuck) × (y.0 ≡ raised value_error))

parsed-framed_reply :
    (to_int : Bytes → Option ℤ) (b : Bytes)
    → has_exit b ≡ true
    → parsed to_int b ≡ as_stop (framed_reply to_int b)
unfolding parsed framed_reply
parsed-framed_reply to_int b e = elim (Option-cases (to_int (before newline (after rs b)))) [
  | inl n ↦ rw (e, n, parsed) refl
  | inr (k, n) ↦ rw (e, n, parsed) refl
]

cut_short :
    (to_int : Bytes → Option ℤ) (b : Bytes)
    → has_exit b ≡ false
    → framed_reply to_int b ≡ raised value_error
unfolding framed_reply
cut_short to_int b e = rw e refl

Agrees-exit :
    (to_int : Bytes → Option ℤ) (x : Outcome Stop Bytes × List Recv)
    (y : Outcome Exc Bytes × List Recv)
    → Tandem x y
    → Agrees ((x.0 >>= λ b. parsed to_int b), x.1) ((y.0 >>= λ b. framed_reply to_int b), y.1)
Agrees-exit to_int _ _ (reads b evs e) = inl (ap (λ r. (r, evs)) (parsed-framed_reply to_int b e))
Agrees-exit to_int _ _ (breaks evs) = inl refl
Agrees-exit to_int _ _ (spins b evs e) = inr (refl, cut_short to_int b e)

Agrees-finish :
    (to_int : Bytes → Option ℤ) (r : Outcome Exc Read × List Recv)
    → Agrees (finish to_int r) (finish_framed to_int r)
unfolding finish finish_framed
Agrees-finish to_int (raised e, evs) = inl refl
Agrees-finish to_int (returned (ended b), evs) = inl refl
Agrees-finish to_int (returned (met b), evs) = Agrees-exit to_int _ _ (Tandem-exit b evs)

-- On every stream framed of the proof scripts does what read_framed of proto_v2.py does, or it never
-- ends, and there read_framed raises ValueError.
pub framed-read_framed :
    (to_int : Bytes → Option ℤ) (evs : List Recv)
    → Agrees (framed to_int evs) (read_framed to_int evs)
unfolding framed read_framed
framed-read_framed to_int evs = Agrees-finish to_int (read_until rs [] evs)
