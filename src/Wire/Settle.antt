-- ===== src/Wire/Settle.antt =====
-- The reader of the old protocol in scripts/proto_v2.py (read_v1_settle), which takes a complete OK or
-- ERR line as the reply if nothing follows for a while. Times are in microseconds.
pub mod Late
pub mod Prompt
use mathlib.Core.List.{append-nil, append_assoc}
use nether.Prelude.{
  ℕ, ◌+◌, ◌-◌, ◌≤◌, ◌<◌, ◌≡◌, refl, sym, ap, ◌∙◌, Bool, true, false, not, ◌&&◌, ◌||◌, Option, some,
  List, [], ◌∷◌, ◌++◌, ◌==◌, ltb, leb, arith, if◌then◌else◌, Bool-cases, inl, inr,
}
use nether.Prelude.Int.{ℤ}
use nether.Prelude.Outcome.{Outcome, returned, raised}
use nether.Os.{Bytes}
use nether.Errors.{Exc, os_error}
use nether.Wire.{Recv, chunk, fails, rs, newline, has, before, read_framed}
use nether.Wire.Framing.{IsData, flat, frame_bytes, read_framed-frame}
use nether.Wire.Framing.Bytewise.{
  write_escaped, has-write_escaped, has-append, before-append, before-part, has-part,
}

-- What the next recv calls give, each with how long it is ready after the one before it.
abbrev pub Timed : Type 0
Timed = List (ℕ × Recv)

-- The kinds of result, with what came.
pub data Settled : Type 0 where
  bare framed hang eof timeout : Bytes → Settled

begins : Bytes → Bytes → Bool
begins [] b = true
begins (x ∷ xs) [] = false
begins (x ∷ xs) (y ∷ b) = (x == y) && begins xs b

-- RS not in buf and b"\n" in buf and (buf.startswith(b"OK ") or buf.startswith(b"ERR "))
unfoldable pub is_bare : Bytes → Bool
unfolding begins
is_bare b =
    not (has rs b)
    && (has newline b
        && (begins (0x4f ∷ 0x4b ∷ 0x20 ∷ []) b || begins (0x45 ∷ 0x52 ∷ 0x52 ∷ 0x20 ∷ []) b))

-- How long select waits.
patience : ℕ → ℕ → Bytes → ℕ
unfolding is_bare
patience settle limit b = if is_bare b then settle else limit

-- The result if select finds nothing.
gave_up : Bytes → Settled
unfolding is_bare
gave_up b = if is_bare b then bare (before newline b) else hang b

-- The loop, from `t` after its start on, with what came so far.
settle_from : ℕ → ℕ → ℕ → Bytes → Timed → Outcome Exc Settled × Timed
unfolding patience gave_up
settle_from settle limit t b [] =
    if leb limit t then (returned (timeout b), []) else (returned (gave_up b), [])
settle_from settle limit t b ((d, fails) ∷ evs) =
    if leb limit t
    then (returned (timeout b), (d, fails) ∷ evs)
    else if ltb (patience settle limit b) d
    then (returned (gave_up b), (d - patience settle limit b, fails) ∷ evs)
    else (raised os_error, evs)
settle_from settle limit t b ((d, chunk []) ∷ evs) =
    if leb limit t
    then (returned (timeout b), (d, chunk []) ∷ evs)
    else if ltb (patience settle limit b) d
    then (returned (gave_up b), (d - patience settle limit b, chunk []) ∷ evs)
    else (returned (eof b), evs)
settle_from settle limit t b ((d, chunk (x ∷ c)) ∷ evs) =
    let rest = settle_from settle limit (t + d) (b ++ (x ∷ c)) evs in
    if leb limit t
    then (returned (timeout b), (d, chunk (x ∷ c)) ∷ evs)
    else if ltb (patience settle limit b) d
    then (returned (gave_up b), (d - patience settle limit b, chunk (x ∷ c)) ∷ evs)
    else if has rs (b ++ (x ∷ c))
    then (returned (framed (before rs (b ++ (x ∷ c)))), evs)
    else rest

-- read_v1_settle(s, settle, hang)
unfoldable pub read_v1_settle : ℕ → ℕ → Timed → Outcome Exc Settled × Timed
unfolding settle_from
read_v1_settle settle limit evs = settle_from settle limit 0 [] evs

-- The same stream without its times.
unfoldable pub untimed : Timed → List Recv
untimed [] = []
untimed ((d, r) ∷ evs) = r ∷ untimed evs

-- Each piece comes within `settle` after the one before it.
abbrev pub IsPrompt : ℕ → Timed → Type 0
IsPrompt settle [] = Unit
IsPrompt settle ((d, r) ∷ evs) = (d ≤ settle) × IsPrompt settle evs

-- When the last piece comes.
abbrev pub lasts : Timed → ℕ
lasts [] = 0
lasts ((d, r) ∷ evs) = d + lasts evs
