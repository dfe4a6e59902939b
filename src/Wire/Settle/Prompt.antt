-- ===== src/Wire/Settle/Prompt.antt =====
-- read_v1_settle of scripts/proto_v2.py on a reply that does not pause.
use mathlib.Core.List.{append-nil, append_assoc}
use nether.Prelude.{
  ℕ, ◌+◌, ◌≤◌, ◌<◌, ◌≡◌, refl, sym, ap, ◌∙◌, true, false, [], ◌∷◌, ◌++◌, ltb, leb, arith,
  Bool-cases, inl, inr,
}
use nether.Prelude.Outcome.{returned}
use nether.Os.{Bytes}
use nether.Wire.{chunk, fails, rs, has, before}
use nether.Wire.Framing.{IsData, flat, frame_bytes}
use nether.Wire.Framing.Bytewise.{
  write_escaped, has-write_escaped, before-append, before-part, has-part,
}
use nether.Wire.Settle.{
  Timed, framed, is_bare, patience, settle_from, read_v1_settle, untimed, IsPrompt, lasts,
}

patience-≤ : (settle limit : ℕ) (b : Bytes) → settle ≤ limit → settle ≤ patience settle limit b
unfolding patience
patience-≤ settle limit b h = elim (Bool-cases (is_bare b)) [
  | inl e ↦ rw e (omega arith)
  | inr e ↦ rw e h
]

module _ (settle limit : ℕ) (ordered : settle ≤ limit) where
  settle_from-framed :
      (t : ℕ) (b : Bytes) (evs : Timed)
      → IsPrompt settle evs
      → t + lasts evs < limit
      → IsData (untimed evs)
      → has rs b ≡ false
      → has rs (b ++ flat (untimed evs)) ≡ true
      → (settle_from settle limit t b evs).0
        ≡ returned (framed (before rs (b ++ flat (untimed evs))))
  unfolding settle_from untimed flat
  settle_from-framed t b [] p early d m h =
      let e : b ++ [] ≡ b = append-nil b in absurd (ground (arith, e, m, h))
  settle_from-framed t b ((w, fails) ∷ evs) p early d m h = elim d [ ]
  settle_from-framed t b ((w, chunk []) ∷ evs) p early d m h = elim d [ ]
  settle_from-framed t b ((w, chunk (x ∷ c)) ∷ evs) p early d m h =
      let e : (b ++ (x ∷ c)) ++ flat (untimed evs) ≡ b ++ ((x ∷ c) ++ flat (untimed evs)) =
        append_assoc b (x ∷ c) (flat (untimed evs)) in
      let q : settle ≤ patience settle limit b = patience-≤ settle limit b ordered in
      let in_time : leb limit t ≡ false = ground arith in
      let soon : ltb (patience settle limit b) w ≡ false = ground (arith, q, p.0) in
      elim (Bool-cases (has rs (b ++ (x ∷ c)))) [
        | inl found ↦
            rw (in_time, soon, found)
              (ap (λ s. returned (framed s))
                (sym (before-append rs (b ++ (x ∷ c)) (flat (untimed evs)) found)
                  ∙ ap (before rs) e))
        | inr more ↦
            rw (in_time, soon, more)
              (settle_from-framed (t + w) (b ++ (x ∷ c)) evs p.1 (omega arith) d more (rw e h)
                ∙ ap (λ s. returned (framed (before rs s))) e)
      ]

  -- If no piece comes later than the settling time after the one before it, and the last within the
  -- reader's whole time, then the old reader returns the body of the frame, as it was escaped. No
  -- recv fails or reports the end of the stream.
  pub read_v1_settle-prompt :
      (body exit rest : Bytes) (evs : Timed)
      → IsPrompt settle evs
      → lasts evs < limit
      → IsData (untimed evs)
      → flat (untimed evs) ≡ frame_bytes body exit rest
      → (read_v1_settle settle limit evs).0 ≡ returned (framed (write_escaped body))
  unfolding read_v1_settle frame_bytes has
  read_v1_settle-prompt body exit rest evs p early d f =
      settle_from-framed 0 [] evs p (omega arith) d refl (rw f (has-part rs (write_escaped body) _))
      ∙ ap (λ s. returned (framed s))
          (ap (before rs) f ∙ before-part rs (write_escaped body) _ (has-write_escaped body))
