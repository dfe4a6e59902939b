-- ===== src/Wire/Framing.antt =====
-- The reply frame of the control protocol: what the agent writes (tools/agent.c, write_escaped) is
-- what the readers of scripts/proto_v2.py and scripts/bake.py read, however it comes in pieces.
pub mod Bytewise
use mathlib.Core.List.{append-nil, append_assoc}
use nether.Prelude.{
  ℕ, ◌≡◌, refl, sym, ap, ◌∙◌, true, false, Option, some, List, [], ◌∷◌, ◌++◌, arith, Bool-cases,
  inl, inr,
}
use nether.Prelude.Int.{ℤ}
use nether.Prelude.Outcome.{returned}
use nether.Os.{Bytes}
use nether.Wire.{
  Recv, chunk, fails, met, rs, newline, has, before, after, read_until, read_exit, cmd_reply,
  framed_reply, finish_framed, read_framed, unescape,
}
use Bytewise.{
  write_escaped, unescape-write_escaped, has-write_escaped, has-append, before-append, after-append,
  before-part, after-part, has-part,
}

-- Only bytes come: no recv fails, and none reports the end of the stream.
abbrev pub IsData : List Recv → Type 0
IsData [] = Unit
IsData (chunk [] ∷ evs) = ⊥
IsData (chunk (c ∷ cs) ∷ evs) = IsData evs
IsData (fails ∷ evs) = ⊥

-- All bytes that come.
unfoldable pub flat : List Recv → Bytes
flat [] = []
flat (chunk c ∷ evs) = c ++ flat evs
flat (fails ∷ evs) = flat evs

module _ (x : ℕ) where
  -- A reading loop ends with its stop byte if that comes, and has lost nothing.
  read_until-met :
      (b : Bytes) (evs : List Recv)
      → IsData evs
      → has x (b ++ flat evs) ≡ true
      → (b' : Bytes) × (evs' : List Recv) × (read_until x b evs ≡ (returned (met b'), evs'))
        × IsData evs'
        × (b' ++ flat evs' ≡ b ++ flat evs)
        × (has x b' ≡ true)
  unfolding read_until flat
  read_until-met b [] d h = (b, [], ground (arith, append-nil b), tt, refl, rw append-nil at h)
  read_until-met b (chunk [] ∷ evs) d h = elim d [ ]
  read_until-met b (fails ∷ evs) d h = elim d [ ]
  read_until-met b (chunk (c ∷ cs) ∷ evs) d h = elim (Bool-cases (has x b)) [
    | inl found ↦ (b, chunk (c ∷ cs) ∷ evs, rw found, d, refl, found)
    | inr more ↦
        let e : (b ++ (c ∷ cs)) ++ flat evs ≡ b ++ ((c ∷ cs) ++ flat evs) =
          append_assoc b (c ∷ cs) (flat evs) in
        let (b', evs', r, d', f, m) = read_until-met (b ++ (c ∷ cs)) evs d (rw e h) in
        (b', evs', rw more r, d', f ∙ e, m)
  ]

-- The second loop of read_framed ends with the newline of the exit, if that comes.
read_exit-met :
    (b : Bytes) (evs : List Recv)
    → IsData evs
    → has rs b ≡ true
    → has newline (after rs (b ++ flat evs)) ≡ true
    → (b' : Bytes) × (evs' : List Recv) × (read_exit b evs ≡ (returned b', evs'))
      × (b' ++ flat evs' ≡ b ++ flat evs)
      × (has rs b' ≡ true)
      × (has newline (after rs b') ≡ true)
unfolding read_exit flat
read_exit-met b [] d m h =
    let n : has newline (after rs b) ≡ true = rw append-nil at h in (b, [], rw n, refl, m, n)
read_exit-met b (chunk [] ∷ evs) d m h = elim d [ ]
read_exit-met b (fails ∷ evs) d m h = elim d [ ]
read_exit-met b (chunk (c ∷ cs) ∷ evs) d m h = elim (Bool-cases (has newline (after rs b))) [
  | inl found ↦ (b, chunk (c ∷ cs) ∷ evs, rw found, refl, m, found)
  | inr more ↦
      let e : (b ++ (c ∷ cs)) ++ flat evs ≡ b ++ ((c ∷ cs) ++ flat evs) =
        append_assoc b (c ∷ cs) (flat evs) in
      let (b', evs', r, f, m', n) =
        read_exit-met (b ++ (c ∷ cs)) evs d (has-append rs b (c ∷ cs) m) (rw e h) in
      (b', evs', rw more r, f ∙ e, m', n)
]

-- A frame as the agent sends it, and what comes behind it.
unfoldable pub frame_bytes : Bytes → Bytes → Bytes → Bytes
frame_bytes body exit rest = write_escaped body ++ (rs ∷ (exit ++ (newline ∷ rest)))

module _ (body exit rest : Bytes) (one_line : has newline exit ≡ false) where
  -- Of a buffer that begins a frame's bytes and reaches its newline, the parts are the frame's.
  framed_reply-frame :
      (to_int : Bytes → Option ℤ) (e : ℤ) (b tail : Bytes)
      → to_int exit ≡ some e
      → b ++ tail ≡ frame_bytes body exit rest
      → has rs b ≡ true
      → has newline (after rs b) ≡ true
      → framed_reply to_int b ≡ returned (body, some e)
  unfolding framed_reply frame_bytes
  framed_reply-frame to_int e b tail reads f m n = rw (n, number, reads, literal) refl
    where
      literal : unescape (before rs b) ≡ body
      literal =
          ap unescape (
            sym (before-append rs b tail m)
            ∙ ap (before rs) f
            ∙ before-part rs (write_escaped body) _ (has-write_escaped body))
          ∙ unescape-write_escaped body

      number : before newline (after rs b) ≡ exit
      number =
          sym (before-append newline (after rs b) tail n)
          ∙ ap (before newline) (
              sym (after-append rs b tail m)
              ∙ ap (after rs) f
              ∙ after-part rs (write_escaped body) _ (has-write_escaped body))
          ∙ before-part newline exit rest one_line

  -- read_framed returns the body and the exit of the frame that comes first on the stream, however
  -- the stream is cut into pieces, and whatever bytes the body has, frame delimiters included. The
  -- exit is one line that `int` reads, and no recv fails or reports the end of the stream.
  pub read_framed-frame :
      (to_int : Bytes → Option ℤ) (e : ℤ) (evs : List Recv)
      → to_int exit ≡ some e
      → IsData evs
      → flat evs ≡ frame_bytes body exit rest
      → (read_framed to_int evs).0 ≡ returned (body, some e)
  unfolding read_framed frame_bytes
  read_framed-frame to_int e evs reads d f =
      let (b, evs', r, d', g, m) =
        read_until-met rs [] evs d (rw f (has-part rs (write_escaped body) _)) in
      let (b', evs'', r', g', m', n) = read_exit-met b evs' d' m (
        ap (λ t. has newline (after rs t)) (g ∙ f)
        ∙ ap (has newline)
            (after-part rs (write_escaped body) (exit ++ (newline ∷ rest)) (has-write_escaped body))
        ∙ has-part newline exit rest) in
      rw (r, finish_framed)
        (rw r' (framed_reply-frame to_int e b' (flat evs'') reads (g' ∙ g ∙ f) m' n))

  -- cmd of bake.py takes the body of the frame that comes first on the stream as it was escaped. No
  -- recv fails or reports the end of the stream.
  pub cmd_reply-frame :
      (evs : List Recv)
      → IsData evs
      → flat evs ≡ frame_bytes body exit rest
      → (cmd_reply evs).0 ≡ returned (write_escaped body)
  unfolding cmd_reply frame_bytes
  cmd_reply-frame evs d f =
      let (b, evs', r, d', g, m) =
        read_until-met rs [] evs d (rw f (has-part rs (write_escaped body) _)) in
      rw r (
        ap returned (
          sym (before-append rs b (flat evs') m)
          ∙ ap (before rs) (g ∙ f)
          ∙ before-part rs (write_escaped body) _ (has-write_escaped body)))
