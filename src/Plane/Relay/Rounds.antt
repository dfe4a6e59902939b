-- ===== src/Plane/Relay/Rounds.antt =====
-- The loop of scripts/relay_proof.py that times a request again and again: it ends when its time is over.
use nether.Prelude.{
  ℕ, zero, suc, ◌+◌, ◌*◌, ◌/◌, ◌≤◌, ◌<◌, ◌≡◌, refl, String, false, List, [], ◌∷◌, ◌++◌, ◌==◌, leb,
  leb→le, arith, if◌then◌else◌, Bool-cases, inl, inr, length,
}
use nether.Prelude.Outcome.{Outcome, returned, raised}
use nether.Prelude.Action.{pure, resume, ◌>>=◌}
use nether.Os.{Bytes}
use nether.Errors.{Exc, os_error}
use nether.Wire.{Recv, chunk, fails}
use nether.Lab.Reads.{Stop, exception}
use nether.Lab.{
  Site, Lab, Script, Act, Trace, gets, act, after_act, sleep, send, receive, uc, try_or,
}
use nether.Serve.{Place}
use nether.Plane.{read_end, read_reply, request, answer, timed}
use nether.Plane.Relay.{curls, rounds, sample}

module _ {X : Type 0} where
  -- A step returns or raises an Exception, and time does not go back.
  data Next {A : Type 0} (w : Lab X) : Outcome Stop A × Lab X → Type 0 where
    goes : (a : A) (w' : Lab X) → w.clock ≤ w'.clock → Next w (returned a, w')
    trips : (e : Exc) (w' : Lab X) → w.clock ≤ w'.clock → Next w (raised (exception e), w')

  record IsTame {A : Type 0} (m : Script X A) : Type 0 where
    at : (w : Lab X) → Next w (m w)

module _ {X : Type 0} {A : Type 0} where
  later : (w w' : Lab X) (r : Outcome Stop A × Lab X) → w.clock ≤ w'.clock → Next w' r → Next w r
  later w w' _ h (goes a v k) = goes a v (omega (arith, h, k))
  later w w' _ h (trips e v k) = trips e v (omega (arith, h, k))

  pure-IsTame : (a : A) → IsTame {X = X} (pure a)
  pure-IsTame a = record { at = λ w. goes a w (omega arith) }

  gets-IsTame : (f : Lab X → A) → IsTame (gets f)
  gets-IsTame f = record { at = λ w. goes (f w) w (omega arith) }

module _ {X : Type 0} {A B : Type 0} where
  then_next :
      (f : A → Script X B) (w : Lab X) (r : Outcome Stop A × Lab X)
      → ((a : A) → IsTame (f a))
      → Next w r
      → Next w (resume r.0 f r.1)
  then_next f w _ t (goes a v k) = later w v (f a v) k ((t a).at v)
  then_next f w _ t (trips e v k) = trips e v k

  bind-IsTame :
      (m : Script X A) (f : A → Script X B) → IsTame m → ((a : A) → IsTame (f a)) → IsTame (m >>= f)
  bind-IsTame m f s t = record { at = λ w. then_next f w (m w) t (s.at w) }

module _ {X : Type 0} (L : Site X) where
  act-IsTame : (a : Act) → IsTame (act L a)
  unfolding act after_act
  act-IsTame a = record { at = λ w. goes tt (after_act L a w) (omega arith) }

  send-IsTame : (c : ℕ) (line : String) → IsTame (send L c line)
  unfolding send after_act
  send-IsTame c line = record { at = λ w. goes tt _ (omega arith) }

  uc-IsTame : (path : String) → IsTame (uc L path)
  unfolding uc after_act
  uc-IsTame path = record {
    at = λ w. elim (Bool-cases (L.accepts w.trace w.clock path)) [
      | inl e ↦ rw e (goes w.conns _ (omega arith))
      | inr e ↦ rw e (trips os_error w (omega arith))
    ];
  }

  read_end-tame :
      (w : Lab X) (c : ℕ) (b : Bytes) (evs : List Recv)
      → Next w (
        (read_end b evs).0,
        record w { inbox = λ d. if d == c then (read_end b evs).1 else w.inbox d },
      )
  unfolding read_end
  read_end-tame w c b [] = trips os_error _ (omega arith)
  read_end-tame w c b (chunk [] ∷ evs) = goes b _ (omega arith)
  read_end-tame w c b (chunk (x ∷ xs) ∷ evs) = read_end-tame w c (b ++ (x ∷ xs)) evs
  read_end-tame w c b (fails ∷ evs) = trips os_error _ (omega arith)

  receive-IsTame : (c : ℕ) → IsTame (receive L c (read_end []))
  unfolding receive
  receive-IsTame c = record { at = λ w. read_end-tame w c [] (w.inbox c) }

  module _ (ends : (t : Trace) (c : ℕ) → L.floods t c ≡ false) where
    read_reply-IsTame : (c : ℕ) → IsTame (read_reply L c)
    unfolding read_reply
    read_reply-IsTame c = record { at = λ w. rw (ends w.trace c) ((receive-IsTame c).at w) }

    ruleset tame_rules = (
      pure-IsTame, gets-IsTame, bind-IsTame, act-IsTame, send-IsTame, uc-IsTame, read_reply-IsTame,
    )

    timed-IsTame : (dsk path : String) → IsTame (timed L dsk path)
    unfolding timed request answer
    timed-IsTame dsk path = search tame_rules depth 20

  -- What a caught round gives: a number, and time that does not go back.
  caught_next :
      {A : Type 0} (a : A) (w : Lab X) (r : Outcome Stop A × Lab X)
      → Next w r
      → (b : A) × (w' : Lab X) × (try_or a (λ (v : Lab X). r) w ≡ (returned b, w'))
        × (w.clock ≤ w'.clock)
  unfolding try_or
  caught_next a w _ (goes b v k) = (b, v, refl, k)
  caught_next a w _ (trips e v k) = (a, v, refl, k)

  caught-tame :
      {A : Type 0} (a : A) (m : Script X A) (w : Lab X)
      → IsTame m
      → (b : A) × (w' : Lab X) × (try_or a m w ≡ (returned b, w')) × (w.clock ≤ w'.clock)
  unfolding try_or
  caught-tame a m w t = caught_next a w (m w) (t.at w)

  module _ (P : Place) (srv : String) where
    rounds-over :
        (fuel deadline : ℕ) (m : Script X ℕ) (w : Lab X)
        → ((v : Lab X) → (l : ℕ) × (v' : Lab X) × (m v ≡ (returned l, v')) × (v.clock ≤ v'.clock))
        → deadline < w.clock + fuel * 100_000
        → (ls : List ℕ) × (w' : Lab X) × (rounds L P srv fuel deadline m w ≡ (returned ls, w'))
          × (deadline ≤ w'.clock)
          × (w.clock < deadline → 0 < length ls)
    unfolding rounds sleep after_act
    rounds-over zero deadline m w t h =
        ([], w, refl, omega (arith, h), λ lt. absurd (omega (arith, h, lt)))
    rounds-over (suc fuel) deadline m w t h = elim (Bool-cases (leb deadline w.clock)) [
      | inl e ↦
          let le : deadline ≤ w.clock = leb→le deadline w.clock e in
          ([], w, rw e refl, le, λ lt. absurd (omega (arith, le, lt)))
      | inr e ↦
          let (l, v, r, k) = t w in
          let v' : Lab X = (sleep L 100_000 v).1 in
          let (ls, w', q, over, sampled) = rounds-over fuel deadline m v' t (omega (arith, k, h)) in
          (l ∷ ls, w', rw e (rw r (rw q refl)), over, λ _. omega arith)
    ]

    -- If each reply comes to an end, as the VM closes the connection or a recv fails, then the loop of
    -- relay_proof.py that times requests for three seconds returns, once they are over, with one sample
    -- at least, whatever the replies hold.
    pub curls-over :
        (dsk : String)
        → ((t : Trace) (c : ℕ) → L.floods t c ≡ false)
        → (w : Lab X)
        → (ls : List ℕ) × (w' : Lab X) × (curls L P srv dsk w ≡ (returned ls, w'))
          × (w.clock + 3_000_000 ≤ w'.clock)
          × (0 < length ls)
    unfolding curls sample
    curls-over dsk ends w =
        let (ls, w', q, over, sampled) =
          rounds-over (3_000_000 / 100_000 + 2) (w.clock + 3_000_000) (sample L P srv dsk) w
            (λ v. caught-tame 6_000_000 (timed L dsk "/" >>= λ r. pure r.1) v (
              bind-IsTame (timed L dsk "/") (λ r. pure r.1) (timed-IsTame ends dsk "/")
                (λ r. pure-IsTame r.1)))
            (omega arith) in
        (ls, w', q, over, sampled (omega arith))
