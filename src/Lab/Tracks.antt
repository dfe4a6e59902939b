-- ===== src/Lab/Tracks.antt =====
-- The processes of a proof script: rules by which each one that it launches is in its list `procs`.
use mathlib.Core.Path.{subst}
use nether.Prelude.{
  ℕ, zero, suc, ◌+◌, ◌<◌, String, Bool, true, false, Option, some, List, [], ◌∷◌, ◌++◌, inl, inr,
  arith, if◌then◌else◌, leb, ltb, Bool-cases, Option-cases, ◌==◌, Among, here, there,
}
use nether.Prelude.Outcome.{Outcome}
use nether.Prelude.Action.{pure, ◌>>=◌, ◌>>◌}
use nether.Lab.{
  launched, Site, Lab, Script, Act, fail, fail_if, keep, act, perform, sleep, is_there, read_text,
  launch, start, uc, send, receive, cmd_exit, cmd, cmd_raw, meta, cat, hit, wait, wait_or_raise,
  await_from, await_path, sock_from, wait_sock, attempts, until_from, until, ready, shut_down,
}
use nether.Lab.Preserved.{
  IsTracked, Preserves, Preserves-bind, Preserves-option, Preserves-if, Preserves-pure,
  Preserves-raise, flow_rules,
}
use nether.Errors.{timeout_expired}
use nether.Lab.Reads.{Stop, exception}
use nether.Wire.{Recv}

module _ {A : Type 0} where
  pub Among-append_left : {a : A} (xs ys : List A) → Among a xs → Among a (xs ++ ys)
  Among-append_left [] ys h = elim h [ ]
  Among-append_left (x ∷ xs) ys here = here
  Among-append_left (x ∷ xs) ys (there h) = there (Among-append_left xs ys h)

  pub Among-append_right : {a : A} (xs ys : List A) → Among a ys → Among a (xs ++ ys)
  Among-append_right [] ys h = h
  Among-append_right (x ∷ xs) ys h = there (Among-append_right xs ys h)

module _ {X : Type 0} where
  pub Tracks-fail : (m : String) → Preserves (IsTracked {X = X}) (fail m)
  unfolding fail
  Tracks-fail m = record { at = λ w h. h }

  pub Tracks-fail_if : (b : Bool) (m : String) → Preserves (IsTracked {X = X}) (fail_if b m)
  unfolding fail_if
  Tracks-fail_if true m = record { at = λ w h. h }
  Tracks-fail_if false m = record { at = λ w h. h }

  pub tracked_next :
      (w : Lab X) → IsTracked w → (p : ℕ) → p < w.made + 1 → Among p (w.procs ++ (w.made ∷ []))
  tracked_next w h p b = elim (Bool-cases (p == w.made)) [
    | inl e ↦ Among-append_right w.procs _ (subst (λ n. Among p (n ∷ [])) (ground arith) here)
    | inr n ↦ Among-append_left w.procs _ (h p (ground arith))
  ]

  pub if-tracks :
      {A : Type 0} (b : Bool) (x y : Outcome Stop A × Lab X)
      → IsTracked x.1
      → IsTracked y.1
      → IsTracked (if b then x else y).1
  if-tracks true x y hx hy = hx
  if-tracks false x y hx hy = hy

module _ {X : Type 0} (L : Site X) where
  pub Tracks-act : (a : Act) → Preserves IsTracked (act L a)
  unfolding act
  Tracks-act a = record { at = λ w h. h }

  pub Tracks-sleep : (us : ℕ) → Preserves IsTracked (sleep L us)
  unfolding sleep
  Tracks-sleep us = record { at = λ w h. h }

  pub Tracks-is_there : (p : String) → Preserves IsTracked (is_there L p)
  unfolding is_there
  Tracks-is_there p = record { at = λ w h. h }

  pub Tracks-read_text : (p : String) → Preserves IsTracked (read_text L p)
  unfolding read_text
  Tracks-read_text p = record {
    at = λ w h. elim (Option-cases (L.contents w.trace p)) [
      | inl e ↦ rw (e, read_text) h
      | inr (s, e) ↦ rw (e, read_text) h
    ];
  }

  pub Tracks-perform : (a : Act) → Preserves IsTracked (perform L a)
  unfolding perform
  Tracks-perform a = record {
    at = λ w h. elim (Bool-cases (L.allows a w.trace w.clock)) [ inl e ↦ rw e h | inr e ↦ rw e h ];
  }

  -- A launch whose process is appended to `procs` at the next step.
  pub Tracks-launch :
      {A : Type 0} (cwd : String) (g : ℕ → Script X A)
      → ((p : ℕ) → Preserves IsTracked (g p))
      → Preserves IsTracked (launch L cwd >>= λ p. keep p >> g p)
  unfolding launch keep
  Tracks-launch cwd g pg = record {
    at = λ w h. elim (Bool-cases (L.allows (launched w.made cwd) w.trace w.clock)) [
      | inl e ↦ rw e ((pg w.made).at _ (λ p b. tracked_next w h p b))
      | inr e ↦ rw e h
    ];
  }

  -- A launch that is appended to `procs` at once.
  pub Tracks-start : (cwd : String) → Preserves IsTracked (start L cwd)
  unfolding start
  Tracks-start cwd = Tracks-launch cwd (λ p. pure p) (λ p. Preserves-pure IsTracked p)

  pub Tracks-uc : (path : String) → Preserves IsTracked (uc L path)
  unfolding uc
  Tracks-uc path = record {
    at = λ w h. elim (Bool-cases (L.accepts w.trace w.clock path)) [
      | inl e ↦ rw (e, uc) h
      | inr e ↦ rw (e, uc) h
    ];
  }

  pub Tracks-send : (c : ℕ) (line : String) → Preserves IsTracked (send L c line)
  unfolding send
  Tracks-send c line = record { at = λ w h. h }

  pub Tracks-receive :
      {A : Type 0} (c : ℕ) (reader : List Recv → Outcome Stop A × List Recv)
      → Preserves IsTracked (receive L c reader)
  unfolding receive
  Tracks-receive c reader = record { at = λ w h. h }

  pub Tracks-wait : (p : ℕ) → Preserves IsTracked (wait L p)
  unfolding wait
  Tracks-wait p = record { at = λ w h. h }

  pub ruleset call_rules = (
    flow_rules, Tracks-fail, Tracks-fail_if, Tracks-act, Tracks-sleep, Tracks-is_there,
    Tracks-read_text, Tracks-start, Tracks-uc, Tracks-send, Tracks-receive, Tracks-wait,
  )

  pub Tracks-cmd : (c : ℕ) (line : String) → Preserves IsTracked (cmd L c line)
  unfolding cmd cmd_exit
  Tracks-cmd c line = search call_rules

  pub Tracks-cmd_exit : (c : ℕ) (line : String) → Preserves IsTracked (cmd_exit L c line)
  unfolding cmd_exit
  Tracks-cmd_exit c line = search call_rules

  pub Tracks-cmd_raw : (c : ℕ) (line : String) → Preserves IsTracked (cmd_raw L c line)
  unfolding cmd_raw
  Tracks-cmd_raw c line = search call_rules

  pub Tracks-meta : (c : ℕ) (line : String) → Preserves IsTracked (meta L c line)
  unfolding meta
  Tracks-meta c line = search call_rules

  pub Tracks-hit : (path : String) → Preserves IsTracked (hit L path)
  unfolding hit
  Tracks-hit path = search call_rules

  pub Tracks-wait_or_raise : (p : ℕ) → Preserves IsTracked (wait_or_raise L p)
  unfolding wait_or_raise
  Tracks-wait_or_raise p = Preserves-bind IsTracked (wait L p) _ (Tracks-wait p) (λ r.
      Preserves-option IsTracked r _ _ (Preserves-raise IsTracked (exception timeout_expired))
        (λ code. Preserves-pure IsTracked code))

  await_from-tracks :
      (fuel : ℕ) (path : String) (deadline pause : ℕ)
      → Preserves IsTracked (await_from L fuel path deadline pause)
  unfolding await_from
  await_from-tracks zero path deadline pause = record { at = λ w h. h }
  await_from-tracks (suc fuel) path deadline pause = record {
    at = λ w h. if-tracks (L.present w.trace w.clock path) _ _ h (
        if-tracks (leb deadline w.clock) _ _ h (
          (Preserves-bind IsTracked (sleep L pause) _ (Tracks-sleep pause)
              (λ u. await_from-tracks fuel path deadline pause)).at
            w h));
  }

  pub Tracks-await_path :
      (path : String) (t0 timeout pause : ℕ)
      → Preserves IsTracked (await_path L path t0 timeout pause)
  unfolding await_path
  Tracks-await_path path t0 timeout pause = await_from-tracks _ path _ pause

  sock_from-tracks :
      (fuel : ℕ) (path : String) (deadline pause : ℕ)
      → Preserves IsTracked (sock_from L fuel path deadline pause)
  unfolding sock_from
  sock_from-tracks zero path deadline pause = record { at = λ w h. h }
  sock_from-tracks (suc fuel) path deadline pause = record {
    at = λ w h. if-tracks (L.present w.trace w.clock path) _ _ h (
        if-tracks (ltb deadline w.clock) _ _ h (
          (Preserves-bind IsTracked (sleep L pause) _ (Tracks-sleep pause)
              (λ u. sock_from-tracks fuel path deadline pause)).at
            w h));
  }

  pub Tracks-wait_sock :
      (path : String) (timeout pause : ℕ) → Preserves IsTracked (wait_sock L path timeout pause)
  unfolding wait_sock
  Tracks-wait_sock path timeout pause = record {
    at = λ w h. (sock_from-tracks _ path (w.clock + timeout) pause).at w h;
  }

  pub Tracks-attempts :
      (n pause : ℕ) (m : Script X Bool)
      → Preserves IsTracked m
      → Preserves IsTracked (attempts L n pause m)
  unfolding attempts
  Tracks-attempts zero pause m p = search call_rules
  Tracks-attempts (suc n) pause m p = Preserves-bind IsTracked m _ p (λ ok.
      Preserves-if IsTracked ok _ _ (Preserves-pure IsTracked true) (
        Preserves-bind IsTracked (sleep L pause) _ (Tracks-sleep pause)
          (λ u. Tracks-attempts n pause m p)))

  until_from-tracks :
      {A : Type 0} (fuel deadline pause : ℕ) (m : Script X (Option A))
      → Preserves IsTracked m
      → Preserves IsTracked (until_from L fuel deadline pause m)
  unfolding until_from
  until_from-tracks zero deadline pause m p = record { at = λ w h. h }
  until_from-tracks (suc fuel) deadline pause m p = record {
    at = λ w h. if-tracks (leb deadline w.clock) _ _ h (
        (Preserves-bind IsTracked m _ p (λ r.
            Preserves-option IsTracked r _ _
              (Preserves-bind IsTracked (sleep L pause) _ (Tracks-sleep pause)
                (λ u. until_from-tracks fuel deadline pause m p))
              (λ a. Preserves-pure IsTracked (some a)))).at
          w h);
  }

  pub Tracks-until :
      {A : Type 0} (t0 timeout pause : ℕ) (m : Script X (Option A))
      → Preserves IsTracked m
      → Preserves IsTracked (until L t0 timeout pause m)
  unfolding until
  Tracks-until t0 timeout pause m p = until_from-tracks _ _ pause m p

  pub Tracks-cat :
      (by : ℕ → String → Script X String)
      → ((c : ℕ) (line : String) → Preserves IsTracked (by c line))
      → (c : ℕ) (path : String) → Preserves IsTracked (cat L by c path)
  unfolding cat
  Tracks-cat by p c path = search (call_rules, p)

  pub Tracks-ready :
      (by : ℕ → String → Script X String)
      → ((c : ℕ) (line : String) → Preserves IsTracked (by c line))
      → (c : ℕ) → Preserves IsTracked (ready L by c)
  unfolding ready
  Tracks-ready by p c = search (call_rules, p, Tracks-attempts)

  pub Tracks-shut_down :
      (by : ℕ → String → Script X String)
      → ((c : ℕ) (line : String) → Preserves IsTracked (by c line))
      → (c : ℕ) → Preserves IsTracked (shut_down L by c)
  unfolding shut_down
  Tracks-shut_down by p c = search (call_rules, p)

  pub ruleset lab_rules = (
    call_rules, Tracks-cmd, Tracks-cmd_exit, Tracks-cmd_raw, Tracks-meta, Tracks-hit,
    Tracks-wait_or_raise, Tracks-await_path, Tracks-wait_sock, Tracks-cat, Tracks-ready,
    Tracks-shut_down,
  )
