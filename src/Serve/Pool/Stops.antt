-- ===== src/Serve/Pool/Stops.antt =====
-- main of scripts/pool_serve.py kills each VM that it launches.
use nether.Prelude.{
  ℕ, zero, suc, ◌+◌, String, ◌<>◌, ◌≡◌, refl, true, false, not, none, List, [], ◌∷◌, ◌++◌, arith,
  if◌then◌else◌,
}
use nether.Prelude.Action.{pure, resume, ◌>>=◌, ◌>>◌}
use nether.Lab.{
  made_folder, wrote, launched, Trace, killed, Site, Lab, Script, perform, meta, try_pass, launch,
  keep, Act, after_act, is_stuck,
}
use nether.Lab.Preserved.{IsTracked, Preserves, Preserves-bind, Preserves-pure}
use nether.Lab.Tracks.{
  tracked_next, Among-append_left, Among-append_right, lab_rules, Tracks-until, Tracks-fail_if,
}
use nether.Lab.Stops.{Ends, end_rules}
use mathlib.Core.Path.{subst}
use nether.Vm.{contains}
use nether.Lab.Reads.{Stop}
use nether.Prelude.{Bool-cases, ◌==◌, ◌<◌, ◌⊎◌, inl, inr, Among, here, there}
use nether.Prelude.Outcome.{Outcome, returned, raised}
use nether.Serve.{Place, serves}
use nether.Serve.Tracks.{Tracks-wait_up, Tracks-worker, IsCalm-base_folder}
use nether.Serve.Pool.{
  Line, Vm, vm_conf, fork_vm, fork_all, keep_all, serving_round, wait_serving, warm_all, info,
  count_ready, count_served, checkout, fork_more, bake, use_pool, pool_body, pool_main,
}

module _ {X : Type 0} (L : Site X) (P : Place) (srv : Line) where
  pids : List (Vm L P srv) → List ℕ
  pids [] = []
  pids (v ∷ vs) = v.1.0 ∷ pids vs

  Tracks-fork_vm :
      {B : Type 0} (idx : ℕ) (snap : String) (f : Vm L P srv → Script X B)
      → ((v : Vm L P srv) → Preserves IsTracked (f v))
      → Preserves IsTracked (fork_vm L P srv idx snap >>= λ v. keep v.1.0 >> f v)
  unfolding fork_vm perform launch keep
  Tracks-fork_vm idx snap f pf = record {
    at = λ w h.
        let d = L.join P.work ("vm" <> L.show idx) in
        let w1 = after_act L (made_folder d) w in
        let conf : Act = wrote (L.join d "nether.conf") (vm_conf L P srv snap) in
        let w2 = after_act L conf w1 in
        elim (Bool-cases (L.allows (made_folder d) w.trace w.clock)) [
          | inr e ↦ rw e h
          | inl e ↦ rw e (elim (Bool-cases (L.allows conf w1.trace w1.clock)) [
            | inr e' ↦ rw e' h
            | inl e' ↦ rw e' (elim (Bool-cases (L.allows (launched w.made d) w2.trace w2.clock)) [
              | inr e'' ↦ rw e'' h
              | inl e'' ↦ rw e'' ((pf _).at _ (λ p b. tracked_next w h p b))
            ])
          ])
        ];
  }

  -- The calls that launch the fork of that number succeed.
  pub record CanFork (i : ℕ) : Type 0 where
    pub folder :
        (t : Trace) (c : ℕ) → L.allows (made_folder (L.join P.work ("vm" <> L.show i))) t c ≡ true
    pub conf :
        (s : String) (t : Trace) (c : ℕ)
        → L.allows (wrote (L.join (L.join P.work ("vm" <> L.show i)) "nether.conf") s) t c ≡ true
    pub vm :
        (p : ℕ) (t : Trace) (c : ℕ)
        → L.allows (launched p (L.join P.work ("vm" <> L.show i))) t c ≡ true

  -- The forks are not yet in `procs`: each process is an earlier one, or one of theirs.
  OwnsAll : ℕ → List ℕ → Outcome Stop (List (Vm L P srv)) → Lab X → Type 0
  OwnsAll m ps (returned vs) w =
      (w.procs ≡ ps) × ((p : ℕ) → p < w.made → (p < m) ⊎ Among p (pids vs))
  OwnsAll m ps (raised e) w = ⊥

  OwnsAll-cons :
      (m : ℕ) (ps : List ℕ) (d : String) (t : ℕ) (r : Outcome Stop (List (Vm L P srv))) (w : Lab X)
      → OwnsAll (m + 1) ps r w
      → OwnsAll m ps
          (resume r (λ vs. pure ((d, (m, t)) ∷ vs)) w).0
          (resume r (λ vs. pure ((d, (m, t)) ∷ vs)) w).1
  unfolding OwnsAll pids
  OwnsAll-cons m ps d t (raised e) w h = h
  OwnsAll-cons m ps d t (returned vs) w h = (
    h.0,
    λ p b. elim (h.1 p b) [
      | inr a ↦ inr (there a)
      | inl lt ↦ elim (Bool-cases (p == m)) [
        | inl e ↦ inr (subst (λ n. Among p (n ∷ pids vs)) (ground arith) here)
        | inr n ↦ inl (ground arith)
      ]
    ],
  )

  fork_all-OwnsAll :
      (n idx : ℕ) (snap : String) (w : Lab X)
      → ((i : ℕ) → i < idx + n → CanFork i)
      → OwnsAll w.made w.procs (fork_all L P srv n idx snap w).0 (fork_all L P srv n idx snap w).1
  unfolding fork_all fork_vm perform launch OwnsAll
  fork_all-OwnsAll zero idx snap w can = (refl, λ p b. inl b)
  fork_all-OwnsAll (suc n) idx snap w can =
      let fork = can idx (omega arith) in
      rw (fork.folder w.trace w.clock) (
        rw (fork.conf _ _ _) (
          rw (fork.vm _ _ _) (
            OwnsAll-cons w.made w.procs _ _ _ _
              (fork_all-OwnsAll n (idx + 1) snap _ (λ i b. can i (omega (arith, b)))))))

  kept_next :
      (q : ℕ) (vs : List (Vm L P srv)) (ps : List ℕ) (p : ℕ)
      → Among p ps ⊎ Among p (q ∷ pids vs)
      → Among p (ps ++ (q ∷ [])) ⊎ Among p (pids vs)
  kept_next q vs ps p (inl h) = inl (Among-append_left ps _ h)
  kept_next q vs ps _ (inr here) = inl (Among-append_right ps _ here)
  kept_next q vs ps p (inr (there h)) = inr h

  keep_all-procs :
      (vs : List (Vm L P srv)) (w : Lab X)
      → ((keep_all L P srv vs w).0 ≡ returned tt)
        × ((keep_all L P srv vs w).1.made ≡ w.made)
        × ((p : ℕ) → Among p w.procs ⊎ Among p (pids vs) → Among p (keep_all L P srv vs w).1.procs)
  unfolding keep_all pids keep
  keep_all-procs [] w = (refl, refl, λ p o. elim o [ inl h ↦ h | inr h ↦ elim h [ ] ])
  keep_all-procs (v ∷ vs) w =
      let ih = keep_all-procs vs (record w { procs = w.procs ++ (v.1.0 ∷ []) }) in
      (ih.0, ih.1, λ p o. ih.2 p (kept_next v.1.0 vs w.procs p o))

  resume_kept :
      {B : Type 0} (r : Outcome Stop (Unit {0})) (w : Lab X) (m : Script X B)
      → r ≡ returned tt
      → IsTracked w
      → Preserves IsTracked m
      → IsTracked (resume r (λ u. m) w).1
  resume_kept (returned u) w m e h pm = pm.at w h
  resume_kept (raised x) w m e h pm = h

  resume_forks :
      {B : Type 0} (m : ℕ) (ps : List ℕ) (r : Outcome Stop (List (Vm L P srv))) (w : Lab X)
      (f : List (Vm L P srv) → Script X B)
      → OwnsAll m ps r w
      → ((p : ℕ) → p < m → Among p ps)
      → ((vs : List (Vm L P srv)) → Preserves IsTracked (f vs))
      → IsTracked (resume r (λ vs. keep_all L P srv vs >> f vs) w).1
  unfolding OwnsAll
  resume_forks m ps (raised e) w f o h pf = absurd o
  resume_forks m ps (returned vs) w f o h pf =
      let k = keep_all-procs vs w in
      let tracked : IsTracked (keep_all L P srv vs w).1 = λ p b.
        k.2 p (elim (o.1 p (rw (← k.1) b)) [ inl lt ↦ inl (rw (o.0) (h p lt)) | inr a ↦ inr a ]) in
      resume_kept _ _ (f vs) k.0 tracked (pf vs)

  Tracks-fork_all :
      {B : Type 0} (n idx : ℕ) (snap : String) (f : List (Vm L P srv) → Script X B)
      → ((i : ℕ) → i < idx + n → CanFork i)
      → ((vs : List (Vm L P srv)) → Preserves IsTracked (f vs))
      → Preserves IsTracked (fork_all L P srv n idx snap >>= λ vs. keep_all L P srv vs >> f vs)
  Tracks-fork_all n idx snap f can pf = record {
    at = λ w h. resume_forks w.made w.procs _ _ f (fork_all-OwnsAll n idx snap w can) h pf;
  }

  Tracks-wait_serving : (d : String) (t0 : ℕ) → Preserves IsTracked (wait_serving L P srv d t0)
  unfolding wait_serving serving_round
  Tracks-wait_serving d t0 = search (lab_rules, Tracks-until) depth 12

  Tracks-warm_all :
      (iid : String) (vs : List (Vm L P srv)) → Preserves IsTracked (warm_all L P srv iid vs)
  unfolding warm_all
  Tracks-warm_all iid [] = search lab_rules
  Tracks-warm_all iid (v ∷ vs) = Preserves-bind IsTracked _ _ (Tracks-wait_serving v.0 v.1.1) (λ r.
      Preserves-bind IsTracked _ _
        (Tracks-fail_if (not (serves L iid r)) "pool VM %d never served the warm base server")
        (λ u. Tracks-warm_all iid vs))

  Tracks-info : (path : String) → Preserves IsTracked (info L P srv path)
  unfolding info
  Tracks-info path = search lab_rules

  Tracks-count_ready : (vs : List (Vm L P srv)) → Preserves IsTracked (count_ready L P srv vs)
  unfolding count_ready
  Tracks-count_ready [] = search lab_rules
  Tracks-count_ready (v ∷ vs) =
      Preserves-bind IsTracked _ _ (Tracks-info (L.join v.0 "c.sock")) (λ r.
        Preserves-bind IsTracked _ _ (Tracks-count_ready vs)
          (λ n. Preserves-pure IsTracked (if contains "data_plane=on" r then n + 1 else n)))

  Tracks-count_served :
      (iid : String) (vs : List (Vm L P srv)) → Preserves IsTracked (count_served L P srv iid vs)
  unfolding count_served
  Tracks-count_served iid [] = search lab_rules
  Tracks-count_served iid (v ∷ vs) =
      Preserves-bind IsTracked _ _ (Tracks-worker L 2 iid (L.join v.0 "d.sock")) (λ r.
        Preserves-bind IsTracked _ _ (Tracks-count_served iid vs)
          (λ n. Preserves-pure IsTracked (if serves L iid r then n + 1 else n)))

  Tracks-checkout : (vs : List (Vm L P srv)) → Preserves IsTracked (checkout L P srv vs)
  unfolding checkout
  Tracks-checkout [] = search lab_rules
  Tracks-checkout (v ∷ vs) = search lab_rules

  Tracks-fork_more :
      (idx : ℕ) (snap iid failure : String)
      → Preserves IsTracked (fork_more L P srv idx snap iid failure)
  unfolding fork_more
  Tracks-fork_more idx snap iid failure = Tracks-fork_vm idx snap _ (λ v.
      Preserves-bind IsTracked _ _ (Tracks-wait_serving v.0 v.1.1)
        (λ r. Tracks-fail_if (not (serves L iid r)) failure))

  Tracks-bake : (base : String) → Preserves IsTracked (bake L P srv base)
  unfolding bake
  Tracks-bake base = search (lab_rules, Tracks-wait_up) depth 30

  Tracks-end : (s : ℕ) → Preserves IsTracked (try_pass (meta L s "__shutdown__" >>= λ r. pure tt))
  Tracks-end s = search lab_rules

  Tracks-use_pool :
      (n s : ℕ) (iid snap : String) (vs : List (Vm L P srv))
      → Preserves IsTracked (use_pool L P srv n s iid snap vs)
  unfolding use_pool
  Tracks-use_pool n s iid snap vs = Preserves-bind IsTracked _ _ (Tracks-warm_all iid vs) (λ u.
      Preserves-bind IsTracked _ _ (Tracks-count_ready vs) (λ dp_on.
        Preserves-bind IsTracked _ _
          (Tracks-fail_if (not (dp_on == n)) "only %d/%d forks advertise data_plane=on")
          (λ u. Preserves-bind IsTracked _ _ (Tracks-checkout vs) (λ u.
            Preserves-bind IsTracked _ _
              (Tracks-fork_more n snap iid "cold on-demand fork did not serve")
              (λ u. Preserves-bind IsTracked _ _ (Tracks-count_served iid vs) (λ served.
                Preserves-bind IsTracked _ _
                  (Tracks-fail_if (not (served == n)) "concurrency: only %d/%d pool VMs served")
                  (λ u.
                    Preserves-bind IsTracked _ _
                      (Tracks-fork_more (n + 1) snap iid "refill fork did not serve")
                      (λ u. Tracks-end s))))))))

  Tracks-pool_body :
      (n : ℕ) (base : String)
      → ((i : ℕ) → i < n → CanFork i)
      → Preserves IsTracked (pool_body L P srv n base)
  unfolding pool_body
  Tracks-pool_body n base can = Preserves-bind IsTracked _ _ (Tracks-bake base) (λ b.
      Tracks-fork_all n 0 b.1.1 _ (λ i h. can i (omega (arith, h)))
        (λ vs.
          Preserves-bind IsTracked _ _ (Tracks-use_pool n b.0 b.1.0 b.1.1 vs)
            (λ u. Preserves-pure IsTracked none)))

  Ends-pool_main : (n : ℕ) → ((i : ℕ) → i < n → CanFork i) → Ends (pool_main L P srv n)
  unfolding pool_main
  Ends-pool_main n can = search (end_rules, IsCalm-base_folder, Tracks-pool_body) depth 30

  -- When pool_serve.py, begun without processes, comes to an end, by a return or an exception, and no
  -- call that launches the n forks of its pool has failed (one of the base, of the cold fork or of the
  -- refill may), then each VM that it launched was sent a kill.
  pub pool_main-IsClosed :
      (n : ℕ) (w : Lab X)
      → ((i : ℕ) → i < n → CanFork i)
      → w.made ≡ 0
      → is_stuck (pool_main L P srv n w).0 ≡ false
      → (p : ℕ) → p < (pool_main L P srv n w).1.made
      → Among (killed p) (pool_main L P srv n w).1.trace
  pool_main-IsClosed n w can none_made s = (Ends-pool_main n can).at w none_made s
