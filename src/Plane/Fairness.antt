-- ===== src/Plane/Fairness.antt =====
-- scripts/data_plane_fairness.py: whether a large transfer starves the small ones beside it.
use nether.Prelude.{ℕ, zero, suc, ◌*◌, String, ◌<>◌, Bool, List, [], ◌∷◌, ltb, if◌then◌else◌}
use nether.Prelude.Action.{pure, ◌>>=◌, ◌>>◌}
use nether.Lab.{
  Site, Script, Trace, removed_tree, made_folder, linked, wrote, final, act, launch, sleep,
}
use nether.Serve.{Place}
use nether.Plane.{
  largest, http, up, serve_plane, begin_big, join_big, samples, close_down, stop_one,
}

-- The verdict: from the latencies idle and under load, mx > max(0.2, base_mx * 10)
unfoldable pub is_blocked : List ℕ → List ℕ → Bool
unfolding largest
is_blocked base_lat load_lat =
    let bound = largest base_lat * 10 in
    ltb (if ltb 200_000 bound then bound else 200_000) (largest load_lat)

-- `alive` is th.is_alive(), and `srv` is SRV.
module _ {X : Type 0} (L : Site X) (P : Place) (alive : Trace → Bool) (srv : String) where
  open L use {join}

  -- for _ in range(n): _, l = http(dsk, "/small"); base_lat.append(l); time.sleep(0.02)
  baseline : ℕ → String → Script X (List ℕ)
  unfolding http sleep
  baseline zero dsk = pure []
  baseline (suc n) dsk = do
    r ← http L dsk "/small"
    sleep L 20_000
    ls ← baseline n dsk
    pure (r.1 ∷ ls)

  -- The steps under `try`: what the verdict says.
  unfoldable pub fairness_body : String → Script X Bool
  unfolding up serve_plane http baseline begin_big sleep samples join_big is_blocked close_down
  fairness_body base = do
    s ← up L (join base "c.sock")
    serve_plane L srv s
    http L (join base "d.sock") "/small"
    base_lat ← baseline 20 (join base "d.sock")
    d ← begin_big L (join base "d.sock")
    sleep L 50_000
    load_lat ← samples L alive 60 (join base "d.sock")
    join_big L d
    close_down L s
    pure (is_blocked base_lat load_lat)

  -- main() of data_plane_fairness.py: the verdict, which is printed only, and the status
  unfoldable pub fairness_main : Script X (Bool × ℕ)
  unfolding act launch final fairness_body stop_one
  fairness_main = do
    act L (removed_tree P.work)
    act L (made_folder (join P.work "b"))
    act L (linked (P.nb <> "/kernels") (join (join P.work "b") "kernels"))
    act L (
        wrote (join (join P.work "b") "nether.conf")
          "control_socket=c.sock\ndata_socket=d.sock\napp_port=8080\nram_mb=768\ncpus=4\n")
    p ← launch L (join P.work "b")
    blocked ← final (fairness_body (join P.work "b")) (stop_one L P.work p)
    pure (blocked, 0)
