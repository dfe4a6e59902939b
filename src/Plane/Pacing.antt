-- ===== src/Plane/Pacing.antt =====
-- scripts/data_plane_pacing.py: whether the cap on a VM's bandwidth paces a transfer. A speed is a number
-- of bytes in a number of microseconds, which is the script's MB/s without its rounding.
pub mod Verdict
use Prim.Native.String.{slice, len}
use text.Mathlib.Text.{starts_with}
use nether.Prelude.{
  ℕ, zero, suc, ◌+◌, ◌*◌, String, ◌<>◌, Bool, true, false, not, ◌&&◌, Option, none, some, List, [],
  ◌∷◌, ◌==◌, ltb, leb, if◌then◌else◌,
}
use nether.Prelude.Int.{ℤ, pos, negsuc}
use nether.Prelude.Outcome.{Outcome, returned, raised}
use nether.Prelude.Action.{pure, lift, ◌>>=◌, ◌>>◌}
use nether.Errors.{value_error}
use nether.Lab.Reads.{Stop, exception}
use nether.Lab.{
  Site, Script, Trace, removed_tree, made_folder, linked, wrote, final, act, launch, cmd, sleep,
}
use nether.Serve.{Place}
use nether.Plane.{
  largest, http, up, serve_plane, begin_big, join_big, samples, close_down, stop_one,
}

abbrev pub cap_kbps : ℕ
cap_kbps = 8000

-- exp, the bytes of BIG_MIB = 8
abbrev pub body_size : ℕ
body_size = 8 * 1024 * 1024

-- out of run; small_max is there only for a capped run.
pub record Run : Type 0 where
  pub adv : Option ℤ
  pub big_bytes : ℕ
  pub big_us : ℕ
  pub small_max : Option ℕ

-- big_MBps: (nb / 1e6) / lb if lb else 0
unfoldable pub speed : Run → ℕ × ℕ
speed r = if r.big_us == 0 then (0, 1) else (r.big_bytes, r.big_us)

-- The lines of info_rate; `int_of` is `int` of a text, none where it raises.
unfoldable pub rate_of : (String → Option ℤ) → List String → Outcome Stop (Option ℤ)
rate_of int_of [] = returned none
rate_of int_of (ln ∷ lns) =
    let later = rate_of int_of lns in
    if starts_with ln "data_rate_kbps="
    then elim (int_of (slice ln (len "data_rate_kbps=") (len ln))) [
      | none ↦ raised (exception value_error)
      | some n ↦ returned (some n)
    ]
    else later

is_rate : ℕ → Option ℤ → Bool
is_rate n (some (pos m)) = m == n
is_rate n _ = false

-- lo <= cm <= hi, between 0.75 and 1.5 bytes in a microsecond
near_cap : ℕ × ℕ → Bool
near_cap (n, t) = leb (3 * t) (4 * n) && leb (2 * n) (3 * t)

-- um > cm * 3
throttled : ℕ × ℕ → ℕ × ℕ → Bool
throttled (un, ut) (cn, ct) = ltb (3 * (cn * ut)) (un * ct)

-- cap.get("small_max", 99) < 3.0
responsive : Option ℕ → Bool
responsive none = false
responsive (some us) = ltb us 3_000_000

-- ok, at the end of main
unfoldable pub passes : Run → Run → Bool
unfolding is_rate near_cap throttled responsive speed
passes unc lim =
    ((unc.big_bytes == lim.big_bytes) && leb body_size unc.big_bytes)
    && (is_rate cap_kbps lim.adv
        && (is_rate 0 unc.adv
            && (near_cap (speed lim)
                && (throttled (speed unc) (speed lim) && responsive lim.small_max))))

-- `alive` is th.is_alive(), `lines` splitlines of a text, and `srv` is SRV.
module _ {X : Type 0} (L : Site X) (P : Place) (alive : Trace → Bool) (lines : String → List String)
    (int_of : String → Option ℤ) (srv : String) where
  open L use {join}

  info_rate : ℕ → Script X (Option ℤ)
  unfolding cmd rate_of
  info_rate s = do r ← cmd L s "__info__"; lift (rate_of int_of (lines r))

  -- The transfer with small requests beside it: small_max.
  flood : String → Script X ℕ
  unfolding begin_big sleep samples join_big largest
  flood dsk = do
    d ← begin_big L dsk
    sleep L 50_000
    lat ← samples L alive 40 dsk
    join_big L d
    pure (largest lat)

  -- The steps under `try`.
  measure : ℕ → String → Script X Run
  unfolding up info_rate serve_plane http flood close_down
  measure kbps base = do
    s ← up L (join base "c.sock")
    adv ← info_rate s
    serve_plane L srv s
    http L (join base "d.sock") "/small"
    big ← http L (join base "d.sock") "/big"
    small ← if kbps == 0 then pure none else (do m ← flood (join base "d.sock"); pure (some m))
    close_down L s
    pure (record { adv = adv; big_bytes = big.0; big_us = big.1; small_max = small })

  conf_of : ℕ → String
  conf_of kbps =
      "control_socket=c.sock\ndata_socket=d.sock\napp_port=8080\nram_mb=768\ncpus=4\n"
      <> (if kbps == 0 then "" else (("data_rate_kbps=" <> L.show kbps) <> "\n"))

  -- run(cap_kbps)
  unfoldable pub run : ℕ → Script X Run
  unfolding act launch final measure stop_one conf_of
  run kbps = do
    act L (removed_tree P.work)
    act L (made_folder (join P.work "b"))
    act L (linked (P.nb <> "/kernels") (join (join P.work "b") "kernels"))
    act L (wrote (join (join P.work "b") "nether.conf") (conf_of kbps))
    p ← launch L (join P.work "b")
    final (measure kbps (join P.work "b")) (stop_one L P.work p)

  -- main(), from its two runs
  compared : Script X Run → Script X Run → Script X ℕ
  unfolding passes
  compared first second = do unc ← first; lim ← second; pure (if passes unc lim then 0 else 1)

  -- main() of data_plane_pacing.py
  unfoldable pub pacing_main : Script X ℕ
  unfolding run compared
  pacing_main = compared (run 0) (run cap_kbps)
