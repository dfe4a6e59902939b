-- ===== src/Serve.antt =====
-- scripts/fork_serve.py and scripts/pool_serve.py: bases that serve HTTP in the guest, forked. What is
-- printed and measured only to be printed is left out, and threads run one after another.
pub mod Fork
pub mod Pool
pub mod Tracks
use Prim.Native.String.{slice, len}
use text.Mathlib.Text.{starts_with}
use nether.Prelude.{
  ℕ, zero, suc, String, ◌<>◌, str_eq, Bool, false, Option, none, some, List, [], ◌∷◌, if◌then◌else◌,
}
use nether.Prelude.Action.{pure, ◌>>=◌, ◌>>◌}
use nether.Lab.{Site, Script, linked, wrote, act, attempts, cat, cmd_raw, hit, try_or}
use nether.Vm.{contains}

-- NB, BIN and WORK of a script.
pub record Place : Type 0 where
  pub nb : String
  pub bin : String
  pub work : String

-- The last word that starts with the key, without it.
unfoldable pub last_value : String → List String → Option String
last_value key [] = none
last_value key (tok ∷ toks) =
    let here = if starts_with tok key then some (slice tok (len key) (len tok)) else none in
    elim (last_value key toks) [ some v ↦ some v | none ↦ here ]

-- parse(resp) of pool_serve.py, and the first value of fork_serve.py's
unfoldable pub parse_iid : {X : Type 0} → Site X → String → Option String
unfolding last_value
parse_iid L resp = last_value "IID=" (L.split resp)

-- An answer that is there and that parses to the server's id: `x and parse(x)[0] == base_iid`.
unfoldable pub serves : {X : Type 0} → Site X → String → Option String → Bool
unfolding parse_iid
serves L iid none = false
serves L iid (some resp) = elim (parse_iid L resp) [ none ↦ false | some i ↦ str_eq i iid ]

module _ {X : Type 0} (L : Site X) where
  -- The work folder of a base: a fresh tree, the kernels and the conf.
  unfoldable pub base_folder : Place → String → String → Script X (Unit {0})
  unfolding act
  base_folder P base conf = do
    act L (linked (P.nb <> "/kernels") (L.join base "kernels"))
    act L (wrote (L.join base "nether.conf") conf)

  -- any("UP" in cat(s, "/tmp/up") or time.sleep(0.5) for _ in range(40))
  unfoldable pub wait_up : ℕ → Script X Bool
  unfolding attempts cat
  wait_up s = attempts L 40 500_000 (do r ← cat L (cmd_raw L) s "/tmp/up"; pure (contains "UP" r))

  -- worker(i): for _ in range(2): try: v = hit(path, 15); if v is served: return v
  unfoldable pub worker : ℕ → String → String → Script X (Option String)
  unfolding hit try_or serves
  worker zero iid path = pure none
  worker (suc n) iid path = do
    v ← try_or none (do r ← hit L path; pure (some r))
    (if serves L iid v then pure v else worker n iid path)
