-- ===== src/Vm.antt =====
-- scripts/bake.py: what the runner does to the host and to the VM that it drives, as actions on the
-- files, the clock, the control socket and a record of the calls that leave the runner.
pub mod Quiet
pub mod Waits
pub mod Leads
use text.Mathlib.Text.{find?}
use nether.Prelude.{
  ℕ, zero, suc, ◌+◌, ◌/◌, String, ◌<>◌, Bool, true, false, Option, none, some, List, [], ◌∷◌, ◌++◌,
  ◌==◌, leb, if◌then◌else◌,
}
use nether.Prelude.Outcome.{Outcome, returned, raised}
use nether.Prelude.Action.{Action, pure, ◌>>=◌, ◌>>◌}
use nether.Prelude.Dict.{lookup, insert, erase}
use nether.Os.{Bytes, File, Files, Os}
use nether.Errors.{Exc, os_error, timeout_expired}
use nether.Wire.{Recv, cmd_reply, meta_reply}

-- A call that leaves the runner and is not a change of one file.
pub data Op : Type 0 where
  removed_tree made_folder : String → Op
  linked : String → String → Op
  launched : String → Op
  connected : String → Op
  sent : String → Op
  terminated killed : Op

pub record World : Type 0 where
  pub files : Files
  pub clock : ℕ
  pub inbox : List Recv
  pub trace : List Op

-- What is not in the repository's scripts: the clock of a VM's answers, the VM and the nether
-- binary, and the calls of Python's library. A history lists the calls made, the latest first.
pub record Host : Type 0 where
  -- what the VM sends upon the latest line, how long that takes, and what it writes to disk
  pub reply : List Op → List Recv
  pub takes : List Op → ℕ
  pub writes : List Op → Files → Files
  -- whether a socket stands at the path, and takes a connection, at that time
  pub socket_exists : String → ℕ → Bool
  pub accepts : String → ℕ → Bool
  -- whether a launch in that folder, where OSError ends it otherwise, succeeds at that time
  pub can_launch : String → ℕ → Bool
  -- a run of the binary in a scratch folder with that nether.conf: its exit status, or that it took
  -- longer than 600 seconds, and the files that it leaves
  pub transform : String → Files → Option ℕ × Files
  pub remove_tree : String → Files → Files
  pub encode : String → Bytes
  pub decode : Bytes → String
  pub strip : String → String

abbrev pub Run : Type 0 → Type 0
Run A = Action World Exc A

-- needle in hay
abbrev pub contains : String → String → Bool
contains needle hay = elim (find? hay needle) [ none ↦ false | some _ ↦ true ]

-- time.sleep, in microseconds
unfoldable pub sleep : ℕ → Run (Unit {0})
sleep us w = (returned tt, record w { clock = w.clock + us })

unfoldable pub note : Op → Run (Unit {0})
note op w = (returned tt, record w { trace = op ∷ w.trace })

unfoldable pub gets : {A : Type 0} → (World → A) → Run A
gets f w = (returned (f w), w)

-- A step that may raise, on the files alone.
unfoldable pub on_files : {A : Type 0} → (Files → Outcome Exc A × Files) → Run A
on_files f w = let (r, fs) = f w.files in (r, record w { files = fs })

unfoldable pub write : String → Bytes → Run (Unit {0})
write path b w = (
  returned tt,
  record w { files = insert path (record { content = b; mtime = w.clock }) w.files },
)

-- shutil.move and os.replace, of a file
move_in : String → String → Option File → Files → Outcome Exc (Unit {0}) × Files
move_in from to none fs = (raised os_error, fs)
move_in from to (some f) fs = (returned tt, insert to f (erase from fs))

unfoldable pub move : String → String → Run (Unit {0})
unfolding on_files move_in
move from to = on_files (λ fs. move_in from to (lookup from fs) fs)

transform_done : Option ℕ → Outcome Exc Bool
transform_done none = raised timeout_expired
transform_done (some status) = returned (status == 0)

module _ (h : Host) where
  -- s.sendall(line.encode() + b"\n"), and what the VM does upon it
  unfoldable pub send : String → Run (Unit {0})
  send line w =
      let trace = sent line ∷ w.trace in
      (
        returned tt,
        record {
          files = h.writes trace w.files;
          clock = w.clock + h.takes trace;
          inbox = w.inbox ++ h.reply trace;
          trace = trace;
        },
      )

  -- A reader of the socket; what it does not read stays.
  unfoldable pub receive : (List Recv → Outcome Exc Bytes × List Recv) → Run String
  receive reader w =
      let (r, evs) = reader w.inbox in
      (
        (elim r [ returned b ↦ returned (h.decode b) | raised e ↦ raised e ]),
        record w { inbox = evs },
      )

  -- launch(work, log): its log may not open, and the binary may not run.
  unfoldable pub launch : String → Run (Unit {0})
  launch work w =
      if h.can_launch work w.clock
      then (returned tt, record w { trace = launched work ∷ w.trace })
      else (raised os_error, w)

  unfoldable pub cmd : String → Run String
  unfolding send receive
  cmd line = do send line; receive cmd_reply

  unfoldable pub meta : String → Run String
  unfolding send receive
  meta line = do send line; reply ← receive meta_reply; pure (h.strip reply)

  -- A new socket, on which nothing has come yet.
  unfoldable pub uconn : String → Run (Unit {0})
  uconn path w =
      if h.accepts path w.clock
      then (returned tt, record w { inbox = []; trace = connected path ∷ w.trace })
      else (raised os_error, w)

  -- `while time.time() - t0 < timeout`, a round each 300 microseconds. The fuel bounds the rounds.
  wait_from : ℕ → String → ℕ → ℕ → Run Bool
  wait_from zero path t0 timeout w = (returned false, w)
  wait_from (suc fuel) path t0 timeout w =
      let later = wait_from fuel path t0 timeout (record w { clock = w.clock + 300 }) in
      if leb (t0 + timeout) w.clock
      then (returned false, w)
      else if h.socket_exists path w.clock
      then (returned true, w)
      else later

  unfoldable pub wait_sock : String → ℕ → Run Bool
  unfolding wait_from
  wait_sock path timeout w = wait_from (timeout / 300 + 2) path w.clock timeout w

  -- True if the binary exits with status 0. The scratch folder is gone in the end.
  unfoldable pub nether_transform : Os → String → String → String → String → Run Bool
  unfolding transform_done on_files
  nether_transform o key_in key_out src dst = on_files (λ fs.
      let conf =
        (((key_in <> "=") <> o.abspath src) <> "\n")
        <> (((key_out <> "=") <> o.abspath dst) <> "\n") in
      let (status, fs') = h.transform conf fs in (transform_done status, fs'))
