-- ===== src/Fuzz.antt =====
-- scripts/fuzz_restore.py: the mutants of a snapshot, the classification of a run, and the verdict
-- over all mutants. Python's generator of random numbers and the runs of the binary are parameters.
-- What is printed is left out.
pub mod Base
pub mod Layout
pub mod Fields
pub mod Cuts
pub mod Verdict
use nether.Prelude.{
  ℕ, zero, suc, ◌+◌, ◌-◌, ◌*◌, ◌/◌, ◌%◌, ◌^◌, String, ◌<>◌, Bool, true, false, ◌&&◌, ◌||◌, Option,
  none, some, List, [], ◌∷◌, ◌++◌, ◌==◌, ltb, leb, if◌then◌else◌, length, set, take, drop,
}
use nether.Prelude.Int.{ℤ, pos, negsuc}
use nether.Prelude.Outcome.{returned, raised}
use nether.Prelude.Action.{Action, pure, ◌>>=◌}
use nether.Os.{Bytes}
use nether.Errors.{Exc, value_error}
use nether.Vm.{contains}

-- The module `random`: `below lo hi` is randrange(lo, hi) where lo < hi, and `sample` is its sample.
pub record Random : Type 1 where
  pub State : Type 0
  pub below : ℕ → ℕ → State → ℕ × State
  pub sample : List (String × Bytes) → ℕ → State → List (String × Bytes) × State

-- v.to_bytes(w, "little")
unfoldable pub to_bytes : ℕ → ℕ → Bytes
to_bytes zero v = []
to_bytes (suc w) v = v % 256 ∷ to_bytes w (v / 256)

-- FIELDS: offset and width
abbrev pub fields : List (ℕ × ℕ)
fields =
    (0, 4)
    ∷ (4, 4)
    ∷ (8, 4)
    ∷ (12, 4)
    ∷ (24, 8)
    ∷ (32, 8)
    ∷ (40, 8)
    ∷ (48, 8)
    ∷ (56, 4)
    ∷ (60, 4)
    ∷ (64, 4)
    ∷ (68, 4)
    ∷ (72, 4)
    ∷ (76, 4)
    ∷ (80, 4)
    ∷ (88, 8)
    ∷ []

abbrev pub extremes : List ℕ
extremes = 0 ∷ 1 ∷ (2 ^ 8 - 1) ∷ (2 ^ 16) ∷ (2 ^ 31) ∷ (2 ^ 32 - 1) ∷ (2 ^ 63) ∷ (2 ^ 64 - 1) ∷ []

-- A mutant has a name and content.
abbrev pub Mutant : Type 0
Mutant = String × Bytes

-- b[off:off+w] = (v & ((1 << (8*w)) - 1)).to_bytes(w, "little")
unfoldable pub with_field : Bytes → ℕ → ℕ → ℕ → Bytes
unfolding to_bytes
with_field good off w v = take off good ++ (to_bytes w (v % 2 ^ (8 * w)) ++ drop (off + w) good)

-- sorted(set(ks)), an element at a time
unfoldable pub insert_sorted : ℕ → List ℕ → List ℕ
insert_sorted k [] = k ∷ []
insert_sorted k (j ∷ js) =
    let rest = insert_sorted k js in
    if k == j then j ∷ js else if ltb k j then k ∷ (j ∷ js) else j ∷ rest

unfoldable pub sorted_set : List ℕ → List ℕ
unfolding insert_sorted
sorted_set [] = []
sorted_set (k ∷ ks) = insert_sorted k (sorted_set ks)

-- n - d, which the test 0 <= k drops where it is negative
from_end : ℕ → ℕ → List ℕ
from_end n d = if leb d n then (n - d) ∷ [] else []

unfoldable pub boundaries : ℕ → List ℕ
unfolding from_end
boundaries n =
    (0
      ∷ 1
      ∷ 63
      ∷ 64
      ∷ 127
      ∷ 128
      ∷ 129
      ∷ 256
      ∷ 4096
      ∷ 16384
      ∷ (16384 + 128)
      ∷ (n / 4)
      ∷ (n / 2)
      ∷ [])
    ++ (from_end n 16384 ++ (from_end n 4096 ++ from_end n 1))

module _ (show : ℕ → String) where
  unfoldable pub field_mutants_at : Bytes → ℕ → ℕ → List ℕ → List Mutant
  unfolding with_field
  field_mutants_at good off w [] = []
  field_mutants_at good off w (v ∷ vs) =
      (((("field@" <> show off) <> "=") <> show (v % 2 ^ (8 * w))), with_field good off w v)
      ∷ field_mutants_at good off w vs

  unfoldable pub field_mutants : Bytes → List (ℕ × ℕ) → List Mutant
  unfolding field_mutants_at
  field_mutants good [] = []
  field_mutants good ((off, w) ∷ fs) = field_mutants_at good off w extremes ++ field_mutants good fs

  unfoldable pub truncations : Bytes → List ℕ → List Mutant
  truncations good [] = []
  truncations good (k ∷ ks) =
      let rest = truncations good ks in
      if leb k (length good) then ("trunc@" <> show k, take k good) ∷ rest else rest

  module _ (R : Random) where
    open R use {State, below, sample}

    abbrev pub Draw : Type 0 → Type 0
    Draw A = Action State Exc A

    -- random.randrange(lo, hi)
    unfoldable pub randrange : ℕ → ℕ → Draw ℕ
    randrange lo hi s =
        if ltb lo hi
        then (let (k, s') = below lo hi s in (returned k, s'))
        else (raised value_error, s)

    unfoldable pub flip1 : Bytes → Draw Mutant
    unfolding randrange
    flip1 good = do
      at ← randrange 0 (length good)
      b ← randrange 0 256
      pure ("flip1@" <> show at, set good at b)

    -- for k in range(k, k + left): if pos + k < n: b[pos + k] = random.randrange(256)
    unfoldable pub flip_run : ℕ → ℕ → ℕ → Bytes → Draw Bytes
    unfolding randrange
    flip_run zero at n b = pure b
    flip_run (suc left) at n b =
        if ltb at n
        then (do x ← randrange 0 256; flip_run left (at + 1) n (set b at x))
        else flip_run left (at + 1) n b

    unfoldable pub flip_n : Bytes → Draw Mutant
    unfolding randrange flip_run
    flip_n good = do
      at ← randrange 0 (if ltb 32 (length good) then length good - 32 else 1)
      ln ← randrange 1 32
      b ← flip_run ln at (length good) good
      pure ((("flipN@" <> show at) <> "+") <> show ln, b)

    random_bytes : ℕ → Draw Bytes
    unfolding randrange
    random_bytes zero = pure []
    random_bytes (suc n) = do x ← randrange 0 256; xs ← random_bytes n; pure (x ∷ xs)

    unfoldable pub tail_garbage : Bytes → Draw Mutant
    unfolding randrange random_bytes
    tail_garbage good = do
      n ← randrange 1 4096
      g ← random_bytes n
      pure ("tail+garbage", good ++ g)

    -- for _ in range(n): out.append(...)
    unfoldable pub repeated : ℕ → Draw Mutant → Draw (List Mutant)
    repeated zero m = pure []
    repeated (suc n) m = do x ← m; xs ← repeated n m; pure (x ∷ xs)

    unfoldable pub mutants : Bytes → Draw (List Mutant)
    unfolding repeated flip1 flip_n tail_garbage field_mutants truncations sorted_set boundaries
    mutants good = do
      singles ← repeated 120 (flip1 good)
      runs ← repeated 80 (flip_n good)
      tails ← repeated 10 (tail_garbage good)
      pure (
          singles
          ++ (runs
              ++ (field_mutants good fields
                  ++ (truncations good (sorted_set (boundaries (length good))) ++ tails))))

pub data Class : Type 0 where
  accepted rejected crash hang : Class

-- One of the exit statuses 134, 133, 139 and 132, or death by a signal.
unfoldable pub died : ℤ → Bool
died (negsuc n) = true
died (pos n) = (n == 134) || ((n == 133) || ((n == 139) || (n == 132)))

-- any(m in low for m in markers)
unfoldable pub any_in : List String → String → Bool
any_in [] low = false
any_in (m ∷ ms) low = contains m low || any_in ms low

abbrev pub markers : List String
markers =
    "panic" ∷ "segmentation" ∷ "reached unreachable" ∷ "index out of bounds" ∷ "integer overflow"
    ∷ "sanitizer" ∷ "cast truncated" ∷ []

-- The last lines of classify, from whether a crash shows.
classify_ended : Bool → ℤ → Class
classify_ended true status = crash
classify_ended false (pos n) = if n == 0 then accepted else rejected
classify_ended false (negsuc n) = rejected

-- classify, from what subprocess.run gives: none where it times out, or the exit status and the
-- output, in lower case.
unfoldable pub classify : Option (ℤ × String) → Class
unfolding died any_in classify_ended
classify none = hang
classify (some (status, low)) = classify_ended (died status || any_in markers low) status

pub record Tally : Type 0 where
  pub accepts : ℕ
  pub rejects : ℕ
  pub crashes : ℕ
  pub hangs : ℕ

-- tally[cls] += 1
unfoldable pub count : Class → Tally → Tally
count accepted t = record t { accepts = t.accepts + 1 }
count rejected t = record t { rejects = t.rejects + 1 }
count crash t = record t { crashes = t.crashes + 1 }
count hang t = record t { hangs = t.hangs + 1 }

-- An entry of `fails`.
pub data Failure : Type 0 where
  pristine : Class → Failure
  parser : ℕ → ℕ → Failure
  restores : ℕ → Failure

is_accepted : Class → Bool
is_accepted accepted = true
is_accepted _ = false

is_crash : Class → Bool
is_crash crash = true
is_crash _ = false

parser_fails : Tally → List Failure
parser_fails t = if (t.crashes == 0) && (t.hangs == 0) then [] else parser t.crashes t.hangs ∷ []

unfoldable pub status_of : List Failure → ℕ
status_of [] = 0
status_of (f ∷ fs) = 1

-- What runs of the binary on a file give: with validate_snapshot, and with restore.
module _ (validate restore : Bytes → Option (ℤ × String)) where
  unfoldable pub validate_all : List Mutant → Tally → Tally
  unfolding classify count
  validate_all [] t = t
  validate_all (m ∷ ms) t = validate_all ms (count (classify (validate m.1)) t)

  unfoldable pub restore_crashes : List Mutant → ℕ
  unfolding classify is_crash
  restore_crashes [] = 0
  restore_crashes (m ∷ ms) =
      let rest = restore_crashes ms in if is_crash (classify (restore m.1)) then rest + 1 else rest

  pristine_fails : Bytes → List Failure
  unfolding classify is_accepted
  pristine_fails good =
      if is_accepted (classify (validate good))
      then []
      else pristine (classify (validate good)) ∷ []

  restore_fails : List Mutant → List Failure
  unfolding restore_crashes
  restore_fails subset =
      if restore_crashes subset == 0 then [] else restores (restore_crashes subset) ∷ []

  -- fails, from the mutants and the subset that is restored, which is empty if LIVE_RESTORES is 0.
  unfoldable pub fails_of : Bytes → List Mutant → List Mutant → List Failure
  unfolding validate_all pristine_fails parser_fails restore_fails
  fails_of good ms subset =
      pristine_fails good
      ++ (parser_fails
            (validate_all ms (record { accepts = 0; rejects = 0; crashes = 0; hangs = 0 }))
          ++ restore_fails subset)

  -- main, from what bake_base returns: None, or the path of a file with that content.
  unfoldable pub fuzz : (ℕ → String) → (R : Random) → ℕ → Option Bytes → Action R.State Exc ℕ
  unfolding mutants fails_of status_of
  fuzz show R live none = pure 1
  fuzz show R live (some good) = do
    ms ← mutants show R good
    subset ← λ s.
        if ltb 0 live
        then (let (sub, t) = R.sample ms (if ltb live (length ms) then live else length ms) s in
            (returned sub, t))
        else (returned [], s)
    pure (status_of (fails_of good ms subset))
