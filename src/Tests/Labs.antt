-- ===== src/Tests/Labs.antt =====
-- The theorems on the proof scripts, at VMs that answer every line alike.
use nether.Prelude.{
  ℕ, ◌<◌, ltb, String, ◌<>◌, ◌≡◌, refl, Bool, true, false, some, List, [], ◌∷◌, arith, Among,
}
use nether.Prelude.Dict.{lookup}
use nether.Prelude.Int.{ℤ, pos}
use nether.Wire.{Recv, chunk, rs, newline, has, after, read_until, read_framed}
use nether.Lab.{read_text, Act, launched, Site, Lab, killed, is_stuck}
use nether.Lab.Reads.{framed}
use nether.Lab.Reads.Framed.{Agrees, framed-read_framed}
use nether.Serve.{Place}
use nether.Serve.Fork.{fork_main}
use nether.Serve.Fork.Stops.{fork_main-IsClosed}
use nether.Serve.Pool.{pool_main}
use nether.Serve.Pool.Stops.{CanFork, pool_main-IsClosed}
use nether.Park.Broker.{
  Shared, empty, holding, look_up, read_tag, find_conn, put_conn, first_tag, Reach, begun, accepts,
  moves, resumes, comes, asks, parks, notes, replies_to,
}
use nether.Park.Broker.Owns.{Spec, AllAsked, Reach-Spec, Reach-AllAsked}
use nether.Park.Multi.{multi_main}
use nether.Park.Multi.Stops.{multi_main-IsClosed}

abbrev pub place : Place
place = record { nb = "/n"; bin = "/n/bin"; work = "/w" }

-- Each socket is there, and accepts as the second argument says; each line is answered by one frame,
-- and each text that is read is the first argument.
abbrev pub site : {X : Type 0} → String → Bool → (X → X) → Site X
site text accepting threads = record {
  takes = λ t. 1;
  recvs = λ t. chunk (rs ∷ 0x30 ∷ newline ∷ []) ∷ [];
  broker = λ t. threads;
  present = λ t c p. true;
  accepts = λ t c p. accepting;
  contents = λ t p. some text;
  allows = λ a t c. true;
  floods = λ t d. false;
  exit_code = λ t. some (pos 0);
  join = λ a b. (a <> "/") <> b;
  show = λ n. "n";
  decode = λ b. text;
  strip = λ s. s;
  split = λ s. ("IID=" <> s) ∷ [];
  to_int = λ b. some (pos 0);
}

abbrev pub begin : {X : Type 0} → X → Lab X
begin x = record {
  clock = 0;
  trace = [];
  made = 0;
  conns = 0;
  inbox = λ c. [];
  procs = [];
  fails = [];
  platform = x;
}

-- A pool of two, with the cold fork and the refill: five VMs.
pool_made :
    (pool_main (site "OK UP ready data_plane=on" true (λ x. x)) place "serve" 2 (begin tt)).1.made
    ≡ 5
unfolding pool_main has read_until
pool_made = refl

all_fork :
    (i : ℕ)
    → i < 2
    → CanFork {X = Unit {0}} (site "OK UP ready data_plane=on" true (λ x. x)) place "serve" i
all_fork i b = record { folder = λ t c. refl; conf = λ s t c. refl; vm = λ p t c. refl }

pool_main-IsClosed_example :
    Among
      (killed 4)
      (pool_main
        (site "OK UP ready data_plane=on" true (λ x. x))
        place
        "serve"
        2
        (begin tt)).1.trace
unfolding pool_main is_stuck has read_until
pool_main-IsClosed_example =
    pool_main-IsClosed (site "OK UP ready data_plane=on" true (λ x. x)) place "serve" 2 (begin tt)
      all_fork refl refl 4 (omega arith)

-- The launch of the pool's second fork fails.
abbrev second_fails : Act → Bool
second_fails (launched p cwd) = ltb p 2
second_fails a = true

-- Then the first fork is left running: it is not in `procs`, and is sent no kill.
first_left :
    let w =
      (pool_main
        (record (site "OK UP ready" true (λ x. x)) { allows = λ a t c. second_fails a })
        place
        "serve"
        2
        (begin tt)).1 in
    (w.made ≡ 2) × (w.procs ≡ 0 ∷ [])
unfolding pool_main has read_until
first_left = (refl, refl)

fork_main-IsClosed_example :
    Among
      (killed 1)
      (fork_main
        (site "OK UP ready" true (λ x. x))
        place
        "serve"
        (λ t. some (pos 1))
        (begin tt)).1.trace
unfolding fork_main is_stuck has read_until read_text
fork_main-IsClosed_example =
    fork_main-IsClosed (site "OK UP ready" true (λ x. x)) place "serve" (λ t. some (pos 1))
      (begin tt) refl refl 1 (omega arith)

-- The threads of the broker have parked the four connections.
abbrev all_parked : Shared → Shared
all_parked b = record empty {
  parked = (pos 1, "alpha") ∷ (pos 2, "bravo") ∷ (pos 3, "charlie") ∷ (pos 4, "delta") ∷ [];
}

multi_main-IsClosed_example :
    Among
      (killed 1)
      (multi_main (site "OK parked ready" true all_parked) place "ask" (begin empty)).1.trace
unfolding multi_main is_stuck has read_until after lookup
multi_main-IsClosed_example =
    multi_main-IsClosed (site "OK parked ready" true all_parked) place "ask" (begin empty) refl refl
      1 (omega arith)

-- The stream closes behind the delimiter.
abbrev cut : List Recv
cut = chunk (0x61 ∷ rs ∷ []) ∷ chunk [] ∷ []

framed-read_framed_example :
    Agrees (framed (λ b. some (pos 0)) cut) (read_framed (λ b. some (pos 0)) cut)
framed-read_framed_example = framed-read_framed (λ b. some (pos 0)) cut

-- A connection that asks for alpha and is parked, and one that resumes it.
abbrev asked_alpha : List (ℤ × String)
asked_alpha = (pos 7, "GET /alpha") ∷ []

abbrev parked_alpha : Shared
parked_alpha = record empty { parked = (pos 7, "alpha") ∷ []; requests = asked_alpha }

abbrev parked_run : Reach parked_alpha (holding ∷ [])
unfolding read_tag first_tag put_conn
parked_run =
    moves [] []
      (moves [] [] (moves [] [] (accepts begun) (comes (pos 7))) (asks (pos 7) "GET /alpha"))
      (parks (pos 7) "alpha")

abbrev answered_alpha : Shared
answered_alpha = record parked_alpha {
  resumed = "alpha" ∷ [];
  replies = (pos 7, "REPLY-FOR-alpha\n") ∷ [];
}

abbrev answered_run : Reach answered_alpha (holding ∷ holding ∷ [])
unfolding look_up find_conn
answered_run =
    moves [] (holding ∷ [])
      (moves [] (holding ∷ []) (moves [] (holding ∷ []) (accepts parked_run) (resumes (pos 7)))
        (notes (pos 7) "alpha"))
      (replies_to (pos 7) "alpha")

Reach-Spec_example : Spec asked_alpha ((pos 7, "REPLY-FOR-alpha\n") ∷ [])
unfolding answered_run
Reach-Spec_example = Reach-Spec answered_run

Reach-AllAsked_example : AllAsked asked_alpha ((pos 7, "alpha") ∷ [])
Reach-AllAsked_example = Reach-AllAsked parked_run
