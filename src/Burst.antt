-- ===== src/Burst.antt =====
-- scripts/swerver_guest_burst.py: a burst of requests, each to a VM of its own. The workers of the pool
-- run in turn, first up to the barrier and then from it on. Times are in microseconds, and a fraction is
-- in hundredths. What is printed is left out.
pub mod Frames
pub mod Rank
pub mod Barrier
use nether.Prelude.{
  ℕ, zero, suc, ◌+◌, ◌-◌, ◌*◌, ◌/◌, String, ◌<>◌, str_eq, Bool, true, false, not, ◌&&◌, ◌||◌,
  Option, none, some, List, [], ◌∷◌, ◌++◌, ◌==◌, ltb, if◌then◌else◌, length, min,
}
use nether.Prelude.Int.{ℤ, pos, negsuc}
use nether.Prelude.Outcome.{Outcome, returned, raised}
use nether.Prelude.Action.{pure, raise, ◌>>=◌, ◌>>◌}
use nether.Os.{Bytes}
use nether.Errors.{Exc, os_error, value_error, runtime_error, index_error}
use nether.Vm.{contains}
use nether.Wire.{Recv, chunk, fails, rs, newline, has}
use nether.Lab.Reads.{Stop, exception, leaves, stuck}
use nether.Lab.{Site, Lab, Script, closed, gets, final, try_or, act, after_act, send, receive, uc}
use nether.Plane.{read_reply}

-- data.endswith(b"\n")
ends_line : Bytes → Bool
ends_line [] = false
ends_line (x ∷ []) = x == newline
ends_line (x ∷ y ∷ b) = ends_line (y ∷ b)

-- data[:data.rfind(bytes([x]))] and what follows it, where x is there
before_last : ℕ → Bytes → Bytes
unfolding has
before_last x [] = []
before_last x (y ∷ b) = let rest = before_last x b in if has x b then y ∷ rest else []

after_last : ℕ → Bytes → Bytes
unfolding has
after_last x [] = []
after_last x (y ∷ b) = let rest = after_last x b in if has x b then rest else b

-- data[:-1]
but_last : Bytes → Bytes
but_last [] = []
but_last (x ∷ []) = []
but_last (x ∷ y ∷ b) = x ∷ but_last (y ∷ b)

-- marker >= 0 and data.endswith(b"\n")
is_whole : Bytes → Bool
unfolding ends_line
is_whole b = has rs b && ends_line b

-- return bytes(data[:marker]), int(data[marker + 1 : -1])
split_frame : (Bytes → Option ℤ) → Bytes → Outcome Stop (Bytes × ℤ)
unfolding before_last after_last but_last
split_frame to_int b = elim (to_int (but_last (after_last rs b))) [
  | none ↦ raised (exception value_error)
  | some e ↦ returned (before_last rs b, e)
]

recv_from : (Bytes → Option ℤ) → Bytes → List Recv → Outcome Stop (Bytes × ℤ) × List Recv
unfolding is_whole split_frame
recv_from to_int b [] = (raised (exception os_error), [])
recv_from to_int b (fails ∷ evs) = (raised (exception os_error), evs)
recv_from to_int b (chunk [] ∷ evs) = (raised (exception runtime_error), evs)
recv_from to_int b (chunk (c ∷ cs) ∷ evs) =
    let rest = recv_from to_int (b ++ (c ∷ cs)) evs in
    if is_whole (b ++ (c ∷ cs)) then (split_frame to_int (b ++ (c ∷ cs)), evs) else rest

-- recv_frame(sock)
unfoldable pub recv_frame : (Bytes → Option ℤ) → List Recv → Outcome Stop (Bytes × ℤ) × List Recv
unfolding recv_from
recv_frame to_int evs = recv_from to_int [] evs

-- sorted(values)
insert : ℕ → List ℕ → List ℕ
insert v [] = v ∷ []
insert v (x ∷ xs) = let rest = insert v xs in if ltb x v then x ∷ rest else v ∷ (x ∷ xs)

sorted : List ℕ → List ℕ
unfolding insert
sorted [] = []
sorted (v ∷ vs) = insert v (sorted vs)

nth : List ℕ → ℕ → Outcome Exc ℕ
nth [] i = raised index_error
nth (x ∷ xs) zero = returned x
nth (x ∷ xs) (suc i) = nth xs i

-- percentile(values, fraction); of no values, the index is -1.
unfoldable pub percentile : List ℕ → ℕ → Outcome Exc ℕ
unfolding nth sorted
percentile values fraction =
    nth (sorted values) (min (length values - 1) ((length values - 1) * fraction / 100))

-- How many workers arrive at the barrier.
count_some : List (Option ℕ) → ℕ
count_some [] = 0
count_some (none ∷ arrived) = count_some arrived
count_some (some a ∷ arrived) = count_some arrived + 1

-- The status: whether no worker has failed.
status_of : List (Option ℕ) → ℕ
status_of [] = 0
status_of (none ∷ ts) = 1
status_of (some t ∷ ts) = status_of ts

module _ {X : Type 0} where
  -- Each worker up to the barrier: with what it arrives there, or none where it has raised.
  arrive_all : Script X ℕ → ℕ → Script X (List (Option ℕ))
  unfolding try_or
  arrive_all arrives zero = pure []
  arrive_all arrives (suc n) = do
    a ← try_or none (do c ← arrives; pure (some c))
    arrived ← arrive_all arrives n
    pure (a ∷ arrived)

  -- Each worker from the barrier on: how long it took, or none where it has raised.
  hit_all : (ℕ → ℕ → Script X ℕ) → ℕ → List (Option ℕ) → Script X (List (Option ℕ))
  unfolding try_or
  hit_all hits index [] = pure []
  hit_all hits index (none ∷ arrived) = do ts ← hit_all hits (index + 1) arrived; pure (none ∷ ts)
  hit_all hits index (some c ∷ arrived) = do
    t ← try_or none (do us ← hits index c; pure (some us))
    ts ← hit_all hits (index + 1) arrived
    pure (t ∷ ts)

  -- barrier.wait() of all workers that arrive, where `opens n k` is whether threading.Barrier(n) ever
  -- lets k threads go that wait there. If it does not, then the pool waits for them for ever.
  past_barrier : (ℕ → ℕ → Bool) → ℕ → List (Option ℕ) → Script X (Unit {0})
  unfolding count_some
  past_barrier opens n arrived =
      if (count_some arrived == 0) || opens n (count_some arrived) then pure tt else raise stuck

  -- The pool, with the parts of its worker, for a concurrency n.
  unfoldable pub burst : (ℕ → ℕ → Bool) → Script X ℕ → (ℕ → ℕ → Script X ℕ) → ℕ → Script X ℕ
  unfolding arrive_all past_barrier hit_all status_of
  burst opens arrives hits n = do
    arrived ← arrive_all arrives n
    past_barrier opens n arrived
    timings ← hit_all hits 0 arrived
    pure (status_of timings)

-- What urlsplit makes of a URL, and what http.client makes of the bytes of a reply, if it reads them.
pub record Url : Type 0 where
  pub scheme : String
  pub hostname : String
  pub port : ℕ
  pub path : String

-- `uuid` is uuid4().hex at a call, `address` names a host and a port, `first_line` and `body_part` split a
-- response, `rstrip` takes off the slashes at the end, and `reply` reads a status and a body.
module _ {X : Type 0} (L : Site X) (uuid : ℕ → String)
    (first_line body_part rstrip : String → String) (address : Url → String)
    (reply : Bytes → Option (ℕ × String)) where
  tenant : ℕ → String
  tenant index = (("burst-" <> uuid index) <> "-") <> L.show index

  -- The reply of the VM at the socket, read to its end.
  upstream : String → Script X Bytes
  unfolding uc final send receive read_reply after_act
  upstream path = do
    u ← uc L path
    final
        (do
          send L u "GET /baseline11?a=25&b=17 HTTP/1.1\r\nHost: guest\r\nConnection: close\r\n\r"
          read_reply L u)
        (after_act L (closed u))

  -- ensure_and_hit up to the barrier, and from there on
  unfoldable pub ensure_arrives : String → Script X ℕ
  unfolding uc
  ensure_arrives control = uc L control

  checked : String → Script X (Unit {0})
  checked response =
      if not (contains " 200 " (first_line response))
      then raise (exception runtime_error)
      else if not (str_eq (L.strip (body_part response)) "42")
      then raise (exception runtime_error)
      else pure tt

  ensure_steps : ℕ → ℕ → Script X ℕ
  unfolding send receive recv_frame upstream checked tenant
  ensure_steps index ctl = do
    start ← gets (λ w. w.clock)
    send L ctl ("ensure " <> tenant index)
    r ← receive L ctl (recv_frame L.to_int)
    (if not (elim r.1 [ pos zero ↦ true | other ↦ false ])
        then raise (exception runtime_error)
        else (do
          response ← upstream (L.decode r.0)
          checked (L.decode response)
          now ← gets (λ w. w.clock)
          pure (now - start)))

  unfoldable pub ensure_and_hit : ℕ → ℕ → Script X ℕ
  unfolding final ensure_steps after_act
  ensure_and_hit index ctl = final (ensure_steps index ctl) (after_act L (closed ctl))

  -- gateway_hit up to the barrier, and from there on. `send` adds the last byte of the request.
  unfoldable pub gateway_arrives : Url → Script X ℕ
  gateway_arrives url =
      if not (str_eq url.scheme "http") || str_eq url.hostname ""
      then raise (exception value_error)
      else pure 0

  gateway_steps : Url → ℕ → ℕ → ℕ → Script X ℕ
  unfolding send receive read_reply tenant
  gateway_steps url index start c = do
    send L c (
        ((("GET " <> rstrip url.path) <> "/baseline11?a=25&b=17 HTTP/1.1\r\nx-tenant: ")
          <> tenant index)
        <> "\r\n\r")
    b ← read_reply L c
    now ← gets (λ w. w.clock)
    elim (reply b) [
      | none ↦ raise (exception value_error)
      | some r ↦
          if not (r.0 == 200) || not (str_eq (L.strip r.1) "42")
          then raise (exception runtime_error)
          else pure (now - start)
    ]

  unfoldable pub gateway_hit : Url → ℕ → ℕ → Script X ℕ
  unfolding uc final gateway_steps after_act
  gateway_hit url index arrived = do
    start ← gets (λ w. w.clock)
    c ← uc L (address url)
    final (gateway_steps url index start c) (after_act L (closed c))

  -- main(), from the arguments: parser.error leaves with status 2.
  unfoldable pub burst_main : (ℕ → ℕ → Bool) → String → Option Url → ℕ → Script X ℕ
  unfolding burst ensure_arrives ensure_and_hit gateway_arrives gateway_hit
  burst_main opens control gateway zero = raise leaves
  burst_main opens control none (suc n) =
      burst opens (ensure_arrives control) ensure_and_hit (suc n)
  burst_main opens control (some url) (suc n) =
      burst opens (gateway_arrives url) (gateway_hit url) (suc n)
