-- ===== src/Park/Broker.antt =====
-- The broker of scripts/park_multi_proof.py, which plays the platform: a thread for each connection,
-- and the dictionary of parked connections that they share under a lock.
pub mod Owns
use nether.Prelude.{
  String, ◌<>◌, Bool, false, Option, none, some, List, [], ◌∷◌, ◌++◌, ◌==◌, if◌then◌else◌,
}
use nether.Prelude.Int.{ℤ, pos, negsuc}
use nether.Vm.{contains}

-- a == b
abbrev pub eqℤ : ℤ → ℤ → Bool
eqℤ (pos a) (pos b) = a == b
eqℤ (negsuc a) (negsuc b) = a == b
eqℤ _ _ = false

-- parked.get(cid)
unfoldable pub find_conn : ℤ → List (ℤ × String) → Option String
find_conn c [] = none
find_conn c ((d, tag) ∷ m) = if eqℤ d c then some tag else find_conn c m

-- parked[cid] = tag
unfoldable pub put_conn : ℤ → String → List (ℤ × String) → List (ℤ × String)
put_conn c tag [] = (c, tag) ∷ []
put_conn c tag ((d, old) ∷ m) = if eqℤ d c then (d, tag) ∷ m else (d, old) ∷ put_conn c tag m

-- TAGS
abbrev pub tags : List String
tags = "alpha" ∷ "bravo" ∷ "charlie" ∷ "delta" ∷ []

-- next((t for t in TAGS if t in req), None)
unfoldable pub first_tag : List String → String → Option String
first_tag [] req = none
first_tag (t ∷ ts) req = if contains t req then some t else first_tag ts req

-- The shared state, and beside it what came from which connection and what was sent to it, the
-- latest first.
pub record Shared : Type 0 where
  pub parked : List (ℤ × String)
  pub resumed : List String
  pub errors : List String
  pub requests : List (ℤ × String)
  pub replies : List (ℤ × String)

abbrev pub empty : Shared
empty = record { parked = []; resumed = []; errors = []; requests = []; replies = [] }

-- Where the thread of a connection stands: it reads the preamble; it reads the request of a fresh
-- connection, or has its tag; it has the tag of a resumed connection, before and after it notes it;
-- or it only waits for the other side.
pub data Thread : Type 0 where
  reading : Thread
  asking : ℤ → Thread
  tagged found noted : ℤ → String → Thread
  holding : Thread

abbrev pub reply_for : String → String
reply_for tag = ("REPLY-FOR-" <> tag) <> "\n"

-- with self.lock: tag = self.parked.get(cid), and the error if it is None
unfoldable pub look_up : ℤ → Shared → Shared × Thread
unfolding find_conn
look_up c st = elim (find_conn c st.parked) [
  | none ↦ (record st { errors = st.errors ++ ("resume for unknown conn %d" ∷ []) }, holding)
  | some tag ↦ (st, found c tag)
]

-- tag = next(...) of the request, and the error if it is None
unfoldable pub read_tag : ℤ → String → Shared → Shared × Thread
unfolding first_tag
read_tag c req st =
    let st' = record st { requests = (c, req) ∷ st.requests } in
    elim (first_tag tags req) [
      | none ↦ (record st' { errors = st.errors ++ ("request with no tag: %r" ∷ []) }, holding)
      | some tag ↦ (st', tagged c tag)
    ]

-- A step of a thread of _serve: what it finds on its connection is up to the peer, and an exception
-- can come at any recv or send.
pub data Step (st : Shared) : Thread → Shared → Thread → Type 0 where
  resumes : (c : ℤ) → Step st reading (look_up c st).0 (look_up c st).1
  comes : (c : ℤ) → Step st reading st (asking c)
  asks : (c : ℤ) (req : String) → Step st (asking c) (read_tag c req st).0 (read_tag c req st).1
  parks :
      (c : ℤ) (tag : String)
      → Step st (tagged c tag) (record st { parked = put_conn c tag st.parked }) holding
  notes :
      (c : ℤ) (tag : String)
      → Step st (found c tag) (record st { resumed = st.resumed ++ (tag ∷ []) }) (noted c tag)
  replies_to :
      (c : ℤ) (tag : String)
      → Step st (noted c tag) (record st { replies = (c, reply_for tag) ∷ st.replies }) holding
  breaks :
      (t : Thread) → Step st t (record st { errors = st.errors ++ ("broker: %r" ∷ []) }) holding

-- The broker: the threads take steps in any order, and connections come at any time.
pub data Reach : Shared → List Thread → Type 0 where
  begun : Reach empty []
  accepts : {st : Shared} {ts : List Thread} → Reach st ts → Reach st (reading ∷ ts)
  moves :
      {st st' : Shared} {t t' : Thread} (before after : List Thread)
      → Reach st (before ++ (t ∷ after))
      → Step st t st' t'
      → Reach st' (before ++ (t' ∷ after))
