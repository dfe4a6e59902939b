-- ===== src/Park/Broker/Owns.antt =====
-- The broker of scripts/park_multi_proof.py, against a specification without threads and dictionary.
use mathlib.Core.Path.{subst}
use nether.Prelude.{
  String, ◌≡◌, refl, sym, true, some, List, [], ◌∷◌, ◌++◌, ◌⊎◌, inl, inr, arith, Bool-cases,
  Option-cases,
}
use nether.Prelude.Int.{ℤ, pos, negsuc}
use nether.Park.Broker.{
  eqℤ, find_conn, put_conn, tags, first_tag, Shared, Thread, reading, asking, tagged, found, noted,
  holding, reply_for, look_up, read_tag, Step, resumes, comes, asks, parks, notes, replies_to,
  breaks, Reach, begun, accepts, moves,
}

-- The connection sent a request with that tag.
abbrev pub HasAsked : List (ℤ × String) → ℤ → String → Type 0
HasAsked [] c tag = ⊥
HasAsked ((d, req) ∷ rs) c tag = ((d ≡ c) × (first_tag tags req ≡ some tag)) ⊎ HasAsked rs c tag

abbrev AllOf : (ℤ → String → Type 0) → List (ℤ × String) → Type 0
AllOf P [] = Unit
AllOf P ((c, t) ∷ m) = P c t × AllOf P m

-- Every entry belongs to a connection that asked with the entry's tag.
abbrev pub AllAsked : List (ℤ × String) → List (ℤ × String) → Type 0
AllAsked rs m = AllOf (HasAsked rs) m

-- The specification: requests come, and a connection that asked is sent the reply of its own tag.
pub data Spec : List (ℤ × String) → List (ℤ × String) → Type 0 where
  silent : Spec [] []
  asked :
      {rs os : List (ℤ × String)} → Spec rs os → (c : ℤ) (req : String) → Spec ((c, req) ∷ rs) os
  answered :
      {rs os : List (ℤ × String)}
      → Spec rs os
      → (c : ℤ) (tag : String) → HasAsked rs c tag
      → Spec rs ((c, reply_for tag) ∷ os)

-- The tag that a thread carries is one that its connection asked with.
abbrev IsEntitled : List (ℤ × String) → Thread → Type 0
IsEntitled rs (tagged c tag) = HasAsked rs c tag
IsEntitled rs (found c tag) = HasAsked rs c tag
IsEntitled rs (noted c tag) = HasAsked rs c tag
IsEntitled rs _ = Unit

abbrev AllEntitled : List (ℤ × String) → List Thread → Type 0
AllEntitled rs [] = Unit
AllEntitled rs (t ∷ ts) = IsEntitled rs t × AllEntitled rs ts

eqℤ→eq : (a b : ℤ) → eqℤ a b ≡ true → a ≡ b
eqℤ→eq (pos a) (pos b) h = ground arith
eqℤ→eq (pos a) (negsuc b) h = cc
eqℤ→eq (negsuc a) (pos b) h = cc
eqℤ→eq (negsuc a) (negsuc b) h = ground arith

module _ (rs : List (ℤ × String)) where
  AllAsked-put_conn :
      (c : ℤ) (tag : String) (m : List (ℤ × String))
      → HasAsked rs c tag
      → AllAsked rs m
      → AllAsked rs (put_conn c tag m)
  unfolding put_conn
  AllAsked-put_conn c tag [] h a = (h, tt)
  AllAsked-put_conn c tag ((d, old) ∷ m) h a = elim (Bool-cases (eqℤ d c)) [
    | inl same ↦ rw same (subst (λ x. HasAsked rs x tag) (sym (eqℤ→eq d c same)) h, a.1)
    | inr apart ↦ rw apart (a.0, AllAsked-put_conn c tag m h a.1)
  ]

  find_conn-HasAsked :
      (c : ℤ) (tag : String) (m : List (ℤ × String))
      → AllAsked rs m
      → find_conn c m ≡ some tag
      → HasAsked rs c tag
  unfolding find_conn
  find_conn-HasAsked c tag [] a e = absurd cc
  find_conn-HasAsked c tag ((d, t) ∷ m) a e = elim (Bool-cases (eqℤ d c)) [
    | inl same ↦
        subst (λ x. HasAsked rs x tag) (eqℤ→eq d c same)
          (subst (λ x. HasAsked rs d x) (ground arith) a.0)
    | inr apart ↦ find_conn-HasAsked c tag m a.1 (ground arith)
  ]

AllAsked-cons :
    (c : ℤ) (req : String) (rs m : List (ℤ × String)) → AllAsked rs m → AllAsked ((c, req) ∷ rs) m
AllAsked-cons c req rs [] a = tt
AllAsked-cons c req rs ((d, t) ∷ m) a = (inr a.0, AllAsked-cons c req rs m a.1)

IsEntitled-cons :
    (c : ℤ) (req : String) (rs : List (ℤ × String)) (t : Thread)
    → IsEntitled rs t
    → IsEntitled ((c, req) ∷ rs) t
IsEntitled-cons c req rs reading h = tt
IsEntitled-cons c req rs (asking d) h = tt
IsEntitled-cons c req rs (tagged d tag) h = inr h
IsEntitled-cons c req rs (found d tag) h = inr h
IsEntitled-cons c req rs (noted d tag) h = inr h
IsEntitled-cons c req rs holding h = tt

AllEntitled-cons :
    (c : ℤ) (req : String) (rs : List (ℤ × String)) (ts : List Thread)
    → AllEntitled rs ts
    → AllEntitled ((c, req) ∷ rs) ts
AllEntitled-cons c req rs [] h = tt
AllEntitled-cons c req rs (t ∷ ts) h =
    (IsEntitled-cons c req rs t h.0, AllEntitled-cons c req rs ts h.1)

module _ (rs : List (ℤ × String)) (t : Thread) (after : List Thread) where
  AllEntitled-split :
      (before : List Thread)
      → AllEntitled rs (before ++ (t ∷ after))
      → AllEntitled rs before × (IsEntitled rs t × AllEntitled rs after)
  AllEntitled-split [] h = (tt, h)
  AllEntitled-split (u ∷ us) h = let r = AllEntitled-split us h.1 in ((h.0, r.0), r.1)

  AllEntitled-join :
      (before : List Thread)
      → AllEntitled rs before
      → IsEntitled rs t
      → AllEntitled rs after
      → AllEntitled rs (before ++ (t ∷ after))
  AllEntitled-join [] hb h ha = (h, ha)
  AllEntitled-join (u ∷ us) hb h ha = (hb.0, AllEntitled-join us hb.1 h ha)

-- What holds of the shared state, and of the threads beside it.
record IsHonest (st : Shared) : Type 0 where
  pub kept : AllAsked st.requests st.parked
  pub meets : Spec st.requests st.replies

-- A step keeps that, entitles its own thread, and takes no title from the others.
abbrev Keeps : Shared → Shared → Thread → Type 0
Keeps st st' t' =
    IsHonest st'
    × (IsEntitled st'.requests t'
        × ((ts : List Thread) → AllEntitled st.requests ts → AllEntitled st'.requests ts))

look_up-Keeps : (c : ℤ) (st : Shared) → IsHonest st → Keeps st (look_up c st).0 (look_up c st).1
unfolding look_up
look_up-Keeps c st h = elim (Option-cases (find_conn c st.parked)) [
  | inl e ↦ rw (e, look_up) (record { kept = h.kept; meets = h.meets }, (tt, λ ts q. q))
  | inr (tag, e) ↦
      rw (e, look_up) (h, (find_conn-HasAsked st.requests c tag st.parked h.kept e, λ ts q. q))
]

read_tag-Keeps :
    (c : ℤ) (req : String) (st : Shared)
    → IsHonest st
    → Keeps st (read_tag c req st).0 (read_tag c req st).1
unfolding read_tag
read_tag-Keeps c req st h =
    let kept' = AllAsked-cons c req st.requests st.parked h.kept in
    let others = AllEntitled-cons c req st.requests in
    elim (Option-cases (first_tag tags req)) [
      | inl e ↦
          rw (e, read_tag) (record { kept = kept'; meets = asked h.meets c req }, (tt, others))
      | inr (tag, e) ↦
          rw (e, read_tag)
            (record { kept = kept'; meets = asked h.meets c req }, (inl (refl, e), others))
    ]

Step-Keeps :
    {st st' : Shared} {t t' : Thread}
    → Step st t st' t'
    → IsHonest st
    → IsEntitled st.requests t
    → Keeps st st' t'
Step-Keeps {st} (resumes c) h e = look_up-Keeps c st h
Step-Keeps (comes c) h e = (h, (tt, λ ts q. q))
Step-Keeps {st} (asks c req) h e = read_tag-Keeps c req st h
Step-Keeps {st} (parks c tag) h e = (
  record { kept = AllAsked-put_conn st.requests c tag st.parked e h.kept; meets = h.meets },
  (tt, λ ts q. q),
)
Step-Keeps (notes c tag) h e = (record { kept = h.kept; meets = h.meets }, (e, λ ts q. q))
Step-Keeps (replies_to c tag) h e =
    (record { kept = h.kept; meets = answered h.meets c tag e }, (tt, λ ts q. q))
Step-Keeps (breaks t) h e = (record { kept = h.kept; meets = h.meets }, (tt, λ ts q. q))

Reach-IsHonest :
    {st : Shared} {ts : List Thread} → Reach st ts → IsHonest st × AllEntitled st.requests ts
Reach-IsHonest begun = (record { kept = tt; meets = silent }, tt)
Reach-IsHonest (accepts r) = let h = Reach-IsHonest r in (h.0, (tt, h.1))
Reach-IsHonest (moves {st} {st'} {t} {t'} before after r s) =
    let h = Reach-IsHonest r in
    let p = AllEntitled-split st.requests t after before h.1 in
    let k = Step-Keeps s h.0 p.1.0 in
    (
      k.0,
      AllEntitled-join st'.requests t' after before (k.1.1 before p.0) k.1.0 (k.1.1 after p.1.1),
    )

-- However the broker's threads are scheduled, and whatever the connections send and whenever they
-- break, what the broker received and sent is a run of the specification.
pub Reach-Spec : {st : Shared} {ts : List Thread} → Reach st ts → Spec st.requests st.replies
Reach-Spec r = (Reach-IsHonest r).0.meets

-- In every state that the broker reaches, each entry of its dictionary is a tag with which that same
-- connection has asked.
pub Reach-AllAsked : {st : Shared} {ts : List Thread} → Reach st ts → AllAsked st.requests st.parked
Reach-AllAsked r = (Reach-IsHonest r).0.kept
