-- ===== src/VersionLink.antt =====
-- src/concurrency/version_link.cpp: the counters of version nodes, under threads that interleave at
-- each atomic operation.
use babydb_private.Prelude.{
  ℕ, ◌+◌, ◌-◌, ◌%◌, ◌≤◌, ◌<◌, ◌≡◌, nat_eq, if◌then◌else◌, arith, ◌⊎◌, inl, inr, Bool-cases,
}
use babydb_private.Schema.{word_mod}
use Prim.Native.Nat.{max}
use native.Mathlib.Decide.{dec_lt}

-- Where a thread stands: outside the two functions; in `RegisterVersionNode` after its
-- `fetch_add`, with `update`; in the loop, with `update` and `expected`.
pub data Position : Type 0 where
  outside : Position
  added : ℕ → Position
  loaded : ℕ → ℕ → Position

pub record Counters : Type 0 where
  pub current_nodes : ℕ
  pub max_nodes : ℕ
  pub thread : ℕ → Position

abbrev pub start : Counters
start = record { current_nodes = 0; max_nodes = 0; thread = λ _. outside }

abbrev pub move : Counters → ℕ → Position → Counters
move s i p = record s { thread = λ j. if nat_eq j i then p else s.thread j }

-- `fetch_add` returns the old value, and `update` is one more; both wrap.
abbrev pub bump : Counters → ℕ → Counters
bump s i =
    let update = (s.current_nodes + 1) % word_mod in
    move (record s { current_nodes = update }) i (added update)

-- One atomic operation of thread `i`. A weak exchange may fail for no reason. A node is
-- unregistered only after it was registered, so the counter is not zero then.
pub data Step (s : Counters) : Counters → Type 0 where
  fetch_add : (i : ℕ) → s.thread i ≡ outside → Step s (bump s i)
  load_max :
      (i update : ℕ) → s.thread i ≡ added update → Step s (move s i (loaded update s.max_nodes))
  exchange :
      (i update expected : ℕ)
      → s.thread i ≡ loaded update expected
      → expected < update
      → s.max_nodes ≡ expected
      → Step s (move (record s { max_nodes = update }) i outside)
  exchange_fails :
      (i update expected : ℕ)
      → s.thread i ≡ loaded update expected
      → expected < update
      → Step s (move s i (loaded update s.max_nodes))
  leave :
      (i update expected : ℕ)
      → s.thread i ≡ loaded update expected
      → update ≤ expected
      → Step s (move s i outside)
  fetch_sub :
      (i : ℕ)
      → s.thread i ≡ outside
      → 0 < s.current_nodes
      → Step s (record s { current_nodes = (s.current_nodes + word_mod - 1) % word_mod })

-- The states that can be reached, with the greatest value that `current_nodes` has had.
pub data Reach : Counters → ℕ → Type 0 where
  initial : Reach start 0
  next : {s t : Counters} {peak : ℕ} → Reach s peak → Step s t → Reach t (max peak t.current_nodes)

-- What the position of a thread says: its numbers are values that the counters have had.
abbrev IsPast : ℕ → ℕ → Position → Type 0
IsPast peak most outside = Unit {0}
IsPast peak most (added update) = update ≤ peak
IsPast peak most (loaded update expected) = (update ≤ peak) × (expected ≤ most)

abbrev pending : Position → ℕ
pending outside = 0
pending (added update) = update
pending (loaded update expected) = update

record Inv (s : Counters) (peak : ℕ) : Type 0 where
  fits : s.current_nodes < word_mod
  seen : s.current_nodes ≤ peak
  reached : s.max_nodes ≤ peak
  past : (i : ℕ) → IsPast peak s.max_nodes (s.thread i)
  owed : (peak ≤ s.max_nodes) ⊎ ((i : ℕ) × (peak ≤ pending (s.thread i)))

start-Inv : Inv start 0
start-Inv = record {
  fits = omega arith;
  seen = omega arith;
  reached = omega arith;
  past = λ i. tt;
  owed = inl (omega arith);
}

Step-IsPast :
    {s t : Counters} {peak : ℕ}
    → Inv s peak
    → Step s t
    → (j : ℕ) → IsPast (max peak t.current_nodes) t.max_nodes (t.thread j)
Step-IsPast v (fetch_add i e) j = ground (arith, v.past j)
Step-IsPast v (load_max i u e) j = ground (arith, v.past j, v.past i)
Step-IsPast v (exchange i u x e h g) j = ground (arith, v.past j, v.past i)
Step-IsPast v (exchange_fails i u x e h) j = ground (arith, v.past j, v.past i)
Step-IsPast v (leave i u x e h) j = ground (arith, v.past j, v.past i)
Step-IsPast v (fetch_sub i e h) j = ground (arith, v.past j, v.past i)

Step-numbers :
    {s t : Counters} {peak : ℕ}
    → Inv s peak
    → Step s t
    → (t.current_nodes < word_mod) × (t.max_nodes ≤ max peak t.current_nodes)
Step-numbers v (fetch_add i e) = (omega arith, omega (arith, v.reached))
Step-numbers v (exchange i u x e h g) = (v.fits, ground (arith, v.past i))
Step-numbers v (load_max i u e) = (v.fits, omega (arith, v.reached))
Step-numbers v (exchange_fails i u x e h) = (v.fits, omega (arith, v.reached))
Step-numbers v (leave i u x e h) = (v.fits, omega (arith, v.reached))
Step-numbers v (fetch_sub i e h) = (omega (arith, v.fits), omega (arith, v.reached))

-- Whoever held the greatest value so far still does, unless it has just been stored.
Step-owed :
    {s t : Counters} {peak : ℕ}
    → Inv s peak
    → Step s t
    → (max peak t.current_nodes ≤ t.max_nodes)
      ⊎ ((i : ℕ) × (max peak t.current_nodes ≤ pending (t.thread i)))
Step-owed {s} {peak = peak} v (fetch_add i e) =
    elim (dec_lt peak ((s.current_nodes + 1) % word_mod)) [
      | yes more ↦ inr (i, ground arith)
      | no less ↦ elim v.owed [
        | inl stored ↦ inl (omega arith)
        | inr (j, held) ↦ inr (j, ground arith)
      ]
    ]
Step-owed v (load_max i u e) = elim v.owed [
  | inl stored ↦ inl (omega (arith, v.seen))
  | inr (j, held) ↦ inr (j, ground (arith, v.seen))
]
Step-owed v (exchange i u x e h g) = elim v.owed [
  | inl stored ↦ inl (omega (arith, v.seen))
  | inr (j, held) ↦ elim (Bool-cases (nat_eq j i)) [
    | inl same ↦ inl (ground (arith, v.seen))
    | inr apart ↦ inr (j, ground (arith, v.seen))
  ]
]
Step-owed v (exchange_fails i u x e h) = elim v.owed [
  | inl stored ↦ inl (omega (arith, v.seen))
  | inr (j, held) ↦ inr (j, ground (arith, v.seen))
]
Step-owed v (leave i u x e h) = elim v.owed [
  | inl stored ↦ inl (omega (arith, v.seen))
  | inr (j, held) ↦ elim (Bool-cases (nat_eq j i)) [
    | inl same ↦ inl (ground (arith, v.seen, v.past i))
    | inr apart ↦ inr (j, ground (arith, v.seen))
  ]
]
Step-owed v (fetch_sub i e h) = elim v.owed [
  | inl stored ↦ inl (omega (arith, v.seen, v.fits))
  | inr (j, held) ↦ inr (j, omega (arith, v.seen, v.fits))
]

Step-Inv : {s t : Counters} {peak : ℕ} → Inv s peak → Step s t → Inv t (max peak t.current_nodes)
Step-Inv v st = record {
  fits = (Step-numbers v st).0;
  seen = omega arith;
  reached = (Step-numbers v st).1;
  past = Step-IsPast v st;
  owed = Step-owed v st;
}

Reach-Inv : {s : Counters} {peak : ℕ} → Reach s peak → Inv s peak
Reach-Inv initial = start-Inv
Reach-Inv (next r st) = Step-Inv (Reach-Inv r) st

-- Whenever no thread is inside `RegisterVersionNode`, `max_nodes` is the greatest number of nodes
-- that there have been at one time, whatever the interleaving and however often the weak exchange
-- failed.
pub max_nodes_peak :
    {s : Counters} {peak : ℕ} → Reach s peak → ((i : ℕ) → s.thread i ≡ outside) → s.max_nodes ≡ peak
max_nodes_peak {s} {peak} r quiet = elim (Reach-Inv r).owed [
  | inl stored ↦ omega (arith, (Reach-Inv r).reached)
  | inr (i, held) ↦ ground (arith, quiet i, (Reach-Inv r).reached)
]

-- In between, `max_nodes` is never above that number.
pub max_nodes-le-peak : {s : Counters} {peak : ℕ} → Reach s peak → s.max_nodes ≤ peak
max_nodes-le-peak r = (Reach-Inv r).reached
