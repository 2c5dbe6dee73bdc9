-- ===== src/Database/Valid.antt =====
-- The invariant of the database, and the two ways in which a call changes the transactions.
use babydb_private.Prelude.{
  ℕ, zero, suc, ◌+◌, ◌≤◌, ◌<◌, ◌≡◌, ◌≢◌, refl, true, false, ◌||◌, none, some, List, [], ◌∷◌, ◌++◌,
  ◌⊎◌, inl, inr, if◌then◌else◌, length, get_elem?, set, arith, ap, Key_nat,
}
use babydb_private.Assoc.{find}
use babydb_private.Schema.{txn_start_id}
use babydb_private.Catalog.Consistent.{IsConsistent}
use babydb_private.Transaction.{Transaction, commited, Manager, is_running, is_tainted}
use babydb_private.Database.{Database}

abbrev pub owned : Transaction → ℕ
owned t = if t.owns_lock then 1 else 0

pub holders : List Transaction → ℕ
holders [] = 0
holders (t ∷ ts) = owned t + holders ts

-- Transaction object `k` of a manager: its id; it is in the map exactly while it owns the lock,
-- which a running one does and a finished one does not; it reads at a time that has come; a
-- committed one has a timestamp after the time it reads at.
pub record IsGood (m : Manager) (k : ℕ) (t : Transaction) : Type 0 where
  pub id : t.txn_id ≡ txn_start_id + k
  pub listed : find t.txn_id m.txn_map ≡ (if t.owns_lock then some k else none)
  pub owning : is_running t.state ≡ true → t.owns_lock ≡ true
  pub released : (is_running t.state || is_tainted t.state) ≡ false → t.owns_lock ≡ false
  pub reading : t.read_ts ≤ m.last_commit_ts
  pub stamped : t.state ≡ commited → (t.read_ts < t.commit_ts) × (t.commit_ts ≤ m.last_commit_ts)

pub record IsValid (d : Database) : Type 0 where
  pub consistent : IsConsistent d.catalog
  pub counted : d.readers ≡ holders d.transactions
  pub numbered : d.manager.next_txn_id ≡ txn_start_id + length d.transactions
  pub bounded : d.manager.last_commit_ts + d.readers ≤ length d.transactions
  pub fresh : (n : ℕ) → d.manager.next_txn_id ≤ n → find n d.manager.txn_map ≡ none
  pub good : (k : ℕ) (t : Transaction) → get_elem? d.transactions k ≡ some t → IsGood d.manager k t
  pub unique :
      (j k : ℕ) (t u : Transaction)
      → get_elem? d.transactions j ≡ some t
      → get_elem? d.transactions k ≡ some u
      → t.state ≡ commited
      → u.state ≡ commited
      → t.commit_ts ≡ u.commit_ts
      → j ≡ k

pub holders-nil : holders [] ≡ 0
unfolding holders
holders-nil = refl

pub holders-append :
    (ts : List Transaction) (t : Transaction) → holders (ts ++ t ∷ []) ≡ holders ts + owned t
unfolding holders
holders-append [] t = omega arith
holders-append (u ∷ ts) t = omega (arith, holders-append ts t)

pub holders-set :
    (ts : List Transaction) (k : ℕ) (t u : Transaction)
    → get_elem? ts k ≡ some t
    → holders (set ts k u) + owned t ≡ holders ts + owned u
unfolding holders
holders-set [] k t u h = ground arith
holders-set (x ∷ ts) zero t u h = ground arith
holders-set (x ∷ ts) (suc k) t u h = omega (arith, holders-set ts k t u h)

module _ {ℓ} {A : Type ℓ} where
  pub get_elem?-snoc :
      (xs : List A) (a : A) (k : ℕ) (b : A)
      → get_elem? (xs ++ a ∷ []) k ≡ some b
      → (get_elem? xs k ≡ some b) ⊎ ((k ≡ length xs) × (b ≡ a))
  get_elem?-snoc [] a zero b h = inr (refl, ground arith)
  get_elem?-snoc [] a (suc k) b h = ground arith
  get_elem?-snoc (x ∷ xs) a zero b h = inl h
  get_elem?-snoc (x ∷ xs) a (suc k) b h = elim (get_elem?-snoc xs a k b h) [
    | inl e ↦ inl e
    | inr (e, f) ↦ inr (ap suc e, f)
  ]

  pub get_elem?-set :
      (xs : List A) (i : ℕ) (a : A) (k : ℕ) (b : A)
      → get_elem? (set xs i a) k ≡ some b
      → ((k ≢ i) × (get_elem? xs k ≡ some b)) ⊎ ((k ≡ i) × (b ≡ a))
  get_elem?-set [] i a k b h = ground arith
  get_elem?-set (x ∷ xs) zero a zero b h = inr (refl, ground arith)
  get_elem?-set (x ∷ xs) zero a (suc k) b h = inl (omega arith, h)
  get_elem?-set (x ∷ xs) (suc i) a zero b h = inl (omega arith, h)
  get_elem?-set (x ∷ xs) (suc i) a (suc k) b h = elim (get_elem?-set xs i a k b h) [
    | inl (e, f) ↦ inl (omega arith, f)
    | inr (e, f) ↦ inr (ap suc e, f)
  ]

  pub get_elem?-lt : (xs : List A) (k : ℕ) {b : A} → get_elem? xs k ≡ some b → k < length xs
  get_elem?-lt [] k h = ground arith
  get_elem?-lt (x ∷ xs) zero h = omega arith
  get_elem?-lt (x ∷ xs) (suc k) h = omega (arith, get_elem?-lt xs k h)

  pub length-set : (xs : List A) (i : ℕ) (a : A) → length (set xs i a) ≡ length xs
  length-set [] i a = refl
  length-set (x ∷ xs) zero a = refl
  length-set (x ∷ xs) (suc i) a = ap suc (length-set xs i a)

  pub get_elem?-set_self :
      (xs : List A) (i : ℕ) (a : A) {b : A}
      → get_elem? xs i ≡ some b
      → get_elem? (set xs i a) i ≡ some a
  get_elem?-set_self [] i a h = ground arith
  get_elem?-set_self (x ∷ xs) zero a h = refl
  get_elem?-set_self (x ∷ xs) (suc i) a h = get_elem?-set_self xs i a h

  pub set_self : (xs : List A) (i : ℕ) (a : A) → get_elem? xs i ≡ some a → set xs i a ≡ xs
  set_self [] i a h = refl
  set_self (x ∷ xs) zero a h = ground arith
  set_self (x ∷ xs) (suc i) a h = ap (◌∷◌ x) (set_self xs i a h)

-- A call that replaces object `k` and the manager.
pub replaced-IsValid :
    (d : Database) (k : ℕ) (t u : Transaction) (m : Manager) (readers : ℕ)
    → IsValid d
    → get_elem? d.transactions k ≡ some t
    → m.next_txn_id ≡ d.manager.next_txn_id
    → m.last_commit_ts + readers ≤ d.manager.last_commit_ts + d.readers
    → readers + owned t ≡ d.readers + owned u
    → IsGood m k u
    → ((j : ℕ) (s : Transaction) → j ≢ k → IsGood d.manager j s → IsGood m j s)
    → ((n : ℕ) → m.next_txn_id ≤ n → find n m.txn_map ≡ none)
    → (u.state ≡ commited
        → ((t.state ≡ commited) × (u.commit_ts ≡ t.commit_ts))
          ⊎ (d.manager.last_commit_ts < u.commit_ts))
    → IsValid (record d { manager = m; transactions = set d.transactions k u; readers = readers })
replaced-IsValid d k t u m readers v here same below moved mine others fresh stamp = record {
  consistent = v.consistent;
  counted = omega (arith, holders-set d.transactions k t u here, v.counted);
  numbered = omega (arith, length-set d.transactions k u, v.numbered);
  bounded = omega (arith, length-set d.transactions k u, v.bounded);
  fresh = fresh;
  good = λ j s h. elim (get_elem?-set d.transactions k u j s h) [
    | inl (apart, e) ↦ others j s apart (v.good j s e)
    | inr (e, f) ↦ rw (e, f) mine
  ];
  unique = λ i j s r hs hr cs cr e. ground (
    arith,
    get_elem?-set d.transactions k u i s hs,
    get_elem?-set d.transactions k u j r hr,
    stamp,
    v.unique i j s r,
    v.unique k j t r here,
    v.unique i k s t,
    v.good i s,
    v.good j r,
  );
}
