-- ===== src/Database/Preserve.antt =====
-- Every call keeps the database valid.
use babydb_private.Prelude.{
  ℕ, ◌+◌, ◌-◌, ◌^◌, ◌≤◌, ◌<◌, ◌≡◌, ◌≢◌, refl, ◌∙◌, subst, true, false, ◌||◌, none, some, [], ◌∷◌,
  ◌++◌, inl, inr, if◌then◌else◌, length, get_elem?, set, arith, length-append, nat_eq, Key_nat,
  Bool-cases,
}
use babydb_private.Assoc.{find, insert, erase, find-insert, find-erase}
use babydb_private.Transaction.{
  Transaction, TransactionState, commited, aborted, is_running, is_tainted, Scope, commit, abort,
  create_txn,
}
use babydb_private.Database.{Database, create_txn_call, call, restore}
use babydb_private.Database.Valid.{
  IsValid, IsGood, holders-append, holders-set, get_elem?-snoc, get_elem?-lt, set_self,
  replaced-IsValid,
}

module _ (d : Database) (v : IsValid d) where
  abbrev newcomer : Transaction
  newcomer = (create_txn d.manager (length d.transactions)).1

  newcomer-length : length (d.transactions ++ newcomer ∷ []) ≡ length d.transactions + 1
  newcomer-length = length-append d.transactions (newcomer ∷ [])

  created_lookup :
      (n : ℕ)
      → find n (insert d.manager.next_txn_id (length d.transactions) d.manager.txn_map) ≡ (
          if nat_eq d.manager.next_txn_id n
          then some (length d.transactions)
          else find n d.manager.txn_map)
  created_lookup n = find-insert _ n _ _ (v.fresh _ (omega arith))

  created-IsGood :
      (k : ℕ) (t : Transaction)
      → get_elem? (d.transactions ++ newcomer ∷ []) k ≡ some t
      → IsGood (create_txn d.manager (length d.transactions)).0 k t
  unfolding create_txn
  created-IsGood k t h = elim (get_elem?-snoc d.transactions newcomer k t h) [
    | inl e ↦
        let g = v.good k t e in
        record {
          id = g.id;
          listed =
              ground
                (arith, created_lookup t.txn_id, g, get_elem?-lt d.transactions k e, v.numbered);
          owning = g.owning;
          released = g.released;
          reading = g.reading;
          stamped = g.stamped;
        }
    | inr (e, f) ↦
        rw (e, f)
          (record {
            id = v.numbered;
            listed = ground (arith, created_lookup d.manager.next_txn_id);
            owning = λ _. refl;
            released = λ r. cc;
            reading = omega arith;
            stamped = λ a. cc;
          })
  ]

  pub created-IsValid : length d.transactions < 2 ^ 62 → IsValid (call d create_txn_call).0
  unfolding call create_txn
  created-IsValid small = record {
    consistent = v.consistent;
    counted = omega (arith, holders-append d.transactions newcomer, v.counted);
    numbered = omega (arith, newcomer-length, v.numbered);
    bounded = omega (arith, newcomer-length, v.bounded);
    fresh = λ n h. ground (arith, created_lookup n, v.fresh n, v.numbered);
    good = created-IsGood;
    unique = λ j k t u ht hu ct cu e. ground (
      arith,
      get_elem?-snoc d.transactions newcomer j t ht,
      get_elem?-snoc d.transactions newcomer k u hu,
      v.unique j k t u,
    );
  }

  abbrev pub scope_of : Transaction → Scope
  scope_of t = record { manager = d.manager; readers = d.readers; txn = t }

  module _ (k : ℕ) (t : Transaction) (here : get_elem? d.transactions k ≡ some t) where
    erased_lookup :
        (n : ℕ)
        → find n (erase t.txn_id d.manager.txn_map)
          ≡ (if nat_eq t.txn_id n then none else find n d.manager.txn_map)
    erased_lookup n = find-erase t.txn_id n d.manager.txn_map

    room : t.owns_lock ≡ true → 0 < d.readers
    room own =
        ground
          (arith, holders-set d.transactions k t (record t { owns_lock = false }) here, v.counted)

    -- Whatever a transaction that gave up its lock leaves behind.
    released-IsValid :
        (u : Transaction) (last : ℕ)
        → t.owns_lock ≡ true
        → u.owns_lock ≡ false
        → u.txn_id ≡ t.txn_id
        → u.read_ts ≡ t.read_ts
        → is_running u.state ≡ false
        → d.manager.last_commit_ts ≤ last
        → last ≤ d.manager.last_commit_ts + 1
        → (u.state ≡ commited → (d.manager.last_commit_ts < u.commit_ts) × (u.commit_ts ≤ last))
        → IsValid (record d {
          manager = record (d.manager) {
            last_commit_ts = last;
            txn_map = erase t.txn_id d.manager.txn_map;
          };
          transactions = set d.transactions k u;
          readers = d.readers - 1;
        })
    released-IsValid u last own_t own_u id read stopped lo hi stamp =
        let g = v.good k t here in
        replaced-IsValid d k t u _ _ v here refl (omega (arith, room own_t))
          (ground (arith, room own_t))
          (record {
            id = id ∙ g.id;
            listed = ground (arith, erased_lookup u.txn_id);
            owning = λ r. ground arith;
            released = λ r. own_u;
            reading = omega (arith, g.reading);
            stamped = λ e. ground (arith, stamp e, g);
          })
          (λ j s apart b. record {
            id = b.id;
            listed = ground (arith, erased_lookup s.txn_id, b, g);
            owning = b.owning;
            released = b.released;
            reading = omega (arith, b.reading);
            stamped = λ e. ground (arith, b.stamped e);
          })
          (λ n h. ground (arith, erased_lookup n, v.fresh n)) (λ e. inr (stamp e).0)

    -- A call that changes nothing but the state of a transaction, to one that is over.
    pub marked-IsValid :
        (state : TransactionState)
        → is_running state ≡ false
        → state ≢ commited
        → ((is_running state || is_tainted state) ≡ false → t.owns_lock ≡ false)
        → IsValid (record d { transactions = set d.transactions k (record t { state = state }) })
    marked-IsValid state stopped other free =
        let g = v.good k t here in
        replaced-IsValid d k t (record t { state = state }) d.manager d.readers v here refl
          (omega arith) refl
          (record {
            id = g.id;
            listed = g.listed;
            owning = λ r. ground arith;
            released = free;
            reading = g.reading;
            stamped = λ e. absurd (other e);
          })
          (λ j s apart b. b) v.fresh (λ e. absurd (other e))

    kept-IsValid : IsValid (record d { transactions = set d.transactions k t })
    kept-IsValid = rw (set_self d.transactions k t here) v

    pub commit-IsValid :
        length d.transactions < 2 ^ 62 → IsValid (restore d k (commit (scope_of t))).0
    unfolding restore commit
    commit-IsValid small = elim (Bool-cases (is_running t.state)) [
      | inr over ↦ subst IsValid (ground arith) kept-IsValid
      | inl runs ↦
          let own = (v.good k t here).owning runs in
          let last = d.manager.last_commit_ts + 1 in
          subst IsValid (ground (arith, v.bounded)) (
            released-IsValid (record t { state = commited; commit_ts = last; owns_lock = false })
              last own refl refl refl refl (omega arith) (omega arith)
              (λ _. (omega arith, omega arith)))
    ]

    pub abort-IsValid : IsValid (restore d k (abort (scope_of t))).0
    unfolding restore abort
    abort-IsValid = elim (Bool-cases (is_running t.state || is_tainted t.state)) [
      | inr over ↦ subst IsValid (ground arith) kept-IsValid
      | inl live ↦ elim (Bool-cases t.owns_lock) [
        | inl own ↦ subst IsValid (ground arith) (
            released-IsValid (record t { state = aborted; owns_lock = false })
              d.manager.last_commit_ts own refl refl refl refl (omega arith) (omega arith)
              (λ e. cc))
        | inr free ↦
            subst IsValid (ground arith) (marked-IsValid aborted refl (λ e. cc) (λ _. free))
      ]
    ]
