-- ===== src/AddressBatch/Atomic.antt =====
-- What an import leaves in the tables, whatever statement fails and whatever the node takes.
use dogecade.Common.{
  All, Bool, List, Option, String, [], any, arith, false, length, not, refl, subst, true, ℕ, ◌&&◌,
  ◌++◌, ◌∷◌, ◌≡◌,
}
use dogecade.Store.{
  Action, Address, AllOrNothing, Batch, Db, Ensures, Purpose, Result, World, atomically,
  atomically_lem, bind_AllOrNothing, bind_Ensures, bound, err, exec, exec-Ensures, map_AllOrNothing,
  next, next_id, ok, or_raise-AllOrNothing, pure, query-AllOrNothing, raise_if-AllOrNothing,
  read_AllOrNothing, read_from, statements, then_Ensures, ◌>>=◌, ◌>>◌,
}
use dogecade.AddressBatch.{
  batch_row, check_new, check_valid, contains, import_batch, insert_address, insert_addresses,
  insert_batch, pool_row, register_with, with_address,
}
use dogecade.AddressBatch.Registered.{Registers, SameButRegistration, register_with-Registers}

-- No text is in the list twice, or in `known`.
abbrev pub distinct_from : List String → List String → Bool
distinct_from known [] = true
distinct_from known (s ∷ rest) = not (contains s known) && distinct_from (s ∷ known) rest

-- The rows after the inserts, in their order.
abbrev pub with_rows : ℕ → Purpose → List String → List Address → List Address
with_rows batch purpose [] rows = rows
with_rows batch purpose (s ∷ rest) rows =
    with_rows batch purpose rest
      (rows ++ pool_row s batch purpose (next_id (λ (a : Address). a.id) rows) ∷ [])

module _ (validate : String → Bool) (range : ℕ → List String → List String) where
  -- The batch that a success has added: its addresses are valid and distinct, none of them was in
  -- the table, and its rows stand behind the others, in the pool.
  abbrev pub Imported : String → List String → ℕ → Db → ℕ → Db → Type 0
  Imported note addrs now d id d' =
      (p : Purpose) × (id ≡ next_id (λ b. b.id) d.batches)
      × SameButRegistration
          (record d {
            batches =
                d.batches ++ batch_row note (length addrs) now (next_id (λ b. b.id) d.batches) ∷ [];
            addresses =
                with_rows (next_id (λ (b : Batch). b.id) d.batches) p (range 1 addrs) d.addresses;
          })
          d'
      × All (λ s. validate s ≡ true) addrs
      × (distinct_from [] addrs ≡ true)
      × All (λ s. any (with_address s) d.addresses ≡ false) (range 0 addrs)

  abbrev Valid : List String → List String → Type 0
  Valid known addrs = All (λ s. validate s ≡ true) addrs × (distinct_from known addrs ≡ true)

  check_valid-Valid :
      (known addrs : List String) (w : World)
      → AllOrNothing w.db
          (λ _ d'. (d' ≡ w.db) × Valid known addrs)
          (check_valid validate known addrs w)
  unfolding check_valid
  check_valid-Valid known [] w = (refl, (tt, refl))
  check_valid-Valid known (s ∷ rest) w = raise_if-AllOrNothing _ _ _ _ w λ valid.
      raise_if-AllOrNothing _ _ _ _ w λ other.
        map_AllOrNothing (λ _ d'. (d' ≡ w.db) × Valid (s ∷ known) rest) _ w.db _
          (λ _ d' (same, (all, apart)). (same, ((ground arith, all), rw other apart)))
          (check_valid-Valid (s ∷ known) rest w)

abbrev Fresh : Db → List String → Type 0
Fresh d = All (λ s. any (with_address s) d.addresses ≡ false)

check_new-Fresh :
    (order : List String) (w : World)
    → AllOrNothing w.db (λ _ d'. (d' ≡ w.db) × Fresh w.db order) (check_new order w)
unfolding check_new
check_new-Fresh [] w = (refl, tt)
check_new-Fresh (s ∷ rest) w =
    query-AllOrNothing (λ _ d'. (d' ≡ w.db) × Fresh w.db (s ∷ rest)) _ _ w
      (raise_if-AllOrNothing _ _ _ _ (next w) λ absent.
        map_AllOrNothing (λ _ d'. (d' ≡ w.db) × Fresh w.db rest) _ w.db _
          (λ _ d' (same, all). (same, (absent, all))) (check_new-Fresh rest (next w)))

insert_addresses-Ensures :
    (batch : ℕ) (p : Purpose) (order : List String) (d : Db) (w : World)
    → w.db ≡ d
    → Ensures
        (λ _ d'. d' ≡ record d { addresses = with_rows batch p order d.addresses })
        (insert_addresses batch p order w)
unfolding insert_addresses
insert_addresses-Ensures batch p [] d w e = e
insert_addresses-Ensures batch p (s ∷ rest) d w e =
    then_Ensures (λ _ d'. d' ≡ record d { addresses = with_rows batch p (s ∷ rest) d.addresses })
      (λ d'. d' ≡ added) _ _ w
      (exec-Ensures (λ _ d'. d' ≡ added) _ w (rw e (unfold insert_address in ground arith)))
      (λ w1 e1. insert_addresses-Ensures batch p rest added w1 e1)
  where
    added : Db
    added = record d {
      addresses =
          d.addresses ++ pool_row s batch p (next_id (λ (a : Address). a.id) d.addresses) ∷ [];
    }

module _ (note : String) (count now : ℕ) (p : Purpose) (order : List String) where
  abbrev loaded : Db → Db
  loaded d = record d {
    batches = d.batches ++ batch_row note count now (next_id (λ b. b.id) d.batches) ∷ [];
    addresses = with_rows (next_id (λ (b : Batch). b.id) d.batches) p order d.addresses;
  }

  abbrev Loaded : Db → ℕ → Db → Type 0
  Loaded d id d' = (id ≡ next_id (λ (b : Batch). b.id) d.batches) × (d' ≡ loaded d)

  transaction-Loaded :
      (w : World)
      → AllOrNothing w.db (Loaded w.db) (
          atomically
            (do
              batch ← exec (insert_batch note count now)
              insert_addresses batch p order
              pure batch)
            w)
  unfolding insert_batch
  transaction-Loaded w = atomically_lem Q _ w (
      bind_Ensures Q (λ id d'. (id ≡ fresh) × (d' ≡ with_batch)) _ _ (next w)
        (exec-Ensures (λ id d'. (id ≡ fresh) × (d' ≡ with_batch)) (insert_batch note count now)
          (next w) (refl, refl))
        λ id w1 (e, b).
          then_Ensures Q
            (λ d'. d' ≡ record with_batch { addresses = with_rows id p order w.db.addresses }) _ _
            w1 (insert_addresses-Ensures id p order with_batch w1 b)
            λ w2 e2. (
              e,
              subst
                  (λ i.
                    w2.db ≡ record with_batch { addresses = with_rows i p order w.db.addresses })
                  e e2,
            ))
    where
      Q : ℕ → Db → Type 0
      Q = Loaded w.db

      fresh : ℕ
      fresh = next_id (λ (b : Batch). b.id) w.db.batches

      with_batch : Db
      with_batch = record (w.db) { batches = w.db.batches ++ batch_row note count now fresh ∷ [] }

registered_after :
    (Q : ℕ → Db → Type 0) (d d' : Db) (id : ℕ) (m : Action (Unit {0})) (w : World)
    → w.db ≡ d'
    → Registers m
    → ((d'' : Db) → SameButRegistration d' d'' → Q id d'')
    → AllOrNothing d Q ((m >> pure id) w)
unfolding statements
registered_after Q d d' id m w e h k =
    let (went, same) = h d' w (rw e (refl, refl)) in go (m w) went same
  where
    go :
        (r : Result (Unit {0}) × World)
        → r.0 ≡ ok tt
        → SameButRegistration d' r.1.db
        → AllOrNothing d Q (bound (λ _. pure id) r)
    go (ok _, w') went same = k w'.db same
    go (err _, w') went same = cc

module _ (validate : String → Bool) (range : ℕ → List String → List String) where
  -- An import adds one batch of valid, distinct and new addresses to the pool, or fails and changes
  -- nothing; what the node takes or refuses afterwards decides only when each is registered.
  pub import_batch-Imported :
      (note : String) (addrs : List String) (importer : Option (String → Bool)) (purpose : String)
      (now : ℕ) (w : World)
      → AllOrNothing w.db
          (Imported validate range note addrs now w.db)
          (import_batch validate range note addrs importer purpose now w)
  unfolding import_batch ◌>>◌
  import_batch-Imported note addrs importer purpose now w =
      raise_if-AllOrNothing Q _ _ _ w λ some_address. or_raise-AllOrNothing Q _ _ _ w λ p named.
        read_AllOrNothing Q (λ _. Valid validate range [] addrs) _ _ w
          (check_valid-Valid validate range [] addrs w)
          λ _ w1 e1 (valid, apart).
            read_from Q (λ _. Fresh w.db (range 0 addrs)) _ _ w.db w1 e1
              (subst
                (λ d.
                  AllOrNothing w1.db (λ _ d'. (d' ≡ w1.db) × Fresh d (range 0 addrs))
                    (check_new (range 0 addrs) w1))
                e1 (check_new-Fresh (range 0 addrs) w1))
              λ _ w2 e2 absent.
                bind_AllOrNothing Q (Loaded note (length addrs) now p (range 1 addrs) w.db) w.db _ _
                  w2
                  (subst
                    (λ d. AllOrNothing d (Loaded note (length addrs) now p (range 1 addrs) d) (
                      atomically
                        (do
                          batch ← exec (insert_batch note (length addrs) now)
                          insert_addresses batch p (range 1 addrs)
                          pure batch)
                        w2))
                    e2 (transaction-Loaded note (length addrs) now p (range 1 addrs) w2))
                  λ id w3 (i, l).
                    registered_after Q w.db (loaded note (length addrs) now p (range 1 addrs) w.db)
                      id (register_with importer id now (range 2 addrs)) w3 l
                      (register_with-Registers importer id now (range 2 addrs))
                      (λ d'' same. (p, i, same, valid, apart, absent))
    where
      Q : ℕ → Db → Type 0
      Q = Imported validate range note addrs now w.db
