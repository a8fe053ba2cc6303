-- ===== src/Chain/Monitor/Attach.antt =====
-- The construction and the destruction of the monitors of a space.
use peerplays_contract_node.Prelude.{
  ℕ, ◌≡◌, sym, ap, ◌∙◌, ◌⊎◌, inl, inr, List, [], ◌∷◌, ◌++◌, append_assoc, append-nil, ok, fail,
  Reason, fc_exception, fc_exception_ptr, arith,
}
use peerplays_contract_node.Chain.Monitor.{Tables, Attached, connected, attach, monitor_tables}

module _ {O Db : Type 0} (tables : Tables Db) (space : ℕ) where
  -- The calls that add an index to each of these tables in turn, from `db` on.
  pub data Adds : List ℕ → Db → List (Attached O) → Db → Type 0 where
    done : {db : Db} → Adds [] db [] db
    added :
        {t : ℕ} {ts : List ℕ} {db db' db'' : Db} {index : ℕ} {ms : List (Attached O)}
        → tables.add_secondary_index space t db ≡ (ok index, db')
        → Adds ts db' ms db''
        → Adds (t ∷ ts) db (record { index = index; table = connected t } ∷ ms) db''
    skipped :
        {t : ℕ} {ts : List ℕ} {db db' db'' : Db} {ms : List (Attached O)}
        → tables.add_secondary_index space t db ≡ (fail fc_exception_ptr, db')
        → Adds ts db' ms db''
        → Adds (t ∷ ts) db ms db''

  module _ (t : ℕ) (ts : List ℕ) (ms : List (Attached O)) (db after : Db) where
    attach_added :
        (index : ℕ)
        → tables.add_secondary_index space t db ≡ (ok index, after)
        → attach tables space (t ∷ ts) ms db
          ≡ attach tables space ts (ms ++ record { index = index; table = connected t } ∷ []) after
    unfolding attach
    attach_added index e = ground arith

    attach_skipped :
        tables.add_secondary_index space t db ≡ (fail fc_exception_ptr, after)
        → attach tables space (t ∷ ts) ms db ≡ attach tables space ts ms after
    unfolding attach
    attach_skipped e = ground arith

    attach_throws :
        (r : Reason)
        → tables.add_secondary_index space t db ≡ (fail (fc_exception r), after)
        → attach tables space (t ∷ ts) ms db ≡ (fail (fc_exception r), after)
    unfolding attach
    attach_throws r e = ground arith

  attach-Adds :
      {ts : List ℕ} {db : Db} {ms : List (Attached O)} {db' : Db} (us : List ℕ)
      (acc : List (Attached O))
      → Adds ts db ms db'
      → attach tables space (ts ++ us) acc db ≡ attach tables space us (acc ++ ms) db'
  attach-Adds us acc done = simp append-nil
  attach-Adds us acc (added {t = t} {ts = ts} {index = index} {ms = ms} e rest) =
      attach_added t (ts ++ us) acc _ _ index e
      ∙ attach-Adds us (acc ++ record { index = index; table = connected t } ∷ []) rest
      ∙ simp append_assoc
  attach-Adds us acc (skipped {t = t} {ts = ts} e rest) =
      attach_skipped t (ts ++ us) acc _ _ e ∙ attach-Adds us acc rest

  find-Adds :
      ((t : ℕ) (db : Db)
        → ((index : ℕ) × (after : Db) × (tables.add_secondary_index space t db ≡ (ok index, after)))
          ⊎ ((after : Db) × (tables.add_secondary_index space t db
                ≡ (fail fc_exception_ptr, after))))
      → (ts : List ℕ) (db : Db) → (ms : List (Attached O)) × (db' : Db) × Adds ts db ms db'
  find-Adds total [] db = ([], db, done)
  find-Adds total (t ∷ ts) db = elim (total t db) [
    | inl (index, after, e) ↦
        let (ms, db', rest) = find-Adds total ts after in
        (record { index = index; table = connected t } ∷ ms, db', added e rest)
    | inr (after, e) ↦ let (ms, db', rest) = find-Adds total ts after in (ms, db', skipped e rest)
  ]

  -- If adding a monitor only ever answers it or throws an `fc::exception_ptr`, the constructor
  -- ends, with a connected monitor for each table of the space whose monitor could be added, in
  -- the order of the tables; the others are passed over.
  pub monitor_tables-Adds :
      ((t : ℕ) (db : Db)
        → ((index : ℕ) × (after : Db) × (tables.add_secondary_index space t db ≡ (ok index, after)))
          ⊎ ((after : Db) × (tables.add_secondary_index space t db
                ≡ (fail fc_exception_ptr, after))))
      → (db : Db)
      → (ms : List (Attached O)) × (db' : Db) × Adds (tables.inspect_all_indexes db space) db ms db'
        × (monitor_tables tables space db ≡ (ok ms, db'))
  unfolding monitor_tables attach
  monitor_tables-Adds total db =
      let (ms, db', adds) = find-Adds total (tables.inspect_all_indexes db space) db in
      (
        ms,
        db',
        adds,
        ap (λ ts. attach tables space ts [] db) (sym (append-nil _)) ∙ attach-Adds [] [] adds,
      )

  -- If adding the monitor of a table throws an exception object of graphene's, after each table
  -- before it was monitored or passed over, that exception ends the constructor, whatever tables
  -- are left.
  pub monitor_tables_throws :
      (ts us : List ℕ) (t : ℕ) (db db' db'' : Db) (ms : List (Attached O)) (r : Reason)
      → tables.inspect_all_indexes db space ≡ ts ++ t ∷ us
      → Adds ts db ms db'
      → tables.add_secondary_index space t db' ≡ (fail (fc_exception r), db'')
      → monitor_tables {O = O} tables space db ≡ (fail (fc_exception r), db'')
  unfolding monitor_tables attach
  monitor_tables_throws ts us t db db' db'' ms r l adds e =
      rw l (attach-Adds (t ∷ us) [] adds ∙ attach_throws t us ms db' db'' r e)
