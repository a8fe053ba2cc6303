-- ===== src/Node/Dump/Headings.antt =====
-- The objects that are dumped, and the headings that they stand under.
use peerplays_contract_node.Prelude.{
  ℕ, ◌≡◌, ◌≢◌, refl, sym, ap, subst, ◌∙◌, true, false, Option, none, some, List, [], ◌∷◌, ◌++◌,
  append_assoc, append-nil, Result, Failure, ok, fail, arith, inl, inr, Bool-cases, ◌==◌, ==_iff,
}
use peerplays_contract_node.Prelude.Actions.{Action, ◌>>◌}
use peerplays_contract_node.Prelude.Int.{ℤ, pos, negsuc, ◌==ℤ◌}
use peerplays_contract_node.Chain.Records.{ChainHandler}
use peerplays_contract_node.Chain.Registry.Map.{Loaded}
use peerplays_contract_node.Chain.Inspect.{
  inspect_all_objects, inspect_all_indexes, inspect_contract_database,
}
use peerplays_contract_node.Node.Dump.{
  Line, dumping, blank, table, dumped, Dumper, show_table, dumper, dump_contracts,
  dump_contract_databases,
}
use peerplays_contract_node.Node.Dump.Lines.{
  objects_of, names_of, concat_indexes, all_objects, all_names, Headed, Headed-append,
  objects_of-append, names_of-append,
}

module _ {O : Type 0} (type_of : O → Option (Result ℕ)) where
  -- The action ends well, and adds these objects to the log, under their headings.
  abbrev Dumps : Action (Dumper O) (Unit {0}) → ℤ → List (Line O) → List O → Type 0
  Dumps m t log os =
      (lines : List (Line O)) × (u : ℤ) × (m (record { type_id = t; log = log })
        ≡ (ok tt, record { type_id = u; log = log ++ lines }))
      × Headed type_of t lines
      × (objects_of lines ≡ os)
      × (names_of lines ≡ [])

  module _ (readable : (o : O) (e : Failure) → type_of o ≢ some (fail e)) where
    same_type : (t : ℤ) (u : ℕ) → (pos u ==ℤ t ≡ true) → t ≡ pos u
    same_type (pos n) u h = ap pos (sym ((==_iff u n).0 h))
    same_type (negsuc n) u h = cc

    other_type : (t : ℤ) (u : ℕ) → (pos u ==ℤ t ≡ false) → t ≢ pos u
    other_type t u h same = apart u (subst (λ z. pos u ==ℤ z ≡ false) same h)
      where
        apart : (n : ℕ) → n == n ≡ false → ⊥
        apart n e = ground arith

    -- The lines of one object, the heading after it, and what the rest adds.
    Dumps-object :
        (o : O) (rest : Action (Dumper O) (Unit {0})) (t : ℤ) (log : List (Line O)) (os : List O)
        → ((u : ℤ) (before : List (Line O)) → Dumps rest u before os)
        → Dumps (dumper type_of o >> rest) t log (o ∷ os)
    unfolding dumper show_table
    Dumps-object o rest t log os then = by_type (type_of o) refl
      where
        by_type :
            (c : Option (Result ℕ))
            → type_of o ≡ c
            → Dumps (dumper type_of o >> rest) t log (o ∷ os)
        by_type none e =
            let (lines, u, r, h, k, n) = then t (log ++ dumped o ∷ []) in
            (
              dumped o ∷ lines,
              u,
              ground (arith, e, r, append_assoc log (dumped o ∷ []) lines),
              rw e (tt, h),
              ap (λ z. o ∷ z) k,
              n,
            )
        by_type (some (fail f)) e = absurd (readable o f e)
        by_type (some (ok v)) e = elim (Bool-cases (pos v ==ℤ t)) [
          | inl same ↦
              let (lines, u, r, h, k, n) = then t (log ++ dumped o ∷ []) in
              (
                dumped o ∷ lines,
                u,
                ground (arith, e, same, r, append_assoc log (dumped o ∷ []) lines),
                rw e (same_type t v same, h),
                ap (λ z. o ∷ z) k,
                n,
              )
          | inr other ↦
              let (lines, u, r, h, k, n) = then (pos v) (log ++ blank ∷ table v ∷ dumped o ∷ []) in
              (
                blank ∷ table v ∷ dumped o ∷ lines,
                u,
                ground (
                  arith,
                  e,
                  other,
                  r,
                  append_assoc log (blank ∷ []) (table v ∷ []),
                  append_assoc log (blank ∷ table v ∷ []) (dumped o ∷ []),
                  append_assoc log (blank ∷ table v ∷ dumped o ∷ []) lines,
                ),
                (other_type t v other, rw e (refl, h)),
                ap (λ z. o ∷ z) k,
                n,
              )
        ]

    Dumps-objects :
        (os : List O) (t : ℤ) (log : List (Line O))
        → Dumps (inspect_all_objects os (dumper type_of)) t log os
    unfolding inspect_all_objects
    Dumps-objects [] t log = ([], t, rw (append-nil log) refl, tt, refl, refl)
    Dumps-objects (o ∷ os) t log =
        Dumps-object o (inspect_all_objects os (dumper type_of)) t log os (Dumps-objects os)

    inspect-append :
        (xs ys : List O) (d : Dumper O)
        → inspect_all_objects (xs ++ ys) (dumper type_of) d
          ≡ (inspect_all_objects xs (dumper type_of) >> inspect_all_objects ys (dumper type_of)) d
    unfolding inspect_all_objects
    inspect-append [] ys d = refl
    inspect-append (o ∷ xs) ys d = by_result (dumper type_of o d) refl (inspect-append xs ys)
      where
        by_result :
            (r : Result (Unit {0}) × Dumper O)
            → dumper type_of o d ≡ r
            → ((e : Dumper O)
                → inspect_all_objects (xs ++ ys) (dumper type_of) e
                  ≡ (inspect_all_objects xs (dumper type_of)
                        >> inspect_all_objects ys (dumper type_of))
                      e)
            → inspect_all_objects (o ∷ xs ++ ys) (dumper type_of) d
              ≡ (inspect_all_objects (o ∷ xs) (dumper type_of)
                    >> inspect_all_objects ys (dumper type_of))
                  d
        by_result (ok u, e) same rest = ground (arith, same, rest e)
        by_result (fail f, e) same rest = ground (arith, same)

    inspect_all_indexes-concat :
        (indexes : List (List O)) (d : Dumper O)
        → inspect_all_indexes indexes (dumper type_of) d
          ≡ inspect_all_objects (concat_indexes indexes) (dumper type_of) d
    unfolding inspect_all_indexes inspect_all_objects
    inspect_all_indexes-concat [] d = refl
    inspect_all_indexes-concat (index ∷ indexes) d =
        ap (λ k. (inspect_all_objects index (dumper type_of) >> k) d)
          (λ i e. inspect_all_indexes-concat indexes e i)
        ∙ sym (inspect-append index (concat_indexes indexes) d)

    abbrev DumpsAll : (ℕ → List (List O)) → Loaded → ℤ → List (Line O) → Type 0
    DumpsAll indexes contracts t log =
        (lines : List (Line O)) × (u : ℤ) × (dump_contracts type_of indexes contracts
            (record { type_id = t; log = log })
          ≡ (ok tt, record { type_id = u; log = log ++ lines }))
        × ((v : ℤ) → Headed type_of v lines)
        × (objects_of lines ≡ all_objects indexes contracts)
        × (names_of lines ≡ all_names contracts)

    dump_contracts-DumpsAll :
        (indexes : ℕ → List (List O)) (contracts : Loaded) (t : ℤ) (log : List (Line O))
        → DumpsAll indexes contracts t log
    unfolding dump_contracts inspect_contract_database
    dump_contracts-DumpsAll indexes [] t log =
        ([], t, rw (append-nil log) refl, (λ v. tt), refl, refl)
    dump_contracts-DumpsAll indexes ((id, name) ∷ contracts) t log =
        let start = log ++ dumping name ∷ [] in
        let (here, u, r, h, k, n) = Dumps-objects (concat_indexes (indexes id)) (negsuc 0) start in
        let (later, v, r', h', k', n') =
          dump_contracts-DumpsAll indexes contracts u (start ++ here) in
        (
          dumping name ∷ here ++ later,
          v,
          ground (
            arith,
            inspect_all_indexes-concat (indexes id) (record { type_id = negsuc 0; log = start }),
            r,
            r',
            append_assoc start here later,
            append_assoc log (dumping name ∷ []) (here ++ later),
          ),
          (λ w. Headed-append type_of (negsuc 0) here later h h'),
          ground (arith, objects_of-append here later, k, k'),
          ground (arith, names_of-append here later, n, n'),
        )

    -- If the type of every object's id can be read: the dump ends well, and adds to the log the
    -- name of every loaded contract, in the order of their spaces, and every object of these
    -- spaces once, in the order in which the database shows them; each object with an id stands
    -- under the heading of its type, where each contract starts without a heading, and no heading
    -- repeats the one before it.
    pub dump_contract_databases_lem :
        {Store Chain : Type 0} (indexes : ℕ → List (List O)) (h : ChainHandler Store Chain) (t : ℤ)
        (log : List (Line O))
        → (lines : List (Line O)) × (u : ℤ) × (dump_contract_databases type_of indexes h
              (record { type_id = t; log = log })
            ≡ (ok tt, record { type_id = u; log = log ++ lines }))
          × (objects_of lines ≡ all_objects indexes h.loaded_contracts)
          × (names_of lines ≡ all_names h.loaded_contracts)
          × Headed type_of t lines
    unfolding dump_contract_databases
    dump_contract_databases_lem indexes h t log =
        let (lines, u, r, k, o, n) = dump_contracts-DumpsAll indexes h.loaded_contracts t log in
        (lines, u, r, o, n, k t)
