-- ===== src/Chain/Monitor.antt =====
-- `TableMonitor` and `MultiTableMonitor` of Modules/ChainHandler.cpp: the signals that tell of the
-- objects in a contract's tables. `O` stands for an object as `to_variant().get_object()`.
pub mod Notices
pub mod Attach
use peerplays_contract_node.Prelude.{
  ℕ, Bool, true, false, Option, none, some, List, [], ◌∷◌, ◌++◌, Failure, Result, ok, fail,
  fc_exception, fc_exception_ptr, fc_assert,
}
use peerplays_contract_node.Prelude.Actions.{
  Action, pure, throw, ◌>>=◌, ◌>>◌, modify, require_state,
}

-- What the four signals of a contract's monitor say; `modified` has the objects of its "from" and
-- "to".
pub data Notice (O : Type 0) : Type 0 where
  loaded created deleted : ℕ → O → Notice O
  modified : ℕ → O → O → Notice O

-- A signal pointer is set or null.
pub record TableMonitor (O : Type 0) : Type 0 where
  pub type_id : ℕ
  pub has_loaded_signal : Bool
  pub has_created_signal : Bool
  pub has_deleted_signal : Bool
  pub has_modified_signal : Bool
  pub pre_modified_object : Option O

-- A monitor, and what it has signalled so far.
pub record Monitored (O : Type 0) : Type 0 where
  pub monitor : TableMonitor O
  pub notices : List (Notice O)

module _ {O : Type 0} where
  -- `FC_ASSERT` of the pointer, then the signal.
  abbrev signal : Bool → Notice O → Monitored O → Result (Unit {0}) × Monitored O
  signal true n m = (ok tt, record m { notices = m.notices ++ n ∷ [] })
  signal false n m = (fail (fc_exception fc_assert), m)

  unfoldable pub object_loaded : O → Action (Monitored O) (Unit {0})
  object_loaded o m = signal m.monitor.has_loaded_signal (loaded m.monitor.type_id o) m

  unfoldable pub object_created : O → Action (Monitored O) (Unit {0})
  object_created o m = signal m.monitor.has_created_signal (created m.monitor.type_id o) m

  unfoldable pub object_removed : O → Action (Monitored O) (Unit {0})
  object_removed o m = signal m.monitor.has_deleted_signal (deleted m.monitor.type_id o) m

  abbrev set_pre_modified : Option O → Monitored O → Monitored O
  set_pre_modified o m = record m { monitor = table }
    where
      table : TableMonitor O
      table = record (m.monitor) { pre_modified_object = o }

  unfoldable pub about_to_modify : O → Action (Monitored O) (Unit {0})
  about_to_modify before m = (ok tt, set_pre_modified (some before) m)

  -- Without the object from before, only an error is logged.
  abbrev tell_modified : Option O → O → Monitored O → Monitored O
  tell_modified none after m = m
  tell_modified (some before) after m =
      set_pre_modified none
        (record m { notices = m.notices ++ modified m.monitor.type_id before after ∷ [] })

  unfoldable pub object_modified : O → Action (Monitored O) (Unit {0})
  object_modified after m = elim m.monitor.has_modified_signal [
    | true ↦ (ok tt, tell_modified m.monitor.pre_modified_object after m)
    | false ↦ (fail (fc_exception fc_assert), m)
  ]

-- The chain database's side of the monitors: the tables of a space, and the calls that add and
-- delete a secondary index. An index is known by a number here.
pub record Tables (Db : Type 0) : Type 0 where
  pub inspect_all_indexes : Db → ℕ → List ℕ
  pub add_secondary_index : ℕ → ℕ → Action Db ℕ
  pub delete_secondary_index : ℕ → ℕ → ℕ → Action Db (Unit {0})

pub record Attached (O : Type 0) : Type 0 where
  pub index : ℕ
  pub table : TableMonitor O

abbrev pub connected : {O : Type 0} → ℕ → TableMonitor O
connected t = record {
  type_id = t;
  has_loaded_signal = true;
  has_created_signal = true;
  has_deleted_signal = true;
  has_modified_signal = true;
  pre_modified_object = none;
}

-- `catch (fc::exception_ptr e)`: the shared pointer is caught, and nothing else.
abbrev pub is_exception_ptr : Failure → Bool
is_exception_ptr fc_exception_ptr = true
is_exception_ptr e = false

module _ {O Db : Type 0} (tables : Tables Db) (space : ℕ) where
  open tables use {inspect_all_indexes, add_secondary_index, delete_secondary_index}

  -- The body of the constructor, over the tables that are left.
  unfoldable pub attach : List ℕ → List (Attached O) → Action Db (List (Attached O))
  attach [] monitors db = (ok monitors, db)
  attach (t ∷ ts) monitors db =
      let (r, after) = add_secondary_index space t db in
      elim r [
        | ok index ↦
            attach ts (monitors ++ record { index = index; table = connected t } ∷ []) after
        | fail e ↦ elim (is_exception_ptr e) [
          | true ↦ attach ts monitors after
          | false ↦ (fail e, after)
        ]
      ]

  unfoldable pub monitor_tables : Action Db (List (Attached O))
  monitor_tables db = attach (inspect_all_indexes db space) [] db

  -- The destructor.
  unfoldable pub detach : List (Attached O) → Action Db (Unit {0})
  detach [] db = (ok tt, db)
  detach (m ∷ ms) db = (delete_secondary_index space m.table.type_id m.index >> detach ms) db
