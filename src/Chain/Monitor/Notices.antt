-- ===== src/Chain/Monitor/Notices.antt =====
-- What a connected monitor signals of a table's history.
use peerplays_contract_node.Prelude.{
  ℕ, ◌≡◌, ◌∙◌, List, [], ◌∷◌, ◌++◌, map, append_assoc, append-nil, ok,
}
use peerplays_contract_node.Prelude.Actions.{Action, ◌>>◌}
use peerplays_contract_node.Chain.Monitor.{
  Notice, loaded, created, deleted, modified, Monitored, object_loaded, object_created,
  object_removed, about_to_modify, object_modified, connected,
}

-- What happens to an object of the table.
pub data Change (O : Type 0) : Type 0 where
  load create remove : O → Change O
  modify : O → O → Change O

module _ {O : Type 0} where
  -- The calls that the database makes of a secondary index.
  unfoldable pub notify : Change O → Action (Monitored O) (Unit {0})
  notify (load o) m = object_loaded o m
  notify (create o) m = object_created o m
  notify (remove o) m = object_removed o m
  notify (modify before after) m = (about_to_modify before >> object_modified after) m

  unfoldable pub notify_all : List (Change O) → Action (Monitored O) (Unit {0})
  notify_all [] m = (ok tt, m)
  notify_all (c ∷ cs) m = (notify c >> notify_all cs) m

  abbrev pub notice_of : ℕ → Change O → Notice O
  notice_of t (load o) = loaded t o
  notice_of t (create o) = created t o
  notice_of t (remove o) = deleted t o
  notice_of t (modify before after) = modified t before after

  -- A monitor that the constructor has connected signals each change once, in order, a
  -- modification with the object from before and the object from after it; and it keeps no object.
  pub notify_all_notices :
      (t : ℕ) (cs : List (Change O)) (ns : List (Notice O))
      → notify_all cs (record { monitor = connected t; notices = ns })
        ≡ (ok tt, record { monitor = connected t; notices = ns ++ map (notice_of t) cs })
  unfolding notify_all notify object_loaded object_created object_removed about_to_modify
      object_modified
  notify_all_notices t [] ns = simp append-nil
  notify_all_notices t (load o ∷ cs) ns =
      notify_all_notices t cs (ns ++ loaded t o ∷ []) ∙ simp append_assoc
  notify_all_notices t (create o ∷ cs) ns =
      notify_all_notices t cs (ns ++ created t o ∷ []) ∙ simp append_assoc
  notify_all_notices t (remove o ∷ cs) ns =
      notify_all_notices t cs (ns ++ deleted t o ∷ []) ∙ simp append_assoc
  notify_all_notices t (modify b a ∷ cs) ns =
      notify_all_notices t cs (ns ++ modified t b a ∷ []) ∙ simp append_assoc
