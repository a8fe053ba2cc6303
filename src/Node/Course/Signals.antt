-- ===== src/Node/Course/Signals.antt =====
-- The signals of the process. The handler stays set for one signal at a time, so that it has to
-- set itself again.
use peerplays_contract_node.Prelude.{
  ℕ, ◌≡◌, ◌∙◌, Bool, true, false, List, [], ◌∷◌, ◌++◌, append-nil, append_assoc, if◌then◌else◌,
}

pub data Signal : Type 0 where
  sigint sigusr1 sigusr2 : Signal

pub data ErrorCode : Type 0 where
  no_error operation_aborted : ErrorCode
  other_error : ℕ → ErrorCode

-- What the handler leaves for the main thread.
pub data Task : Type 0 where
  load_new_plugins dump_contract_databases : Task

-- `promised` lists the values that `set_value` has been called with.
pub record Process : Type 0 where
  pub promised : List Bool
  pub has_signal_set : Bool
  pub is_waiting : Bool
  pub tasks : List Task

abbrev act : Signal → Process → Process
act sigint s = record s { promised = s.promised ++ false ∷ [] }
act sigusr1 s = record s { tasks = s.tasks ++ load_new_plugins ∷ [] }
act sigusr2 s = record s { tasks = s.tasks ++ dump_contract_databases ∷ [] }

-- `async_wait`, if there is a signal set.
abbrev wait_again : Process → Process
wait_again s = if s.has_signal_set then record s { is_waiting = true } else s

unfoldable pub signal_handler : ErrorCode → Signal → Process → Process
signal_handler operation_aborted g s = s
signal_handler no_error g s = wait_again (act g s)
signal_handler (other_error n) g s = wait_again (act g s)

-- `exit(withError)`.
unfoldable pub exit : Bool → Process → Process
exit with_error s = record s { promised = s.promised ++ with_error ∷ [] }

-- `waitForExit`, up to the wait for the promise.
unfoldable pub prepare_wait : Process → Process
prepare_wait s =
    if s.has_signal_set
    then record s { promised = [] }
    else record s { promised = []; has_signal_set = true; is_waiting = true }

-- A signal reaches the handler if it is set, which that uses up.
unfoldable pub deliver : Signal → Process → Process
deliver g s =
    if s.is_waiting then signal_handler no_error g (record s { is_waiting = false }) else s

unfoldable pub deliver_all : List Signal → Process → Process
deliver_all [] s = s
deliver_all (g ∷ gs) s = deliver_all gs (deliver g s)

-- What a sequence of signals asks for.
abbrev pub tasks_of : List Signal → List Task
tasks_of [] = []
tasks_of (sigint ∷ gs) = tasks_of gs
tasks_of (sigusr1 ∷ gs) = load_new_plugins ∷ tasks_of gs
tasks_of (sigusr2 ∷ gs) = dump_contract_databases ∷ tasks_of gs

abbrev pub exits_of : List Signal → List Bool
exits_of [] = []
exits_of (sigint ∷ gs) = false ∷ exits_of gs
exits_of (sigusr1 ∷ gs) = exits_of gs
exits_of (sigusr2 ∷ gs) = exits_of gs

abbrev set_up : List Bool → List Task → Process
set_up ps ts = record { promised = ps; has_signal_set = true; is_waiting = true; tasks = ts }

delivered_from :
    (gs : List Signal) (ps : List Bool) (ts : List Task)
    → deliver_all gs (set_up ps ts) ≡ set_up (ps ++ exits_of gs) (ts ++ tasks_of gs)
unfolding deliver_all deliver signal_handler
delivered_from [] ps ts = simp append-nil
delivered_from (sigint ∷ gs) ps ts = delivered_from gs (ps ++ false ∷ []) ts ∙ simp append_assoc
delivered_from (sigusr1 ∷ gs) ps ts =
    delivered_from gs ps (ts ++ load_new_plugins ∷ []) ∙ simp append_assoc
delivered_from (sigusr2 ∷ gs) ps ts =
    delivered_from gs ps (ts ++ dump_contract_databases ∷ []) ∙ simp append_assoc

-- Once a process without a signal set waits for its exit, no signal is lost: each SIGUSR1 and
-- SIGUSR2 leaves its task, in order, each SIGINT sets the promise to false, and the handler is
-- set for the next signal.
pub deliver_all_lem :
    (gs : List Signal) (s : Process)
    → s.has_signal_set ≡ false
    → deliver_all gs (prepare_wait s) ≡ record {
      promised = exits_of gs;
      has_signal_set = true;
      is_waiting = true;
      tasks = s.tasks ++ tasks_of gs;
    }
unfolding prepare_wait
deliver_all_lem gs s e = rw e (delivered_from gs [] s.tasks)
