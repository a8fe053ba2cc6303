-- ===== src/Node/Life/Tasks.antt =====
-- The tasks that the signals leave, and the tasks that run.
use mathlib.Core.List.{Perm, perm_middle}
use mathlib.Core.List.Perm
use peerplays_contract_node.Prelude.{
  Bool, ◌≡◌, refl, sym, ap, subst, ◌∙◌, true, false, List, [], ◌∷◌, ◌++◌, append-nil, append_assoc,
  arith, String,
}
use peerplays_contract_node.P2p.Handler.{P2pHandler}
use peerplays_contract_node.Chain.Records.{Persistence}
use peerplays_contract_node.Chain.Monitor.{Tables}
use peerplays_contract_node.Node.Defs.{Host, Node}
use peerplays_contract_node.Node.Course.Signals.{
  Signal, sigint, sigusr1, sigusr2, Task, Process, deliver, exit, prepare_wait, signal_handler,
  tasks_of, exits_of,
}
use peerplays_contract_node.Node.Course.Run.{Outside}
use peerplays_contract_node.Node.Life.{
  Life, Step, signalled, ran, told_to_exit, called, Steps, none_yet, and_then,
}

-- A signal that comes while the handler is set.
deliver-waiting :
    (g : Signal) (r : Process)
    → r.is_waiting ≡ true
    → r.has_signal_set ≡ true
    → ((deliver g r).tasks ≡ r.tasks ++ tasks_of (g ∷ []))
      × ((deliver g r).promised ≡ r.promised ++ exits_of (g ∷ []))
      × ((deliver g r).is_waiting ≡ true)
      × ((deliver g r).has_signal_set ≡ true)
unfolding deliver signal_handler
deliver-waiting sigint r w b = ground (arith, append-nil r.tasks)
deliver-waiting sigusr1 r w b = ground (arith, append-nil r.promised)
deliver-waiting sigusr2 r w b = ground (arith, append-nil r.promised)

-- What is so of a process that has come to another: the tasks asked for and done between, and the
-- values that the promise was set to.
abbrev Accounts : Process → List Task → List Task → List Bool → Process → Type 0
Accounts q asked done promises r =
    Perm (done ++ r.tasks) (q.tasks ++ asked)
    × (r.promised ≡ q.promised ++ promises)
    × (r.is_waiting ≡ true)
    × (r.has_signal_set ≡ true)

Accounts-then :
    (q r u : Process) (asked done more now : List Task) (promises later : List Bool)
    → Accounts q asked done promises r
    → Accounts r more now later u
    → Accounts q (asked ++ more) (done ++ now) (promises ++ later) u
Accounts-then q r u asked done more now promises later (tasks, exits, w, b)
      (tasks', exits', w', b') =
    (
      subst (λ ts. Perm ts (q.tasks ++ (asked ++ more))) (sym (append_assoc done now u.tasks))
          (subst (Perm (done ++ (now ++ u.tasks))) (append_assoc q.tasks asked more) (
            Perm.trans (Perm.append_left done tasks') (
              subst (λ ts. Perm ts ((q.tasks ++ asked) ++ more)) (append_assoc done r.tasks more)
                (Perm.append_right more tasks)))),
      exits' ∙ ap (λ es. es ++ later) exits ∙ append_assoc q.promised promises later,
      w',
      b',
    )

Accounts-same :
    (q r : Process) (promises : List Bool)
    → r.tasks ≡ q.tasks
    → r.promised ≡ q.promised ++ promises
    → r.is_waiting ≡ true
    → r.has_signal_set ≡ true
    → Accounts q [] [] promises r
Accounts-same q r promises e f w b =
    (subst (Perm r.tasks) (sym (append-nil q.tasks ∙ sym e)) (Perm.refl r.tasks), f, w, b)

module _ (p : Persistence) {Chain O Net : Type 0} (tables : Tables Chain) (host : Host Chain)
    (around : Outside p.Store Chain Net) (program_path : String) where
  -- What a step asks for, the task that it runs, and what it sets the promise to.
  abbrev asked_by :
      {s t : Life p Chain O Net} → Step p tables host around program_path s t → List Task
  asked_by (signalled g) = tasks_of (g ∷ [])
  asked_by (ran t before after e) = []
  asked_by (told_to_exit with_error) = []
  asked_by (called c) = []

  abbrev run_by :
      {s t : Life p Chain O Net} → Step p tables host around program_path s t → List Task
  run_by (signalled g) = []
  run_by (ran t before after e) = t ∷ []
  run_by (told_to_exit with_error) = []
  run_by (called c) = []

  abbrev promised_by :
      {s t : Life p Chain O Net} → Step p tables host around program_path s t → List Bool
  promised_by (signalled g) = exits_of (g ∷ [])
  promised_by (ran t before after e) = []
  promised_by (told_to_exit with_error) = with_error ∷ []
  promised_by (called c) = []

  unfoldable pub asked_of :
      {s t : Life p Chain O Net} → Steps p tables host around program_path s t → List Task
  asked_of none_yet = []
  asked_of (and_then steps step) = asked_of steps ++ asked_by step

  unfoldable pub ran_of :
      {s t : Life p Chain O Net} → Steps p tables host around program_path s t → List Task
  ran_of none_yet = []
  ran_of (and_then steps step) = ran_of steps ++ run_by step

  unfoldable pub promised_of :
      {s t : Life p Chain O Net} → Steps p tables host around program_path s t → List Bool
  promised_of none_yet = []
  promised_of (and_then steps step) = promised_of steps ++ promised_by step

  Step-Accounts :
      (s t : Life p Chain O Net) (step : Step p tables host around program_path s t)
      → s.process.is_waiting ≡ true
      → s.process.has_signal_set ≡ true
      → Accounts s.process (asked_by step) (run_by step) (promised_by step) t.process
  unfolding exit
  Step-Accounts s t (signalled g) w b =
      let (added, promised, still, again) = deliver-waiting g s.process w b in
      (subst (Perm (deliver g s.process).tasks) added (Perm.refl _), promised, still, again)
  Step-Accounts s t (ran task front behind e) w b = (
    subst (λ ts. Perm (task ∷ front ++ behind) (ts ++ [])) (sym e)
        (subst (Perm (task ∷ front ++ behind)) (sym (append-nil (front ++ task ∷ behind)))
          (Perm.symm (perm_middle front behind))),
    sym (append-nil s.process.promised),
    w,
    b,
  )
  Step-Accounts s t (told_to_exit with_error) w b =
      Accounts-same s.process _ (with_error ∷ []) refl refl w b
  Step-Accounts s t (called c) w b =
      Accounts-same s.process _ [] refl (sym (append-nil s.process.promised)) w b

  Steps-Accounts :
      (s t : Life p Chain O Net) (steps : Steps p tables host around program_path s t)
      → s.process.is_waiting ≡ true
      → s.process.has_signal_set ≡ true
      → Accounts s.process (asked_of steps) (ran_of steps) (promised_of steps) t.process
  unfolding asked_of ran_of promised_of
  Steps-Accounts s t none_yet w b =
      Accounts-same s.process s.process [] refl (sym (append-nil s.process.promised)) w b
  Steps-Accounts s t (and_then {t = u} before step) w b =
      let a = Steps-Accounts s u before w b in
      let (tasks, exits, w', b') = a in
      Accounts-then s.process u.process t.process (asked_of before) (ran_of before) (asked_by step)
        (run_by step) (promised_of before) (promised_by step) a (Step-Accounts u t step w' b')

  -- A process without a signal set comes to wait for its exit. After that come signals, calls of
  -- the P2P node and of `exit`, and runs of pending tasks, in any order. Then, up to the order, the
  -- tasks that have run and those that are pending are those that were pending before, and one for
  -- each SIGUSR1 and SIGUSR2: none is lost, and none runs twice. The promise has been set to false
  -- for each SIGINT and to its argument for each `exit`, in their order, and to nothing else, and
  -- the handler is set for the next signal.
  pub prepare_wait-Accounts :
      (h : P2pHandler (Node p.Store Chain O Net)) (start : Process) (t : Life p Chain O Net)
      (steps : Steps p tables host around program_path
        (record { handler = h; process = prepare_wait start })
        t)
      → start.has_signal_set ≡ false
      → Perm (ran_of steps ++ t.process.tasks) (start.tasks ++ asked_of steps)
        × (t.process.promised ≡ promised_of steps)
        × (t.process.is_waiting ≡ true)
        × (t.process.has_signal_set ≡ true)
  unfolding prepare_wait
  prepare_wait-Accounts h start t steps e =
      let (tasks, exits, waiting, set) =
        Steps-Accounts (record { handler = h; process = prepare_wait start }) t steps
          (ground (arith, e)) (ground (arith, e)) in
      let same : (prepare_wait start).tasks ≡ start.tasks = ground (arith, e) in
      let none_promised : (prepare_wait start).promised ≡ [] = ground (arith, e) in
      (
        subst (λ u. Perm (ran_of steps ++ t.process.tasks) (u ++ asked_of steps)) same tasks,
        exits ∙ ap (λ u. u ++ promised_of steps) none_promised,
        waiting,
        set,
      )
