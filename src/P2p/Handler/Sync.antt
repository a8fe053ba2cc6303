-- ===== src/P2p/Handler/Sync.antt =====
-- The signals that the handlers emit, and the end of the initial synchronisation.
use peerplays_contract_node.Prelude.{
  ℕ, suc, ◌+◌, ◌≡◌, refl, Bool, true, false, not, ◌&&◌, ◌||◌, List, [], ◌∷◌, ◌++◌, append_assoc,
  append-nil, ◌∙◌, sym, subst, arith, if◌then◌else◌, Option, none, some, Failure, ok, fail,
}
use peerplays_contract_node.Prelude.Actions.{Action}
use peerplays_contract_node.P2p.Defs.{SignedTransaction, SignedBlock}
use peerplays_contract_node.P2p.Handler.{
  ItemId, Surroundings, P2pHandler, handle_block, handle_transaction,
}

pub data Event : Type 0 where
  block_received : SignedBlock → Event
  transaction_received : SignedTransaction → Event
  sync_finished listening connecting : Event
  syncing_from : ItemId → Event

-- Surroundings that write down, in order, what the handlers emit and call. The slots of an event
-- may throw then.
abbrev pub Throws : Type 0
Throws = Event → Option Failure

abbrev emit : Throws → Event → Action (List Event) (Unit {0})
emit throws e w = (elim (throws e) [ none ↦ ok tt | some f ↦ fail f ], w ++ e ∷ [])

abbrev pub recorder : Throws → Surroundings (List Event)
recorder throws = record {
  block_received = λ b. emit throws (block_received b);
  transaction_received = λ t. emit throws (transaction_received t);
  sync_finished = emit throws sync_finished;
  sync_from = λ i. emit throws (syncing_from i);
  listen_to_p2p_network = emit throws listening;
  connect_to_p2p_network = emit throws connecting;
}

-- A message from the P2P node: a block, with its `sync_mode`, or a transaction.
pub data Input : Type 0 where
  block : SignedBlock → Bool → Input
  transaction : SignedTransaction → Input

abbrev pub Recorded : Type 0
Recorded = P2pHandler (List Event)

-- The P2P node catches what the handlers throw.
pub handle : Throws → Input → Recorded → Recorded
handle throws (block b sync_mode) h = (handle_block (recorder throws) b sync_mode h).1
handle throws (transaction t) h = (handle_transaction (recorder throws) t h).1

pub handle_all : Throws → List Input → Recorded → Recorded
handle_all throws [] h = h
handle_all throws (i ∷ is) h = handle_all throws is (handle throws i h)

abbrev goes_on : Option Failure → Bool
goes_on none = true
goes_on (some f) = false

-- Some block came outside the initial synchronisation, and no slot threw over it.
abbrev pub any_live : Throws → List Input → Bool
any_live throws [] = false
any_live throws (block b sync_mode ∷ is) =
    (not sync_mode && goes_on (throws (block_received b))) || any_live throws is
any_live throws (transaction t ∷ is) = any_live throws is

abbrev pub finishes : List Event → ℕ
finishes [] = 0
finishes (sync_finished ∷ es) = suc (finishes es)
finishes (e ∷ es) = finishes es

abbrev pub blocks_of : List Event → List SignedBlock
blocks_of [] = []
blocks_of (block_received b ∷ es) = b ∷ blocks_of es
blocks_of (e ∷ es) = blocks_of es

abbrev pub input_blocks : List Input → List SignedBlock
input_blocks [] = []
input_blocks (block b m ∷ is) = b ∷ input_blocks is
input_blocks (transaction t ∷ is) = input_blocks is

finishes-append : (es fs : List Event) → finishes (es ++ fs) ≡ finishes es + finishes fs
finishes-append [] fs = omega arith
finishes-append (sync_finished ∷ es) fs = omega (arith, finishes-append es fs)
finishes-append (block_received b ∷ es) fs = finishes-append es fs
finishes-append (transaction_received t ∷ es) fs = finishes-append es fs
finishes-append (listening ∷ es) fs = finishes-append es fs
finishes-append (connecting ∷ es) fs = finishes-append es fs
finishes-append (syncing_from i ∷ es) fs = finishes-append es fs

blocks_of-append : (es fs : List Event) → blocks_of (es ++ fs) ≡ blocks_of es ++ blocks_of fs
blocks_of-append [] fs = refl
blocks_of-append (sync_finished ∷ es) fs = blocks_of-append es fs
blocks_of-append (block_received b ∷ es) fs = rw (blocks_of-append es fs)
blocks_of-append (transaction_received t ∷ es) fs = blocks_of-append es fs
blocks_of-append (listening ∷ es) fs = blocks_of-append es fs
blocks_of-append (connecting ∷ es) fs = blocks_of-append es fs
blocks_of-append (syncing_from i ∷ es) fs = blocks_of-append es fs

module _ (throws : Throws) where
  -- What has been signalled by the end, from the flag and the events at the start.
  abbrev Signals : List Input → Bool → List Event → Recorded → Type 0
  Signals is syncing w h =
      (blocks_of h.world ≡ blocks_of w ++ input_blocks is)
      × (finishes h.world ≡ finishes w + (if syncing && any_live throws is then 1 else 0))
      × (h.syncing ≡ syncing && not (any_live throws is))

  abbrev state : Bool → List Event → Recorded
  state s w = record { syncing = s; world = w }

  -- A block whose slots throw, or that leaves the flag.
  abbrev after_block : SignedBlock → Bool → Bool → List Event → Option Failure → Recorded
  after_block b sync_mode s w (some f) = state s (w ++ block_received b ∷ [])
  after_block b true s w none = state s (w ++ block_received b ∷ [])
  after_block b false false w none = state false (w ++ block_received b ∷ [])
  after_block b false true w none = state false ((w ++ block_received b ∷ []) ++ sync_finished ∷ [])

  handle-block :
      (b : SignedBlock) (sync_mode s : Bool) (w : List Event) (o : Option Failure)
      → throws (block_received b) ≡ o
      → handle throws (block b sync_mode) (state s w) ≡ after_block b sync_mode s w o
  unfolding handle handle_block
  handle-block b sync_mode s w (some f) e = ground (arith, e)
  handle-block b true s w none e = ground (arith, e)
  handle-block b false false w none e = ground (arith, e)
  handle-block b false true w none e = ground (arith, e)

  Signals-block :
      (b : SignedBlock) (sync_mode : Bool) (is : List Input) (s : Bool) (w : List Event)
      → ((s' : Bool) (w' : List Event) → Signals is s' w' (handle_all throws is (state s' w')))
      → (o : Option Failure) → throws (block_received b) ≡ o
      → Signals (block b sync_mode ∷ is) s w (handle_all throws is (after_block b sync_mode s w o))
  Signals-block b sync_mode is s w rest (some f) e =
      let (bs, fs, flag) = rest s (w ++ block_received b ∷ []) in
      (
        bs ∙ simp (blocks_of-append, append_assoc),
        ground (arith, fs, e, finishes-append w (block_received b ∷ [])),
        ground (arith, flag, e),
      )
  Signals-block b true is s w rest none e =
      let (bs, fs, flag) = rest s (w ++ block_received b ∷ []) in
      (
        bs ∙ simp (blocks_of-append, append_assoc),
        ground (arith, fs, e, finishes-append w (block_received b ∷ [])),
        ground (arith, flag, e),
      )
  Signals-block b false is false w rest none e =
      let (bs, fs, flag) = rest false (w ++ block_received b ∷ []) in
      (
        bs ∙ simp (blocks_of-append, append_assoc),
        ground (arith, fs, e, finishes-append w (block_received b ∷ [])),
        ground (arith, flag, e),
      )
  Signals-block b false is true w rest none e =
      let (bs, fs, flag) = rest false ((w ++ block_received b ∷ []) ++ sync_finished ∷ []) in
      (
        bs ∙ simp (blocks_of-append, append_assoc),
        ground (
          arith,
          fs,
          e,
          finishes-append w (block_received b ∷ []),
          finishes-append (w ++ block_received b ∷ []) (sync_finished ∷ []),
        ),
        ground (arith, flag, e),
      )

  Signals-from :
      (is : List Input) (s : Bool) (w : List Event)
      → Signals is s w (handle_all throws is (state s w))
  unfolding handle_all handle handle_transaction
  Signals-from [] s w = (rw append-nil, ground arith, ground arith)
  Signals-from (block b sync_mode ∷ is) s w =
      subst (λ h. Signals (block b sync_mode ∷ is) s w (handle_all throws is h))
        (sym (handle-block b sync_mode s w (throws (block_received b)) refl))
        (Signals-block b sync_mode is s w (Signals-from is) (throws (block_received b)) refl)
  Signals-from (transaction t ∷ is) s w =
      let (bs, fs, flag) = Signals-from is s (w ++ transaction_received t ∷ []) in
      (
        bs ∙ simp (blocks_of-append, append-nil),
        omega (arith, fs, finishes-append w (transaction_received t ∷ [])),
        flag,
      )

  -- The slots of any signal may throw, and whether they do is decided by what is signalled; the
  -- P2P node catches that. Whatever it delivers, `blockReceived` fires once for each block and in
  -- order. If the handler was syncing, and a block came outside the synchronisation over which no
  -- slot of `blockReceived` threw, then `syncFinished` has fired once and the handler is not
  -- syncing, even if a slot of `syncFinished` threw; otherwise `syncFinished` has not fired, and
  -- the handler is syncing or not as before.
  pub handle_all_signals :
      (is : List Input) (h : Recorded)
      → (blocks_of (handle_all throws is h).world ≡ blocks_of h.world ++ input_blocks is)
        × (finishes (handle_all throws is h).world
            ≡ finishes h.world + (if h.syncing && any_live throws is then 1 else 0))
        × ((handle_all throws is h).syncing ≡ h.syncing && not (any_live throws is))
  handle_all_signals is h = Signals-from is h.syncing h.world
