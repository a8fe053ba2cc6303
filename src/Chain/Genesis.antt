-- ===== src/Chain/Genesis.antt =====
-- `initialize`, `open`, `setConfigPath` and the computation of the genesis state of ChainHandler.
use native.Mathlib.Nat.{mul-mod_right, mod-lt, mod-le, div-add-mod}
use peerplays_contract_node.Prelude.{
  ℕ, ◌*◌, ◌/◌, ◌+◌, ◌-◌, ◌%◌, ◌≡◌, refl, ap, sym, ◌∙◌, true, false, not, Option, none, some, String,
  Result, ok, fail, fc_exception, fc_assert, arith, ◌≤◌,
}
use peerplays_contract_node.Prelude.Actions.{Action}
use peerplays_contract_node.Chain.Records.{ChainHandler}

-- The genesis state and the libraries that `computeGenesis` calls: JSON, `+ "\n"` on
-- texts, and SHA-256. `initial_chain_id` is no part of the JSON text.
pub record GenesisTools : Type 1 where
  pub Genesis : Type 0
  pub ChainId : Type 0
  pub to_string : Genesis → String
  pub add_newline : String → String
  pub from_file : String → Result Genesis
  pub hash : String → ChainId
  pub set_chain_id : ChainId → Genesis → Genesis
  pub chain_id_of : Genesis → ChainId
  pub development : ℕ → Genesis

-- The current time less its seconds past a multiple of the block interval.
unfoldable pub initial_timestamp : ℕ → ℕ → ℕ
initial_timestamp interval now = now - now % interval

module _ (tools : GenesisTools) where
  open tools use {Genesis, to_string, add_newline, from_file, hash, set_chain_id, development}

  abbrev pub text_of : Genesis → String
  text_of genesis = add_newline (to_string genesis)

  -- From the text of genesis.json, if it is there; otherwise the development genesis, whose text
  -- is saved. The second part is the file afterwards.
  unfoldable pub compute_genesis : ℕ → ℕ → Option String → Result Genesis × Option String
  compute_genesis interval now (some text) = elim (from_file text) [
    | ok genesis ↦ (ok (set_chain_id (hash (text_of genesis)) genesis), some text)
    | fail e ↦ (fail e, some text)
  ]
  compute_genesis interval now none =
      let genesis = development (initial_timestamp interval now) in
      (ok (set_chain_id (hash (text_of genesis)) genesis), some (text_of genesis))

module _ {Store Chain : Type 0} where
  unfoldable pub set_config_path : String → Action (ChainHandler Store Chain) (Unit {0})
  set_config_path path h = elim (not h.is_open) [
    | true ↦ (ok tt, record h { base_path = path })
    | false ↦ (fail (fc_exception fc_assert), h)
  ]

  -- `initialize` opens the persistence database, by a call of graphene's.
  unfoldable pub initialize :
      (Store → Result (Unit {0}) × Store) → Action (ChainHandler Store Chain) (Unit {0})
  initialize open_store h =
      let (r, store) = open_store h.persistence in (r, record h { persistence = store })

  -- `open` hands the computation to the chain database, which may throw.
  abbrev opened :
      Result (Unit {0}) → ChainHandler Store Chain → Result (Unit {0}) × ChainHandler Store Chain
  opened (ok u) h = (ok u, record h { is_open = true })
  opened (fail e) h = (fail e, h)

  unfoldable pub open_chain : Action Chain (Unit {0}) → Action (ChainHandler Store Chain) (Unit {0})
  open_chain open_database h =
      let (r, chain) = open_database h.chain in opened r (record h { chain = chain })

-- What the destructor calls of the two databases.
pub record Closing (Store Chain : Type 0) : Type 0 where
  pub close_chain : Chain → Chain
  pub flush : Store → Store
  pub close_store : Store → Store

-- The destructor: what is left of the databases, on the disk.
unfoldable pub destroy :
    {Store Chain : Type 0} → Closing Store Chain → ChainHandler Store Chain → Store × Chain
destroy closing h = (closing.close_store (closing.flush h.persistence), closing.close_chain h.chain)

whole_intervals : (interval now : ℕ) → now - now % interval ≡ interval * (now / interval)
whole_intervals interval now = omega (arith, div-add-mod now interval)

-- For a block interval of at least 1, the saved genesis starts at a time that the interval
-- divides, not after the current one, and by less than the interval before it.
pub initial_timestamp_aligned :
    (interval now : ℕ)
    → 1 ≤ interval
    → (initial_timestamp interval now % interval ≡ 0)
      × (initial_timestamp interval now ≤ now)
      × (now + 1 ≤ initial_timestamp interval now + interval)
unfolding initial_timestamp
initial_timestamp_aligned interval now h = (
  rw (whole_intervals interval now) (mul-mod_right interval (now / interval)),
  omega arith,
  omega (arith, mod-lt now h, mod-le now interval),
)

-- A restart from the genesis that the first start saved, at any later time, has the same chain
-- id, if reading the saved text gives a genesis that prints as the saved one did, and setting a
-- chain id sets it.
pub compute_genesis_restart :
    (tools : GenesisTools) (interval now later : ℕ) (read : tools.Genesis)
    → tools.from_file (text_of tools (tools.development (initial_timestamp interval now))) ≡ ok read
    → tools.to_string read ≡ tools.to_string (tools.development (initial_timestamp interval now))
    → ((c : tools.ChainId) (g : tools.Genesis) → tools.chain_id_of (tools.set_chain_id c g) ≡ c)
    → (first second : tools.Genesis) × (text : String) × (compute_genesis tools interval now none
        ≡ (ok first, some text))
      × (compute_genesis tools interval later (some text) ≡ (ok second, some text))
      × (tools.chain_id_of first ≡ tools.chain_id_of second)
unfolding compute_genesis
compute_genesis_restart tools interval now later read back same law = (
  saved,
  again,
  text_of tools fresh,
  refl,
  rw (back, compute_genesis) refl,
  law _ fresh ∙ ap (λ t. tools.hash (tools.add_newline t)) (sym same) ∙ sym (law _ read),
)
  where
    fresh : tools.Genesis
    fresh = tools.development (initial_timestamp interval now)

    saved : tools.Genesis
    saved = tools.set_chain_id (tools.hash (text_of tools fresh)) fresh

    again : tools.Genesis
    again = tools.set_chain_id (tools.hash (text_of tools read)) read
