-- ===== src/Node/Plugins/Outcome.antt =====
-- What the initialisation of a plugin leaves behind.
use peerplays_contract_node.Prelude.{
  ℕ, ◌≤◌, ◌≡◌, refl, inl, inr, Bool, true, false, none, some, List, [], ◌∷◌, String, str_eq,
  str_eq_iff, Result, ok, fail, arith, Bool-cases, if◌then◌else◌, length, get_or, get_elem?-get_or,
  ltb, ◌++◌, Failure, undefined_behaviour, Option, ◌↔◌, sym, ap, ◌∙◌, subst,
}
use peerplays_contract_node.Chain.Records.{Persistence}
use peerplays_contract_node.Chain.Monitor.{Tables}
use peerplays_contract_node.Node.Defs.{StringList, Library, Node, lookup, erase, is_boost_exception}
use peerplays_contract_node.Node.Plugins.{
  named, numbered, table_name, initialize_named, initialize_body, initialize_plugin,
  initialize_loaded, initialize_plugins,
}

-- A list that holds as many names as it says gives each table below the count its name, and is
-- not read for the others.
pub table_name_lem :
    (names : StringList) (t : ℕ)
    → names.count ≤ length names.values
    → table_name (some names) t
      ≡ (if ltb t names.count then ok (named (get_or names.values t "")) else ok (numbered t))
unfolding table_name
table_name_lem names t h = ground (arith, get_elem?-get_or names.values t "")

pub lookup-erase :
    {V : Type 0} (k q : String) (m : List (String × V))
    → lookup q (erase k m) ≡ (if str_eq k q then none else lookup q m)
unfolding lookup erase
lookup-erase k q [] = ground arith
lookup-erase k q ((j, v) ∷ m) =
    ground (arith, lookup-erase k q m, str_eq_iff j k, str_eq_iff k q, str_eq_iff j q)

module _ (p : Persistence) {Chain O Net : Type 0} (tables : Tables Chain) where
  initialize_named-libraries :
      (library : Library Chain) (name : String) (n : Node p.Store Chain O Net)
      → (initialize_named p tables library name n).1.loaded_libraries ≡ n.loaded_libraries
  unfolding initialize_named
  initialize_named-libraries library name n = ground arith

  pub initialize_plugin-libraries :
      (library : Library Chain) (n : Node p.Store Chain O Net)
      → (initialize_plugin p tables library n).1.loaded_libraries ≡ n.loaded_libraries
  unfolding initialize_plugin initialize_body
  initialize_plugin-libraries library n = elim (Bool-cases (library.has "contractName")) [
    | inl own ↦ go own library.contract_name refl
    | inr none_own ↦ ground (arith, initialize_named-libraries library library.file_name n)
  ]
    where
      go :
          library.has "contractName" ≡ true
          → (r : Result String) → library.contract_name ≡ r
          → (initialize_plugin p tables library n).1.loaded_libraries ≡ n.loaded_libraries
      go own (ok name) e = ground (arith, initialize_named-libraries library name n)
      go own (fail f) e = ground arith

  -- For a loaded library whose initialisation answers: the step of the loop goes on, the library
  -- stays loaded if the answer is true, and is unloaded if it is false; no other library
  -- changes.
  pub initialize_loaded_lem :
      (path q : String) (library : Library Chain) (n : Node p.Store Chain O Net) (answer : Bool)
      → lookup path n.loaded_libraries ≡ some library
      → (initialize_plugin p tables library n).0 ≡ ok answer
      → ((initialize_loaded p tables path n).0 ≡ ok tt)
        × (lookup q (initialize_loaded p tables path n).1.loaded_libraries ≡ (
            if str_eq path q
            then (if answer then some library else none)
            else lookup q n.loaded_libraries))
  unfolding initialize_loaded
  initialize_loaded_lem path q library n true e a =
      ground (arith, initialize_plugin-libraries library n, str_eq_iff path q)
  initialize_loaded_lem path q library n false e a = ground (
    arith,
    initialize_plugin-libraries library n,
    lookup-erase path q (initialize_plugin p tables library n).1.loaded_libraries,
  )

  -- How an exception leaves the step of the loop: from the body of the `try` of a library that is
  -- in the map, and not as an exception of boost; or the library is not in the map.
  pub data Leaves (path : String) (n : Node p.Store Chain O Net) (f : Failure)
      (last : Node p.Store Chain O Net) : Type 0 where
    thrown :
        (library : Library Chain)
        → lookup path n.loaded_libraries ≡ some library
        → initialize_body p tables library n ≡ (fail f, last)
        → is_boost_exception f ≡ false
        → Leaves path n f last
    missing :
        lookup path n.loaded_libraries ≡ none
        → f ≡ undefined_behaviour
        → last ≡ n
        → Leaves path n f last

  -- The loop gets through the paths before, and the exception leaves the step of the next.
  abbrev pub LeavesAt :
      List String → Node p.Store Chain O Net → Failure → Node p.Store Chain O Net → Type 0
  LeavesAt paths n f last =
      (before : List String) × (path : String) × (after : List String) × (m : Node p.Store Chain O
        Net)
      × (paths ≡ before ++ path ∷ after)
      × (initialize_plugins p tables before n ≡ (ok tt, m))
      × Leaves path m f last

  step_throws :
      (path : String) (n last : Node p.Store Chain O Net) (f : Failure)
      → initialize_loaded p tables path n ≡ (fail f, last)
      → Leaves path n f last
  unfolding initialize_loaded initialize_plugin
  step_throws path n last f e = found (lookup path n.loaded_libraries) refl
    where
      uncaught :
          (library : Library Chain)
          → lookup path n.loaded_libraries ≡ some library
          → (g : Failure) (after : Node p.Store Chain O Net)
          → initialize_body p tables library n ≡ (fail g, after)
          → (b : Bool) → is_boost_exception g ≡ b
          → Leaves path n f last
      uncaught library a g after b true c = absurd (ground (arith, e, a, b, c))
      uncaught library a g after b false c =
          let same : g ≡ f = ground (arith, e, a, b, c) in
          let left : after ≡ last = ground (arith, e, a, b, c) in
          thrown library a (b ∙ (λ i. (fail (same i), left i)))
            (ap is_boost_exception (sym same) ∙ c)

      body :
          (library : Library Chain)
          → lookup path n.loaded_libraries ≡ some library
          → (r : Result Bool) (after : Node p.Store Chain O Net)
          → initialize_body p tables library n ≡ (r, after)
          → Leaves path n f last
      body library a (ok true) after b = absurd (ground (arith, e, a, b))
      body library a (ok false) after b = absurd (ground (arith, e, a, b))
      body library a (fail g) after b = uncaught library a g after b (is_boost_exception g) refl

      found :
          (o : Option (Library Chain)) → lookup path n.loaded_libraries ≡ o → Leaves path n f last
      found none a = missing a (ground (arith, e, a)) (ground (arith, e, a))
      found (some library) a =
          body library a (initialize_body p tables library n).0
            (initialize_body p tables library n).1 refl

  step-Leaves :
      (path : String) (n last : Node p.Store Chain O Net) (f : Failure)
      → Leaves path n f last
      → initialize_loaded p tables path n ≡ (fail f, last)
  unfolding initialize_loaded initialize_plugin
  step-Leaves path n last f (thrown library a b c) = ground (arith, a, b, c)
  step-Leaves path n last f (missing a b c) = ground (arith, a, b, c)

  loop_throws :
      (paths : List String) (n last : Node p.Store Chain O Net) (f : Failure)
      → initialize_plugins p tables paths n ≡ (fail f, last)
      → LeavesAt paths n f last
  unfolding initialize_plugins
  loop_throws [] n last f e = absurd cc
  loop_throws (path ∷ paths) n last f e =
      step (loop_throws paths) (initialize_loaded p tables path n).0
        (initialize_loaded p tables path n).1 refl
    where
      step :
          ((m end : Node p.Store Chain O Net) (g : Failure)
            → initialize_plugins p tables paths m ≡ (fail g, end)
            → LeavesAt paths m g end)
          → (r : Result (Unit {0})) (m : Node p.Store Chain O Net)
          → initialize_loaded p tables path n ≡ (r, m)
          → LeavesAt (path ∷ paths) n f last
      step rest (fail g) m a =
          ([], path, paths, n, refl, refl, step_throws path n last f (ground (arith, e, a)))
      step rest (ok u) m a =
          let (before, q, after, k, split, goes, leaves) = rest m last f (ground (arith, e, a)) in
          (path ∷ before, q, after, k, ap (λ ps. path ∷ ps) split, ground (arith, a, goes), leaves)

  loop-Leaves :
      (before after : List String) (path : String) (n m last : Node p.Store Chain O Net)
      (f : Failure)
      → initialize_plugins p tables before n ≡ (ok tt, m)
      → Leaves path m f last
      → initialize_plugins p tables (before ++ path ∷ after) n ≡ (fail f, last)
  unfolding initialize_plugins
  loop-Leaves [] after path n m last f e leaves =
      let same : n ≡ m = ap (λ x. x.1) e in
      ground
        (arith, step-Leaves path n last f (subst (λ k. Leaves path k f last) (sym same) leaves))
  loop-Leaves (q ∷ before) after path n m last f e leaves =
      step (λ k goes. loop-Leaves before after path k m last f goes leaves)
        (initialize_loaded p tables q n).0 (initialize_loaded p tables q n).1 refl
    where
      step :
          ((k : Node p.Store Chain O Net)
            → initialize_plugins p tables before k ≡ (ok tt, m)
            → initialize_plugins p tables (before ++ path ∷ after) k ≡ (fail f, last))
          → (r : Result (Unit {0})) (k : Node p.Store Chain O Net)
          → initialize_loaded p tables q n ≡ (r, k)
          → initialize_plugins p tables (q ∷ before ++ path ∷ after) n ≡ (fail f, last)
      step rest (ok u) k a = ground (arith, a, rest k (ground (arith, e, a)))
      step rest (fail g) k a = absurd (ground (arith, e, a))

  -- The loop over the plugins ends with an exception, in a last state, exactly if it gets through
  -- the plugins before some plugin, and the body of the `try` for that plugin throws this
  -- exception and leaves that state, where the exception is not one of boost's; or that plugin's
  -- path is not among the loaded libraries, which is undefined. An exception of boost's never
  -- leaves the loop, and any other keeps the later plugins from their initialisation.
  pub initialize_plugins_throws :
      (paths : List String) (n last : Node p.Store Chain O Net) (f : Failure)
      → (initialize_plugins p tables paths n ≡ (fail f, last)) ↔ LeavesAt paths n f last
  initialize_plugins_throws paths n last f = (
    loop_throws paths n last f,
    λ (before, path, after, m, split, goes, leaves).
        subst (λ ps. initialize_plugins p tables ps n ≡ (fail f, last)) (sym split)
          (loop-Leaves before after path n m last f goes leaves),
  )
