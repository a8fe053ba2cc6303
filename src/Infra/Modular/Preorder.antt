-- ===== src/Infra/Modular/Preorder.antt =====
-- A walk of the module tree as a fold over the list of its modules.
use peerplays_contract_node.Prelude.{
  ◌≡◌, refl, sym, ap, ◌∙◌, List, [], ◌∷◌, ◌++◌, length, ◌==◌, append_assoc, append-nil, arith,
  if◌then◌else◌,
}
use peerplays_contract_node.Infra.TypeList.{append, concat}
use peerplays_contract_node.Infra.Modular.{
  Getter, Module, module_of, DMarc, undefined, defined, Entries, no_entries, api_entry,
  submodule_entry, other_entry, Submodules, no_submodules, submodule, dmarc_for, apis_in, walk,
  walk_dmarc, walk_entries, walk_submodules, walk_module_tree, accumulate_module, list_modules,
  ModuleAdvertisedApis, accumulate_advertisements, list_advertisements,
}

-- The modules of a tree with their paths: a module before its submodules, these in order.
unfoldable mutual
  pub preorder : Module → List Getter → List (Module × List Getter)
  preorder (module_of name dmarc) path = (module_of name dmarc, path) ∷ preorder_dmarc dmarc path

  pub preorder_dmarc : DMarc → List Getter → List (Module × List Getter)
  preorder_dmarc undefined path = []
  preorder_dmarc (defined entries) path = preorder_entries entries path

  pub preorder_entries : Entries → List Getter → List (Module × List Getter)
  preorder_entries no_entries path = []
  preorder_entries (api_entry apis rest) path = preorder_entries rest path
  preorder_entries (submodule_entry modules rest) path = preorder_submodules modules path
  preorder_entries (other_entry tag rest) path = preorder_entries rest path

  pub preorder_submodules : Submodules → List Getter → List (Module × List Getter)
  preorder_submodules no_submodules path = []
  preorder_submodules (submodule getter sub rest) path =
      preorder sub (path ++ getter ∷ []) ++ preorder_submodules rest path

module _ {ℓ} {S : Type ℓ} (accumulator : Module → List Getter → S → S) where
  abbrev pub fold : List (Module × List Getter) → S → S
  fold [] state = state
  fold ((m, path) ∷ ms) state = fold ms (accumulator m path state)

  fold-append :
      (ms ns : List (Module × List Getter)) (state : S)
      → fold (ms ++ ns) state ≡ fold ns (fold ms state)
  fold-append [] ns state = refl
  fold-append ((m, path) ∷ ms) ns state = fold-append ms ns (accumulator m path state)

  mutual
    unfolding walk preorder append concat

    walk-fold :
        (m : Module) (path : List Getter) (state : S)
        → walk accumulator m path state ≡ fold (preorder m path) state
    walk-fold (module_of name dmarc) path state =
        dmarc-fold dmarc path (accumulator (module_of name dmarc) path state)

    dmarc-fold :
        (d : DMarc) (path : List Getter) (state : S)
        → walk_dmarc accumulator d path state ≡ fold (preorder_dmarc d path) state
    dmarc-fold undefined path state = refl
    dmarc-fold (defined entries) path state = entries-fold entries path state

    entries-fold :
        (es : Entries) (path : List Getter) (state : S)
        → walk_entries accumulator es path state ≡ fold (preorder_entries es path) state
    entries-fold no_entries path state = refl
    entries-fold (api_entry apis rest) path state = entries-fold rest path state
    entries-fold (submodule_entry modules rest) path state = submodules-fold modules path state
    entries-fold (other_entry tag rest) path state = entries-fold rest path state

    submodules-fold :
        (ms : Submodules) (path : List Getter) (state : S)
        → walk_submodules accumulator ms path state ≡ fold (preorder_submodules ms path) state
    submodules-fold no_submodules path state = refl
    submodules-fold (submodule getter sub rest) path state =
        submodules-fold rest path (walk accumulator sub (path ++ getter ∷ []) state)
        ∙ ap (fold (preorder_submodules rest path)) (walk-fold sub (path ++ getter ∷ []) state)
        ∙ sym
            (fold-append (preorder sub (path ++ getter ∷ [])) (preorder_submodules rest path) state)

collected : (ms acc : List (Module × List Getter)) → fold accumulate_module ms acc ≡ acc ++ ms
unfolding accumulate_module append concat
collected [] acc = sym (append-nil acc)
collected ((m, path) ∷ ms) acc =
    collected ms (acc ++ (m, path) ∷ []) ∙ append_assoc acc ((m, path) ∷ []) ms

-- The list of modules has every module of the tree, with its path, a module before its submodules.
pub list_modules-preorder : (root : Module) → list_modules root ≡ preorder root []
unfolding list_modules walk_module_tree
list_modules-preorder root =
    walk-fold accumulate_module root [] [] ∙ collected (preorder root []) []

-- A walk of the module tree, with any accumulator and from any state, is the fold of that
-- accumulator over the list of modules, which is in preorder.
pub walk_module_tree-fold {ℓ} :
    {S : Type ℓ} (accumulator : Module → List Getter → S → S) (state : S) (root : Module)
    → (walk_module_tree accumulator state root ≡ fold accumulator (list_modules root) state)
      × (list_modules root ≡ preorder root [])
unfolding walk_module_tree
walk_module_tree-fold accumulator state root = (
  walk-fold accumulator root [] state
      ∙ ap (λ ms. fold accumulator ms state) (sym (list_modules-preorder root)),
  list_modules-preorder root,
)

-- What the modules of a list advertise: a record for each that advertises anything.
abbrev pub advertised : List (Module × List Getter) → List ModuleAdvertisedApis
advertised [] = []
advertised ((m, path) ∷ ms) =
    if length (apis_in (dmarc_for m)) == 0
    then advertised ms
    else record { module_type = m; path = path; api_advertisements = apis_in (dmarc_for m) }
      ∷ advertised ms

collected_apis :
    (ms : List (Module × List Getter)) (acc : List ModuleAdvertisedApis)
    → fold accumulate_advertisements ms acc ≡ acc ++ advertised ms
unfolding accumulate_advertisements append concat
collected_apis [] acc = sym (append-nil acc)
collected_apis ((m, path) ∷ ms) acc = ground (
  arith,
  collected_apis ms acc,
  collected_apis ms (
      acc
      ++ record { module_type = m; path = path; api_advertisements = apis_in (dmarc_for m) } ∷ []),
  append_assoc acc
      (record { module_type = m; path = path; api_advertisements = apis_in (dmarc_for m) } ∷ [])
      (advertised ms),
)

-- The advertisements of a tree are those of its modules that advertise anything, in the order of
-- the list of modules.
pub list_advertisements_lem :
    (root : Module) → list_advertisements root ≡ advertised (list_modules root)
unfolding list_advertisements walk_module_tree
list_advertisements_lem root =
    (walk_module_tree-fold accumulate_advertisements [] root).0
    ∙ collected_apis (list_modules root) []
