-- ===== src/Infra/Modular/Tests.antt =====
-- A root with two submodules, of which the first has one of its own.
use peerplays_contract_node.Prelude.{
  ℕ, ◌+◌, ◌==◌, not, false, none, ok, fail, ill_formed, length, ◌≡◌, refl, List, [], ◌∷◌,
}
use peerplays_contract_node.Infra.Demarcation.{invoke}
use peerplays_contract_node.Infra.Api.{ApiDemarcation}
use peerplays_contract_node.Infra.Modular.{
  Getter, Getters, Module, fetch_submodule, module_of, undefined, defined, no_entries, api_entry,
  submodule_entry, other_entry, no_submodules, submodule, dmarc_for, walk_module_tree, walk,
  accumulate_advertisements, apis_in, list_modules, list_advertisements,
}
use peerplays_contract_node.Infra.TypeList.{append, concat}
use peerplays_contract_node.Infra.Modular.Preorder.{fold, preorder, walk_module_tree-fold}

abbrev api : ApiDemarcation
api = record { categorization = []; name = 97 ∷ [] }

abbrev leaf : Module
leaf = module_of 3 undefined

abbrev branch : Module
branch =
    module_of 1
      (defined (other_entry 5 (submodule_entry (submodule 3 leaf no_submodules) no_entries)))

abbrev plain : Module
plain = module_of 2 (defined (api_entry (api ∷ []) no_entries))

abbrev root : Module
root = module_of 0 (
    defined (
      submodule_entry (submodule 1 branch (submodule 2 plain no_submodules))
        (api_entry [] no_entries)))

-- An object by its number; a getter answers the object with its own. Getter 1 answers a reference,
-- and its object has no copies; the others answer pointers.
abbrev getters : Getters ℕ
getters = record {
  demarcated = λ g. record { argument_count = 0; is_const = false; method = λ o. g };
  answers_pointer = λ g. not (g == 1);
  copy = λ g. none;
}

data IsA : ℕ → Module → Type 0 where
  is_root : IsA 0 root
  is_branch : IsA 1 branch
  is_plain : IsA 2 plain
  is_leaf : IsA 3 leaf

-- The leaf is behind the reference.
leaf_found : fetch_submodule getters 0 (1 ∷ 3 ∷ []) ≡ ok 3
unfolding fetch_submodule invoke
leaf_found = refl

-- Behind a pointer nothing is fetched.
behind_pointer : fetch_submodule getters 0 (2 ∷ 3 ∷ []) ≡ fail ill_formed
unfolding fetch_submodule invoke
behind_pointer = refl

abbrev listed : List (Module × List Getter)
listed = (root, []) ∷ (branch, 1 ∷ []) ∷ (leaf, 1 ∷ 3 ∷ []) ∷ (plain, 2 ∷ []) ∷ []

walk_module_tree-fold_example :
    (walk_module_tree (λ m path n. n + length path) 10 root
      ≡ fold (λ m path n. n + length path) (list_modules root) 10)
    × (list_modules root ≡ listed)
unfolding preorder
walk_module_tree-fold_example = walk_module_tree-fold (λ m path n. n + length path) 10 root

list_advertisements_run :
    list_advertisements root
    ≡ record { module_type = plain; path = 2 ∷ []; api_advertisements = api ∷ [] } ∷ []
unfolding list_advertisements walk_module_tree walk accumulate_advertisements append concat apis_in
    dmarc_for
list_advertisements_run = refl
