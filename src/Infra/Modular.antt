-- ===== src/Infra/Modular.antt =====
-- Infra/Infra.hpp, Infra/Modular.hpp, and the accumulator of Infra/ApiManager.hpp. A class is a
-- value here: its name and its DMarc, with the classes that its submodule getters return, less
-- references and pointers. The templates are instantiated for finite trees of classes only.
pub mod Preorder
pub mod Fetch
mod Tests
use peerplays_contract_node.Prelude.{
  ℕ, Bool, true, false, List, [], ◌∷◌, ◌++◌, length, ◌==◌, Option, none, some, Result, ok, fail,
  ill_formed, ◌>>=◌,
}
use peerplays_contract_node.Infra.TypeList.{append, slice}
use peerplays_contract_node.Infra.Demarcation.{MethodDemarcation, invoke}
use peerplays_contract_node.Infra.Api.{ApiDemarcation}

-- A `MethodDemarcation` by the name of its method.
abbrev pub Getter : Type 0
Getter = ℕ

mutual
  pub data Module : Type 0 where
    module_of : ℕ → DMarc → Module

  pub data DMarc : Type 0 where
    undefined : DMarc
    defined : Entries → DMarc

  -- A map from tags to lists.
  pub data Entries : Type 0 where
    no_entries : Entries
    api_entry : List ApiDemarcation → Entries → Entries
    submodule_entry : Submodules → Entries → Entries
    other_entry : ℕ → Entries → Entries

  -- Demarcations of getters, with the modules that they return.
  pub data Submodules : Type 0 where
    no_submodules : Submodules
    submodule : Getter → Module → Submodules → Submodules

-- `ExtractTypeIfPresent`: the type and `Found`, by an extractor that may have no instance.
abbrev pub extract_type_if_present {ℓ κ} :
    {C : Type ℓ} {T : Type κ} → (C → Option T) → T → C → T × Bool
extract_type_if_present extract default container = elim (extract container) [
  | none ↦ (default, false)
  | some t ↦ (t, true)
]

abbrev extract_dmarc : Module → Option Entries
extract_dmarc (module_of name undefined) = none
extract_dmarc (module_of name (defined entries)) = some entries

-- `DMarcFor`.
unfoldable pub dmarc_for : Module → Entries
dmarc_for m = (extract_type_if_present extract_dmarc no_entries m).0

-- `DMarcTag` of `SubmoduleTag` and of `ApiTag`: the first entry with the tag, or an empty list.
unfoldable pub submodules_in : Entries → Submodules
submodules_in no_entries = no_submodules
submodules_in (api_entry apis rest) = submodules_in rest
submodules_in (submodule_entry modules rest) = modules
submodules_in (other_entry tag rest) = submodules_in rest

unfoldable pub apis_in : Entries → List ApiDemarcation
apis_in no_entries = []
apis_in (api_entry apis rest) = apis
apis_in (submodule_entry modules rest) = apis_in rest
apis_in (other_entry tag rest) = apis_in rest

-- `WalkImpl`: the accumulator on the module, then the reduction over its submodules, which stand
-- in the first entry with their tag.
unfoldable mutual
  pub walk {ℓ} : {S : Type ℓ} → (Module → List Getter → S → S) → Module → List Getter → S → S
  walk accumulator (module_of name dmarc) path state =
      walk_dmarc accumulator dmarc path (accumulator (module_of name dmarc) path state)

  pub walk_dmarc {ℓ} : {S : Type ℓ} → (Module → List Getter → S → S) → DMarc → List Getter → S → S
  walk_dmarc accumulator undefined path state = state
  walk_dmarc accumulator (defined entries) path state = walk_entries accumulator entries path state

  pub walk_entries {ℓ} :
      {S : Type ℓ} → (Module → List Getter → S → S) → Entries → List Getter → S → S
  walk_entries accumulator no_entries path state = state
  walk_entries accumulator (api_entry apis rest) path state =
      walk_entries accumulator rest path state
  walk_entries accumulator (submodule_entry modules rest) path state =
      walk_submodules accumulator modules path state
  walk_entries accumulator (other_entry tag rest) path state =
      walk_entries accumulator rest path state

  pub walk_submodules {ℓ} :
      {S : Type ℓ} → (Module → List Getter → S → S) → Submodules → List Getter → S → S
  walk_submodules accumulator no_submodules path state = state
  walk_submodules accumulator (submodule getter sub rest) path state =
      walk_submodules accumulator rest path (walk accumulator sub (append path getter) state)

-- `WalkModuleTree`, from the accumulator's empty state.
unfoldable pub walk_module_tree {ℓ} : {S : Type ℓ} → (Module → List Getter → S → S) → S → Module → S
walk_module_tree accumulator empty root = walk accumulator root [] empty

-- `ModuleListAccumulator`.
unfoldable pub accumulate_module :
    Module → List Getter → List (Module × List Getter) → List (Module × List Getter)
accumulate_module sub path state = append state (sub, path)

unfoldable pub list_modules : Module → List (Module × List Getter)
list_modules root = walk_module_tree accumulate_module [] root

pub record ModuleAdvertisedApis : Type 0 where
  pub module_type : Module
  pub path : List Getter
  pub api_advertisements : List ApiDemarcation

-- `ApiAdvertisementAccumulator`.
unfoldable pub accumulate_advertisements :
    Module → List Getter → List ModuleAdvertisedApis → List ModuleAdvertisedApis
accumulate_advertisements sub path state =
    let advertisements = apis_in (dmarc_for sub) in
    elim (length advertisements == 0) [
      | true ↦ state
      | false ↦
          append state
            (record { module_type = sub; path = path; api_advertisements = advertisements })
    ]

unfoldable pub list_advertisements : Module → List ModuleAdvertisedApis
list_advertisements root = walk_module_tree accumulate_advertisements [] root

-- The methods of the getters, which are code of the modules: whether they answer a pointer or a
-- reference, and the copy constructor of the class of a reference, if it has one.
pub record Getters (O : Type 0) : Type 0 where
  pub demarcated : Getter → MethodDemarcation O O
  pub answers_pointer : Getter → Bool
  pub copy : Getter → Option (O → O)

-- `return trunk` answers the pointer, or a copy of the object.
abbrev pub return_trunk : {O : Type 0} → Getters O → Getter → O → Result O
return_trunk getters getter trunk = elim (getters.answers_pointer getter) [
  | true ↦ ok trunk
  | false ↦ elim (getters.copy getter) [ some copies ↦ ok (copies trunk) | none ↦ fail ill_formed ]
]

-- `FetchSubmodule`. `Invoke` takes a reference to an object, and so no pointer.
unfoldable pub fetch_submodule : {O : Type 0} → Getters O → O → List Getter → Result O
fetch_submodule getters root [] = fail ill_formed
fetch_submodule getters root (getter ∷ []) =
    invoke (getters.demarcated getter) root >>= return_trunk getters getter
fetch_submodule getters root (getter ∷ next ∷ path) =
    invoke (getters.demarcated getter) root >>= λ trunk. elim (getters.answers_pointer getter) [
      | true ↦ fail ill_formed
      | false ↦ fetch_submodule getters trunk (next ∷ path)
    ]
