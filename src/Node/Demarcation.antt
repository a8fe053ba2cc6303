-- ===== src/Node/Demarcation.antt =====
-- The `DMarc` of Modules/ContractNode.hpp: no advertised API, and two submodules, whose classes have
-- no DMarc of their own.
use peerplays_contract_node.Prelude.{[]}
use peerplays_contract_node.Infra.Modular.{
  Getter, Module, module_of, undefined, defined, no_entries, api_entry, submodule_entry,
  no_submodules, submodule,
}

abbrev pub get_chain_handler : Getter
get_chain_handler = 0

abbrev pub get_p2p_handler : Getter
get_p2p_handler = 1

abbrev pub chain_handler_module : Module
chain_handler_module = module_of 1 undefined

abbrev pub p2p_handler_module : Module
p2p_handler_module = module_of 2 undefined

abbrev pub contract_node : Module
contract_node = module_of 0 (
    defined (
      api_entry [] (
        submodule_entry
          (submodule get_chain_handler chain_handler_module
            (submodule get_p2p_handler p2p_handler_module no_submodules))
          no_entries)))
