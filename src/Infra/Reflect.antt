-- ===== src/Infra/Reflect.antt =====
-- Infra/Reflect.hpp: what its macros register of a struct. A class and a member are their names;
-- the type of a member and the pointer to it go with the name.
pub mod Members
mod Tests
use peerplays_contract_node.Prelude.{
  ℕ, suc, List, [], ◌∷◌, Option, none, some, String, Bool, true, false, Result, ok, fail,
  ill_formed, str_eq, ◌==◌, ◌&&◌, if◌then◌else◌,
}
use peerplays_contract_node.Infra.TypeList.{concat, transform, builder_add}

pub data Field : Type 0 where
  field_reflection : ℕ → String → String → Field
  inherited_field_reflection : ℕ → String → String → String → Field

-- The template at a class of which nothing is registered, and its specialisation.
pub record Reflector : Type 0 where
  pub is_defined : Bool
  pub native_members : List Field
  pub inherited_members : List Field
  pub members : List Field
  pub base_classes : List String
  pub name : String

unfoldable pub unknown : Reflector
unknown = record {
  is_defined = false;
  native_members = [];
  inherited_members = [];
  members = [];
  base_classes = [];
  name = "Unknown Type";
}

-- A specialisation of `member_name`: a class, the index of its member, and the member's name.
pub record MemberName : Type 0 where
  pub container : String
  pub index : ℕ
  pub value : String

-- `member_name`, with the specialisations of the program.
unfoldable pub member_name : List MemberName → String → ℕ → String
member_name [] container index = "Unknown member"
member_name (m ∷ ms) container index =
    let rest = member_name ms container index in
    if str_eq m.container container && (m.index == index) then m.value else rest

-- `get_name`. A list has no template `at`, which that of an inherited member needs.
unfoldable pub get_name : List MemberName → Field → Result String
get_name specialised (field_reflection index container field) =
    ok (member_name specialised container index)
get_name specialised (inherited_field_reflection index base derived field) = fail ill_formed

-- An object: its members by the class that declares them and their names.
abbrev pub Object {ℓ} : Type ℓ → Type ℓ
Object V = String → String → V

-- `get`: a member that is inherited is that of the base.
unfoldable pub get_member {ℓ} : {V : Type ℓ} → Field → Object V → V
get_member (field_reflection index container field) c = c container field
get_member (inherited_field_reflection index base derived field) c = c base field

-- `Derivation_reflection_transformer`.
unfoldable pub derive : String → Field → Option Field
derive derived (field_reflection index base field) =
    some (inherited_field_reflection index base derived field)
derive derived (inherited_field_reflection index base intermediate field) =
    some (inherited_field_reflection index base derived field)

-- `BOOST_PP_SEQ_FOR_EACH_I` of `REFLECT_CONCAT_MEMBER_REFLECTION`.
unfoldable pub add_members : String → List Field → ℕ → List String → List Field
add_members container built index [] = built
add_members container built index (member ∷ members) =
    add_members container (builder_add built (field_reflection index container member)) (suc index)
      members

-- `BOOST_PP_SEQ_FOR_EACH_I` of `REFLECT_MEMBER_NAME`.
unfoldable pub name_members : String → ℕ → List String → List MemberName
name_members container index [] = []
name_members container index (member ∷ members) =
    record { container = container; index = index; value = member }
    ∷ name_members container (suc index) members

-- `REFLECT_DERIVED`: the specialisation of the reflector, and those of `member_name`. For a base
-- class it asks the builder for an `add_list`, which there is not.
unfoldable pub reflect_derived :
    String → List String → List String → Result (Reflector × List MemberName)
reflect_derived type (base ∷ bases) members = fail ill_formed
reflect_derived type [] members =
    let native_members = add_members type [] 0 members in
    ok (
      record {
        is_defined = true;
        native_members = native_members;
        inherited_members = [];
        members = concat [] native_members [];
        base_classes = [];
        name = type;
      },
      name_members type 0 members,
    )

-- `REFLECT`.
unfoldable pub reflect : String → List String → Result (Reflector × List MemberName)
reflect type members = reflect_derived type [] members
