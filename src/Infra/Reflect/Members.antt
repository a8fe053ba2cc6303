-- ===== src/Infra/Reflect/Members.antt =====
-- The members of a reflected struct, and their names.
use peerplays_contract_node.Prelude.{
  ℕ, zero, suc, ◌+◌, ◌≡◌, refl, sym, append-nil, ap, ◌∙◌, List, [], ◌∷◌, ◌++◌, append_assoc, some,
  String, map, get_elem?, length, arith, ok, subst, str_eq_iff,
}
use peerplays_contract_node.Infra.TypeList.{concat, transform, builder_add}
use peerplays_contract_node.Infra.Reflect.{
  Field, field_reflection, inherited_field_reflection, Reflector, MemberName, member_name,
  name_members, get_name, derive, Object, get_member, add_members, reflect_derived, reflect,
}

-- The members with their positions, from `index` on.
abbrev numbered : String → ℕ → List String → List Field
numbered container index [] = []
numbered container index (member ∷ members) =
    field_reflection index container member ∷ numbered container (suc index) members

add_members-numbered :
    (container : String) (built : List Field) (index : ℕ) (members : List String)
    → add_members container built index members ≡ built ++ numbered container index members
unfolding add_members builder_add concat
add_members-numbered container built index [] = sym (append-nil built)
add_members-numbered container built index (member ∷ members) =
    add_members-numbered container (built ++ field_reflection index container member ∷ [])
      (suc index) members
    ∙ append_assoc built (field_reflection index container member ∷ [])
        (numbered container (suc index) members)

get_elem?-numbered :
    (container : String) (index i : ℕ) (members : List String) (member : String)
    → get_elem? members i ≡ some member
    → get_elem? (numbered container index members) i
      ≡ some (field_reflection (index + i) container member)
get_elem?-numbered container index i [] member e = cc
get_elem?-numbered container index zero (m ∷ members) member e = ground (arith)
get_elem?-numbered container index (suc i) (m ∷ members) member e =
    get_elem?-numbered container (suc index) i members member e
    ∙ ap (λ n. some (field_reflection n container member)) (omega arith)

length-numbered :
    (container : String) (index : ℕ) (members : List String)
    → length (numbered container index members) ≡ length members
length-numbered container index [] = refl
length-numbered container index (m ∷ members) =
    ap suc (length-numbered container (suc index) members)

values-numbered {ℓ} :
    {V : Type ℓ} (o : Object V) (container : String) (index : ℕ) (members : List String)
    → map (λ f. get_member f o) (numbered container index members) ≡ map (o container) members
unfolding get_member
values-numbered o container index [] = refl
values-numbered o container index (member ∷ members) =
    ap (λ vs. o container member ∷ vs) (values-numbered o container (suc index) members)

member_name-name_members :
    (container : String) (index i : ℕ) (members : List String) (member : String)
    (others : List MemberName)
    → get_elem? members i ≡ some member
    → member_name (name_members container index members ++ others) container (index + i) ≡ member
unfolding member_name name_members
member_name-name_members container index i [] member others e = cc
member_name-name_members container index zero (m ∷ members) member others e =
    ground (arith, e, str_eq_iff container container)
member_name-name_members container index (suc i) (m ∷ members) member others e =
    let later : member_name (name_members container (suc index) members ++ others) container
          (index + suc i)
        ≡ member =
      subst
        (λ n.
          member_name (name_members container (suc index) members ++ others) container n ≡ member)
        (omega arith) (member_name-name_members container (suc index) i members member others e) in
    ground (arith, later)

-- `REFLECT` of a struct compiles, and lists its members and no others, in the order of the macro:
-- the reflection at a position has that position as its index, and the member of that position;
-- with the names that the macro makes, and whatever names the program has besides, it answers that
-- member's name; and what is got through the reflections from an object are the values of its
-- members, in that order.
pub reflect_lem {ℓ} :
    {V : Type ℓ} (type : String) (members : List String) (others : List MemberName)
    → (r : Reflector) × (made : List MemberName) × (reflect type members ≡ ok (r, made))
      × (length r.members ≡ length members)
      × ((i : ℕ) (member : String)
          → get_elem? members i ≡ some member
          → (get_elem? r.members i ≡ some (field_reflection i type member))
            × (get_name (made ++ others) (field_reflection i type member) ≡ ok member))
      × ((o : Object V) → map (λ f. get_member f o) r.members ≡ map (o type) members)
unfolding reflect reflect_derived concat get_name
reflect_lem type members others =
    let all = add_members-numbered type [] 0 members in
    (
      _,
      name_members type 0 members,
      refl,
      ap length all ∙ length-numbered type 0 members,
      λ i member e. (
        ap (λ fs. get_elem? fs i) all
            ∙ get_elem?-numbered type 0 i members member e
            ∙ ap (λ n. some (field_reflection n type member)) (omega arith),
        let zeroth : 0 + i ≡ i = omega arith in
            ap ok (
              ap (λ n. member_name (name_members type 0 members ++ others) type n) (sym zeroth)
              ∙ member_name-name_members type 0 i members member others e),
      ),
      λ o. ap (map (λ f. get_member f o)) all ∙ values-numbered o type 0 members,
    )

-- A derivation forgets the class between: the members of a base, derived twice, are those derived
-- at once, the transformer has an instance for every reflected member, and what is got through a
-- derived one is what is got through the one of the base.
pub derive-derive {ℓ} :
    {V : Type ℓ} (o : Object V) (intermediate derived : String) (members : List Field)
    → (once : List Field) × (twice : List Field) × (transform (derive intermediate) members
        ≡ some once)
      × (transform (derive derived) once ≡ some twice)
      × (transform (derive derived) members ≡ some twice)
      × (map (λ f. get_member f o) twice ≡ map (λ f. get_member f o) members)
unfolding transform derive get_member
derive-derive o intermediate derived [] = ([], [], refl, refl, refl, refl)
derive-derive o intermediate derived (field_reflection i base field ∷ members) =
    let (once, twice, a, b, c, d) = derive-derive o intermediate derived members in
    (
      inherited_field_reflection i base intermediate field ∷ once,
      inherited_field_reflection i base derived field ∷ twice,
      ground (arith, a),
      ground (arith, b),
      ground (arith, c),
      ap (λ vs. o base field ∷ vs) d,
    )
derive-derive o intermediate derived (inherited_field_reflection i base mid field ∷ members) =
    let (once, twice, a, b, c, d) = derive-derive o intermediate derived members in
    (
      inherited_field_reflection i base intermediate field ∷ once,
      inherited_field_reflection i base derived field ∷ twice,
      ground (arith, a),
      ground (arith, b),
      ground (arith, c),
      ap (λ vs. o base field ∷ vs) d,
    )
