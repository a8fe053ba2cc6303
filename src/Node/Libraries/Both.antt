-- ===== src/Node/Libraries/Both.antt =====
-- The search through both directories.
use peerplays_contract_node.Prelude.{
  ◌≡◌, ap, subst, inl, inr, none, some, List, ◌++◌, String, ok, arith, All-imp, All-append,
  Distinct-append,
}
use peerplays_contract_node.Prelude.Actions.{Action, pure, ◌>>=◌, bind-ok}
use peerplays_contract_node.Node.Defs.{Library, Host, lookup}
use peerplays_contract_node.Node.Libraries.{Libraries, load_plugins, search_for_plugins}
use peerplays_contract_node.Node.Libraries.Search.{Loads, Changed, load_plugins-Loads}

module _ {Chain : Type 0} (host : Host Chain) where
  Loads-append :
      (libs middle after : Libraries Chain) (xs ys : List String)
      → Loads host libs xs middle
      → Loads host middle ys after
      → Loads host libs (xs ++ ys) after
  Loads-append libs middle after xs ys a b = record {
    fresh = All-append _ xs ys a.fresh (All-imp _ _ ys (λ q e. before q e (a.changes q)) b.fresh);
    plugins =
        All-append _ xs ys
          (All-imp _ _ xs (λ q (lib, pl, e). (lib, pl, kept q lib e (b.changes q))) a.plugins)
          b.plugins;
    distinct = Distinct-append xs ys a.distinct b.distinct (
        All-imp _ _ xs
          (λ q (lib, pl, e).
            All-imp _ _ ys (λ k f. λ same. ground (arith, ap (λ j. lookup j middle) same)) b.fresh)
          a.plugins);
    changes = λ q. both q (a.changes q) (b.changes q);
  }
    where
      before :
          (q : String) → lookup q middle ≡ none → Changed host libs middle q → lookup q libs ≡ none
      before q e (inl same) = ground arith
      before q e (inr (lib, absent, pl, found)) = absent

      kept :
          (q : String) (lib : Library Chain)
          → lookup q middle ≡ some lib
          → Changed host middle after q
          → lookup q after ≡ some lib
      kept q lib e (inl same) = ground arith
      kept q lib e (inr (l, absent, pl, found)) = absurd (ground arith)

      both :
          (q : String)
          → Changed host libs middle q
          → Changed host middle after q
          → Changed host libs after q
      both q c (inl same) = elim c [
        | inl e ↦ inl (ground arith)
        | inr (l, absent, pl, found) ↦ inr (l, absent, pl, ground arith)
      ]
      both q c (inr (l, absent, pl, found)) = inr (l, before q absent c, pl, found)

  -- The same of the scans of both directories, one after the other.
  pub search_for_plugins-Loads :
      (program_path : String) (libs after : Libraries Chain) (loaded : List String)
      → search_for_plugins host program_path libs ≡ (ok loaded, after)
      → Loads host libs loaded after
  unfolding search_for_plugins
  search_for_plugins-Loads program_path libs after loaded e =
      let plugins = host.join program_path "plugins" in
      let other =
        host.join (host.join (host.join program_path "../lib") host.program_stem) "plugins" in
      let behind : List String → Action (Libraries Chain) (List String) =
        λ first. load_plugins host other >>= λ more. pure (first ++ more) in
      let (first, middle, a, rest) =
        bind-ok (load_plugins host plugins) behind libs loaded after e in
      let (second, last, b, f) =
        bind-ok (load_plugins host other) (λ more. pure (first ++ more)) middle loaded after rest in
      let all : first ++ second ≡ loaded = ground (arith, f) in
      let end : last ≡ after = ground (arith, f) in
      subst (λ paths. Loads host libs paths after) all
        (subst (Loads host libs (first ++ second)) end (
          Loads-append libs middle last first second
            (load_plugins-Loads host plugins libs middle first a)
            (load_plugins-Loads host other middle last second b)))
