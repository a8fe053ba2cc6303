-- ===== src/Node/Libraries/Search.antt =====
-- What a search for plugins loads.
use peerplays_contract_node.Prelude.{
  ◌≡◌, refl, sym, ◌⊎◌, inl, inr, Bool, true, false, ◌&&◌, Option, none, some, List, [], ◌∷◌, String,
  str_eq, str_eq_iff, Result, ok, fail, Failure, arith, All, All-imp, subst, ap, Distinct,
  Bool-cases, if◌then◌else◌,
}
use peerplays_contract_node.Node.Defs.{Library, Listing, Host, lookup, emplace, is_system_error}
use peerplays_contract_node.Node.Libraries.{
  Libraries, load_plugin, is_candidate, try_file, try_files, load_plugins, end_listing, load_listed,
  load_canonical,
}
use peerplays_contract_node.Prelude.Actions.{◌>>=◌}

pub lookup-emplace :
    {V : Type 0} (k j : String) (v : V) (m : List (String × V))
    → lookup k m ≡ none
    → lookup j (emplace k v m) ≡ (if str_eq k j then some v else lookup j m)
unfolding lookup emplace
lookup-emplace k j v m h = ground arith

module _ {Chain : Type 0} (host : Host Chain) where
  -- The file is a library that exports `registerContract`.
  abbrev pub IsPlugin : String → Library Chain → Type 0
  IsPlugin path library =
      (host.open_library path ≡ ok library)
      × (library.is_loaded ≡ true)
      × (library.has "registerContract" ≡ true)

  -- The libraries before and after, and the paths answered, of a search that has ended well: each
  -- path was not loaded before, and is loaded after from its own file; no path comes twice, and
  -- nothing else has changed.
  pub record Loads (libs : Libraries Chain) (paths : List String) (after : Libraries Chain)
      : Type 0 where
    pub fresh : All (λ path. lookup path libs ≡ none) paths
    pub plugins :
        All
          (λ path.
            (library : Library Chain) × IsPlugin path library × (lookup path after ≡ some library))
          paths
    pub distinct : Distinct paths
    pub changes :
        (path : String)
        → (lookup path after ≡ lookup path libs)
          ⊎ ((library : Library Chain) × (lookup path libs ≡ none)
              × IsPlugin path library
              × (lookup path after ≡ some library))

  -- One file: refused and nothing changed, or a plugin and loaded, or thrown over.
  pub data Tried (path : String) (libs : Libraries Chain) (r : Result Bool × Libraries Chain)
      : Type 0 where
    refused : r ≡ (ok false, libs) → Tried path libs r
    loads :
        (library : Library Chain)
        → lookup path libs ≡ none
        → IsPlugin path library
        → r ≡ (ok true, emplace path library libs)
        → Tried path libs r
    throws : (e : Failure) → r ≡ (fail e, libs) → Tried path libs r

  candidate_new :
      (path : String) (libs : Libraries Chain)
      → is_candidate host path libs ≡ true
      → lookup path libs ≡ none
  candidate_new path libs c = ground arith

  pub try_file-Tried :
      (path : String) (libs : Libraries Chain) → Tried path libs (try_file host path libs)
  unfolding try_file load_plugin
  try_file-Tried path libs = elim (Bool-cases (is_candidate host path libs)) [
    | inl c ↦ opened c (host.open_library path) refl
    | inr c ↦ refused (rw (c, try_file))
  ]
    where
      opened :
          is_candidate host path libs ≡ true
          → (r : Result (Library Chain)) → host.open_library path ≡ r
          → Tried path libs (try_file host path libs)
      opened c (ok library) e =
          elim (Bool-cases (library.is_loaded && library.has "registerContract")) [
            | inl good ↦
                loads library (candidate_new path libs c) (e, ground arith, ground arith)
                  (ground arith)
            | inr bad ↦ refused (ground arith)
          ]
      opened c (fail f) e = elim (Bool-cases (is_system_error f)) [
        | inl s ↦ refused (ground arith)
        | inr o ↦ throws f (ground arith)
      ]

  Loads-none : (libs : Libraries Chain) → Loads libs [] libs
  Loads-none libs = record { fresh = tt; plugins = tt; distinct = tt; changes = λ path. inl refl }

  abbrev pub Changed : Libraries Chain → Libraries Chain → String → Type 0
  Changed libs after path =
      (lookup path after ≡ lookup path libs)
      ⊎ ((library : Library Chain) × (lookup path libs ≡ none)
          × IsPlugin path library
          × (lookup path after ≡ some library))

  module _ (path : String) (library : Library Chain) (libs after : Libraries Chain)
      (n : lookup path libs ≡ none) (pl : IsPlugin path library) where
    still_loaded : Changed (emplace path library libs) after path → lookup path after ≡ some library
    still_loaded (inl e) =
        ground (arith, lookup-emplace path path library libs n, str_eq_iff path path)
    still_loaded (inr (lib, m, q, e)) =
        absurd (ground (arith, lookup-emplace path path library libs n, str_eq_iff path path))

    Changed-emplace :
        (q : String) → Changed (emplace path library libs) after q → Changed libs after q
    Changed-emplace q (inl e) = elim (Bool-cases (str_eq path q)) [
      | inl same ↦
          let name_same : path ≡ q = (str_eq_iff path q).0 same in
          inr (
            library,
            subst (λ k. lookup k libs ≡ none) name_same n,
            subst (λ k. IsPlugin k library) name_same pl,
            ground (arith, lookup-emplace path q library libs n),
          )
      | inr differs ↦ inl (ground (arith, lookup-emplace path q library libs n))
    ]
    Changed-emplace q (inr (lib, m, r, e)) =
        inr (lib, (ground (arith, lookup-emplace path q library libs n)), r, e)

    Loads-cons :
        (paths : List String)
        → Loads (emplace path library libs) paths after
        → Loads libs (path ∷ paths) after
    Loads-cons paths l = record {
      fresh = (
        n,
        All-imp _ _ paths (λ q e. ground (arith, lookup-emplace path q library libs n)) l.fresh,
      );
      plugins = ((library, pl, still_loaded (l.changes path)), l.plugins);
      distinct = (
        All-imp _ _ paths
            (λ q e. λ same. ground (
              arith,
              ap (λ k. lookup k (emplace path library libs)) same,
              lookup-emplace path path library libs n,
              str_eq_iff path path,
            ))
            l.fresh,
        l.distinct,
      );
      changes = λ q. Changed-emplace q (l.changes q);
    }

  module _ (path : String) (paths : List String) (libs next : Libraries Chain) where
    try_files_skip :
        try_file host path libs ≡ (ok false, libs)
        → try_files host (path ∷ paths) libs ≡ try_files host paths libs
    unfolding try_files
    try_files_skip t = ground arith

    try_files_load :
        (more : List String) (last : Libraries Chain)
        → try_file host path libs ≡ (ok true, next)
        → try_files host paths next ≡ (ok more, last)
        → try_files host (path ∷ paths) libs ≡ (ok (path ∷ more), last)
    unfolding try_files
    try_files_load more last t e = ground arith

    try_files_fail :
        (f : Failure) (last : Libraries Chain)
        → try_file host path libs ≡ (ok true, next)
        → try_files host paths next ≡ (fail f, last)
        → try_files host (path ∷ paths) libs ≡ (fail f, last)
    unfolding try_files
    try_files_fail f last t e = ground arith

    try_files_throw :
        (f : Failure)
        → try_file host path libs ≡ (fail f, libs)
        → try_files host (path ∷ paths) libs ≡ (fail f, libs)
    unfolding try_files
    try_files_throw f t = ground arith

  -- What holds when the search ends, if it ends well.
  abbrev Ends : Libraries Chain → Result (List String) × Libraries Chain → Type 0
  Ends libs (ok loaded, after) = Loads libs loaded after
  Ends libs (fail f, after) = Unit {0}

  Ends-load :
      (path : String) (library : Library Chain) (paths : List String) (libs : Libraries Chain)
      → lookup path libs ≡ none
      → IsPlugin path library
      → try_file host path libs ≡ (ok true, emplace path library libs)
      → (r : Result (List String) × Libraries Chain)
      → try_files host paths (emplace path library libs) ≡ r
      → Ends (emplace path library libs) r
      → Ends libs (try_files host (path ∷ paths) libs)
  Ends-load path library paths libs n pl t (ok more, last) e l =
      subst (Ends libs) (sym (try_files_load path paths libs _ more last t e))
        (Loads-cons path library libs last n pl more l)
  Ends-load path library paths libs n pl t (fail f, last) e l =
      subst (Ends libs) (sym (try_files_fail path paths libs _ f last t e)) tt

  try_files-Ends :
      (paths : List String) (libs : Libraries Chain) → Ends libs (try_files host paths libs)
  unfolding try_files
  try_files-Ends [] libs = Loads-none libs
  try_files-Ends (path ∷ paths) libs = step (try_file-Tried path libs) (λ l. try_files-Ends paths l)
    where
      step :
          Tried path libs (try_file host path libs)
          → ((l : Libraries Chain) → Ends l (try_files host paths l))
          → Ends libs (try_files host (path ∷ paths) libs)
      step (refused t) rec =
          subst (Ends libs) (sym (try_files_skip path paths libs libs t)) (rec libs)
      step (loads library n pl t) rec =
          Ends-load path library paths libs n pl t _ refl (rec (emplace path library libs))
      step (throws f t) rec = subst (Ends libs) (sym (try_files_throw path paths libs libs f t)) tt

  ended-Ends :
      (e : Option Failure) (libs after : Libraries Chain) (loaded : List String)
      → Loads libs loaded after
      → Ends libs (end_listing host e loaded after)
  ended-Ends none libs after loaded l = l
  ended-Ends (some e) libs after loaded l = tt

  files-Ends :
      (e : Option Failure) (paths : List String) (libs : Libraries Chain)
      → Ends libs ((try_files host paths >>= end_listing host e) libs)
  files-Ends e paths libs = go (try_files host paths libs).0 (try_files host paths libs).1 refl
    where
      go :
          (r : Result (List String)) (u : Libraries Chain)
          → try_files host paths libs ≡ (r, u)
          → Ends libs ((try_files host paths >>= end_listing host e) libs)
      go (ok loaded) u same =
          let next : (try_files host paths >>= end_listing host e) libs
              ≡ end_listing host e loaded u =
            ground (arith, same) in
          subst (Ends libs) (sym next)
            (ended-Ends e libs u loaded (subst (Ends libs) same (try_files-Ends paths libs)))
      go (fail f) u same =
          let next : (try_files host paths >>= end_listing host e) libs ≡ (fail f, u) =
            ground (arith, same) in
          subst (Ends libs) (sym next) tt

  listed-Ends :
      (r : Result (Option Listing)) (libs : Libraries Chain) → Ends libs (load_listed host r libs)
  listed-Ends (fail e) libs = tt
  listed-Ends (ok none) libs = Loads-none libs
  listed-Ends (ok (some listing)) libs = files-Ends listing.stop listing.paths libs

  canonical-Ends :
      (r : Result String) (libs : Libraries Chain) → Ends libs (load_canonical host r libs)
  canonical-Ends (fail e) libs = tt
  canonical-Ends (ok canonical) libs = listed-Ends (host.list_directory canonical) libs

  -- A directory scan that ends well answers different paths that were not loaded before, each now
  -- loaded from a file that exports `registerContract`; a lookup of any path answers as before, or
  -- finds such a library where there was none.
  pub load_plugins-Loads :
      (directory : String) (libs after : Libraries Chain) (loaded : List String)
      → load_plugins host directory libs ≡ (ok loaded, after)
      → Loads libs loaded after
  unfolding load_plugins
  load_plugins-Loads directory libs after loaded e =
      subst (Ends libs) e (canonical-Ends (host.weakly_canonical directory) libs)
