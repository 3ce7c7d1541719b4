-- ===== src/Auth/Variables.antt =====
-- The environment that sbuild/sbuild-auth.cc composes, variable by variable.
use schroot.Prelude.{
  ◌≡◌, refl, ◌∙◌, Bool, true, false, ◌&&◌, Option, none, some, [], Text, arith, nat_eq, ◌==◌,
  text_eq, is_empty, if◌then◌else◌,
}
use schroot.Prelude.Map.{find}
use schroot.Prelude.Map.Order.{IsSorted, erase-IsSorted}
use schroot.Environment.{
  Environment, no_environment, get, add_environment, remove, remove_key, split_item, find_equals,
}
use schroot.Environment.Invariant
use schroot.Environment.Laws.{get-add_environment, filter-add_environment, get-remove_key}
use schroot.Auth.{
  Auth, path_name, home_name, user_var, logname_name, shell_name, add_term, get_minimal_environment,
  get_complete_environment,
}

-- The first value there is.
abbrev pub prefer : Option Text → Option Text → Option Text
prefer none w = w
prefer (some v) w = some v

prefer-none : (o : Option Text) → prefer o none ≡ o
prefer-none none = refl
prefer-none (some v) = refl

get-no_environment : (j : Text) → get j no_environment ≡ none
unfolding get find
get-no_environment j = refl

module _ (search : Text → Text → Bool) where
  -- Where nothing is filtered, a named variable has the added value if there is one.
  get-add_unfiltered :
      (env other : Environment) (j : Text)
      → env.filter ≡ []
      → is_empty j ≡ false
      → IsSorted other.vars
      → get j (add_environment search env other) ≡ prefer (get j other) (get j env)
  unfolding get
  get-add_unfiltered env other j f n s = ground (arith, get-add_environment search env other j s)

  IsValid-if :
      (b : Bool) (x y : Environment)
      → Invariant.IsValid search x
      → Invariant.IsValid search y
      → Invariant.IsValid search (if b then x else y)
  IsValid-if true x y hx hy = hx
  IsValid-if false x y hx hy = hy

  IsValid-add_term :
      (term : Option Text) (env : Environment)
      → Invariant.IsValid search env
      → Invariant.IsValid search (add_term search term env)
  IsValid-add_term none env h = h
  IsValid-add_term (some t) env h = Invariant.add-IsValid search _ _ _ h

  -- The minimal environment is a valid one.
  get_minimal_environment-IsValid :
      (term : Option Text) (auth : Auth)
      → Invariant.IsValid search (get_minimal_environment search term auth)
  unfolding get_minimal_environment
  get_minimal_environment-IsValid term auth =
      let adds = Invariant.add-IsValid search in
      let env1 = adds path_name _ _ (Invariant.IsValid-empty search) in
      let env2 = adds home_name _ _ env1 in
      let env3 =
        IsValid-if (is_empty auth.user_name) _ _ env2
          (adds user_var _ _ (adds logname_name _ _ env2)) in
      let env4 = IsValid-add_term term _ env3 in
      IsValid-if (is_empty auth.shell) _ _ env4 (adds shell_name _ _ env4)

  -- The user's variables that are passed on: root does not take the user's PATH.
  abbrev pub user_value : Text → Auth → Option Text
  user_value j auth = if auth.uid == 0 && path_name == j then none else get j auth.user_environment

  get-user :
      (j : Text) (auth : Auth)
      → get j
          (if auth.uid == 0 then remove path_name auth.user_environment else auth.user_environment)
        ≡ user_value j auth
  unfolding remove split_item find_equals
  get-user j auth = ground (arith, get-remove_key path_name j auth.user_environment)

  remove-IsSorted :
      (env : Environment) (b : Bool)
      → IsSorted env.vars
      → IsSorted (if b then remove path_name env else env).vars
  unfolding remove remove_key
  remove-IsSorted env true s = erase-IsSorted _ env.vars s
  remove-IsSorted env false s = s

  -- Each variable has the user's value, else that of the authentication service, else the minimal
  -- one; the user's own PATH does not count where the program runs as root.
  pub get-get_complete_environment :
      (term : Option Text) (auth_environment : Environment) (auth : Auth) (j : Text)
      → is_empty j ≡ false
      → IsSorted auth_environment.vars
      → IsSorted auth.user_environment.vars
      → get j (get_complete_environment search term auth_environment auth)
        ≡ prefer
            (user_value j auth)
            (prefer (get j auth_environment) (get j (get_minimal_environment search term auth)))
  unfolding get_complete_environment
  get-get_complete_environment term auth_environment auth j n s u =
      let minimal = get_minimal_environment search term auth in
      let step1 = add_environment search no_environment minimal in
      let step2 = add_environment search step1 auth_environment in
      let user' =
        if auth.uid == 0 then remove path_name auth.user_environment else auth.user_environment in
      cc (
        get-add_unfiltered no_environment minimal j refl n
            (get_minimal_environment-IsValid term auth).sorted,
        get-add_unfiltered step1 auth_environment j
            (filter-add_environment search no_environment minimal) n s,
        get-add_unfiltered step2 user' j
            (filter-add_environment search step1 auth_environment
              ∙ filter-add_environment search no_environment minimal)
            n (remove-IsSorted auth.user_environment (auth.uid == 0) u),
        get-user j auth,
        get-no_environment j,
        prefer-none (get j minimal),
      )
