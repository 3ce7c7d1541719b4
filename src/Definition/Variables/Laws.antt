-- ===== src/Definition/Variables/Laws.antt =====
-- What the setup scripts find in their environment.
use schroot.Prelude.{
  ◌≡◌, refl, ap, sym, ◌∙◌, Bool, Option, none, some, [], ◌∷◌, ◌++◌, Text, text_beq_iff, arith,
}
use schroot.Prelude.Map.{Map}
use schroot.Environment.{Environment, get, add}
use schroot.Environment.Laws.{get-add, filter-add, overlay}
use schroot.Userdata.{envname}
use schroot.Definition.{Definition}
use schroot.Definition.Save.{Entries}
use schroot.Definition.Saved.{last_of}
use schroot.Definition.Variables.{
  chroot_variables, class_variables, mountable_variables, session_variables, userdata_of,
  add_variables, add_userdata, with_facets, setup_env,
}

-- The variables of the user data.
abbrev pub named : Map Text → Entries
named [] = []
named ((key, value) ∷ m) = (envname key, value) ∷ named m

module _ (search : Text → Text → Bool) where
  add_variables-append :
      (a b : Entries) (env : Environment)
      → add_variables search (a ++ b) env ≡ add_variables search b (add_variables search a env)
  unfolding add_variables
  add_variables-append [] b env = refl
  add_variables-append ((k, v) ∷ a) b env = add_variables-append a b (add search k v env)

  get-add_variables :
      (j : Text) (es : Entries) (env : Environment)
      → get j (add_variables search es env) ≡ overlay search j (last_of j es) env
  unfolding add_variables last_of
  get-add_variables j [] env = refl
  get-add_variables j ((k, v) ∷ es) env = ground (
    arith,
    get-add_variables j es (add search k v env),
    get-add search k v j env,
    filter-add search k v env,
    text_beq_iff k j,
  )

  add_userdata-named :
      (m : Map Text) (env env' : Environment)
      → add_userdata search m env ≡ some env'
      → env' ≡ add_variables search (named m) env
  unfolding add_userdata add_variables
  add_userdata-named [] env env' h = ground (arith, h)
  add_userdata-named ((key, value) ∷ m) env env' h =
      ground (arith, h, add_userdata-named m (add search (envname key) value env) env')

  with_facets-added :
      (d : Definition) (o : Option Environment) (env' : Environment)
      → with_facets search d o ≡ some env'
      → (mid : Environment) × (o ≡ some mid)
        × (env'
            ≡ add_variables search
                (mountable_variables d.mountable ++ session_variables d.base.session)
                mid)
  with_facets-added d none env' h = cc
  with_facets-added d (some mid) env' h = (
    mid,
    refl,
    ground (arith, h)
        ∙ sym (
            add_variables-append (mountable_variables d.mountable)
              (session_variables d.base.session) mid),
  )

  module _ (sysconf_dir unpack_dir : Text) (from_source : Bool) where
    -- All variables of a chroot, in the order in which they are added.
    abbrev pub variables : Definition → Entries
    variables d =
        chroot_variables sysconf_dir unpack_dir from_source d
        ++ (class_variables sysconf_dir unpack_dir from_source d.type d
            ++ (named (userdata_of search d.base.userdata)
                ++ (mountable_variables d.mountable ++ session_variables d.base.session)))

    setup_env-added :
        (d : Definition) (env env' : Environment)
        → setup_env search sysconf_dir unpack_dir from_source d env ≡ some env'
        → env' ≡ add_variables search (variables d) env
    unfolding setup_env
    setup_env-added d env env' h =
        let chroot = chroot_variables sysconf_dir unpack_dir from_source d in
        let class = class_variables sysconf_dir unpack_dir from_source d.type d in
        let own = named (userdata_of search d.base.userdata) in
        let facets = mountable_variables d.mountable ++ session_variables d.base.session in
        let begun = add_variables search chroot env in
        let (mid, added, last) = with_facets-added d _ env' h in
        last
        ∙ ap (add_variables search facets) (
            add_userdata-named (userdata_of search d.base.userdata)
              (add_variables search class begun) mid added)
        ∙ sym (add_variables-append own facets (add_variables search class begun))
        ∙ sym (add_variables-append class (own ++ facets) begun)
        ∙ sym (add_variables-append chroot (class ++ (own ++ facets)) env)

    -- Where `setup_env` returns, each variable reads the last value that the chroot, its class, its
    -- user data and its facets have of it, in this order, or nothing where the filter matches its
    -- name; every other variable reads as before.
    pub get-setup_env :
        (d : Definition) (env env' : Environment) (j : Text)
        → setup_env search sysconf_dir unpack_dir from_source d env ≡ some env'
        → get j env' ≡ overlay search j (last_of j (variables d)) env
    get-setup_env d env env' j h =
        ap (get j) (setup_env-added d env env' h) ∙ get-add_variables j (variables d) env
