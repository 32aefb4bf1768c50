-- ===== src/Requests/Guarded.antt =====
-- Which actions a request without a user reaches.
use py_app_runner.Prelude.{
  String, ◌≡◌, refl, sym, ◌∙◌, inl, inr, true, false, Option, none, some, List, [], ◌∷◌, Bool-cases,
  if_both, All,
}
use py_app_runner.Requests.Decorators.{
  Handler, World, http, failed, Action, signed_in, authenticated, Method, action, marked, wrapped,
  guard_named, guard_method, guard_actions,
}

module _ {Conn Cache S E R : Type 0} where
  -- The action refuses whoever is not signed in, and changes nothing.
  abbrev pub IsGuarded : Action Conn Cache S E R → Type 0
  IsGuarded func =
      (h : Handler Conn Cache) (w : World S)
      → signed_in h.bridge_handler ≡ false
      → func h w ≡ (failed (http 4010 401), h, w)

  authenticated-IsGuarded : (func : Action Conn Cache S E R) → IsGuarded (authenticated func)
  unfolding authenticated
  authenticated-IsGuarded func h w q = rw q refl

  -- A method as its decorators build it: a function without a mark, @action and @authenticated in any
  -- order and number, and any other decorator below the first @authenticated.
  pub data Built : Method Conn Cache S E R → Type 0 where
    plain :
        (name : String) (func : Action Conn Cache S E R)
        → Built (record { name = name; action_name = none; auth_wrapped = false; func = func })
    with_action : {m : Method Conn Cache S E R} (name : String) → Built m → Built (action name m)
    with_mark : {m : Method Conn Cache S E R} → Built m → Built (marked m)
    with_other :
        {m : Method Conn Cache S E R}
        (decorator : Action Conn Cache S E R → Action Conn Cache S E R)
        → Built m
        → m.auth_wrapped ≡ false
        → Built (wrapped decorator m)

  -- A mark says that the method is guarded.
  Built-IsMarked :
      (m : Method Conn Cache S E R) → Built m → m.auth_wrapped ≡ true → IsGuarded m.func
  unfolding action marked wrapped
  Built-IsMarked _ (plain name func) e = absurd (cc e)
  Built-IsMarked _ (with_action {m} name b) e = Built-IsMarked m b e
  Built-IsMarked _ (with_mark {m} b) e = authenticated-IsGuarded m.func
  Built-IsMarked _ (with_other {m} decorator b no_mark) e = absurd (cc (e, no_mark))

  guard_method-IsGuarded :
      (m : Method Conn Cache S E R) (name : String)
      → Built m
      → m.action_name ≡ some name
      → IsGuarded (guard_method m).func
  unfolding guard_method
  guard_method-IsGuarded m name built named = of_name m.action_name named
    where
      of_name : (o : Option String) → o ≡ some name → IsGuarded (guard_named o m).func
      of_name none e = absurd (cc e)
      of_name (some k) e =
          unfold guard_named in
          elim (Bool-cases m.auth_wrapped) [
            | inl q ↦ rw q (Built-IsMarked m built q)
            | inr q ↦ rw q (authenticated-IsGuarded m.func)
          ]

  -- After @require_auth_for_actions, over methods that @action, @authenticated and, below the first
  -- @authenticated, any other decorators built: every method of the class that is an action, inherited
  -- or its own, with the mark of @authenticated or without it, refuses a request without a user by the
  -- error 4010 before it runs, and changes nothing.
  pub guard_actions-IsGuarded :
      (methods : List (Method Conn Cache S E R))
      → All Built methods
      → All
          (λ m. (name : String) → m.action_name ≡ some name → IsGuarded m.func)
          (guard_actions methods)
  unfolding guard_actions
  guard_actions-IsGuarded [] built = tt
  guard_actions-IsGuarded (m ∷ ms) built = (
    (λ name named. guard_method-IsGuarded m name built.0 ((sym (same_name m)) ∙ named)),
    guard_actions-IsGuarded ms built.1,
  )
    where
      same_name : (m : Method Conn Cache S E R) → (guard_method m).action_name ≡ m.action_name
      same_name m = unfold guard_method in of_name m.action_name
        where
          of_name : (o : Option String) → (guard_named o m).action_name ≡ m.action_name
          of_name none = unfold guard_named in refl
          of_name (some k) =
              unfold guard_named in
              if_both (λ (x : Method Conn Cache S E R). x.action_name ≡ m.action_name)
                m.auth_wrapped refl refl
