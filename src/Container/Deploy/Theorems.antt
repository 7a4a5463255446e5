-- ===== src/Container/Deploy/Theorems.antt =====
-- What Deploy guarantees (pkg/container/containers.go).
use libflexkube.Base.{
  ℕ, String, Bool, true, false, Option, none, some, List, [], ◌∷◌, ◌≡◌, refl, arith, if◌then◌else◌,
  ap, ◌∙◌, sym,
}
use libflexkube.Base.Fault.{Error, errorf}
use libflexkube.Base.Map.{has, keys, contains, has-keys}
use libflexkube.Base.Exec.{Exec, fail, gets, ◌>>=◌, Outcome, ok, err}
use libflexkube.Base.Exec.Keeps.{Keeps, Keeps-modify, keeps_rules}
use libflexkube.Base.Exec.Ensures.{
  Ensures, Ensures-bind, Ensures-bind-gets, Ensures-of_Keeps, Ensures-consequence, Ensures-and,
}
use libflexkube.Container.State.{StateMap}
use libflexkube.Container.Containers.{
  Containers, on_memory, put_current, drop_current, is_updatable, diff_host, diff_container,
}
use libflexkube.Container.Deploy.{
  Ensured, fail_with_arg, updates_if, has_updates, pending_updates, settle_current,
  ensure_current_container, keep_ensured, check_object, check_entry, check_one, check_all,
  create_all, update_all, deploy_from, deploy_checked, deploy,
}
use libflexkube.Container.Deploy.Names.{
  Grows, Grows-refl, is_updatable-Grows, diff_host-Grows, diff_container-Grows,
}
use libflexkube.Container.Deploy.Converge.{
  HasAll, Pending, create_all-Grows, create_all-HasAll, update_all-Pending,
}
use libflexkube.Memory.{Memory}
use libflexkube.Base.Fault.{Result, success, failure}

-- The error of a Deploy before CheckCurrentState.
abbrev pub not_refreshed : Error
not_refreshed = errorf "can't execute without knowing current state of the containers"

abbrev Desires : StateMap → Containers → Type 0
Desires d s = s.desired_state ≡ d

module _ (d : StateMap) where
  on_memory-Desires {ℓ} : {A : Type ℓ} (m : Exec Memory A) → Keeps (Desires d) (on_memory m)
  unfolding on_memory
  on_memory-Desires m = record { at = λ s h. h }

  put-Desires : (name : String) (p : Option ℕ) → Keeps (Desires d) (put_current name p)
  unfolding put_current
  put-Desires name p = Keeps-modify _ (λ s h. h)

  drop-Desires : (name : String) → Keeps (Desires d) (drop_current name)
  unfolding drop_current
  drop-Desires name = Keeps-modify _ (λ s h. h)

  fail_with_arg-Desires :
      (text name : String) (e : Option Error) → Keeps (Desires d) (fail_with_arg text name e)
  unfolding fail_with_arg
  fail_with_arg-Desires text name none = search keeps_rules
  fail_with_arg-Desires text name (some e) = search keeps_rules

  -- What only grows keeps the desired state.
  Grows-Desires {ℓ} :
      {A : Type ℓ} (m : Exec Containers A)
      → ((c : Containers) → Keeps (Grows c) m)
      → Keeps (Desires d) m
  Grows-Desires m k = record { at = λ s h. ((k s).at s (Grows-refl s)).desired ∙ h }

  is_updatable-Desires : (name : String) → Keeps (Desires d) (is_updatable name)
  is_updatable-Desires name = Grows-Desires _ (λ c. is_updatable-Grows c name)

  diff_host-Desires : (name : String) → Keeps (Desires d) (diff_host name)
  diff_host-Desires name = Grows-Desires _ (λ c. diff_host-Grows c name)

  diff_container-Desires : (name : String) → Keeps (Desires d) (diff_container name)
  diff_container-Desires name = Grows-Desires _ (λ c. diff_container-Grows c name)

  ruleset desires_rules = (
    keeps_rules, on_memory-Desires, put-Desires, drop-Desires, fail_with_arg-Desires,
    is_updatable-Desires, diff_host-Desires, diff_container-Desires,
  )

  updates_if-Desires : (name : String) (e : Option Error) → Keeps (Desires d) (updates_if name e)
  unfolding updates_if has_updates
  updates_if-Desires name none = search desires_rules depth 20
  updates_if-Desires name (some e) = search desires_rules depth 20

  settle-Desires :
      (name : String) (state : ℕ) (there : Bool) (r : Result Bool)
      → Keeps (Desires d) (settle_current name state there r)
  unfolding settle_current
  settle-Desires name state there (failure e) = search desires_rules depth 20
  settle-Desires name state false (success u) = search desires_rules depth 20
  settle-Desires name state true (success u) = search desires_rules depth 20

  ensure_current-Desires :
      (name : String) (p : ℕ) → Keeps (Desires d) (ensure_current_container name p)
  unfolding ensure_current_container pending_updates
  ensure_current-Desires name p =
      search (desires_rules, updates_if-Desires, settle-Desires) depth 20

  keep_ensured-Desires : (name : String) (r : Ensured) → Keeps (Desires d) (keep_ensured name r)
  unfolding keep_ensured
  keep_ensured-Desires name (none, e) = search desires_rules depth 20
  keep_ensured-Desires name (some p, e) = search desires_rules depth 20

  check_entry-Desires :
      (name : String) (p : Option (Option ℕ)) → Keeps (Desires d) (check_entry name p)
  unfolding check_entry check_object
  check_entry-Desires name none = search desires_rules
  check_entry-Desires name (some p) =
      search (desires_rules, ensure_current-Desires, keep_ensured-Desires) depth 20

  check_all-Desires : (names : List String) → Keeps (Desires d) (check_all names)
  unfolding check_all check_one
  check_all-Desires [] = search desires_rules
  check_all-Desires (name ∷ names) =
      let rest = check_all-Desires names in search (desires_rules, check_entry-Desires) depth 20

  create_all-Desires : (names : List String) → Keeps (Desires d) (create_all names)
  create_all-Desires names = Grows-Desires _ (λ c. create_all-Grows c names)

  -- Before the last loop: all desired names are there, and every name is to be visited.
  last_loop-Pending :
      Ensures
        (λ s. Desires d s × HasAll (keys d) s)
        (do checked ← gets (λ c. c); update_all (keys checked.current_state))
        (λ _ s. Pending d [] s)
  last_loop-Pending = Ensures-bind-gets _ _ λ checked.
      Ensures-consequence _ (λ s h. start checked s h.0.0 h.0.1 h.1) (λ a s h. h)
        (update_all-Pending d (keys checked.current_state))
    where
      start :
          (checked s : Containers)
          → Desires d s
          → HasAll (keys d) s
          → s ≡ checked
          → Pending d (keys checked.current_state) s
      start checked s e h q = record {
        desired = e;
        covered = λ j r. h j (has-keys d j ∙ r);
        left = λ j r t.
            has-keys checked.current_state j
            ∙ (ap (λ (u : Containers). has u.current_state j) (sym q) ∙ t);
      }

module _ (c : Containers) where
  deploy_from-Pending :
      Ensures (Desires c.desired_state) (deploy_from c) (λ _ s. Pending c.desired_state [] s)
  unfolding deploy_from
  deploy_from-Pending =
      Ensures-bind _ _ (Ensures-of_Keeps _ (check_all-Desires c.desired_state _)) λ _.
        Ensures-bind _ _
          (Ensures-consequence _ (λ s h. (h, tt)) (λ a s h. h)
            (Ensures-and _ (Ensures-of_Keeps _ (create_all-Desires c.desired_state _))
              (create_all-HasAll _)))
          (λ _. last_loop-Pending c.desired_state)

  deploy_branch :
      (b : Bool)
      → c.refreshed ≡ b
      → deploy c ≡ (if b then deploy_from c c else (err not_refreshed, c))
  unfolding deploy deploy_checked ◌>>=◌
  deploy_branch true e = ap (λ (b : Bool). (if b then deploy_checked else fail not_refreshed) c) e
  deploy_branch false e = ap (λ (b : Bool). (if b then deploy_checked else fail not_refreshed) c) e

  deploy-Pending :
      (b : Bool) → c.refreshed ≡ b → (deploy c).0 ≡ ok tt → Pending c.desired_state [] (deploy c).1
  deploy-Pending true e h =
      let p = deploy_branch true e in
      rw p (
        deploy_from-Pending.at c refl tt
          (ap (λ (r : Outcome (Unit {0}) × Containers). r.0) (sym p) ∙ h))
  deploy-Pending false e h =
      cc (ap (λ (r : Outcome (Unit {0}) × Containers). r.0) (deploy_branch false e))

  -- After a Deploy that returns no error the current state holds exactly the names of the desired
  -- state: what is not desired has been removed, and what is desired is there.
  pub deploy-names :
      (deploy c).0 ≡ ok tt
      → (name : String) → has (deploy c).1.current_state name ≡ has c.desired_state name
  unfolding contains
  deploy-names h name = same (has c.desired_state name) refl
    where
      p : Pending c.desired_state [] (deploy c).1
      p = deploy-Pending c.refreshed refl h

      same :
          (b : Bool)
          → has c.desired_state name ≡ b
          → has (deploy c).1.current_state name ≡ has c.desired_state name
      same true e = p.covered name e ∙ sym e
      same false e = ground (arith, p.left name e)
