-- ===== src/Container/Deploy/Names.antt =====
-- Which names the current state holds after the steps of Deploy.
use libflexkube.Base.{
  ℕ, String, Bool, true, false, Option, none, some, ◌==◌, ◌≡◌, refl, arith, eq_iff, if◌then◌else◌,
}
use libflexkube.Base.Map.{insert, delete, has, has-insert, has-delete}
use libflexkube.Base.Fault.{Error}
use libflexkube.Base.Exec.{
  Exec, pure, error_of_call, wrap, ◌>>◌, ◌>>=◌, Action, Outcome, ok, err, panic, hang,
}
use libflexkube.Base.Exec.Keeps.{
  Keeps, Keeps-bind, Keeps-fail, Keeps-abort, Keeps-modify, Keeps-bind-gets, Keeps-pure,
  Keeps-option, keeps_rules,
}
use libflexkube.Container.State.{StateMap, create_and_start, remove_container, index}
use libflexkube.Container.Containers.{
  Containers, on_memory, adopt, fail_with, configure_at, configure_object, finish_configured,
  adopt_created, finish_created, create_object, put_current, drop_current, ensure_configured,
  ensure_exists, diff_host, diff_container, is_updatable,
}
use libflexkube.Container.Deploy.{recreate, create_again, remove_current, fail_with_arg}
use libflexkube.Memory.{Memory}

-- From `c` to `c'` no name is lost, and none that is not desired is gained.
pub record Grows (c c' : Containers) : Type 0 where
  pub desired : c'.desired_state ≡ c.desired_state
  pub kept : (j : String) → has c.current_state j ≡ true → has c'.current_state j ≡ true
  pub outside :
      (j : String) → has c.desired_state j ≡ false → has c'.current_state j ≡ has c.current_state j

pub Grows-refl : (c : Containers) → Grows c c
Grows-refl c = record { desired = refl; kept = λ j h. h; outside = λ j h. refl }

module _ (c : Containers) where
  pub on_memory-Grows {ℓ} : {A : Type ℓ} (m : Exec Memory A) → Keeps (Grows c) (on_memory m)
  unfolding on_memory
  on_memory-Grows m = record {
    at = λ s h. record { desired = h.desired; kept = h.kept; outside = h.outside };
  }

  put-Grows :
      (name : String) (p : Option ℕ)
      → has c.desired_state name ≡ true
      → Keeps (Grows c) (put_current name p)
  unfolding put_current
  put-Grows name p h = Keeps-modify _ λ s g. record {
    desired = g.desired;
    kept = λ j q. ground (arith, has-insert s.current_state name j p, g.kept j);
    outside =
        λ j q. ground (arith, has-insert s.current_state name j p, eq_iff name j, g.outside j);
  }

  has_of_index :
      (name : String) (p : ℕ)
      → index c.desired_state name ≡ some p
      → has c.desired_state name ≡ true
  has_of_index name p e = ground arith

  pub adopt-Grows :
      (name : String) (target : ℕ) (state : Option ℕ)
      → has c.desired_state name ≡ true
      → Keeps (Grows c) (adopt name target state)
  unfolding adopt
  adopt-Grows name target none h = search (keeps_rules, put-Grows)
  adopt-Grows name target (some s) h = Keeps-pure s

  pub fail_with-Grows : (text : String) (e : Option Error) → Keeps (Grows c) (fail_with text e)
  unfolding fail_with
  fail_with-Grows text none = Keeps-pure tt
  fail_with-Grows text (some e) = Keeps-fail _

  pub fail_with_arg-Grows :
      (text name : String) (e : Option Error) → Keeps (Grows c) (fail_with_arg text name e)
  unfolding fail_with_arg
  fail_with_arg-Grows text name none = Keeps-pure tt
  fail_with_arg-Grows text name (some e) = Keeps-fail _

  pub ruleset grows_rules =
      (keeps_rules, on_memory-Grows, adopt-Grows, fail_with-Grows, fail_with_arg-Grows)

  configure_at-Grows :
      (name : String) (p : Option ℕ)
      → index c.desired_state name ≡ p
      → Keeps (Grows c) (configure_at name p)
  unfolding configure_at configure_object finish_configured
  configure_at-Grows name none e = Keeps-pure tt
  configure_at-Grows name (some target) e =
      let h = has_of_index name target e in search grows_rules depth 20

  pub ensure_configured-Grows : (name : String) → Keeps (Grows c) (ensure_configured name)
  unfolding ensure_configured
  ensure_configured-Grows name =
      Keeps-bind-gets _ _ c.desired_state (λ s g. g.desired)
        (configure_at-Grows name (index c.desired_state name) refl)

  adopt_created-Grows :
      (name : String) (state : Option ℕ) (e : Option Error) (p : Option ℕ)
      → index c.desired_state name ≡ p
      → Keeps (Grows c) (adopt_created name state e p)
  unfolding adopt_created
  adopt_created-Grows name state e none q = Keeps-abort
  adopt_created-Grows name state e (some target) q =
      let h = has_of_index name target q in search grows_rules depth 20

  finish_created-Grows :
      (name : String) (state : Option ℕ) (e : Option Error) (p : Option ℕ)
      → index c.desired_state name ≡ p
      → Keeps (Grows c) (finish_created name state e p)
  unfolding finish_created
  finish_created-Grows name state none p q = adopt_created-Grows name state none p q
  finish_created-Grows name state (some e) p q = search (grows_rules, adopt_created-Grows) depth 20

  pub create_object-Grows :
      (name : String) (state : Option ℕ) → Keeps (Grows c) (create_object name state)
  unfolding create_object
  create_object-Grows name state =
      Keeps-bind-gets _ _ c.desired_state (λ s g. g.desired)
        (Keeps-bind _ _ (search grows_rules) λ e. finish_created-Grows name state e _ refl)

  exists_at-Grows :
      (name : String) (there : Bool) (state : Option ℕ)
      → Keeps (Grows c) (if there then pure tt else create_object name state)
  exists_at-Grows name true state = Keeps-pure tt
  exists_at-Grows name false state = create_object-Grows name state

  pub ensure_exists-Grows : (name : String) → Keeps (Grows c) (ensure_exists name)
  unfolding ensure_exists
  ensure_exists-Grows name = search (grows_rules, exists_at-Grows) depth 20

  pub is_updatable-Grows : (name : String) → Keeps (Grows c) (is_updatable name)
  unfolding is_updatable
  is_updatable-Grows name = search grows_rules depth 20

  pub diff_host-Grows : (name : String) → Keeps (Grows c) (diff_host name)
  unfolding diff_host
  diff_host-Grows name = search (grows_rules, is_updatable-Grows) depth 20

  pub diff_container-Grows : (name : String) → Keeps (Grows c) (diff_container name)
  unfolding diff_container
  diff_container-Grows name = search (grows_rules, is_updatable-Grows) depth 20

  -- The state between the removal of `name` and its return.
  record Gap (name : String) (s : Containers) : Type 0 where
    desired : s.desired_state ≡ c.desired_state
    kept :
        (j : String)
        → (name == j) ≡ false
        → has c.current_state j ≡ true
        → has s.current_state j ≡ true
    outside :
        (j : String)
        → has c.desired_state j ≡ false
        → (name == j) ≡ false
        → has s.current_state j ≡ has c.current_state j

  drop-Gap :
      (name : String) (s : Containers) (t : Memory)
      → Grows c s
      → Gap name (record s { memory = t; current_state = delete s.current_state name })
  drop-Gap name s t g = record {
    desired = g.desired;
    kept = λ j n q. ground (arith, has-delete s.current_state name j, g.kept j);
    outside = λ j q n. ground (arith, has-delete s.current_state name j, g.outside j);
  }

  fill-Grows :
      (name : String) (s : Containers)
      → has c.desired_state name ≡ true
      → Gap name s
      → Grows c (record s { current_state = insert s.current_state name none })
  fill-Grows name s h g = record {
    desired = g.desired;
    kept = λ j q. ground (arith, has-insert s.current_state name j none, g.kept j);
    outside =
        λ j q. ground (arith, has-insert s.current_state name j none, eq_iff name j, g.outside j);
  }

  again : (name : String) → StateMap → Action Containers
  again name desired = do
    e ← error_of_call (on_memory (create_and_start desired name))
    put_current name (index desired name)
    fail_with_arg "creating and starting new container" name e

  again-Grows :
      (name : String) (desired : StateMap)
      → has c.desired_state name ≡ true
      → Keeps (Grows c) (again name desired)
  unfolding again
  again-Grows name desired h = search (grows_rules, put-Grows) depth 20

  create_again-Grows :
      (name : String) (s : Containers)
      → has c.desired_state name ≡ true
      → Gap name s
      → Grows c (create_again name s).1
  unfolding create_again put_current again ◌>>=◌
  create_again-Grows name s h g = (again-Grows name s.desired_state h).at _ (fill-Grows name s h g)

  removed-Grows :
      (name : String) (r : Outcome (Unit {0})) (t : Memory) (s : Containers)
      → has c.desired_state name ≡ true
      → Grows c s
      → Grows c
          ((wrap "removing old container to recreate it"
                (on_memory (λ m. (r, t)) >> drop_current name)
              >> create_again name)
            s).1
  unfolding on_memory drop_current ◌>>=◌
  removed-Grows name (ok u) t s h g = create_again-Grows name _ h (drop-Gap name s t g)
  removed-Grows name (err e) t s h g = record {
    desired = g.desired;
    kept = g.kept;
    outside = g.outside;
  }
  removed-Grows name panic t s h g = record {
    desired = g.desired;
    kept = g.kept;
    outside = g.outside;
  }
  removed-Grows name hang t s h g = record {
    desired = g.desired;
    kept = g.kept;
    outside = g.outside;
  }

  pub recreate-Grows :
      (name : String) → has c.desired_state name ≡ true → Keeps (Grows c) (recreate name)
  unfolding recreate remove_current on_memory drop_current ◌>>=◌
  recreate-Grows name h = record {
    at = λ s g.
        let p = remove_container s.current_state name s.memory in removed-Grows name p.0 p.1 s h g;
  }
