-- ===== src/Container/Deploy/Update.antt =====
-- Deploy ends with the names of the desired state.
use libflexkube.Base.{
  ℕ, String, true, false, Option, none, some, ◌≡◌, arith, eq_refl, if◌then◌else◌, ap,
}
use libflexkube.Base.Fault.{Error}
use libflexkube.Base.Map.{has, has-insert}
use libflexkube.Base.Exec.{Exec, pure, ◌>>=◌, Action}
use libflexkube.Base.Exec.Keeps.{Keeps, Keeps-must, Keeps-gets, Keeps-error_of_call, Keeps-pure}
use libflexkube.Base.Exec.Ensures.{
  Ensures, Ensures-bind, Ensures-bind-gets, Ensures-of_Keeps, Ensures-fail, Ensures-abort,
  Ensures-if, Ensures-consequence,
}
use libflexkube.Container.State.{index}
use libflexkube.Container.Containers.{
  Containers, on_memory, put_current, adopt, adopt_created, exists_at, finish_created,
  create_object, ensure_exists,
}
use libflexkube.Container.Deploy.{
  ensure_host, ensure_container, ensure_up_to_date, ensure_new_container, create_new,
}
use libflexkube.Container.Deploy.Names.{
  Grows, Grows-refl, recreate-Grows, diff_host-Grows, diff_container-Grows, ensure_configured-Grows,
  ensure_exists-Grows, grows_rules,
}
use libflexkube.Memory.{Memory}

module _ (c : Containers) where
  ensure_host-Grows :
      (name : String) → has c.desired_state name ≡ true → Keeps (Grows c) (ensure_host name)
  unfolding ensure_host
  ensure_host-Grows name h = search (grows_rules, diff_host-Grows, recreate-Grows) depth 20

  ensure_container-Grows :
      (name : String) → has c.desired_state name ≡ true → Keeps (Grows c) (ensure_container name)
  unfolding ensure_container
  ensure_container-Grows name h =
      search (grows_rules, diff_container-Grows, recreate-Grows) depth 20

  pub ensure_up_to_date-Grows :
      (name : String) → has c.desired_state name ≡ true → Keeps (Grows c) (ensure_up_to_date name)
  unfolding ensure_up_to_date
  ensure_up_to_date-Grows name h =
      search (grows_rules, ensure_host-Grows, ensure_configured-Grows, ensure_container-Grows) depth
        20

  pub create_new-Grows : (name : String) → Keeps (Grows c) (create_new name)
  unfolding create_new
  create_new-Grows name =
      search (grows_rules, ensure_configured-Grows, ensure_exists-Grows) depth 20

  pub ensure_new_container-Grows : (name : String) → Keeps (Grows c) (ensure_new_container name)
  unfolding ensure_new_container
  ensure_new_container-Grows name = search (grows_rules, create_new-Grows) depth 20

abbrev pub Has : String → Containers → Type 0
Has name s = has s.current_state name ≡ true

-- What never loses a name keeps the presence of one.
pub Keeps-Has {ℓ} :
    {A : Type ℓ} (name : String) (m : Exec Containers A)
    → ((c : Containers) → Keeps (Grows c) m)
    → Keeps (Has name) m
Keeps-Has name m k = record { at = λ s h. ((k s).at s (Grows-refl s)).kept name h }

-- The pointer that the current state has at a name.
abbrev At : String → Option ℕ → Containers → Type 0
At name p s = index s.current_state name ≡ p

on_memory-At {ℓ} :
    {A : Type ℓ} (name : String) (p : Option ℕ) (m : Exec Memory A)
    → Keeps (At name p) (on_memory m)
unfolding on_memory
on_memory-At name p m = record { at = λ s h. h }

Has-At : (name : String) (p : ℕ) (s : Containers) → At name (some p) s → Has name s
Has-At name p s h = ground arith

adopt-Has :
    (name : String) (target : ℕ) (state : Option ℕ)
    → Ensures (At name state) (adopt name target state) (λ _ s. Has name s)
unfolding adopt put_current ◌>>=◌
adopt-Has name target none = record {
  at = λ s h a e. ground (arith, has-insert s.current_state name name (some target), eq_refl name);
}
adopt-Has name target (some p) = record { at = λ s h a e. Has-At name p s h }

adopt_created-Has :
    (name : String) (state : Option ℕ) (e : Option Error) (target : Option ℕ)
    → Ensures (At name state) (adopt_created name state e target) (λ _ s. Has name s)
unfolding adopt_created
adopt_created-Has name state e none = Ensures-abort
adopt_created-Has name state e (some target) =
    Ensures-bind _ _ (adopt-Has name target state)
      λ s. Ensures-of_Keeps _ (Keeps-Has name _ (λ c. search grows_rules depth 20))

finish_created-Has :
    (name : String) (state : Option ℕ) (e : Option Error) (target : Option ℕ)
    → Ensures (At name state) (finish_created name state e target) (λ _ s. Has name s)
unfolding finish_created
finish_created-Has name state none target = adopt_created-Has name state none target
finish_created-Has name state (some e) target =
    Ensures-bind _ _ (Ensures-of_Keeps _ (Keeps-must target)) λ t.
      Ensures-bind _ _ (Ensures-of_Keeps _ (on_memory-At name state _)) λ created.
        Ensures-if created _ _ (λ _. adopt_created-Has name state (some e) target)
          (λ _. Ensures-fail _)

create_object-Has :
    (name : String) (state : Option ℕ)
    → Ensures (At name state) (create_object name state) (λ _ s. Has name s)
unfolding create_object
create_object-Has name state = Ensures-bind _ _ (Ensures-of_Keeps _ (Keeps-gets _)) λ desired.
    Ensures-bind _ _ (Ensures-of_Keeps _ (Keeps-error_of_call _ (on_memory-At name state _)))
      λ e. finish_created-Has name state e (index desired name)

exists_or_create : String → Option ℕ → Action Containers
exists_or_create name state = do
  there ← on_memory (exists_at state)
  if there then pure tt else create_object name state

none_is_missing :
    (name : String)
    → Ensures
        (At name none)
        (on_memory (exists_at none))
        (λ there s. (there ≡ false) × At name none s)
unfolding on_memory exists_at ◌>>=◌
none_is_missing name = record { at = λ s h a e. (ground arith, h) }

exists_or_create-Has :
    (name : String) (state : Option ℕ)
    → Ensures (At name state) (exists_or_create name state) (λ _ s. Has name s)
unfolding exists_or_create
exists_or_create-Has name none = Ensures-bind _ _ (none_is_missing name) λ there.
    Ensures-if there _ _ (λ t. record { at = λ s h a e. cc (h.0) })
      (λ _. Ensures-consequence _ (λ s h. h.1) (λ a s h. h) (create_object-Has name none))
exists_or_create-Has name (some p) =
    Ensures-bind _ _ (Ensures-of_Keeps _ (on_memory-At name (some p) _)) λ there.
      Ensures-if there _ _
        (λ _.
          Ensures-consequence _ (λ s h. h) (λ a s h. Has-At name p s h)
            (Ensures-of_Keeps _ (Keeps-pure tt)))
        (λ _. create_object-Has name (some p))

pub ensure_exists-Has :
    (name : String) → Ensures (λ _. Unit {0}) (ensure_exists name) (λ _ s. Has name s)
unfolding ensure_exists exists_or_create
ensure_exists-Has name = Ensures-bind-gets _ _ λ current.
    Ensures-consequence _ (λ s h. ap (λ m. index m name) h.1) (λ a s h. h)
      (exists_or_create-Has name (index current name))
