-- ===== src/Container/Forwarding/Restore.antt =====
-- What forwarding leaves behind (withForwardedRuntime of pkg/container/hostconfiguredcontainer.go).
use libflexkube.Base.{ℕ, String, Option, some, ◌≡◌, refl, arith, ap, ◌∙◌}
use libflexkube.Base.Fault.{Error, wrapf}
use libflexkube.Base.Exec.{Exec, Action, ok, err, ◌>>=◌, deferred}
use libflexkube.Base.Exec.Keeps.{Keeps}
use libflexkube.Base.Exec.Ensures.{
  Ensures, Ensures-bind, Ensures-bind-known, Ensures-of_Keeps, Ensures-consequence, Ensures-wrap,
  Ensures-pure,
}
use libflexkube.World.{World, Client}
use libflexkube.Docker
use libflexkube.Container.Single.{set_runtime}
use libflexkube.Container.Forwarding.{
  connect_and_forward, set_address, restore_and_run, forward_and_run, run_forwarded,
  with_forwarded_runtime,
}
use libflexkube.Memory.{Memory, on_world, set_container, set_config}

-- A client is made with the host of its configuration.
abbrev ClientOf : Docker.Config → Client → Type 0
ClientOf config r = r ≡ record { host = Docker.host_option config }

new-ClientOf :
    (config : Docker.Config)
    → Ensures (λ w. Unit {0}) (Docker.new config) (λ r w. ClientOf config r)
unfolding Docker.new
new-ClientOf config =
    Ensures-bind _ _ (Ensures-of_Keeps _ (record { at = λ s h. tt }))
      λ _. Ensures-pure _ (λ s h. refl)

on_world_ensures {ℓ κ} :
    {A : Type ℓ} (m : Exec World A) (P : Memory → Type κ) (Q : A → Type 0)
    → Ensures (λ w. Unit {0}) m (λ a w. Q a)
    → Keeps P (on_world m)
    → Ensures P (on_world m) (λ a s. P s × Q a)
unfolding on_world
on_world_ensures m P Q e k = record { at = λ s h a q. (k.at s h, e.at s.world tt a q) }

-- The address that is stored.
abbrev Stores : ℕ → Docker.Config → Memory → Type 0
Stores rc config s = s.configs rc ≡ config

on_world-Stores {ℓ} :
    {A : Type ℓ} (rc : ℕ) (config : Docker.Config) (m : Exec World A)
    → Keeps (Stores rc config) (on_world m)
unfolding on_world
on_world-Stores rc config m = record { at = λ s h. h }

set_address-Stores :
    (rc : ℕ) (address : String)
    → Ensures
        (λ s. Unit {0})
        (set_address rc address)
        (λ _ s. Stores rc (record { host = address }) s)
unfolding set_address set_config Docker.set_address ◌>>=◌
set_address-Stores rc address = record { at = λ s h a q. ground arith }

set_runtime_after :
    (rc c : ℕ) (config : Docker.Config) (r : Client) (action : Action Memory)
    → ((t : Memory) → (action t).1.configs rc ≡ t.configs rc)
    → Ensures
        (Stores rc config)
        (deferred (set_runtime c r) action)
        (λ _ s. Stores rc config s × ((s.containers c).runtime ≡ r))
unfolding set_runtime set_container ◌>>=◌
set_runtime_after rc c config r action keeps = record {
  at = λ s h a q. (keeps s ∙ h, ground arith);
}

-- The last steps, of the address and the configuration that was stored.
restored :
    (rc c : ℕ) (address : String) (action : Action Memory)
    → ((t : Memory) → (action t).1.configs rc ≡ t.configs rc)
    → Ensures
        (λ s. Unit {0})
        (restore_and_run rc c address action)
        (λ _ s.
          Stores rc (record { host = address }) s
          × ClientOf (record { host = address }) (s.containers c).runtime)
unfolding restore_and_run
restored rc c address action keeps = Ensures-bind _ _ (set_address-Stores rc address) λ _.
    Ensures-bind-known _ _ (record { host = address }) (λ s h. h)
      (Ensures-bind _ _
        (Ensures-wrap _ _ (on_world_ensures _ _ _ (new-ClientOf _) (on_world-Stores rc _ _)))
        λ r. record {
          at = λ s h a q.
              let (kept, set) =
                (set_runtime_after rc c (record { host = address }) r action keeps).at s h.0 a q in
              (kept, set ∙ h.1);
        })

-- The address that the runtime of a container had.
abbrev pub old_address : ℕ → Memory → String
old_address c m =
    Docker.get_address m.world.lib.default_docker_host (m.configs (m.containers c).runtime_config)

module _ (h c : ℕ) (m : Memory) (action : Action Memory)
    (has_container : (m.hccs h).container ≡ some c)
    (keeps : (t : Memory)
      → (action t).1.configs (m.containers c).runtime_config
        ≡ t.configs (m.containers c).runtime_config) where
  abbrev Restored : Memory → Type 0
  Restored s =
      Stores (m.containers c).runtime_config (record { host = old_address c m }) s
      × ClientOf (record { host = old_address c m }) (s.containers c).runtime

  trivially {ℓ} : {A : Type ℓ} (x : Exec Memory A) → Ensures (λ s. Unit {0}) x (λ a s. Unit {0})
  trivially x = Ensures-of_Keeps _ (record { at = λ s e. tt })

  forwarded :
      Ensures
        (λ s. s ≡ m)
        (forward_and_run h c (m.containers c).runtime_config action)
        (λ _ s. Restored s)
  unfolding forward_and_run
  forwarded =
      Ensures-bind-known _ _ m.world.lib.default_docker_host
        (λ s e. ap (λ (t : Memory). t.world.lib.default_docker_host) e)
        (Ensures-bind-known _ _ (m.configs (m.containers c).runtime_config)
          (λ s e. ap (λ (t : Memory). t.configs (m.containers c).runtime_config) e)
          (Ensures-consequence _ (λ s e. tt) (λ a s e. e)
            (Ensures-bind _ _ (trivially _) λ new_address. Ensures-bind _ _ (trivially _) λ _.
              Ensures-bind _ _ (trivially _) λ config. Ensures-bind _ _ (trivially _) λ runtime.
                Ensures-bind _ _ (trivially _)
                  λ _. restored (m.containers c).runtime_config c (old_address c m) action keeps)))

  run : Ensures (λ s. s ≡ m) (run_forwarded h (some c) action) (λ _ s. Restored s)
  unfolding run_forwarded
  run =
      Ensures-bind-known _ _ (m.containers c) (λ s e. ap (λ (t : Memory). t.containers c) e)
        forwarded

  run_at :
      (p : Option ℕ)
      → p ≡ some c
      → Ensures (λ s. s ≡ m) (run_forwarded h p action) (λ _ s. Restored s)
  run_at p e = rw e run

  -- Forwarding that ends without an error has put the address back: the configuration holds the
  -- address that was used before, and the container has a client for it, whatever runtime and
  -- address the action ran with. The action itself must leave the configuration alone.
  pub with_forwarded_runtime-restores :
      (with_forwarded_runtime h action m).0 ≡ ok tt
      → ((with_forwarded_runtime h action m).1.configs (m.containers c).runtime_config
          ≡ record { host = old_address c m })
        × (((with_forwarded_runtime h action m).1.containers c).runtime
            ≡ record { host = Docker.host_option (record { host = old_address c m }) })
  unfolding with_forwarded_runtime ◌>>=◌
  with_forwarded_runtime-restores q = (run_at (m.hccs h).container has_container).at m refl tt q

-- Where forwarding succeeds and the client for the forwarded address cannot be made, the error is
-- returned and the configuration keeps the forwarded address, not the original one.
pub forwarded_address_left :
    (h c : ℕ) (m m' : Memory) (action : Action Memory) (address : String) (e : Error)
    → (m.hccs h).container ≡ some c
    → connect_and_forward h (old_address c m) m ≡ (ok address, m')
    → (Docker.new (record { host = address }) m'.world).0 ≡ err e
    → ((with_forwarded_runtime h action m).0 ≡ err (wrapf "initializing forwarded runtime" e))
      × ((with_forwarded_runtime h action m).1.configs (m.containers c).runtime_config
          ≡ record { host = address })
unfolding with_forwarded_runtime run_forwarded forward_and_run set_address set_config
    Docker.set_address on_world ◌>>=◌
forwarded_address_left h c m m' action address e p q r = ground arith
