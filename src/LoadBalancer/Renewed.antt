-- ===== src/LoadBalancer/Renewed.antt =====
-- Load balancers that Validate accepts (pkg/apiloadbalancer/api-loadbalancers.go).
use libflexkube.Base.{ℕ, Option, none, some, ◌≡◌, refl, ap, ◌∙◌}
use libflexkube.Base.Map.{Map}
use libflexkube.Base.Exec.{Exec, ok, pure, ◌>>=◌}
use libflexkube.World.{Library}
use libflexkube.Container.Configured.{validate_hcc}
use libflexkube.Container.Single.{validate_container}
use libflexkube.Container.State.{StateMap}
use libflexkube.Memory.{Memory}
use libflexkube.Resource.{numbered, new_all}
use libflexkube.Resource.Total.{reached}
use libflexkube.Resource.Rebuilt.{validated}
use libflexkube.Resource.Renewed.{new_all-Total}
use libflexkube.Resource.Named.{Shown, new_all-Tied, containers_taken}
use libflexkube.LoadBalancer.{
  LoadBalancer, LoadBalancers, instances_of, new_instance, to_host_configured_container,
  new_instance_error, validate, new,
}

same_container :
    (lib : Library) (a : LoadBalancer) (d d' : ℕ)
    → validate_hcc lib (to_host_configured_container lib (new_instance a) d)
      ≡ validate_hcc lib (to_host_configured_container lib (new_instance a) d')
unfolding validate_hcc validate_container to_host_configured_container
same_container lib a d d' = refl

abbrev made_of :
    LoadBalancers → Library → Exec Memory (Map LoadBalancer × Option (StateMap × StateMap))
made_of a lib = new_all (instances_of a lib) a.state (numbered lib 0 a.load_balancers)

new_from :
    (a : LoadBalancers) (m : Memory)
    → (validate a m).0 ≡ ok none
    → (new a m).0
      ≡ ((made_of a (validate a m).1.world.lib >>= λ made. pure made.1) (validate a m).1).0
unfolding new ◌>>=◌
new_from a m h = rw h refl

-- Where Validate of the load balancers finds no error, New returns containers: the desired ones
-- have exactly the positions of the load balancers as names, the previous ones the names of the
-- state, and no entry is nil.
pub new_after_validate :
    (a : LoadBalancers) (m : Memory)
    → (validate a m).0 ≡ ok none
    → (states : StateMap × StateMap) × ((new a m).0 ≡ ok (some states))
      × Shown a.state states.0
      × Shown (numbered m.world.lib 0 a.load_balancers) states.1
unfolding validate ◌>>=◌
new_after_validate a m h =
    let lib = m.world.lib in
    let items = numbered lib 0 a.load_balancers in
    let (desired, checked, accepted, kept) =
      validated (instances_of a lib) lib _ _ _ _ a.state items m refl h in
    let total =
      new_all-Total (instances_of a lib) lib new_instance_error (λ a v. v) _ _ a.state desired items
        m (same_container lib) refl checked accepted in
    let (made, done, (states, there), k) =
      reached lib _ (made_of a lib) (validate a m).1 total kept in
    let (_, _, before, after) =
      new_all-Tied (instances_of a lib) items a.state (validate a m).1 made.0 states
        (done ∙ ap (λ s. ok (made.0, s)) there) in
    (
      states,
      new_from a m h
          ∙ ap (λ l. ((made_of a l >>= λ made. pure made.1) (validate a m).1).0) kept
          ∙ containers_taken (made_of a lib) (validate a m).1 made done
          ∙ ap (λ s. ok s) there,
      before,
      after,
    )
