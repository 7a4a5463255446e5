-- ===== src/Kubelet/Renewed.antt =====
-- Kubelet pools that Validate accepts (pkg/kubelet/pool.go).
use libflexkube.Base.{ℕ, Option, none, some, ◌≡◌, refl, ap, ◌∙◌}
use libflexkube.Base.Map.{Map}
use libflexkube.Base.Exec.{Exec, ok, pure, ◌>>=◌}
use libflexkube.World.{Library}
use libflexkube.Container.Configured.{validate_hcc}
use libflexkube.Container.Single.{validate_container}
use libflexkube.Container.State.{StateMap}
use libflexkube.Memory.{Memory}
use libflexkube.Resource.{numbered, new_all}
use libflexkube.Resource.Total.{reached}
use libflexkube.Resource.Rebuilt.{validated}
use libflexkube.Resource.Renewed.{new_all-Total}
use libflexkube.Resource.Named.{Shown, new_all-Tied, containers_taken}
use libflexkube.Kubelet.{
  Kubelet, KubeletLibrary, new_kubelet, new_kubelet_error, to_host_configured_container,
}
use libflexkube.Kubelet.Pool.{Pool, kubelets_of, validate, new}

same_container :
    (base : Library) (lib : KubeletLibrary) (k : Kubelet) (d d' : ℕ)
    → validate_hcc base (to_host_configured_container lib (new_kubelet k) d)
      ≡ validate_hcc base (to_host_configured_container lib (new_kubelet k) d')
unfolding validate_hcc validate_container to_host_configured_container
same_container base lib k d d' = refl

abbrev made_of : KubeletLibrary → Pool → Exec Memory (Map Kubelet × Option (StateMap × StateMap))
made_of lib p = new_all (kubelets_of p lib) p.state (numbered lib.base 0 p.kubelets)

new_from :
    (lib : KubeletLibrary) (p : Pool) (m : Memory)
    → (validate lib p m).0 ≡ ok none
    → (new lib p m).0 ≡ ((made_of lib p >>= λ made. pure made.1) (validate lib p m).1).0
unfolding new ◌>>=◌
new_from lib p m h = rw h refl

-- Where Validate of a kubelet pool finds no error, New returns containers: the desired ones have
-- exactly the positions of the kubelets as names, the previous ones the names of the state, and no
-- entry is nil.
pub new_pool_after_validate :
    (lib : KubeletLibrary) (p : Pool) (m : Memory)
    → (validate lib p m).0 ≡ ok none
    → (states : StateMap × StateMap) × ((new lib p m).0 ≡ ok (some states))
      × Shown p.state states.0
      × Shown (numbered lib.base 0 p.kubelets) states.1
unfolding validate
new_pool_after_validate lib p m h =
    let base = m.world.lib in
    let items = numbered lib.base 0 p.kubelets in
    let (desired, checked, accepted, kept) =
      validated (kubelets_of p lib) base _ _ _ _ p.state items m refl h in
    let total =
      new_all-Total (kubelets_of p lib) base (new_kubelet_error lib) (λ a v. v) _ _ p.state desired
        items m (same_container base lib) refl checked accepted in
    let (made, done, (states, there), k) =
      reached base _ (made_of lib p) (validate lib p m).1 total kept in
    let (_, _, before, after) =
      new_all-Tied (kubelets_of p lib) items p.state (validate lib p m).1 made.0 states
        (done ∙ ap (λ s. ok (made.0, s)) there) in
    (
      states,
      new_from lib p m h
          ∙ containers_taken (made_of lib p) (validate lib p m).1 made done
          ∙ ap (λ s. ok s) there,
      before,
      after,
    )
