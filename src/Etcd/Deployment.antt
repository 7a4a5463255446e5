-- ===== src/Etcd/Deployment.antt =====
-- The deployment of an etcd cluster: membership first, then the containers (pkg/etcd/cluster.go).
use libflexkube.Base.{String, not, List, [], ◌∷◌, if◌then◌else◌, append, is_empty, ◌&&◌}
use libflexkube.Base.Map.{Map, has}
use libflexkube.Base.Fault.{errorf}
use libflexkube.Base.Exec.{Exec, Action, pure, fail, wrap, gets, zoom, ◌>>=◌, ◌>>◌}
use libflexkube.Container.State.{ContainersState}
use libflexkube.Container.Containers.{Containers, on_memory}
use libflexkube.Container.Containers
use libflexkube.Container.Deploy
use libflexkube.Container.Exported.{to_exported}
use libflexkube.Memory.{on_world}
use libflexkube.Etcd.{MemberConfig, EtcdClient, close, ask, update_members}
use libflexkube.Etcd.Member.{forward_endpoints, get_etcd_client}

-- etcd.cluster, with the client that its calls go to.
pub record Cluster : Type 0 where
  pub containers : Containers
  pub members : Map MemberConfig
  pub client : EtcdClient

unfoldable pub on_containers {ℓ} : {A : Type ℓ} → Exec Containers A → Exec Cluster A
unfolding zoom
on_containers m = zoom (λ c. c.containers) (λ c s. record c { containers = s }) m

unfoldable pub on_client {ℓ} : {A : Type ℓ} → Exec EtcdClient A → Exec Cluster A
unfolding zoom
on_client m = zoom (λ c. c.client) (λ c s. record c { client = s }) m

-- cluster.CheckCurrentState
unfoldable pub check_current_state : Action Cluster
check_current_state =
    wrap "checking current state of etcd cluster" (on_containers Containers.check_current_state)

-- The loop of getExistingEndpoints, with the previous state.
unfoldable pub existing_endpoints : ContainersState → Map MemberConfig → List String
existing_endpoints previous [] = []
existing_endpoints previous ((n, m) ∷ members) =
    let rest = existing_endpoints previous members in
    if not (has previous n) then rest else append m.peer_address ":2379" ∷ rest

-- cluster.firstMember
unfoldable pub first_member : Map MemberConfig → Exec Cluster MemberConfig
first_member [] = fail (errorf "no members defined")
first_member ((n, m) ∷ members) = pure m

-- cluster.getClient
unfoldable pub get_client : Action Cluster
get_client = do
  members ← gets (λ c. c.members)
  m ← wrap "getting member object" (first_member members)
  e ← on_containers to_exported
  endpoints ← wrap "forwarding endpoints" (
      on_containers
        (on_memory (on_world (forward_endpoints m (existing_endpoints e.previous_state members)))))
  lib ← gets (λ c. c.containers.memory.world.lib)
  on_client (get_etcd_client lib m endpoints)

-- The changes of membership before the containers are deployed.
unfoldable pub update_membership : ContainersState → ContainersState → Action Cluster
update_membership previous desired = do
  wrap "getting etcd client" get_client
  members ← gets (λ c. c.members)
  wrap "updating members before deploying" (on_client (update_members members previous desired))
  wrap "closing etcd client" (on_client (ask close))

-- cluster.Deploy
unfoldable pub deploy : Action Cluster
deploy = do
  e ← on_containers to_exported
  if not (is_empty e.previous_state) && not (is_empty e.desired_state)
      then update_membership e.previous_state e.desired_state
      else pure tt
  on_containers Deploy.deploy
