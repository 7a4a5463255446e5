-- ===== src/Examples/Runs.antt =====
-- The theorems at concrete inputs.
use libflexkube.Base.{String, true, none, some, List, [], ◌∷◌, ◌≡◌, ◌↔◌, refl, is_some, not}
use libflexkube.Base.Fault.{Error, errorf, wrapf, Result, failure}
use libflexkube.Base.Map.{Map, has, contains}
use libflexkube.Base.Exec.{ok, err, pure, ◌>>=◌}
use libflexkube.Examples.Opened.{
  open_util, open_host, open_docker, open_single, open_hcc, open_deploy,
}
use libflexkube.Examples.Inputs.{containers, reply, memory, world, direct_host}
use libflexkube.Host.Config.{Host, SshConfig, build_ssh, build_config, empty_ssh}
use libflexkube.Host.Merge.{build_config_one}
use libflexkube.Docker
use libflexkube.World.{Call, Reply, new_client}
use libflexkube.Memory.{Memory, HccObject}
use libflexkube.Container.Forwarding.{connect_and_forward, with_forwarded_runtime}
use libflexkube.Container.Forwarding.Restore.{
  with_forwarded_runtime-restores, forwarded_address_left, old_address,
}
use libflexkube.Container.Containers.{ensure_configured, files_to_update}
use libflexkube.Container.Containers.Drift.{Differs, files_to_update_iff}
use libflexkube.Container.Containers.Files.{HasFiles, ensure_configured-files}
use libflexkube.Container.Deploy.{deploy}
use libflexkube.Container.Deploy.Theorems.{deploy-names}

deploys : (deploy containers).0 ≡ ok tt
unfolding open_util open_host open_docker open_single open_hcc open_deploy
deploys = refl

deploy-names_example :
    has (deploy containers).1.current_state "old" ≡ has containers.desired_state "old"
deploy-names_example = deploy-names containers deploys "old"

configures : (ensure_configured "new" containers).0 ≡ ok tt
unfolding open_util open_host open_docker open_single open_hcc open_deploy
configures = refl

ensure_configured-files_example :
    HasFiles "new" (("/etc/etcd.conf", "a") ∷ []) (ensure_configured "new" containers).1
unfolding open_util
ensure_configured-files_example = ensure_configured-files containers "new" 0 refl configures

abbrev current : HccObject
current = record (memory.hccs 1) { config_files = ("/etc/etcd.conf", "b") ∷ [] }

files_to_update_iff_example :
    (files : List String) × (files_to_update (memory.hccs 0) (some current) memory
      ≡ (ok files, memory))
    × ((contains files "/etc/etcd.conf" ≡ true)
        ↔ Differs (memory.hccs 0).config_files current.config_files "/etc/etcd.conf")
files_to_update_iff_example =
    files_to_update_iff (memory.hccs 0) current memory (λ paths path. refl) "/etc/etcd.conf"

forwards : (with_forwarded_runtime 1 (pure tt) memory).0 ≡ ok tt
unfolding open_util open_host open_docker open_single open_hcc open_deploy
forwards = refl

with_forwarded_runtime-restores_example :
    ((with_forwarded_runtime 1 (pure tt) memory).1.configs 1
      ≡ record { host = old_address 1 memory })
    × (((with_forwarded_runtime 1 (pure tt) memory).1.containers 1).runtime
        ≡ record { host = Docker.host_option (record { host = old_address 1 memory }) })
unfolding ◌>>=◌
with_forwarded_runtime-restores_example =
    with_forwarded_runtime-restores 1 1 memory (pure tt) refl (λ t. refl) forwards

abbrev admin : SshConfig
admin = record empty_ssh { user = "admin"; address = "10.0.0.1" }

abbrev site : SshConfig
site = record empty_ssh { user = "core"; password = "secret" }

-- The memory in a world that makes no client.
abbrev refused : Error
refused = errorf "refused"

unfoldable no_client : List Call → (c : Call) → Result (Reply c)
no_client h (new_client host) = failure refused
no_client h c = reply h c

abbrev offline : Memory
offline = record memory {
  world = record world { answer = no_client };
  hccs = λ a. record (memory.hccs a) {
    host = record { direct_config = none; ssh_config = some (build_ssh (some admin) (some site)) };
  };
}

abbrev forwarded_memory : Memory
forwarded_memory = (connect_and_forward 1 (old_address 1 offline) offline).1

forwarded_address_left_example :
    ((with_forwarded_runtime 1 (pure tt) offline).0
      ≡ err (wrapf "initializing forwarded runtime" (wrapf "creating Docker client" refused)))
    × ((with_forwarded_runtime 1 (pure tt) offline).1.configs 1
        ≡ record { host = "unix://@10.0.0.1:0-id" })
unfolding open_util open_host open_docker open_single open_hcc open_deploy no_client build_ssh
forwarded_address_left_example =
    forwarded_address_left 1 1 offline forwarded_memory (pure tt) "unix://@10.0.0.1:0-id"
      (wrapf "creating Docker client" refused) refl refl refl

abbrev remote : Host
remote = record { direct_config = none; ssh_config = some admin }

abbrev site_host : Host
site_host = record { direct_config = none; ssh_config = some site }

build_config_one_example :
    is_some (build_config remote direct_host).direct_config
    ≡ not (is_some (build_config remote direct_host).ssh_config)
build_config_one_example = build_config_one remote direct_host refl

abbrev files : Map String
files = ("b", "1") ∷ ("a", "2") ∷ []
