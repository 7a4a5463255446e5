-- ===== src/Container/Types.antt =====
-- pkg/container/types/types.go.
use libflexkube.Base.{ℕ, String, Bool, not, ◌&&◌, List, ◌==◌}
use libflexkube.Base.Map.{Map}
use libflexkube.Util.{ℤ}

-- The id and the status text that the runtime reports.
pub record ContainerStatus : Type 0 where
  pub id : String
  pub status : String

unfoldable pub exists : ContainerStatus → Bool
exists s = not (s.id == "")

unfoldable pub running : ContainerStatus → Bool
unfolding exists
running s = exists s && s.status == "running"

unfoldable pub restarting : ContainerStatus → Bool
unfolding exists
restarting s = exists s && s.status == "restarting"

-- ContainerStatus{}
abbrev pub no_status : ContainerStatus
no_status = record { id = ""; status = "" }

pub record PortMap : Type 0 where
  pub ip : String
  pub port : ℤ
  pub protocol : String

pub record Mount : Type 0 where
  pub source : String
  pub target : String
  pub propagation : String

pub record ContainerConfig : Type 0 where
  pub name : String
  pub image : String
  pub args : List String
  pub entrypoint : List String
  pub ports : List PortMap
  pub mounts : List Mount
  pub privileged : Bool
  pub network_mode : String
  pub pid_mode : String
  pub ipc_mode : String
  pub user : String
  pub group : String
  pub env : Map String

pub record File : Type 0 where
  pub path : String
  pub content : String
  pub mode : ℕ
  pub user : String
  pub group : String
