-- ===== src/Container/Configured/Access.antt =====
-- What an object of pkg/container/hostconfiguredcontainer.go points to.
use libflexkube.Base.{ℕ}
use libflexkube.Base.Exec.{Exec, must, gets, ◌>>=◌}
use libflexkube.Container.Types.{ContainerConfig}
use libflexkube.Memory.{Memory, ContainerInstance}

-- The container of an object, where nil panics.
unfoldable pub container_of : ℕ → Exec Memory ℕ
container_of h = do hcc ← gets (λ m. m.hccs h); must hcc.container

unfoldable pub config_of : ℕ → Exec Memory ContainerConfig
config_of h = do c ← container_of h; gets (λ m. (m.containers c).config)

unfoldable pub config_container_of : ℕ → Exec Memory ContainerInstance
config_container_of h = do hcc ← gets (λ m. m.hccs h); must hcc.config_container
