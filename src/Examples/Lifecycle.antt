-- ===== src/Examples/Lifecycle.antt =====
-- The theorems on single containers at concrete inputs.
use libflexkube.Base.{◌≡◌, refl}
use libflexkube.Base.Exec.{ok}
use libflexkube.Examples.Opened.{open_host, open_docker, open_single}
use libflexkube.Examples.Inputs.{memory}
use libflexkube.Container.Single.{delete}

deletes : (delete 1 memory).0 ≡ ok tt
unfolding open_host open_docker open_single
deletes = refl
