-- ===== src/Docker.antt =====
-- pkg/container/runtime/docker/docker.go: the container runtime, by calls of the Docker client.
-- The standard timeout and the API version, which are constants of every call, are left out.
pub mod Convert
pub mod Archive
use libflexkube.Base.{
  ℕ, String, Bool, true, false, not, Option, none, some, List, [], ◌∷◌, ◌++◌, ◌==◌, if◌then◌else◌,
}
use libflexkube.Base.Map.{Map, insert}
use libflexkube.Base.Fault.{Error, wrapf, wrapf_arg, Result, success, failure, is_err_not_found}
use libflexkube.Base.Exec.{Exec, Action, pure, fail, lift, must, wrap, wrap_arg, ◌>>=◌, ◌>>◌, gets}
use libflexkube.Container.Types.{ContainerConfig, ContainerStatus, File}
use libflexkube.World.{
  World, Client, ImageSummary, PathStat, TarStream, new_client, image_list, image_pull,
  discard_pull, close_pull, container_create, container_start, container_stop, container_inspect,
  container_remove, copy_to_container, copy_from_container, close_copy, stat_path, perform, attempt,
}
use Convert.{convert_container_config, sanitize_image_name}
use Archive.{files_to_tar, tar_to_files}

-- docker.Config; `ClientGetter`, which only tests set, is the `new_client` of the world.
pub record Config : Type 0 where
  pub host : String

-- Config.SetAddress
unfoldable pub set_address : Config → String → Config
set_address c s = record c { host = s }

-- Config.GetAddress, of the client library's default address and the configuration
unfoldable pub get_address : String → Config → String
get_address default_docker_host c = if not (c.host == "") then c.host else default_docker_host

unfoldable pub host_option : Config → Option String
host_option c = if not (c.host == "") then some c.host else none

-- Config.New and getDockerClient
unfoldable pub new : Config → Exec World Client
new c = do
  wrap "creating Docker client" (perform (new_client (host_option c)))
  pure (record { host = host_option c })

tagged : String → List String → Bool
tagged name [] = false
tagged name (tag ∷ tags) = if tag == name then true else tagged name tags

-- The loops of imageID: the first image with the tag, or "".
find_image : String → List ImageSummary → String
unfolding tagged
find_image name [] = ""
find_image name (i ∷ images) = if tagged name i.repo_tags then i.id else find_image name images

unfoldable pub image_id : Client → String → Exec World String
unfolding find_image
image_id cli image = do
  images ← wrap "listing docker images" (perform (image_list cli))
  pure (find_image (sanitize_image_name image) images)

unfoldable pub pull_image : Client → String → Action World
pull_image cli image = do
  wrap "pulling image" (perform (image_pull cli image))
  wrap "discarding pulling messages" (perform (discard_pull cli image))
  perform (close_pull cli image)

unfoldable pub pull_image_if_not_present : Client → String → Action World
pull_image_if_not_present cli image = do
  id ← wrap "checking for image presence" (image_id cli image)
  if not (id == "") then pure tt else pull_image cli image

unfoldable pub create : Client → ContainerConfig → Exec World String
create cli config = do
  wrap "pulling image" (pull_image_if_not_present cli config.image)
  lib ← gets (λ w. w.lib)
  converted ←
      wrap "converting container config to Docker configuration"
        (lift (convert_container_config lib config))
  wrap "creating container" (perform (container_create cli converted.0 converted.1 config.name))

unfoldable pub start : Client → String → Action World
start cli id = perform (container_start cli id)

unfoldable pub stop : Client → String → Action World
stop cli id = perform (container_stop cli id)

unfoldable pub inspected : String → Result String → Exec World ContainerStatus
inspected id (success text) = pure (record { id = id; status = text })
inspected id (failure e) =
    if is_err_not_found e
    then pure (record { id = ""; status = "" })
    else fail (wrapf "inspecting container" e)

unfoldable pub status : Client → String → Exec World ContainerStatus
unfolding inspected
status cli id = do reply ← attempt (container_inspect cli id); inspected id reply

unfoldable pub delete : Client → String → Action World
delete cli id = perform (container_remove cli id)

unfoldable pub copy : Client → String → List File → Action World
copy cli id files = do
  lib ← gets (λ w. w.lib)
  archive ← wrap "packing files to TAR archive" (lift (files_to_tar lib files))
  perform (copy_to_container cli id "/" archive)

-- The result of one stat call: none where there is no such path.
statted : String → Result PathStat → Exec World PathStat
statted path (success s) = pure s
statted path (failure e) =
    if is_err_not_found e
    then pure (record { name = ""; mode = 0 })
    else fail (wrapf_arg "statting path" path e)

-- The loop of Stat, with the result so far.
stat_from : Map ℕ → Client → String → List String → Exec World (Map ℕ)
unfolding statted
stat_from result cli id [] = pure result
stat_from result cli id (path ∷ paths) = do
  reply ← attempt (stat_path cli id path)
  s ← statted path reply
  stat_from (if not (s.name == "") then insert result path s.mode else result) cli id paths

unfoldable pub stat : Client → String → List String → Exec World (Map ℕ)
unfolding stat_from
stat cli id paths = stat_from [] cli id paths

copied : Result (Option TarStream) → Exec World (Option TarStream)
copied (success reader) = pure reader
copied (failure e) =
    if is_err_not_found e then pure none else fail (wrapf "copying from container" e)

head? : List File → Option File
head? [] = none
head? (f ∷ fs) = some f

-- The first file of an archive; `filesFromTar[0]` panics where there is none.
read_first : Client → String → String → TarStream → Exec World File
unfolding head?
read_first cli id path stream = do
  lib ← gets (λ w. w.lib)
  files ← wrap_arg "extracting file from archive" path (lift (tar_to_files lib stream))
  wrap "closing file" (perform (close_copy cli id path))
  file ← must (head? files)
  pure (record file { path = path })

-- A path that does not exist adds nothing.
read_one : Client → String → String → List File → Option TarStream → Exec World (List File)
unfolding read_first
read_one cli id path files none = pure files
read_one cli id path files (some stream) = do
  file ← read_first cli id path stream
  pure (files ++ file ∷ [])

read_from : List File → Client → String → List String → Exec World (List File)
unfolding copied read_one
read_from files cli id [] = pure files
read_from files cli id (path ∷ paths) = do
  reply ← attempt (copy_from_container cli id path)
  reader ← copied reply
  files' ← read_one cli id path files reader
  read_from files' cli id paths

unfoldable pub read : Client → String → List String → Exec World (List File)
unfolding read_from
read cli id paths = read_from [] cli id paths
