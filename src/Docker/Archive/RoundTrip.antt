-- ===== src/Docker/Archive/RoundTrip.antt =====
-- What comes back from an archive that was written (pkg/container/runtime/docker/docker.go).
use mathlib.Core.List
use libflexkube.Base.{String, true, false, List, [], ◌∷◌, ◌++◌, ◌≡◌, append}
use libflexkube.Base.Fault.{Result, success, failure}
use libflexkube.Container.Types.{File}
use libflexkube.World.{Library, TarEntry, TarStream, eof, entry}
use libflexkube.Docker.Archive.{files_to_tar, untar, header_of, file_of, is_directory}

-- Reading an archive with these entries.
unfoldable pub stream_of : List TarEntry → TarStream
stream_of [] = eof
stream_of (t ∷ ts) = entry t (stream_of ts)

-- The files that come back: those that are not directories, with the buffer so far in front of each
-- content.
unfoldable pub received : Library → String → List File → List File
unfolding file_of header_of
received lib buf [] = []
received lib buf (f ∷ files) = elim (is_directory f.path) [
  | true ↦ received lib buf files
  | false ↦
      file_of lib (header_of lib f) (append buf f.content)
      ∷ received lib (append buf f.content) files
]

-- The entries of a result, where there are some.
entries_or : Result (List TarEntry) → List TarEntry
entries_or (success ts) = ts
entries_or (failure e) = []

module _ (lib : Library) where
  abbrev Comes : List File → Type 0
  Comes files =
      (buf : String) (got : List File) (entries : List TarEntry)
      → files_to_tar lib files ≡ success entries
      → untar lib buf got (stream_of entries) ≡ success (got ++ received lib buf files)

  abbrev written : File → TarEntry
  unfolding header_of
  written f = record { header = header_of lib f; content = success f.content }
