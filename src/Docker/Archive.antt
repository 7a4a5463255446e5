-- ===== src/Docker/Archive.antt =====
-- Files to and from tar archives (pkg/container/runtime/docker/docker.go).
pub mod RoundTrip
use Prim.Native.String.{len, slice}
use libflexkube.Base.{
  String, Bool, true, false, not, none, some, Option, List, [], ◌∷◌, ◌++◌, ◌-◌, ◌==◌, ◌&&◌, append,
  if◌then◌else◌,
}
use libflexkube.Base.Fault.{Error, errorf, wrapf, Result, success, failure}
use libflexkube.Container.Types.{File}
use libflexkube.Util.{ℤ, pos, pick_string}
use libflexkube.World.{Library, TarHeader, TarEntry, TarStream, eof, broken, entry}

-- strconv.Atoi of a user or group; a text that is no number leaves the field 0.
numeric : Option ℤ → ℤ
numeric none = pos 0
numeric (some n) = n

-- tar.Writer makes a directory of an entry without a type whose name ends in a slash.
unfoldable pub is_directory : String → Bool
is_directory path = slice path (len path - 1) (len path) == "/"

-- The header as tar.Writer writes it; the code leaves its type open.
header_of : Library → File → TarHeader
unfolding numeric
header_of lib f = record {
  name = f.path;
  regular = not (is_directory f.path);
  mode = f.mode;
  uname = f.user;
  gname = f.group;
  uid = numeric (lib.atoi f.user);
  gid = numeric (lib.atoi f.group);
}

-- tar.ErrWriteTooLong
abbrev write_too_long : Error
write_too_long = errorf "archive/tar: write too long"

-- One round of the loop of filesToTar. A directory takes no content; the content of any other file
-- has the length that its header says, and writing it into a buffer cannot fail.
write_file : Library → File → Result TarEntry
unfolding header_of
write_file lib f = elim (lib.header_error (header_of lib f)) [
  | some e ↦ failure (wrapf "writing header" e)
  | none ↦
      if is_directory f.path && not (f.content == "")
      then failure (wrapf "writing content" write_too_long)
      else success (record { header = header_of lib f; content = success f.content })
]

-- filesToTar; closing the archive cannot fail, since each entry is complete.
unfoldable pub files_to_tar : Library → List File → Result (List TarEntry)
unfolding write_file
files_to_tar lib [] = success []
files_to_tar lib (f ∷ files) =
    let rest = files_to_tar lib files in
    elim (write_file lib f) [
      | failure e ↦ failure e
      | success t ↦ elim rest [ success entries ↦ success (t ∷ entries) | failure e ↦ failure e ]
    ]

file_of : Library → TarHeader → String → File
file_of lib h content = record {
  path = "";
  content = content;
  mode = h.mode;
  user = pick_string (lib.itoa h.uid ∷ h.uname ∷ []);
  group = pick_string (lib.itoa h.gid ∷ h.gname ∷ []);
}

-- The loop of tarToFiles, with the buffer and the files so far. The buffer is never emptied.
unfoldable pub untar : Library → String → List File → TarStream → Result (List File)
unfolding file_of
untar lib buf files eof = success files
untar lib buf files (broken e) = failure (wrapf "unpacking tar header" e)
untar lib buf files (entry t rest) = elim t.header.regular [
  | false ↦ untar lib buf files rest
  | true ↦ elim t.content [
    | failure e ↦ failure (wrapf "reading from tar archive" e)
    | success text ↦
        untar lib (append buf text) (files ++ file_of lib t.header (append buf text) ∷ []) rest
  ]
]

unfoldable pub tar_to_files : Library → TarStream → Result (List File)
unfolding untar
tar_to_files lib stream = untar lib "" [] stream
