-- ===== src/Vm/Capture.antt =====
-- `CaptureIO` of runtime/program_io.py, an implementation of the protocol in memory.
use quin_lang.Program.{Text}
use quin_lang.Vm.Io.{IoValue, OsError, ProgramIo, bytes}
use quin_lang.Prelude.{
  Bool, List, Option, Result, [], err, false, if◌then◌else◌, none, ok, some, true, ℕ, ◌&&◌, ◌++◌,
  ◌==◌, ◌∷◌,
}

-- dict entries in insertion order
abbrev pub Files : Type 0
Files = List (Text × List ℕ)

-- `_pending` holds the lines that `splitlines` made of the input text.
pub record CaptureIo : Type 0 where
  pub chunks : List Text
  pub files : Files
  pub pending : List Text

abbrev pub same_path : Text → Text → Bool
same_path [] [] = true
same_path (a ∷ as') (b ∷ bs) = a == b && same_path as' bs
same_path [] (b ∷ bs) = false
same_path (a ∷ as') [] = false

-- self.files.get(path)
unfoldable pub content_of : Files → Text → Option (List ℕ)
content_of [] path = none
content_of ((p, content) ∷ fs) path = if same_path p path then some content else content_of fs path

-- self.files[path] = content: a known path keeps its place
unfoldable pub put_file : Files → Text → List ℕ → Files
put_file [] path content = (path, content) ∷ []
put_file ((p, old) ∷ fs) path content =
    let rest = put_file fs path content in
    if same_path p path then (p, content) ∷ fs else (p, old) ∷ rest

-- del self.files[path]
unfoldable pub remove_file : Files → Text → Files
remove_file [] path = []
remove_file ((p, old) ∷ fs) path =
    let rest = remove_file fs path in if same_path p path then fs else (p, old) ∷ rest

-- FileNotFoundError(f"No such file: {path}")
abbrev pub not_found : Text → OsError
not_found path = record {
  message =
      b'N' ∷ b'o' ∷ 32 ∷ b's' ∷ b'u' ∷ b'c' ∷ b'h' ∷ 32 ∷ b'f' ∷ b'i' ∷ b'l' ∷ b'e' ∷ b':' ∷ 32
      ∷ path;
  class_name =
      b'F' ∷ b'i' ∷ b'l' ∷ b'e' ∷ b'N' ∷ b'o' ∷ b't' ∷ b'F' ∷ b'o' ∷ b'u' ∷ b'n' ∷ b'd' ∷ b'E'
      ∷ b'r' ∷ b'r' ∷ b'o' ∷ b'r' ∷ [];
}

unfoldable pub capture_write : Text → CaptureIo → CaptureIo
capture_write s io = record io { chunks = io.chunks ++ s ∷ [] }

next_line : List Text → CaptureIo → Text × CaptureIo
next_line [] io = ([], io)
next_line (line ∷ lines) io = (line, record io { pending = lines })

unfoldable pub capture_read_line : CaptureIo → Text × CaptureIo
unfolding next_line
capture_read_line io = next_line io.pending io

unfoldable pub capture_read_file : Text → CaptureIo → Result OsError IoValue × CaptureIo
capture_read_file path io = (
  elim (content_of io.files path) [
    | none ↦ err (not_found path)
    | some content ↦ ok (bytes content)
  ],
  io,
)

-- self.files.get(path, b"")
unfoldable pub old_content : Files → Text → List ℕ
unfolding content_of
old_content files path = elim (content_of files path) [ none ↦ [] | some content ↦ content ]

unfoldable pub capture_write_file :
    Text → List ℕ → Bool → CaptureIo → Result OsError (Unit {0}) × CaptureIo
unfolding old_content
capture_write_file path content append io = (
  ok tt,
  record io {
    files =
        put_file io.files path (if append then old_content io.files path ++ content else content);
  },
)

unfoldable pub capture_file_exists : Text → CaptureIo → Result OsError Bool × CaptureIo
capture_file_exists path io =
    (ok (elim (content_of io.files path) [ none ↦ false | some content ↦ true ]), io)

unfoldable pub capture_delete_file : Text → CaptureIo → Result OsError (Unit {0}) × CaptureIo
capture_delete_file path io = elim (content_of io.files path) [
  | none ↦ (err (not_found path), io)
  | some content ↦ (ok tt, record io { files = remove_file io.files path })
]

abbrev pub capture_io : ProgramIo CaptureIo
capture_io = record {
  write = capture_write;
  read_line = capture_read_line;
  read_file = capture_read_file;
  write_file = capture_write_file;
  file_exists = capture_file_exists;
  delete_file = capture_delete_file;
}
