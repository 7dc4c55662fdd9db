-- ===== src/Collect/Libc.antt =====
-- What the collectors of src/ngx_http_monitoring_collectors.c call of the system, and the reading
-- of a text by lines.
use ngx_http_monitoring_modu.Prelude.{
  ℕ, ◌-◌, Bool, ◌&&◌, List, [], ◌∷◌, Option, none, some, length, leb, ◌==◌, if◌then◌else◌,
}

-- The fields that `collect_diskstats` scans, if all of them are there.
pub record DiskScan : Type 0 where
  pub name : List ℕ
  pub reads : ℕ
  pub sectors_read : ℕ
  pub writes : ℕ
  pub sectors_written : ℕ
  pub io_ms : ℕ

-- `struct statvfs`.
pub record StatVfs : Type 0 where
  pub blocks : ℕ
  pub bfree : ℕ
  pub bavail : ℕ
  pub frsize : ℕ
  pub files : ℕ
  pub ffree : ℕ

-- nginx's counters of a build with NGX_STAT_STUB.
pub record StubStatus : Type 0 where
  pub accepted : ℕ
  pub handled : ℕ
  pub active : ℕ
  pub reading : ℕ
  pub writing : ℕ
  pub waiting : ℕ

-- `read_path path n` is what `open` and one `read` of at most `n` bytes give, and `file_lines path n`
-- what `fopen` and `fgets` with a buffer of `n` bytes give. `scan text format` are the numbers that
-- `sscanf` assigns, in their order, and `scan_doubles` the same for doubles; `scan_name` is `%63s`.
-- `ifaddrs` are the names, each with the NUL that ends it, and the flags of `getifaddrs`. `cpystrn` is the array after `ngx_cpystrn`.
pub record Libc (Double : Type 0) : Type 0 where
  pub read_path : List ℕ → ℕ → Option (List ℕ)
  pub file_lines : List ℕ → ℕ → Option (List (List ℕ))
  pub proc_names : Option (List (List ℕ))
  pub scan : List ℕ → List ℕ → List ℕ
  pub scan_doubles : List ℕ → List ℕ → List Double
  pub scan_name : List ℕ → Option (List ℕ)
  pub scan_disk : List ℕ → Option DiskScan
  pub statvfs : List ℕ → Option StatVfs
  pub ifaddrs : Option (List (Option (List ℕ) × ℕ))
  pub stub_status : Option StubStatus
  pub cpystrn : List ℕ → List ℕ → ℕ → List ℕ
  pub to_word : Double → ℕ

-- A byte array read as a C string.
abbrev pub c_string : List ℕ → List ℕ
c_string [] = []
c_string (c ∷ text) = if c == 0 then [] else c ∷ c_string text

-- `isdigit`.
abbrev pub is_digit : ℕ → Bool
is_digit c = leb 48 c && leb c 57

-- `strchr` at a newline: the byte before the first line.
abbrev pub onto_line : ℕ → List (List ℕ) → List (List ℕ)
onto_line c [] = (c ∷ []) ∷ []
onto_line c (line ∷ lines) = (c ∷ line) ∷ lines

-- The lines that the `while (line != NULL && *line != '\0')` loops go through.
unfoldable pub lines_of : List ℕ → List (List ℕ)
lines_of [] = []
lines_of (c ∷ text) = let lines = lines_of text in if c == 10 then [] ∷ lines else onto_line c lines

module _ {Double : Type 0} (libc : Libc Double) where
  -- The bytes that are read; no bytes stand for a failure.
  unfoldable pub read_file : List ℕ → ℕ → Option (List ℕ)
  read_file path size = if size == 0 then none else libc.read_path path (size - 1)

  -- `read_file(path, buf, sizeof(buf)) <= 0` is no text; else it is used as a C string.
  unfoldable pub read_text : List ℕ → ℕ → Option (List ℕ)
  unfolding read_file
  read_text path size = elim (read_file path size) [
    | none ↦ none
    | some text ↦ if length text == 0 then none else some (c_string text)
  ]

  -- `sscanf(line, format, &value) == 1`.
  abbrev pub scan_value : List ℕ → List ℕ → Option ℕ
  scan_value line format = elim (libc.scan line format) [
    | [] ↦ none
    | ◌∷◌ v more ↦ if length more == 0 then some v else none
  ]
