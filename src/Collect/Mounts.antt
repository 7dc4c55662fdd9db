-- ===== src/Collect/Mounts.antt =====
-- A line of /proc/mounts: `ngx_http_monitoring_next_mount_field`,
-- `ngx_http_monitoring_copy_mount_field`, `ngx_http_monitoring_skip_fs`, and what
-- `ngx_http_monitoring_collect_filesystems` does with them
-- (src/ngx_http_monitoring_collectors.c).
pub mod Laws
use ngx_http_monitoring_modu.Prelude.{
  ℕ, zero, suc, ◌+◌, ◌-◌, ◌*◌, ◌%◌, Bool, false, ◌&&◌, ◌||◌, List, [], ◌∷◌, Option, none, some,
  bytes_eq, codes, get_or, drop, leb, ◌==◌, if◌then◌else◌,
}
use ngx_http_monitoring_modu.State.{name_len}
use ngx_http_monitoring_modu.Collect.Libc.{c_string}

-- `sizeof(mount_path)`.
abbrev pub mount_path_len : ℕ
mount_path_len = 4096

abbrev pub is_blank : ℕ → Bool
is_blank c = c == 32 || c == 9

abbrev pub is_line_end : ℕ → Bool
is_line_end c = c == 0 || c == 10

-- The end of a list is the NUL of the line.
abbrev pub skip_blanks : List ℕ → List ℕ
skip_blanks [] = []
skip_blanks (c ∷ text) = if is_blank c then skip_blanks text else c ∷ text

abbrev pub field_text : List ℕ → List ℕ
field_text [] = []
field_text (c ∷ text) = if is_line_end c || is_blank c then [] else c ∷ field_text text

-- What is behind the field and the one byte that ends it, which is set to NUL.
abbrev pub after_field : List ℕ → List ℕ
after_field [] = []
after_field (c ∷ text) =
    if c == 0 then c ∷ text else if c == 10 || is_blank c then text else after_field text

abbrev pub field_at : List ℕ → Option (List ℕ) × List ℕ
field_at [] = (none, [])
field_at (c ∷ text) =
    if is_line_end c
    then (none, c ∷ text)
    else (some (field_text (c ∷ text)), after_field (c ∷ text))

-- The field, if there is one, and the new cursor.
unfoldable pub next_mount_field : List ℕ → Option (List ℕ) × List ℕ
next_mount_field cursor = field_at (skip_blanks cursor)

abbrev pub is_octal : ℕ → Bool
is_octal c = leb 48 c && leb c 55

-- The byte for `src[0]`, which is `c`, and what is read next.
unfoldable pub next_byte : ℕ → List ℕ → ℕ × List ℕ
next_byte c src =
    let c1 = get_or src 0 0 in
    let c2 = get_or src 1 0 in
    let c3 = get_or src 2 0 in
    if c == 92 && is_octal c1 && is_octal c2 && is_octal c3
    then (((c1 - 48) * 64 + (c2 - 48) * 8 + (c3 - 48)) % 256, drop 3 src)
    else (c, src)

-- The loop, with `last - p` bytes of room.
pub copy_bytes : ℕ → List ℕ → List ℕ
unfolding next_byte
copy_bytes zero src = []
copy_bytes (suc room) [] = []
copy_bytes (suc room) (c ∷ src) =
    let rest = copy_bytes room (next_byte c src).1 in
    if c == 0 then [] else (next_byte c src).0 ∷ rest

-- The bytes of `dst` before the NUL that is put last; without any room it keeps its own.
unfoldable pub copy_mount_field : List ℕ → ℕ → List ℕ → List ℕ
unfolding copy_bytes
copy_mount_field dst size src = if size == 0 then dst else copy_bytes (size - 1) src

abbrev pub skipped_types : List (List ℕ)
skipped_types =
    codes "proc"
    ∷ codes "sysfs"
    ∷ codes "devtmpfs"
    ∷ codes "devpts"
    ∷ codes "securityfs"
    ∷ codes "cgroup"
    ∷ codes "cgroup2"
    ∷ codes "pstore"
    ∷ codes "autofs"
    ∷ codes "mqueue"
    ∷ codes "hugetlbfs"
    ∷ codes "debugfs"
    ∷ codes "tracefs"
    ∷ codes "configfs"
    ∷ codes "fusectl"
    ∷ codes "binfmt_misc"
    ∷ codes "rpc_pipefs"
    ∷ codes "overlay"
    ∷ codes "nsfs"
    ∷ []

abbrev pub mem_text : List ℕ → List (List ℕ) → Bool
mem_text text [] = false
mem_text text (t ∷ texts) = bytes_eq text t || mem_text text texts

unfoldable pub skip_fs : List ℕ → Bool
skip_fs type = mem_text type skipped_types

abbrev pub first_is_nul : List ℕ → Bool
first_is_nul text = get_or text 0 0 == 0

unfoldable pub copied_mount : List ℕ → List ℕ → Option (List ℕ × List ℕ)
unfolding skip_fs
copied_mount mount_path fs_type =
    if first_is_nul mount_path || first_is_nul fs_type
    then none
    else if skip_fs (c_string fs_type)
    then none
    else some (c_string mount_path, c_string fs_type)

-- The path and the type of a file system that is not skipped.
unfoldable pub mount_of :
    Option (List ℕ) → Option (List ℕ) → Option (List ℕ) → Option (List ℕ × List ℕ)
unfolding copy_mount_field copied_mount
mount_of none mount type = none
mount_of (some source) none type = none
mount_of (some source) (some mount) none = none
mount_of (some source) (some mount) (some type) =
    copied_mount (copy_mount_field [] mount_path_len mount) (copy_mount_field [] name_len type)

-- The three fields of a line.
unfoldable pub mount_entry : List ℕ → Option (List ℕ × List ℕ)
unfolding next_mount_field mount_of
mount_entry line =
    let source = next_mount_field line in
    let mount = next_mount_field source.1 in
    let type = next_mount_field mount.1 in mount_of source.0 mount.0 type.0
