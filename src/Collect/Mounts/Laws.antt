-- ===== src/Collect/Mounts/Laws.antt =====
-- What a line of /proc/mounts that the kernel has written gives
-- (src/ngx_http_monitoring_collectors.c).
use ngx_http_monitoring_modu.Prelude.{
  ℕ, zero, suc, ◌+◌, ◌/◌, ◌%◌, ◌≤◌, ◌<◌, ◌≡◌, refl, ap, Bool, true, false, ◌||◌, List, [], ◌∷◌,
  ◌++◌, ◌-◌, arith, some, length, All, ◌==◌, if◌then◌else◌, Bool-cases, inl, inr, ◌≢◌,
}
use ngx_http_monitoring_modu.State.{name_len}
use ngx_http_monitoring_modu.Collect.Libc.{c_string}
use ngx_http_monitoring_modu.Collect.Mounts.{
  mount_path_len, is_blank, is_line_end, field_text, after_field, next_mount_field, next_byte,
  copy_bytes, copy_mount_field, skip_fs, first_is_nul, copied_mount, mount_of, mount_entry,
}

-- A byte other than NUL.
abbrev pub IsByte : ℕ → Type 0
IsByte c = (1 ≤ c) × (c < 256)

-- `c` as a backslash and three octal digits.
abbrev octal : ℕ → List ℕ
octal c = 92 ∷ (48 + c / 64) ∷ (48 + c / 8 % 8) ∷ (48 + c % 8) ∷ []

-- Which bytes end a field.
abbrev ends : ℕ → Bool
ends c = is_line_end c || is_blank c

-- The bytes that `esc` picks are written in octal.
abbrev pub mangle : (ℕ → Bool) → List ℕ → List ℕ
mangle esc [] = []
mangle esc (c ∷ path) = (if esc c then octal c else c ∷ []) ++ mangle esc path

-- What has to be written in octal: space, tab, newline and backslash.
abbrev pub Covers : (ℕ → Bool) → Type 0
Covers esc = (esc 32 ≡ true) × (esc 9 ≡ true) × (esc 10 ≡ true) × (esc 92 ≡ true)

next_byte-octal :
    (c : ℕ) (rest : List ℕ)
    → c < 256
    → next_byte 92 ((48 + c / 64) ∷ (48 + c / 8 % 8) ∷ (48 + c % 8) ∷ rest) ≡ (c, rest)
unfolding next_byte
next_byte-octal c rest h = ground arith

next_byte-plain : (c : ℕ) (rest : List ℕ) → c ≢ 92 → next_byte c rest ≡ (c, rest)
unfolding next_byte
next_byte-plain c rest h = ground arith

-- A byte that does not end a field.
abbrev IsPlain : ℕ → Type 0
IsPlain c = ends c ≡ false

octal_digit-IsPlain : (n : ℕ) → n < 8 → IsPlain (48 + n)
octal_digit-IsPlain n h = ground arith

field_text-append : (xs rest : List ℕ) → All IsPlain xs → field_text (xs ++ (32 ∷ rest)) ≡ xs
field_text-append [] rest p = refl
field_text-append (c ∷ xs) rest p = rw (p.0) (ap (λ t. c ∷ t) (field_text-append xs rest p.1))

after_field-append : (xs rest : List ℕ) → All IsPlain xs → after_field (xs ++ (32 ∷ rest)) ≡ rest
after_field-append [] rest p = refl
after_field-append (c ∷ xs) rest p =
    let nul : (c == 0) ≡ false = ground (arith, p.0) in
    let other : (c == 10 || is_blank c) ≡ false = ground (arith, p.0) in
    rw (nul, other) (after_field-append xs rest p.1)

-- A field that is there, with the space behind it, is read.
next_mount_field-append :
    (xs rest : List ℕ)
    → All IsPlain xs
    → xs ≢ []
    → next_mount_field (xs ++ (32 ∷ rest)) ≡ (some xs, rest)
unfolding next_mount_field
next_mount_field-append [] rest p ne = absurd (ne refl)
next_mount_field-append (c ∷ xs) rest p ne =
    let blank : is_blank c ≡ false = ground (arith, p.0) in
    let line_end : is_line_end c ≡ false = ground (arith, p.0) in
    let text = field_text-append (c ∷ xs) rest p in
    let after = after_field-append (c ∷ xs) rest p in ground arith

c_string_id : (xs : List ℕ) → All IsByte xs → c_string xs ≡ xs
c_string_id [] b = refl
c_string_id (c ∷ xs) b =
    let nul : (c == 0) ≡ false = ground arith in rw (nul) (ap (λ t. c ∷ t) (c_string_id xs b.1))

module _ (esc : ℕ → Bool) (covers : Covers esc) where
  uncovered-ne : (c : ℕ) → esc c ≡ false → c ≢ 92
  uncovered-ne c e q = cc (covers.3, e, q)

  uncovered-ends : (c : ℕ) → IsByte c → esc c ≡ false → ends c ≡ false
  uncovered-ends c b e =
      let n1 : c ≢ 32 = λ q. cc (covers.0, e, q) in
      let n2 : c ≢ 9 = λ q. cc (covers.1, e, q) in
      let n3 : c ≢ 10 = λ q. cc (covers.2, e, q) in ground arith

  copy_bytes-mangle :
      (room : ℕ) (path : List ℕ)
      → All IsByte path
      → length path ≤ room
      → copy_bytes room (mangle esc path) ≡ path
  unfolding copy_bytes
  copy_bytes-mangle zero [] b h = refl
  copy_bytes-mangle zero (c ∷ path) b h = absurd (omega arith)
  copy_bytes-mangle (suc room) [] b h = refl
  copy_bytes-mangle (suc room) (c ∷ path) b h =
      let ih = copy_bytes-mangle room path b.1 (omega arith) in
      elim (Bool-cases (esc c)) [
        | inl e ↦ rw (e, next_byte-octal c (mangle esc path) b.0.1) (ap (λ xs. c ∷ xs) ih)
        | inr e ↦
            let nul : (c == 0) ≡ false = ground arith in
            rw (e, nul, next_byte-plain c (mangle esc path) (uncovered-ne c e))
              (ap (λ xs. c ∷ xs) ih)
      ]

  mangle-IsPlain : (path : List ℕ) → All IsByte path → All IsPlain (mangle esc path)
  mangle-IsPlain [] b = tt
  mangle-IsPlain (c ∷ path) b = elim (Bool-cases (esc c)) [
    | inl e ↦ rw (e) (
      refl,
      (
        octal_digit-IsPlain (c / 64) (omega (arith, b.0.1)),
        (
          octal_digit-IsPlain (c / 8 % 8) (omega arith),
          (octal_digit-IsPlain (c % 8) (omega arith), mangle-IsPlain path b.1),
        ),
      ),
    )
    | inr e ↦ rw (e) (uncovered-ends c b.0 e, mangle-IsPlain path b.1)
  ]

  mangle-ne : (path : List ℕ) → path ≢ [] → mangle esc path ≢ []
  mangle-ne [] h q = h refl
  mangle-ne (c ∷ path) h q = ground arith

  copy_mount_field-mangle :
      (size : ℕ) (path : List ℕ)
      → All IsByte path
      → length path < size
      → copy_mount_field [] size (mangle esc path) ≡ path
  unfolding copy_mount_field
  copy_mount_field-mangle size path b h =
      let some_room : (size == 0) ≡ false = ground arith in
      rw (some_room) (copy_bytes-mangle (size - 1) path b (omega arith))

  first_is_nul-IsByte : (path : List ℕ) → path ≢ [] → All IsByte path → first_is_nul path ≡ false
  first_is_nul-IsByte [] ne b = absurd (ne refl)
  first_is_nul-IsByte (c ∷ path) ne b = ground arith

  mount_of-mangle :
      (source mount type : List ℕ)
      → All IsByte mount
      → All IsByte type
      → mount ≢ []
      → type ≢ []
      → length mount < mount_path_len
      → length type < name_len
      → skip_fs type ≡ false
      → mount_of (some source) (some (mangle esc mount)) (some (mangle esc type))
        ≡ some (mount, type)
  unfolding mount_of copied_mount
  mount_of-mangle source mount type bm bt nm nt lm lt k = rw (
    copy_mount_field-mangle mount_path_len mount bm lm,
    copy_mount_field-mangle name_len type bt lt,
    first_is_nul-IsByte mount nm bm,
    first_is_nul-IsByte type nt bt,
    c_string_id mount bm,
    c_string_id type bt,
    k,
  )

  -- A line of three fields, each with a space behind it and with at least the bytes space, tab,
  -- newline and backslash written in octal, gives back the path and the type as they were, whatever
  -- follows: if the fields have bytes other than NUL and at least one, the path and the type fit
  -- their buffers, and the type is none that is skipped.
  pub mount_entry-mangle :
      (source mount type rest : List ℕ)
      → All IsByte source
      → All IsByte mount
      → All IsByte type
      → source ≢ []
      → mount ≢ []
      → type ≢ []
      → length mount < mount_path_len
      → length type < name_len
      → skip_fs type ≡ false
      → mount_entry (
          mangle esc source ++ (32 ∷ (mangle esc mount ++ (32 ∷ (mangle esc type ++ (32 ∷ rest))))))
        ≡ some (mount, type)
  unfolding mount_entry
  mount_entry-mangle source mount type rest bs bm bt ns nm nt lm lt k =
      rw
        (
          next_mount_field-append (mangle esc source)
              (mangle esc mount ++ (32 ∷ (mangle esc type ++ (32 ∷ rest))))
              (mangle-IsPlain source bs) (mangle-ne source ns),
          next_mount_field-append (mangle esc mount) (mangle esc type ++ (32 ∷ rest))
              (mangle-IsPlain mount bm) (mangle-ne mount nm),
          next_mount_field-append (mangle esc type) rest (mangle-IsPlain type bt)
              (mangle-ne type nt),
        )
        (mount_of-mangle (mangle esc source) mount type bm bt nm nt lm lt k)
