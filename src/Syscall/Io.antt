-- ===== src/Syscall/Io.antt =====
-- The calls of kernel/syscall/syscall.c that reach the console, the keyboard and the file system.
--
-- A path of the application is read up to its NUL, at most 65536 bytes of it.
use eclipse32_gui.Base.{
  ℕ, ◌*◌, ◌/◌, ◌%◌, ◌^◌, Bool, not, ◌||◌, Option, none, some, List, [], ◌∷◌, ◌++◌, if◌then◌else◌,
  ◌==◌, ltb, length, replicate, min,
}
use eclipse32_gui.Base.Int.{ℤ, pos, negsuc, ltb_ℤ}
use eclipse32_gui.KString.{kstrncpy}
use eclipse32_gui.Fat.{M}
use eclipse32_gui.Fat.Files.{to_int32, fat32_seek}
use eclipse32_gui.Fat.Open.{fat32_open, fat32_close}
use eclipse32_gui.Fat.Transfer.{fat32_read, fat32_write}
use eclipse32_gui.Fat.Listing.{DirEntry, fat32_readdir}
use eclipse32_gui.Fat.Ops.{Stat, fat32_stat, fat32_mkdir, fat32_delete, fat32_rename}
use eclipse32_gui.Syscall.{
  Sys, Result, give, fail, ptr_ok, translate_app_ptr, load_bytes, c_string, reading, storing,
}
use eclipse32_gui.Syscall.Line.{Line, read_line}

-- An action of the file system.
abbrev pub run : {A : Type 0} → M A → Sys → A × Sys
run m s = let (a, fs') = m s.fs in (a, record s { fs = fs' })

abbrev path_at : Sys → ℕ → List ℕ
path_at s p = c_string 65536 p s.mem

abbrev reading_path : ℕ → Sys → Result → Result
reading_path p s r = reading p (path_at s p ++ 0 ∷ []) s r

abbrev bytes32 : ℕ → List ℕ
bytes32 v = v % 256 ∷ v / 256 % 256 ∷ v / 65536 % 256 ∷ v / 16777216 % 256 ∷ []

abbrev bool32 : Bool → List ℕ
bool32 b = (if b then 1 else 0) ∷ 0 ∷ 0 ∷ 0 ∷ []

abbrev pub status : Bool × Sys → Result
status (ok, s) = give (if ok then pos 0 else negsuc 0) s

abbrev pub put_line : ℕ → Option Line → List ℕ → Sys → Result
put_line buf none bytes s = none
put_line buf (some l) bytes s =
    storing buf bytes (pos (length bytes)) (record s { out = s.out ++ l.echo; keys = l.rest })

abbrev rev_onto : List ℕ → List ℕ → List ℕ
rev_onto [] ys = ys
rev_onto (x ∷ xs) ys = rev_onto xs (x ∷ ys)

abbrev pub line_bytes : Option Line → List ℕ
line_bytes none = []
line_bytes (some l) = rev_onto l.kbuf []

unfoldable pub sys_write : ℕ → ℕ → ℕ → Sys → Result
sys_write fd ptr len s =
    let buf = translate_app_ptr s ptr len in
    let bytes = load_bytes len buf s.mem in
    if len == 0
    then give (pos 0) s
    else if not (ptr_ok buf)
    then fail s
    else reading buf bytes s (
        if fd == 1 || fd == 2
        then give (to_int32 len) (record s { out = s.out ++ bytes })
        else some (run (fat32_write (to_int32 fd) bytes) s))

abbrev pub file_read : ℕ → (ℤ × List ℕ) × Sys → Result
file_read buf ((n, bytes), s) = storing buf bytes n s

unfoldable pub sys_read : ℕ → ℕ → ℕ → Sys → Result
sys_read fd ptr len s =
    let buf = translate_app_ptr s ptr len in
    let line = read_line (min len 512) [] [] s.keys in
    if len == 0
    then give (pos 0) s
    else if not (ptr_ok buf)
    then fail s
    else if fd == 0
    then put_line buf line (line_bytes line) s
    else file_read buf (run (fat32_read (to_int32 fd) len) s)

unfoldable pub sys_open : ℕ → ℕ → Sys → Result
sys_open ptr flags s =
    let path = translate_app_ptr s ptr 1 in
    if not (ptr_ok path)
    then fail s
    else reading_path path s (some (run (fat32_open (path_at s path) flags s.unset) s))

unfoldable pub sys_close : ℕ → Sys → Result
sys_close fd s = some (run (fat32_close (to_int32 fd)) s)

unfoldable pub sys_seek : ℕ → ℕ → ℕ → Sys → Result
sys_seek fd off whence s = some (run (fat32_seek (to_int32 fd) (to_int32 off) whence) s)

abbrev pub put_stat : ℕ → Option Stat × Sys → Result
put_stat st (none, s) = fail s
put_stat st (some k, s) = storing st (bytes32 k.size ++ bool32 k.is_dir) (pos 0) s

unfoldable pub sys_fstat : ℕ → ℕ → Sys → Result
sys_fstat ptr st_ptr s =
    let path = translate_app_ptr s ptr 1 in
    let st = translate_app_ptr s st_ptr 8 in
    if not (ptr_ok path) || not (ptr_ok st)
    then fail s
    else reading_path path s (put_stat st (run (fat32_stat (path_at s path) s.unset) s))

abbrev pub read_and_close : ℕ → ℕ → ℤ × Sys → Result
read_and_close buf len (fd, s) =
    let ((n, bytes), s') = run (fat32_read fd len) s in
    let (r, s'') = run (fat32_close fd) s' in
    if ltb_ℤ fd (pos 0) then fail s else storing buf bytes n s''

unfoldable pub sys_readfile : ℕ → ℕ → ℕ → Sys → Result
sys_readfile ptr buf_ptr len s =
    let path = translate_app_ptr s ptr 1 in
    let buf = translate_app_ptr s buf_ptr len in
    if not (ptr_ok path) || not (ptr_ok buf)
    then fail s
    else reading_path path s
        (read_and_close buf len (run (fat32_open (path_at s path) 0 s.unset) s))

unfoldable pub sys_mkdir : ℕ → Sys → Result
sys_mkdir ptr s =
    let path = translate_app_ptr s ptr 1 in
    if not (ptr_ok path)
    then fail s
    else reading_path path s (status (run (fat32_mkdir (path_at s path) s.unset) s))

unfoldable pub sys_unlink : ℕ → Sys → Result
sys_unlink ptr s =
    let path = translate_app_ptr s ptr 1 in
    if not (ptr_ok path)
    then fail s
    else reading_path path s (status (run (fat32_delete (path_at s path) s.unset) s))

unfoldable pub sys_rename : ℕ → ℕ → Sys → Result
sys_rename old_ptr new_ptr s =
    let old = translate_app_ptr s old_ptr 1 in
    let new = translate_app_ptr s new_ptr 1 in
    if not (ptr_ok old) || not (ptr_ok new)
    then fail s
    else reading_path old s
        (reading_path new s (status (run (fat32_rename (path_at s old) (path_at s new) s.unset) s)))

-- The bytes of a `sys_dirent_t`.
abbrev dirent_bytes : DirEntry → List ℕ
dirent_bytes e =
    kstrncpy (replicate 255 0) e.name 255
    ++ (0 ∷ bytes32 e.size)
    ++ bytes32 e.cluster
    ++ bool32 e.is_dir
    ++ bool32 e.is_hidden

abbrev pub entries_bytes : List DirEntry → List ℕ
entries_bytes [] = []
entries_bytes (e ∷ es) = dirent_bytes e ++ entries_bytes es

abbrev pub put_listing : ℕ → Option (List DirEntry) × Sys → Result
put_listing p (none, s) = fail s
put_listing p (some es, s) = storing p (entries_bytes es) (pos (length es)) s

-- The count is an `int`: from 2 ^ 31 on it is negative, and nothing is listed.
unfoldable pub sys_readdir : ℕ → ℕ → ℕ → Sys → Result
sys_readdir ptr ent_ptr max_ent s =
    let cap = if ltb max_ent (2 ^ 31) then min max_ent 64 else max_ent in
    let room = if ltb max_ent (2 ^ 31) then cap else 0 in
    let path = translate_app_ptr s ptr 1 in
    let ents = translate_app_ptr s ent_ptr (cap * 272 % 2 ^ 32) in
    if max_ent == 0
    then give (pos 0) s
    else if not (ptr_ok path) || not (ptr_ok ents)
    then fail s
    else reading_path path s
        (put_listing ents (run (fat32_readdir (path_at s path) room s.unset) s))
