-- ===== src/Shell/Ed/Tests.antt =====
-- Sessions of the editor `ed` of shell/shell.c.
use eclipse32_gui.Base.{ℕ, ◌≡◌, refl, true, false, List, [], ◌∷◌, ◌++◌, Option, none, some, arith}
use eclipse32_gui.Keyboard.{KeyCode, KeyEvent, ascii, esc}
use eclipse32_gui.KString.{kstrcmp}
use eclipse32_gui.Fat.{Fs}
use eclipse32_gui.Vga.{Vga}
use eclipse32_gui.Shell.Readline.{is_esc}
use eclipse32_gui.Shell.Ed.{ed_ins, ed_delline, ed_split, put_below, rub_out}
use eclipse32_gui.Shell.Ed.Keys.{
  leave_insert, insert_char, key_d, paste, command_char, normal_char, escape, main_key,
}
use eclipse32_gui.Shell.Ed.Inv.{IsEd}
use eclipse32_gui.Shell.Ed.Session.{
  Session, start_ed, on_press, ed_loop, after_key, colon_char, end_colon, run_colon, ed_save,
}
use eclipse32_gui.Shell.Ed.Undo.{rub_out-ed_split}

abbrev key : KeyCode → ℕ → KeyEvent
key k c = record {
  keycode = k;
  char = c;
  released = false;
  shift = false;
  ctrl = false;
  alt = false;
  caps = false;
}

abbrev typed : List ℕ → List KeyEvent
typed [] = []
typed (c ∷ cs) = key ascii c ∷ typed cs

-- No volume is mounted.
abbrev no_volume : Fs
no_volume = record {
  disk = record { sectors = λ d l. []; fails = λ d l. true };
  mounted = false;
  drive_idx = 0;
  lba_start = 0;
  bytes_per_sector = 512;
  sectors_per_cluster = 1;
  reserved_sectors = 1;
  fat_count = 1;
  sectors_per_fat = 1;
  root_cluster = 2;
  data_start_lba = 2;
  fat_start_lba = 1;
  total_clusters = 4;
  sector_buf = [];
  files = [];
}

abbrev console : Vga
console = record { mem = λ x. 0; fg = 7; bg = 0; col = 0; row = 0; cursor = 0 }

abbrev session : Session
session = record {
  ed = start_ed ((b'a' ∷ b'b' ∷ []) ∷ (b'c' ∷ []) ∷ []);
  running = true;
  file = b'/' ∷ b'a' ∷ [];
  fs = no_volume;
  screen = console;
  unset = record { de = []; de_lba = 0; de_offset = 0 };
}

abbrev rows_of : Option Session → List (List ℕ)
rows_of none = []
rows_of (some s) = s.ed.rows

-- `ddpix`, Escape, `:q!` and Enter: the lines change places, an `x` is typed, and the editor runs on.
abbrev keys : List KeyEvent
keys =
    typed (b'd' ∷ b'd' ∷ b'p' ∷ b'i' ∷ b'x' ∷ [])
    ++ key esc 0 ∷ typed (b':' ∷ b'q' ∷ b'!' ∷ 10 ∷ [])

keys_test : rows_of (ed_loop keys session) ≡ (b'c' ∷ []) ∷ (b'x' ∷ b'a' ∷ b'b' ∷ []) ∷ []
unfolding ed_loop on_press is_esc main_key normal_char key_d ed_delline command_char paste put_below
    insert_char ed_ins escape leave_insert after_key colon_char end_colon run_colon kstrcmp ed_save
keys_test = refl

session-IsEd : IsEd session.ed
session-IsEd = record {
  some_row = omega arith;
  few_rows = omega arith;
  in_line = omega arith;
  short = (omega arith, (omega arith, tt));
  yank_short = tt;
}

rub_out-ed_split_example :
    rub_out (ed_split session.ed) ≡ some (record session.ed { modified = true })
rub_out-ed_split_example = rub_out-ed_split session.ed session-IsEd (omega arith)
