-- ===== src/Shell/Ed/Quit.antt =====
-- Sessions of the editor `ed` of shell/shell.c: the invariant along the keys, and how it ends.
use eclipse32_gui.Base.{◌≡◌, true, Option, none, some}
use eclipse32_gui.Shell.Ed.{Ed}
use eclipse32_gui.Shell.Ed.Inv.{IsEd}
use eclipse32_gui.Shell.Ed.Keep.{Overflows}
use eclipse32_gui.Shell.Ed.Session.{Session}

-- A running session whose buffer is in order.
abbrev pub IsSession : Session → Type 0
IsSession s = IsEd s.ed × (s.running ≡ true)

-- A session that goes on, or a write outside a row.
abbrev pub GoesOn : Ed → Option Session → Type 0
GoesOn e none = Overflows e
GoesOn e (some t) = IsSession t

-- What a session comes to that never ends: `none` is a write outside a row.
abbrev pub StaysOpen : Option Session → Type 0
StaysOpen none = Unit
StaysOpen (some t) = IsSession t
