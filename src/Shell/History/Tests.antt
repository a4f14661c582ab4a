-- ===== src/Shell/History/Tests.antt =====
-- A session's lines in the history of shell/shell.c.
use eclipse32_gui.Base.{ℕ, ◌≡◌, refl, List, [], ◌∷◌, take, if◌then◌else◌}
use eclipse32_gui.KString.{kstrcmp}
use eclipse32_gui.Shell.History.{History, initial_history, history_add, push_line}
use eclipse32_gui.Shell.History.Recent.{recent, IsRing, is_skipped, history_add-recent}

abbrev ls : List ℕ
ls = b'l' ∷ b's' ∷ []

abbrev cat : List ℕ
cat = b'c' ∷ b'a' ∷ b't' ∷ []

unfoldable two_lines : History
two_lines = history_add cat (history_add ls initial_history)

-- The repeated line is not added again.
recent_test : recent (history_add cat two_lines) ≡ cat ∷ ls ∷ []
unfolding two_lines history_add push_line kstrcmp
recent_test = refl

two_lines-IsRing : IsRing two_lines
unfolding two_lines history_add push_line kstrcmp
two_lines-IsRing = refl

two_lines_at : (two_lines.at ≡ 2) × (two_lines.count ≡ 2)
unfolding two_lines history_add push_line kstrcmp
two_lines_at = (refl, refl)

history_add-recent_example :
    IsRing (history_add ls two_lines)
    × (recent (history_add ls two_lines)
        ≡ (if is_skipped ls two_lines then recent two_lines else take 128 (ls ∷ recent two_lines)))
history_add-recent_example = history_add-recent ls two_lines two_lines-IsRing
