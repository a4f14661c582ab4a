-- ===== src/Shell/Path/Tests.antt =====
-- Paths that shell/shell.c resolves.
use eclipse32_gui.Base.{ℕ, ◌≡◌, refl, List, [], ◌∷◌, ◌++◌, arith}
use eclipse32_gui.KString.{kstrcmp}
use eclipse32_gui.Shell.Path.{
  path_resolve, full_path, with_slash, split_loop, before_slash, after_slash, stack_loop, join_loop,
}
use eclipse32_gui.Shell.Path.Split.{IsName}
use eclipse32_gui.Shell.Path.Render.{render}
use eclipse32_gui.Shell.Path.Laws.{IsCanonical, path_resolve-IsCanonical}
use eclipse32_gui.Shell.Path.Walk.{dot_dot, path_resolve-render, path_resolve_down_up}

abbrev bin : List ℕ
bin = b'b' ∷ b'i' ∷ b'n' ∷ []

abbrev lib : List ℕ
lib = b'l' ∷ b'i' ∷ b'b' ∷ []

bin-IsName : IsName bin
unfolding kstrcmp
bin-IsName = ((omega arith, (refl, (refl, (refl, tt)))), refl, refl)

lib-IsName : IsName lib
unfolding kstrcmp
lib-IsName = ((omega arith, (refl, (refl, (refl, tt)))), refl, refl)

-- `/bin` and `../lib//.`
resolve_test :
    path_resolve [] (b'/' ∷ bin) (dot_dot ++ b'/' ∷ (lib ++ b'/' ∷ b'/' ∷ b'.' ∷ [])) ≡ b'/' ∷ lib
unfolding path_resolve full_path with_slash split_loop before_slash after_slash stack_loop join_loop
    kstrcmp
resolve_test = refl

path_resolve-IsCanonical_example :
    IsCanonical (path_resolve [] (b'/' ∷ bin) (dot_dot ++ b'/' ∷ lib))
path_resolve-IsCanonical_example =
    path_resolve-IsCanonical [] (b'/' ∷ bin) (dot_dot ++ b'/' ∷ lib) refl (omega arith)

path_resolve-render_example :
    path_resolve [] (b'/' ∷ lib) (render (bin ∷ lib ∷ [])) ≡ render (bin ∷ lib ∷ [])
path_resolve-render_example =
    path_resolve-render [] (b'/' ∷ lib) (bin ∷ lib ∷ []) (bin-IsName, (lib-IsName, tt))
      (omega arith) (omega arith)

path_resolve_down_up_example :
    (path_resolve [] (render (bin ∷ [])) lib ≡ render (bin ∷ lib ∷ []))
    × (path_resolve [] (render (bin ∷ lib ∷ [])) dot_dot ≡ render (bin ∷ []))
path_resolve_down_up_example =
    path_resolve_down_up [] (bin ∷ []) lib (bin-IsName, tt) lib-IsName (omega arith) (omega arith)
