-- ===== src/Vga/Tests.antt =====
-- What kernel/drivers/vga/vga.c does on a screen.
use eclipse32_gui.Base.{◌+◌, ◌*◌, ◌≡◌, ◌^◌, refl, [], ◌∷◌, arith, ◌-◌}
use eclipse32_gui.Vga.{
  Vga, vga_putchar, vga_puts, vga_scroll, vga_cursor_move, place, fill, copy_up, here,
}
use eclipse32_gui.Vga.Printf.{
  word, vga_printf, number_text, digits_loop, printf_loop, read_width, directive, printf_int,
  printf_uint,
}
use eclipse32_gui.Vga.Laws.{InScreen, SameBeyond, vga_putchar-InScreen}

-- The last cell of the last row is next.
abbrev corner : Vga
corner = record { mem = λ x. x; fg = 7; bg = 0; col = 79; row = 24; cursor = 1999 }

-- The third cell of the last row is next.
abbrev low_left : Vga
low_left = record { mem = λ x. x; fg = 7; bg = 0; col = 2; row = 24; cursor = 1922 }

corner_test :
    ((vga_putchar b'A' corner).mem 1919 ≡ 2 ^ 8 * 7 + b'A') × ((vga_putchar b'A' corner).row ≡ 24)
unfolding vga_putchar vga_scroll vga_cursor_move place fill copy_up
corner_test = (refl, refl)

-- `%d: %04x` and `%s%%`
printf_test :
    (vga_printf
      (b'%' ∷ b'd' ∷ b':' ∷ b'%' ∷ b'0' ∷ b'4' ∷ b'x' ∷ [])
      (word (2 ^ 32 - 5) ∷ word 171 ∷ [])
      low_left).col
    ≡ 9
unfolding vga_printf number_text digits_loop printf_loop read_width directive printf_int printf_uint
    vga_puts vga_putchar vga_scroll vga_cursor_move place
printf_test = refl

vga_putchar-InScreen_example :
    InScreen (vga_putchar b'A' corner)
    × ((vga_putchar b'A' corner).cursor ≡ here (vga_putchar b'A' corner))
    × SameBeyond corner (vga_putchar b'A' corner)
vga_putchar-InScreen_example = vga_putchar-InScreen b'A' corner (omega arith, omega arith)
