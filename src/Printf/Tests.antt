-- ===== src/Printf/Tests.antt =====
-- lib/printf.c: the theorems at concrete characters and strings.
use rxd_os.Prelude.{◌≡◌, true, arith}
use rxd_os.Printf.{is_class}
use rxd_os.Printf.Ctype.{xdigit_class, mask, in_class, is_class-in_class}

is_class-in_class_example : is_class b'f' (mask xdigit_class) ≡ true
unfolding in_class
is_class-in_class_example = is_class-in_class xdigit_class b'f' (omega arith)
