-- ===== src/Number/Tests.antt =====
-- lib/printf.c: the theorems on numbers and strings at concrete values.
use rxd_os.Prelude.{◌≡◌, ok, arith}
use rxd_os.Memory.{Memory}
use rxd_os.Number.{itoa, atoi}
use rxd_os.Number.Atoi.{atoi-itoa}

abbrev clear : Memory
clear a = 0

atoi-itoa_example :
    (m' : Memory) × (itoa 5 4294967254 100 10 clear ≡ ok m') × (atoi 100 m' ≡ ok 4294967254)
atoi-itoa_example = atoi-itoa 5 4294967254 100 clear (omega arith) (omega arith) (omega arith)
