-- ===== src/Defs.antt =====
-- The constants of go-fuzz-defs/defs.go, which the fuzzer and the instrumented program share.
use go_fuzz.Base.{ℕ, ◌*◌, ◌^◌}

abbrev pub cover_size : ℕ
cover_size = 64 * 2 ^ 10

abbrev pub max_input_size : ℕ
max_input_size = 2 ^ 20

abbrev pub sonar_eql : ℕ
sonar_eql = 0

abbrev pub sonar_neq : ℕ
sonar_neq = 1

abbrev pub sonar_lss : ℕ
sonar_lss = 2

abbrev pub sonar_gtr : ℕ
sonar_gtr = 3

abbrev pub sonar_leq : ℕ
sonar_leq = 4

abbrev pub sonar_geq : ℕ
sonar_geq = 5

abbrev pub sonar_op_mask : ℕ
sonar_op_mask = 7

abbrev pub sonar_signed : ℕ
sonar_signed = 2 ^ 4

abbrev pub sonar_string : ℕ
sonar_string = 2 ^ 5

abbrev pub sonar_const1 : ℕ
sonar_const1 = 2 ^ 6

abbrev pub sonar_const2 : ℕ
sonar_const2 = 2 ^ 7

abbrev pub sonar_hdr_len : ℕ
sonar_hdr_len = 6

abbrev pub sonar_max_len : ℕ
sonar_max_len = 20
