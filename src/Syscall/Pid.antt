-- ===== src/Syscall/Pid.antt =====
-- pid_generator of source/syscall.c.
pub mod Digits
use jae_os.Prelude.{
  ℕ, zero, suc, ◌+◌, ◌*◌, ◌%◌, ◌^◌, leb, if◌then◌else◌, Run, ok, out_of_fuel, ◌>>=◌,
}

-- `while (y >= pow) pow *= 10;`
unfoldable pub grow_pow : ℕ → ℕ → ℕ → Run ℕ
grow_pow zero y pow = out_of_fuel
grow_pow (suc fuel) y pow =
    let rest = grow_pow fuel y (pow * 10 % 2 ^ 32) in if leb pow y then rest else ok pow

abbrev pub pow_rounds : ℕ
pow_rounds = 10

unfoldable pub pid_generator : ℕ → ℕ → Run ℕ
unfolding grow_pow
pid_generator x y = do pow ← grow_pow pow_rounds y 10; ok ((x * pow + y) % 2 ^ 32)
