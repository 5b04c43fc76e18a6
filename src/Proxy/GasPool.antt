-- ===== src/Proxy/GasPool.antt =====
-- proxy/gaspool.go: the gas that is left for the transactions of a block. It is never negative.
use paradigm.Prelude.{
  ℕ, ◌+◌, ◌-◌, Option, none, some, ltb, if◌then◌else◌, nat_eq, int_eq, string_eq, pair_eq,
}

abbrev pub GasPool : Type 0
GasPool = ℕ

-- `AddGas`
unfoldable pub add_gas : GasPool → ℕ → GasPool
add_gas gp amount = gp + amount

-- `SubGas`, none for `ErrGasLimitReached`
unfoldable pub sub_gas : GasPool → ℕ → Option GasPool
sub_gas gp amount = if ltb gp amount then none else some (gp - amount)
