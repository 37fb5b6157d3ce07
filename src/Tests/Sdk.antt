-- ===== src/Tests/Sdk.antt =====
-- exercises/fakesdk: the three scenarios of solutions/fakesdk_solution.cpp.
use going_unmanaged.Prelude.{◌≡◌, refl, some, none, true, false, arith}
use going_unmanaged.Sdk.{
  Sdk, no_err, err_internal, err_null_param, setup, sum_all_things, thing_get_count,
}
use going_unmanaged.Sdk.Worker.{sum_all_completes, sum_all_fails}

-- Four Things, the third of them empty.
abbrev one_empty : Sdk
one_empty = record { count = 4; empty = 2; fail = 0xffffffffffffffff; live = 0 }

sum_all_completes_example : sum_all_things true true one_empty ≡ (no_err, some (142, 1), one_empty)
sum_all_completes_example = sum_all_completes one_empty (omega arith)

-- Four Things, the third of which fails.
abbrev one_failing : Sdk
one_failing = record { count = 4; empty = 0xffffffffffffffff; fail = 2; live = 0 }

sum_all_fails_example :
    sum_all_things true true one_failing ≡ (err_internal, some (49, 0), one_failing)
sum_all_fails_example = sum_all_fails one_failing (omega arith)

setup-one_empty : setup 4 2 0xffffffffffffffff ≡ one_empty
unfolding setup
setup-one_empty = refl

scenario_3 :
    sum_all_things true true (setup 0 0xffffffffffffffff 0xffffffffffffffff)
    ≡ (no_err, some (0, 0), setup 0 0xffffffffffffffff 0xffffffffffffffff)
unfolding sum_all_things setup thing_get_count
scenario_3 = refl

null_total : sum_all_things false true one_empty ≡ (err_null_param, none, one_empty)
unfolding sum_all_things
null_total = refl
