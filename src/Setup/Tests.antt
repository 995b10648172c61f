-- ===== src/Setup/Tests.antt =====
-- The set-up of a small pool.
use bvex_vdif_rfsoc.Base.{◌≡◌, refl, some, arith}
use bvex_vdif_rfsoc.Fixtures.{small, small-IsSized, memory, length-memory}
use bvex_vdif_rfsoc.Setup.{grow_cap}
use bvex_vdif_rfsoc.Setup.Ready.{SetUp, pool_setup-SetUp}

default_cap : grow_cap 32 128 1 ≡ some 256
unfolding grow_cap
default_cap = refl

pool_setup-SetUp_example : SetUp small memory
pool_setup-SetUp_example = pool_setup-SetUp small memory small-IsSized (omega arith) length-memory
