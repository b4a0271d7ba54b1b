-- ===== src/Tests/Balancing.antt =====
-- A rebalance of which one round trip fails.
use mathlib.Core.List.Permᴰ
use hermeshooks.Prelude.{[], ◌∷◌, ◌==◌}
use hermeshooks.Storage.Sql.{Server}
use hermeshooks.Storage.Balance.{MapRange, re_balance}
use hermeshooks.Storage.Balance.Kept.{Kept, re_balance_keeps_jobs}
use hermeshooks.Tests.Data.{server_failing, world}

abbrev pub in_order : MapRange
in_order = record { order = λ n gs. gs; order-Permᴰ = λ n gs. Permᴰ.refl gs }

-- The fourth round trip of the rebalance fails.
abbrev flaky : Server
flaky = server_failing λ n. n == 3

re_balance_keeps_jobs_example :
    Kept world.tables (re_balance flaky in_order (2 ∷ 5 ∷ []) world).1.tables
re_balance_keeps_jobs_example = re_balance_keeps_jobs flaky in_order (2 ∷ 5 ∷ []) world
