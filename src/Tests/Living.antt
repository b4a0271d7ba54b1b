-- ===== src/Tests/Living.antt =====
-- A job is scheduled, selected, carried out, and left alone by a rebalance.
use mathlib.Core.List.Permᴰ
use hermeshooks.Prelude.{◌≡◌, refl, none, List, [], ◌∷◌, Memᴰ}
use hermeshooks.Entities.{scheduled}
use hermeshooks.Storage.Models.{ScheduledJob, to_scheduled_job_entity}
use hermeshooks.Storage.Balance.{MapRange}
use hermeshooks.Storage.Ids.{IsOrderly}
use hermeshooks.Life.{finished, Evolves, phase_of, board}
use hermeshooks.Life.Refines.{Op, schedules, selects, saves, rebalances, history, history_refines}
use hermeshooks.Life.Stays.{finished_stays}
use hermeshooks.Tests.Data.{server, due_one}
use hermeshooks.Tests.Serving.{new_job}
use hermeshooks.Tests.Working.{table, orderly}

abbrev in_order : MapRange
in_order = record { order = λ n gs. gs; order-Permᴰ = λ n gs. Permᴰ.refl gs }

abbrev ops : List Op
ops =
    schedules server 2 (record new_job { status = scheduled }) refl
    ∷ selects server 1 5 10
    ∷ saves server (to_scheduled_job_entity due_one) 200 none 11
    ∷ rebalances server in_order []
    ∷ []

history_refines_example :
    Evolves (board table.tables.jobs) (board (history ops table).tables.jobs)
    × IsOrderly (history ops table)
history_refines_example = history_refines ops table orderly

finished_stays_example :
    (k : ScheduledJob) × Memᴰ k (history ops table).tables.jobs
    × (k.id ≡ 1)
    × (k.uid ≡ "one")
    × (k.user_id ≡ 1)
    × (phase_of due_one.status ≡ finished → phase_of k.status ≡ finished)
finished_stays_example = finished_stays ops table due_one orderly (Memᴰ.head refl)
