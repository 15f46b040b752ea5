-- ===== src/Queries/DailyReport/Examples.antt =====
-- The report on the sample database.
use backend_golang_task.Gorm.InMemory.{in_memory, in_memory-IsGorm}
use backend_golang_task.Gorm.Examples.{sample}
use backend_golang_task.Queries.DailyReport.{collect}
use backend_golang_task.Queries.DailyReport.Pages.{Collects, collect-Collects}

collect-Collects_example : Collects in_memory sample (collect in_memory sample)
collect-Collects_example = collect-Collects in_memory in_memory-IsGorm sample
