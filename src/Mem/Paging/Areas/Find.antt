-- ===== src/Mem/Paging/Areas/Find.antt =====
-- The areas that `findContiguous` finds are free, and it ends.
use aexkernel.Base.{ℕ, suc, ◌+◌, ◌/◌}
use aexkernel.Mem.Paging.{Pagemap}

-- The pages of the bounds, and one round more.
abbrev pub search_fuel : Pagemap → ℕ
search_fuel p = suc (p.vend / 4096 + 1)
