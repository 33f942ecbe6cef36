-- ===== src/Tests/Tables.antt =====
-- The descriptor and page tables, and the packed unions, at concrete inputs.
use secos_ng.Base.{◌+◌, ◌*◌, ◌<◌, ◌≤◌, ◌≡◌, refl, arith, true}
use secos_ng.Segment.{d3_sel}
use secos_ng.Paging.{Machine, pgd_task_1}
use secos_ng.Paging.Walk.{translate}
use secos_ng.Paging.Read.{tables}
use secos_ng.Paging.Maps.{to, task_1_map, translate-pgd_task_1}
use secos_ng.Paging.Isolation.{tasks_isolated, counter_shared}
use secos_ng.Registers.{of_seg_sel, members, size, members-determine}

-- A machine whose memory is not clear.
abbrev before : Machine
before = record { mem = λ x. 0x5a; cr0 = 0x11; cr3 = 0 }

translate-pgd_task_1_example : translate (tables before) pgd_task_1 0x700000 ≡ to 0x700000 true
unfolding task_1_map
translate-pgd_task_1_example = translate-pgd_task_1 before 0x700000 (omega arith)

tasks_isolated_example : (0xe00000 ≤ 0xe00004) × (0xe00004 < 0xe01000)
tasks_isolated_example =
    tasks_isolated before 0x800004 0x400004 (omega arith) (omega arith)
      (record { phys = 0xe00004; user = true }) (record { phys = 0xe00004; user = true })
      (counter_shared before 4 (omega arith)).0 (counter_shared before 4 (omega arith)).1 refl refl
      refl

-- Two ways to write the selector of entry 4 for ring 3.
members-determine_example : d3_sel ≡ 4 * 8 + 3
unfolding members size
members-determine_example =
    members-determine of_seg_sel d3_sel (4 * 8 + 3) (omega arith) (omega arith)
      (refl, (refl, (refl, tt)))
