-- ===== src/Examples/AdminGroups.antt =====
-- Calls of the group service on the sample process.
use gotfr_sec.Prelude.{refl, none, list_beq, pair_beq}
use gotfr_sec.Prelude.Text.{text}
use gotfr_sec.Domain.Models.{group_create, membership_add, membership_remove}
use gotfr_sec.Domain.Rules.{normalize_group_name}
use gotfr_sec.Repositories.Dict.{lookup}
use gotfr_sec.Repositories.InMemory.{in_memory}
use gotfr_sec.Repositories.InMemory.Laws.{memory_reading, in_memory-IsLawful, memory_view}
use gotfr_sec.Services.Contract.{Ends, map_result}
use gotfr_sec.Services.AdminGroups.{create_group, add_membership, remove_membership}
use gotfr_sec.Services.AdminGroups.Create.{create_group-Ends, creates, created_group, created_view}
use gotfr_sec.Services.AdminGroups.Add.{add_membership-Ends, admits, added, added_view}
use gotfr_sec.Services.AdminGroups.Remove.{
  remove_membership-Ends, removes, removed_view, admin_count,
}
use gotfr_sec.Services.AdminGroups.LastAdmin.{HasAdmin, remove_membership-HasAdmin}
use gotfr_sec.Services.AdminGroups.Audit.{admin_group_calls-Logs}
use gotfr_sec.Exec.Audited.{Logs}
use gotfr_sec.Examples.Sample.{platform, alice, bob, ops, store, store-IsStore, world}

create_group-Ends_example :
    let result =
      created_group platform in_memory memory_reading in_memory-IsLawful none 1000
        (creates (normalize_group_name platform.wide (text "dev")) (memory_view store)) in
    Ends memory_reading
      (create_group platform in_memory (text "dev") none alice none world)
      result
      (created_view platform in_memory memory_reading in_memory-IsLawful result (memory_view store))
create_group-Ends_example =
    create_group-Ends platform in_memory memory_reading in_memory-IsLawful (text "dev") none alice
      none world store-IsStore

add_membership-Ends_example :
    let o = admits (normalize_group_name platform.wide (text "ops")) bob (memory_view store) in
    Ends memory_reading
      (add_membership platform in_memory bob (text "ops") alice none world)
      (added bob alice 1000 (memory_view store) o)
      (added_view bob alice 1000 (memory_view store) o)
add_membership-Ends_example =
    add_membership-Ends platform in_memory memory_reading in_memory-IsLawful bob (text "ops") alice
      none world store-IsStore

remove_membership-Ends_example :
    let o =
      removes
        (normalize_group_name platform.wide (text "Admin"))
        bob
        (memory_view store)
        (admin_count platform in_memory memory_reading in_memory-IsLawful world store-IsStore) in
    Ends memory_reading
      (remove_membership platform in_memory bob (text "Admin") alice none world)
      (map_result (λ _. tt) o)
      (removed_view bob o (memory_view store))
remove_membership-Ends_example =
    remove_membership-Ends platform in_memory memory_reading in_memory-IsLawful bob (text "Admin")
      world store-IsStore alice none

remove_membership-HasAdmin_example :
    HasAdmin (
      memory_view
        (remove_membership platform in_memory bob (text "Admin") alice none world).1.store)
unfolding lookup list_beq pair_beq
remove_membership-HasAdmin_example =
    remove_membership-HasAdmin platform in_memory memory_reading in_memory-IsLawful bob
      (text "Admin") alice none world store-IsStore (alice, refl)

admin_group_calls-Logs_example :
    Logs world (create_group platform in_memory ops none alice none world) group_create alice none
    × Logs world
        (add_membership platform in_memory bob ops alice none world)
        membership_add
        alice
        none
    × Logs world
        (remove_membership platform in_memory bob ops alice none world)
        membership_remove
        alice
        none
admin_group_calls-Logs_example =
    admin_group_calls-Logs platform in_memory ops bob alice none none world
