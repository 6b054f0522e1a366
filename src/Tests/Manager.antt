-- ===== src/Tests/Manager.antt =====
-- The theorems about the workload manager at the world of Tests/World.antt.
use agentcube.Prelude.{◌-◌, ◌≡◌, refl, true, false, [], ◌∷◌, string_discrete}
use agentcube.Prelude.Lists.{All, Distinct}
use agentcube.Errors.{ok, root, is_not_found}
use agentcube.Cluster.{sandboxes}
use agentcube.Collector.{
  is_idle, inactive_sandboxes, deduplicate_sandboxes, add_unseen, deduplicate_loop, collect_one,
  collect, gc_sandboxes, once,
}
use agentcube.Collector
use agentcube.Collector.Dedup.{find, ids, concat, deduplicate_sandboxes_lem}
use agentcube.Collector.Safety.{
  names, IsOverdue, IsCollected, idle_candidates, expired_sandboxes, once_spares,
  collect_one_keeps_record, once_collects,
}
use agentcube.Tests.World.{info, now, store, cluster, running, effect, effect_stuck, stuck}

idle_test : is_idle 600_000_000_000 info ≡ true
unfolding is_idle
idle_test = refl

clean_run : (once now store cluster running).0 ≡ []
unfolding once gc_sandboxes deduplicate_sandboxes deduplicate_loop add_unseen inactive_sandboxes
    is_idle collect collect_one Collector.delete_object string_discrete
clean_run = refl

once_collects_example :
    let candidates = store.list_inactive_sandboxes (now running - 60_000_000_000) 100 running in
    (candidates.0
      ≡ ok (idle_candidates now store cluster (λ w. w.alive) (λ w. w.held) effect running))
    × ((store.list_expired_sandboxes (now running) 100 candidates.1).0
        ≡ ok (expired_sandboxes now store cluster (λ w. w.alive) (λ w. w.held) effect running))
    × All
        (λ s.
          IsOverdue (now running) s
          → IsCollected now store cluster (λ w. w.alive) (λ w. w.held) effect running s.session_id)
        (idle_candidates now store cluster (λ w. w.alive) (λ w. w.held) effect running)
    × All
        (λ s.
          IsCollected now store cluster (λ w. w.alive) (λ w. w.held) effect running s.session_id)
        (expired_sandboxes now store cluster (λ w. w.alive) (λ w. w.held) effect running)
once_collects_example =
    once_collects now store cluster (λ w. w.alive) (λ w. w.held) effect running clean_run

not_named : names sandboxes "ns" "other" info ≡ false
unfolding string_discrete
not_named = refl

spared_list :
    All
      (λ s. IsOverdue (now running) s → names sandboxes "ns" "other" s ≡ false)
      (idle_candidates now store cluster (λ w. w.alive) (λ w. w.held) effect running)
unfolding string_discrete
spared_list = (λ late. not_named, tt)

once_spares_example :
    (once now store cluster running).1.alive sandboxes "ns" "other"
    ≡ running.alive sandboxes "ns" "other"
once_spares_example =
    once_spares now store cluster (λ w. w.alive) (λ w. w.held) effect running sandboxes "ns" "other"
      spared_list tt

still_there :
    (collect_one now store stuck info running).1.alive (Collector.resource_of info) "ns" "box"
    ≡ true
unfolding collect_one Collector.delete_object is_not_found root string_discrete
still_there = refl

collect_one_keeps_record_example :
    (collect_one now store stuck info running).1.held "s1" ≡ running.held "s1"
collect_one_keeps_record_example =
    collect_one_keeps_record now store stuck (λ w. w.alive) (λ w. w.held) effect_stuck info running
      "s1" still_there

deduplicate_sandboxes_lem_example :
    Distinct (ids (deduplicate_sandboxes ((info ∷ []) ∷ (info ∷ []) ∷ [])))
    × (find "s1" (deduplicate_sandboxes ((info ∷ []) ∷ (info ∷ []) ∷ []))
        ≡ find "s1" (concat ((info ∷ []) ∷ (info ∷ []) ∷ [])))
deduplicate_sandboxes_lem_example = deduplicate_sandboxes_lem "s1" ((info ∷ []) ∷ (info ∷ []) ∷ [])
