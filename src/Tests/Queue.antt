-- ===== src/Tests/Queue.antt =====
-- engine/world/battleground.go: a session that joins a queue twice and leaves.
use moreno_go_moreno_core.Common.{◌≡◌, inl, refl, true, [], ◌∷◌, none, map}
use moreno_go_moreno_core.World.Queue.{
  Entry, Session, leaves_battlegrounds, resets_criteria, empty_entry, join_queue, leave_queue,
  handle_leave_battlefield, free_slot,
}
use moreno_go_moreno_core.World.Queue.Slots.{
  view, active_slots, emptied, join_queue-leave, handle_leave_battlefield-view,
}

abbrev idle : Session
idle = record { loaded = true; queues = empty_entry ∷ empty_entry ∷ [] }

abbrev warsong : Entry
warsong = record empty_entry { active = true; bg_type_id = 2; join_time = 5; status = 1 }

abbrev queued : Session
queued = record idle { queues = empty_entry ∷ warsong ∷ [] }

join_queue-leave_example :
    view (leave_queue 2 (join_queue 5 warsong idle).1.queues).0 ≡ view idle.queues
join_queue-leave_example = join_queue-leave 5 warsong idle refl (inl refl, (inl refl, tt))

handle_leave_battlefield-view_example :
    let (done, s', sent) = handle_leave_battlefield 9 queued in
    (view s'.queues ≡ map (λ (e : Entry). none) queued.queues)
    × (sent ≡ leaves_battlegrounds ∷ resets_criteria ∷ map emptied (active_slots 0 queued.queues))
handle_leave_battlefield-view_example = handle_leave_battlefield-view 9 queued refl

-- The same battleground takes both places.
joined_twice :
    (join_queue 5 warsong (join_queue 5 warsong idle).1).1.queues ≡ warsong ∷ warsong ∷ []
unfolding join_queue free_slot
joined_twice = refl
