-- ===== src/Engine/Children.antt =====
-- engine/child_sagas.py: the links from a spawn step to its children, and whether all have ended.
use warden_core.Prelude.{String, Bool, true, false, ◌&&◌, List, [], ◌∷◌, ◌==◌, keep, exists}
use warden_core.Model.{Saga, SagaChild, World, is_terminal}

abbrev pub is_link : String → String → String → SagaChild → Bool
is_link namespace parent spawn_step_id link =
    link.namespace == namespace
    && link.parent_trace_id == parent
    && link.spawn_step_id == spawn_step_id

unfoldable pub links_of : String → String → String → World → List SagaChild
links_of namespace parent spawn_step_id w = keep (is_link namespace parent spawn_step_id) w.children

-- load_spawn_children: the rows of the linked sagas; a link whose saga is gone yields no row.
unfoldable pub load_spawn_children : String → String → String → World → List Saga
unfolding links_of
load_spawn_children namespace parent spawn_step_id w =
    keep
      (λ s.
        exists (λ (l : SagaChild). l.child_trace_id == s.trace_id)
          (links_of namespace parent spawn_step_id w))
      w.sagas

abbrev pub every_terminal : List Saga → Bool
every_terminal [] = true
every_terminal (s ∷ ss) = is_terminal s.status && every_terminal ss

-- _all_children_terminal
unfoldable pub all_children_terminal : List Saga → Bool
all_children_terminal [] = false
all_children_terminal (s ∷ ss) = every_terminal (s ∷ ss)
