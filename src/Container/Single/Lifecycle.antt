-- ===== src/Container/Single/Lifecycle.antt =====
-- What the operations of a container do to its status (pkg/container/container.go).
use libflexkube.Base.{ℕ, true, false, ◌∷◌, ◌≡◌, refl, arith}
use libflexkube.Base.Fault.{Error, errorf, wrapf, Result, success, failure}
use libflexkube.Base.Exec.{ok, err, ◌>>=◌}
use libflexkube.World.{container_remove, perform}
use libflexkube.Docker
use libflexkube.Container.Types.{exists}
use libflexkube.Container.Single.{
  start, stop, delete, update_status, from_status, set_status, instance_delete,
}
use libflexkube.Memory.{Memory, on_world, set_container}

-- The error for a container that has no id.
abbrev pub no_instance : Error
no_instance = errorf "can't create container instance from status without id"

-- A container without an id can neither be started, stopped, deleted nor asked for its status: each
-- is refused with an error, and nothing is changed and no call is made.
pub refused_without_id :
    (c : ℕ) (m : Memory)
    → exists (m.containers c).status ≡ false
    → (start c m ≡ (err (wrapf "getting containers instance from status" no_instance), m))
      × (stop c m ≡ (err (wrapf "getting containers instance from status" no_instance), m))
      × (delete c m ≡ (err (wrapf "getting containers instance from status" no_instance), m))
      × (update_status c m ≡ (err (wrapf "creating container instance" no_instance), m))
unfolding start stop delete update_status from_status ◌>>=◌
refused_without_id c m h = (ground arith, ground arith, ground arith, ground arith)

-- Deleting a container with an id makes one call, which removes it, and on success forgets the id
-- and keeps the text of the status.
pub delete_forgets :
    (c : ℕ) (m : Memory)
    → exists (m.containers c).status ≡ true
    → (delete c m).0 ≡ ok tt
    → (((delete c m).1.containers c).status
        ≡ record { id = ""; status = (m.containers c).status.status })
      × ((delete c m).1.world.history
          ≡ container_remove (m.containers c).runtime (m.containers c).status.id ∷ m.world.history)
unfolding delete from_status set_status instance_delete Docker.delete perform on_world set_container
    ◌>>=◌
delete_forgets c m h q =
    by_reply
      (m.world.answer m.world.history
        (container_remove (m.containers c).runtime (m.containers c).status.id))
      refl
  where
    by_reply :
        (r : Result (Unit {0}))
        → m.world.answer m.world.history
            (container_remove (m.containers c).runtime (m.containers c).status.id)
          ≡ r
        → (((delete c m).1.containers c).status
            ≡ record { id = ""; status = (m.containers c).status.status })
          × ((delete c m).1.world.history
              ≡ container_remove (m.containers c).runtime (m.containers c).status.id
                ∷ m.world.history)
    by_reply (success u) e = (ground arith, ground arith)
    by_reply (failure x) e = (ground arith, ground arith)
