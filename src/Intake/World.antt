-- ===== src/Intake/World.antt =====
-- What the intake reads and writes: the tables, the object store and the brain of each workspace.
use vof_backend.Brain.Store.{Brain}
use vof_backend.Db.Models.{ManagerWorkspace, Provenance}
use vof_backend.Exec.{Exec}
use vof_backend.Intake.Extract.{Blobs}
use vof_backend.Intake.Models.{IntakeBufferItem}
use vof_backend.Intake.Pages.{HandlerStore}
use vof_backend.Prelude.{◌==◌, if◌then◌else◌, ℕ, List}

pub record IntakeWorld : Type 0 where
  pub items : List IntakeBufferItem
  pub workspaces : List ManagerWorkspace
  pub blobs : Blobs
  pub brains : ℕ → Brain
  pub provenance : List Provenance

module _ {A : Type 0} where
  abbrev pub on_items : Exec (List IntakeBufferItem) A → Exec IntakeWorld A
  on_items m w = let (r, items) = m w.items in (r, record w { items = items })

  -- A handler works on the brain of one workspace.
  abbrev pub on_handler : (workspace_id : ℕ) → Exec HandlerStore A → Exec IntakeWorld A
  on_handler workspace_id m w =
      let (r, s) = m (record { brain = w.brains workspace_id; provenance = w.provenance }) in
      (
        r,
        record w {
          brains = λ k. if k == workspace_id then s.brain else w.brains k;
          provenance = s.provenance;
        },
      )
