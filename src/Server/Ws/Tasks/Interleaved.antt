-- ===== src/Server/Ws/Tasks/Interleaved.antt =====
-- What every section of the tasks of crates/server/src/ws.rs keeps, every interleaving of them keeps.
use war3_battle_tool.Prelude.{ℕ, zero, suc, String, List, [], ◌∷◌, All, map}
use war3_battle_tool.Server.State.{AppState}
use war3_battle_tool.Server.Ws.Tasks.{
  Task, over, section, Work, task_of, resume, resume_nth, interleave,
}
use war3_battle_tool.Server.Ws.Tasks.Keeps.{SectionsKeep, IsAdmitted, Keeps, tasks-Keep}

module _ (P : AppState → Type 0) (F : String → Type 0) where
  resume-Keeps :
      (t : Task) (a : AppState) → Keeps P F t → P a → Keeps P F (resume t a).0 × P (resume t a).1
  resume-Keeps over a keeps h = (tt, h)
  resume-Keeps (section f next) a keeps h = ((keeps a h).1, (keeps a h).0)

  resume_nth-Keep :
      (i : ℕ) (tasks : List Task) (a : AppState)
      → All (Keeps P F) tasks
      → P a
      → All (Keeps P F) (resume_nth i tasks a).0 × P (resume_nth i tasks a).1
  unfolding resume_nth
  resume_nth-Keep i [] a keep h = (tt, h)
  resume_nth-Keep zero (t ∷ tasks) a keep h =
      let (k', h') = resume-Keeps t a keep.0 h in ((k', keep.1), h')
  resume_nth-Keep (suc i) (t ∷ tasks) a keep h =
      let (k', h') = resume_nth-Keep i tasks a keep.1 h in ((keep.0, k'), h')

  interleave-Keeps :
      (schedule : List ℕ) (tasks : List Task) (a : AppState)
      → All (Keeps P F) tasks
      → P a
      → P (interleave schedule tasks a).1
  unfolding interleave
  interleave-Keeps [] tasks a keep h = h
  interleave-Keeps (i ∷ schedule) tasks a keep h =
      let (k', h') = resume_nth-Keep i tasks a keep h in
      interleave-Keeps schedule (resume_nth i tasks a).0 (resume_nth i tasks a).1 k' h'

  -- What each section keeps is kept by any interleaving of any tasks.
  pub interleaved-Keeps :
      SectionsKeep P F
      → (works : List Work) (schedule : List ℕ) (a : AppState) → All (IsAdmitted F) works
      → P a
      → P (interleave schedule (map task_of works) a).1
  interleaved-Keeps k works schedule a admitted h =
      interleave-Keeps schedule (map task_of works) a (tasks-Keep P F k works admitted) h
