-- ===== src/Server/Ws/Tasks/Owes.antt =====
-- What a task of crates/server/src/ws.rs owes to the ledger of the rooms.
use war3_battle_tool.Prelude.{◌+◌, string_eq}
use war3_battle_tool.Server.State.{AppState}
use war3_battle_tool.Server.Ws.Tasks.{Task, over, section}
use war3_battle_tool.Server.Ws.Tasks.Ledger.{Balanced, Amounts}

-- With what the task owes and may draw, and whatever the others do: each section leaves the ledger
-- balanced, for what the rest of the task then owes and may draw.
abbrev pub Owes : Amounts → Amounts → Task → Type 0
Owes o d over = Unit
Owes o d (section f next) =
    (others_owe others_draw : Amounts) (a : AppState)
    → Balanced (λ i. o i + others_owe i) (λ i. d i + others_draw i) a
    → (o' : Amounts) × (d' : Amounts) × Balanced (λ i. o' i + others_owe i)
        (λ i. d' i + others_draw i) (f a)
      × Owes o' d' (next a)
